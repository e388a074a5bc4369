-- ===== src/Mock/Rule/Verbs.antt =====
-- What each match type means for the two texts.
use h2loadrunner.Base.{
  ℕ, ◌+◌, ◌-◌, ◌≡◌, ◌↔◌, sym, ap, ◌∙◌, true, some, ◌++◌, arith, length, take, drop, leb, &&-eq-true,
  length-append, length-drop, take-all, take-append-drop, drop-length-append, Option-cases, inl,
  inr,
}
use h2loadrunner.Text.{Bytes, eq_bytes, find, substr}
use h2loadrunner.Text.Order.{eq_bytes→eq, eq_bytes_refl}
use h2loadrunner.Text.Find.{
  starts_with→split, starts_with-append, find-IsFirst, find-total, find-split,
}
use h2loadrunner.Mock.Rule.{
  MatchType, equals_to, start_with, end_with, contains, regex_match, Regex, match_text, is_zero_pos,
  is_some,
}

module _ (re : Regex) where
  -- A subject is the object itself, begins with it, ends with it, or holds it somewhere.
  abbrev pub Holds : MatchType → Bytes → Bytes → Type 0
  Holds equals_to subject object = subject ≡ object
  Holds start_with subject object = (r : Bytes) × (subject ≡ object ++ r)
  Holds end_with subject object = (l : Bytes) × (subject ≡ l ++ object)
  Holds contains subject object = (l : Bytes) × (r : Bytes) × (subject ≡ l ++ (object ++ r))
  Holds regex_match subject object = re.full object subject ≡ true

  find_at_zero : (s o : Bytes) → is_zero_pos (find s o) ≡ true → (r : Bytes) × (s ≡ o ++ r)
  find_at_zero s o h = elim (Option-cases (find s o)) [
    | inl e ↦ absurd (ground arith)
    | inr (n, e) ↦ (
      drop (length o) s,
      starts_with→split o s (rw (zero_pos n e) at (find-IsFirst s o n e).occurs),
    )
  ]
    where
      zero_pos : (n : ℕ) → find s o ≡ some n → n ≡ 0
      zero_pos n e = ground arith

  at_zero : (o r : Bytes) → is_zero_pos (find (o ++ r) o) ≡ true
  at_zero o r =
      let (n, e, h) = find-total (o ++ r) o 0 (omega arith) (starts_with-append o r) in ground arith

  find_somewhere : (s o : Bytes) → is_some (find s o) ≡ true → Holds contains s o
  find_somewhere s o h = elim (Option-cases (find s o)) [
    | inl e ↦ absurd (ground arith)
    | inr (n, e) ↦ (take n s, drop (n + length o) s, find-split s o n e)
  ]

  somewhere : (l o r : Bytes) → is_some (find (l ++ (o ++ r)) o) ≡ true
  somewhere l o r =
      let (n, e, h) =
        find-total (l ++ (o ++ r)) o (length l) (omega (arith, length-append l (o ++ r)))
          (rw (drop-length-append l (o ++ r)) (starts_with-append o r)) in
      ground arith

  ends : (s o : Bytes) → match_text re s end_with o ≡ true → Holds end_with s o
  unfolding match_text
  ends s o h =
      let (p, q) =
        &&-eq-true (leb (length o) (length s))
          (eq_bytes (substr s (length s - length o) (length o)) o) h in
      (
        take (length s - length o) s,
        sym (take-append-drop (length s - length o) s)
            ∙ ap (◌++◌ (take (length s - length o) s)) (
                sym (
                  take-all (length o) (drop (length s - length o) s)
                    (omega (arith, length-drop (length s - length o) s)))
                ∙ eq_bytes→eq _ o q),
      )

  ended : (l o : Bytes) → match_text re (l ++ o) end_with o ≡ true
  unfolding match_text
  ended l o =
      rw (start, drop-length-append l o, take-all (length o) o (omega arith), eq_bytes_refl o)
        (ground (arith, length-append l o))
    where
      start : length (l ++ o) - length o ≡ length l
      start = omega (arith, length-append l o)

  -- A text matches exactly if it holds the object as the match type says.
  pub match_text_iff : (t : MatchType) (s o : Bytes) → (match_text re s t o ≡ true) ↔ Holds t s o
  unfolding match_text
  match_text_iff equals_to s o = (eq_bytes→eq s o, λ e. rw e (eq_bytes_refl o))
  match_text_iff start_with s o = (find_at_zero s o, λ (r, e). rw e (at_zero o r))
  match_text_iff end_with s o = (ends s o, λ (l, e). rw e (ended l o))
  match_text_iff contains s o = (find_somewhere s o, λ (l, r, e). rw e (somewhere l o r))
  match_text_iff regex_match s o = (λ h. h, λ h. h)
