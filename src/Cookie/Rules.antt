-- ===== src/Cookie/Rules.antt =====
-- What the two tests on a cookie decide.
use mathlib.Core.Bool.{false≢true}
use h2loadrunner.Base.{
  ℕ, ◌-◌, ◌≡◌, ◌↔◌, inl, inr, sym, ap, ◌∙◌, ◌==◌, ==→eq, true, false, none, some, [], ◌++◌, arith,
  length, take, drop, take-append-drop, length-drop, length-append, drop-length-append,
  Option-cases, append-nil, drop-all,
}
use h2loadrunner.Text.{Bytes, find, rfind, starts_with}
use h2loadrunner.Text.Find.{
  starts_with→split, starts_with-append, find-IsFirst, find-total, rfind-IsLast, rfind-none, IsLast,
}
use h2loadrunner.Cookie.{begins, domain_matches}

begins_zero : (s p : Bytes) (n : ℕ) → begins s p ≡ true → find s p ≡ some n → n ≡ 0
unfolding begins
begins_zero s p n h e = ground arith

begins-ne-none : (s p : Bytes) → begins s p ≡ true → find s p ≡ none → ⊥
unfolding begins
begins-ne-none s p h e = ground arith

begins_of_zero : (s p : Bytes) → find s p ≡ some 0 → begins s p ≡ true
unfolding begins
begins_of_zero s p e = rw (e, begins)

-- A text begins with the prefix.
pub begins_iff : (s p : Bytes) → (begins s p ≡ true) ↔ ((r : Bytes) × (s ≡ p ++ r))
begins_iff s p = (prefix, λ (r, e). rw e (begun r))
  where
    prefix : begins s p ≡ true → (r : Bytes) × (s ≡ p ++ r)
    prefix h = elim (Option-cases (find s p)) [
      | inl e ↦ absurd (begins-ne-none s p h e)
      | inr (n, e) ↦ (
        drop (length p) s,
        starts_with→split p s (rw (begins_zero s p n h e) at (find-IsFirst s p n e).occurs),
      )
    ]

    begun : (r : Bytes) → begins (p ++ r) p ≡ true
    begun r =
        let (n, e, le) = find-total (p ++ r) p 0 (omega arith) (starts_with-append p r) in
        let zero_n : n ≡ 0 = omega arith in begins_of_zero (p ++ r) p (rw zero_n at e)

domain_matches-some :
    (d h : Bytes) (n : ℕ) → rfind h d ≡ some n → domain_matches d h ≡ (length h - n == length d)
unfolding domain_matches
domain_matches-some d h n e = rw (e, domain_matches)

domain_matches-none : (d h : Bytes) → rfind h d ≡ none → domain_matches d h ≡ false
unfolding domain_matches
domain_matches-none d h e = rw (e, domain_matches)

domain_end : (l d : Bytes) → domain_matches d (l ++ d) ≡ true
domain_end l d = elim (Option-cases (rfind (l ++ d) d)) [
  | inl e ↦ absurd (
      false≢true
        (sym (rfind-none (l ++ d) d (length l) e (omega (arith, length-append l d))) ∙ here))
  | inr (n, e) ↦
      let f = rfind-IsLast (l ++ d) d n e in
      domain_matches-some d (l ++ d) n e
      ∙ ground (
        arith,
        length-append l d,
        f.within,
        f.last (length l) (omega (arith, length-append l d)) here,
      )
]
  where
    here : starts_with d (drop (length l) (l ++ d)) ≡ true
    here = rw (drop-length-append l d) (rw append-nil at (starts_with-append d []))

at_end :
    (h d : Bytes) (n : ℕ)
    → rfind h d ≡ some n
    → (length h - n == length d) ≡ true
    → h ≡ take n h ++ d
at_end h d n e q =
    sym (take-append-drop n h)
    ∙ ap (◌++◌ (take n h)) (
        starts_with→split d (drop n h) f.occurs
        ∙ ap (◌++◌ d) (drop-all (length d) (drop n h) (omega (arith, length-drop n h, size)))
        ∙ append-nil d)
  where
    f : IsLast h d n
    f = rfind-IsLast h d n e

    size : length h - n ≡ length d
    size = ==→eq (length h - n) (length d) q

-- The domain is an end of the host.
pub domain_matches_iff : (d h : Bytes) → (domain_matches d h ≡ true) ↔ ((l : Bytes) × (h ≡ l ++ d))
domain_matches_iff d h = (ended, λ (l, e). rw e (domain_end l d))
  where
    ended : domain_matches d h ≡ true → (l : Bytes) × (h ≡ l ++ d)
    ended m = elim (Option-cases (rfind h d)) [
      | inl e ↦ absurd (false≢true (sym (domain_matches-none d h e) ∙ m))
      | inr (n, e) ↦ (take n h, at_end h d n e (sym (domain_matches-some d h n e) ∙ m))
    ]
