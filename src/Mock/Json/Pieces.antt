-- ===== src/Mock/Json/Pieces.antt =====
-- The pieces of an extended JSON pointer, put together, are the pointer; the loop always ends.
use h2loadrunner.Base.{
  ℕ, zero, suc, ◌+◌, ◌-◌, ◌≤◌, ◌<◌, ◌≡◌, refl, sym, ap, ◌∙◌, Option, some, List, [], ◌∷◌, ◌++◌,
  arith, length, drop, drop-drop, take-append-drop, append_assoc, append-nil, Option-cases,
  Bool-cases, inl, inr, or_else, ◌==◌, if◌then◌else◌, ==→eq,
}
use h2loadrunner.Text.{Bytes, find_from, substr}
use h2loadrunner.Text.Find.{find_from_bounds}
use h2loadrunner.Mock.Json.{split_loop, split_complex_json_pointer, extended_json_pointer_indicator}

abbrev pub concat : List Bytes → Bytes
concat [] = []
concat (t ∷ ts) = t ++ concat ts

concat-append : (ts us : List Bytes) → concat (ts ++ us) ≡ concat ts ++ concat us
concat-append [] us = refl
concat-append (t ∷ ts) us = ap (◌++◌ t) (concat-append ts us) ∙ sym (append_assoc t _ _)

-- Up to `end` and from `end` on.
substr-drop :
    (s : Bytes) (start end : ℕ)
    → start ≤ end
    → substr s start (end - start) ++ drop end s ≡ drop start s
substr-drop s start end h =
    ap (λ r. substr s start (end - start) ++ r) (sym rest)
    ∙ take-append-drop (end - start) (drop start s)
  where
    rest : drop (end - start) (drop start s) ≡ drop end s
    rest = drop-drop start (end - start) s ∙ ap (λ k. drop k s) {y = end} (omega arith)

-- The loop returns pieces that read, after what it had, like the rest of the pointer.
abbrev Ends : Bytes → Option (List Bytes) → Type 0
Ends whole r = (ts : List Bytes) × (r ≡ some ts) × (concat ts ≡ whole)

abbrev before : Bytes → ℕ → ℕ → List Bytes → List Bytes
before p start end ts = if end == start then ts else ts ++ (substr p start (end - start) ∷ [])

concat_last : (ts : List Bytes) (t : Bytes) → concat (ts ++ (t ∷ [])) ≡ concat ts ++ t
concat_last ts t = concat-append ts (t ∷ []) ∙ ap (◌++◌ (concat ts)) (append-nil t)

concat-before :
    (p : Bytes) (start end : ℕ) (ts : List Bytes)
    → start ≤ end
    → concat (before p start end ts) ++ drop end p ≡ concat ts ++ drop start p
concat-before p start end ts h = elim (Bool-cases (end == start)) [
  | inl same ↦ rw same (ap (λ k. concat ts ++ drop k p) (==→eq end start same))
  | inr apart ↦
      rw (apart, concat_last ts _, append_assoc) (ap (◌++◌ (concat ts)) (substr-drop p start end h))
]

concat-next :
    (p : Bytes) (end next : ℕ) (ts : List Bytes)
    → end ≤ next
    → concat (ts ++ (substr p end (next - end) ∷ [])) ++ drop next p ≡ concat ts ++ drop end p
concat-next p end next ts h =
    rw (concat_last ts _, append_assoc) (ap (◌++◌ (concat ts)) (substr-drop p end next h))

split_loop-Ends :
    (fuel : ℕ) (p : Bytes) (start : ℕ) (ts : List Bytes)
    → start ≤ length p
    → length p - start < fuel
    → Ends (concat ts ++ drop start p) (split_loop fuel p start ts)
unfolding split_loop
split_loop-Ends zero p start ts h m = absurd (omega arith)
split_loop-Ends (suc fuel) p start ts h m =
    elim (Option-cases (find_from p extended_json_pointer_indicator start)) [
      | inl e ↦ (ts ++ (drop start p ∷ []), rw (e, split_loop) refl, concat_last ts _)
      | inr (end, e) ↦
          let (after, _) = find_from_bounds p extended_json_pointer_indicator start end e in
          let shown = concat-before p start end ts after in
          elim (Option-cases (find_from p (b'/' ∷ []) (end + 1))) [
            | inl e' ↦ (
              before p start end ts ++ (drop end p ∷ []),
              rw (e, split_loop, e'),
              concat_last (before p start end ts) _ ∙ shown,
            )
            | inr (next, e') ↦
                let (past, fits) = find_from_bounds p (b'/' ∷ []) (end + 1) next e' in
                let (us, q, c) =
                  split_loop-Ends fuel p next
                    (before p start end ts ++ (substr p end (next - end) ∷ [])) (omega arith)
                    (omega arith) in
                (
                  us,
                  rw (e, split_loop, e') q,
                  c ∙ concat-next p end next (before p start end ts) (omega arith) ∙ shown,
                )
          ]
    ]

-- The pieces of a pointer, put together, are the pointer: nothing of it is lost or added.
pub concat-split_complex_json_pointer : (p : Bytes) → concat (split_complex_json_pointer p) ≡ p
unfolding split_complex_json_pointer
concat-split_complex_json_pointer p =
    let (us, q, c) = split_loop-Ends (suc (length p)) p 0 [] (omega arith) (omega arith) in
    rw (q, or_else) c
