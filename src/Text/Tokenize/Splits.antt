-- ===== src/Text/Tokenize/Splits.antt =====
-- The tokens of a string against a description of the cuts: the loop ends, the tokens joined by the
-- delimiter are the string, and no token holds the delimiter.
use h2loadrunner.Base.{
  ℕ, zero, suc, ◌+◌, ◌-◌, ◌≤◌, ◌<◌, ◌≡◌, refl, sym, ap, ◌∙◌, ◌≢◌, true, Option, none, some, List,
  [], ◌∷◌, ◌++◌, arith, length, take, drop, drop-drop, length-drop, length-take, drop-append,
  take-append-drop, append_assoc, Option-cases, inl, inr, map_some, All, or_else,
}
use h2loadrunner.Text.{Bytes, find, find_from, starts_with}
use h2loadrunner.Text.Find.{IsFirst, find-IsFirst, find-split, starts_with-append_right}
use h2loadrunner.Text.Tokenize.{tokenize_loop, tokenize_string}

-- The cuts at the first occurrence, then at the first behind it, and so on.
pub data Splits (d : Bytes) : Bytes → List Bytes → Type 0 where
  last : {s : Bytes} → find s d ≡ none → Splits d s (s ∷ [])
  more :
      {s : Bytes} {ts : List Bytes} (n : ℕ)
      → find s d ≡ some n
      → Splits d (drop (n + length d) s) ts
      → Splits d s (take n s ∷ ts)

-- The tokens with the delimiter between them.
abbrev pub join : Bytes → List Bytes → Bytes
join d [] = []
join d (t ∷ []) = t
join d (t ∷ u ∷ ts) = t ++ (d ++ join d (u ∷ ts))

find_from-find :
    (s d : Bytes) (start : ℕ)
    → start ≤ length s
    → find_from s d start ≡ map_some (λ n. start + n) (find (drop start s) d)
unfolding find_from
find_from-find s d start h = ground arith

find_from-none :
    (s d : Bytes) (start : ℕ)
    → start ≤ length s
    → find (drop start s) d ≡ none
    → find_from s d start ≡ none
find_from-none s d start h e = find_from-find s d start h ∙ ap (map_some (λ n. start + n)) e

find_from-some :
    (s d : Bytes) (start n : ℕ)
    → start ≤ length s
    → find (drop start s) d ≡ some n
    → find_from s d start ≡ some (start + n)
find_from-some s d start n h e = find_from-find s d start h ∙ ap (map_some (λ n. start + n)) e

-- What the loop returns: the tokens that it had, and the cuts of what was left.
abbrev Cuts : Bytes → Bytes → List Bytes → Option (List Bytes) → Type 0
Cuts s d ret r = (ts : List Bytes) × (r ≡ some (ret ++ ts)) × Splits d s ts

tokenize_loop_done :
    (fuel : ℕ) (s d : Bytes) (start : ℕ) (ret : List Bytes)
    → start ≤ length s
    → find (drop start s) d ≡ none
    → Cuts (drop start s) d ret (tokenize_loop (suc fuel) s d start ret)
unfolding tokenize_loop
tokenize_loop_done fuel s d start ret h e =
    (drop start s ∷ [], rw (find_from-none s d start h e, tokenize_loop) refl, last e)

tokenize_loop_more :
    (fuel : ℕ) (s d : Bytes) (start n : ℕ) (ret : List Bytes)
    → start ≤ length s
    → find (drop start s) d ≡ some n
    → Cuts
        (drop (start + n + length d) s)
        d
        (ret ++ (take n (drop start s) ∷ []))
        (tokenize_loop fuel s d (start + n + length d) (ret ++ (take n (drop start s) ∷ [])))
    → Cuts (drop start s) d ret (tokenize_loop (suc fuel) s d start ret)
unfolding tokenize_loop
tokenize_loop_more fuel s d start n ret h e (ts, q, cuts) = (
  take n (drop start s) ∷ ts,
  rw (find_from-some s d start n h e, tokenize_loop, back) (q ∙ ap some (append_assoc ret _ ts)),
  more n e (subst_cuts cuts),
)
  where
    back : start + n - start ≡ n
    back = omega arith

    subst_cuts :
        Splits d (drop (start + n + length d) s) ts
        → Splits d (drop (n + length d) (drop start s)) ts
    subst_cuts c = rw (drop-drop start (n + length d) s, assoc) c
      where
        assoc : start + (n + length d) ≡ start + n + length d
        assoc = omega arith

tokenize_loop-Cuts :
    (fuel : ℕ) (s d : Bytes) (start : ℕ) (ret : List Bytes)
    → 0 < length d
    → start ≤ length s
    → length s - start < fuel
    → Cuts (drop start s) d ret (tokenize_loop fuel s d start ret)
tokenize_loop-Cuts zero s d start ret ne h m = absurd (omega arith)
tokenize_loop-Cuts (suc fuel) s d start ret ne h m = elim (Option-cases (find (drop start s) d)) [
  | inl e ↦ tokenize_loop_done fuel s d start ret h e
  | inr (n, e) ↦
      let fits = (find-IsFirst (drop start s) d n e).within in
      tokenize_loop_more fuel s d start n ret h e (
        tokenize_loop-Cuts fuel s d (start + n + length d) _ ne
          (omega (arith, fits, length-drop start s)) (omega (arith, fits, length-drop start s)))
]

-- With a delimiter the tokens of `s` are its cuts; the loop does not run out of fuel.
tokenize_loop-ne-none :
    (s d : Bytes) → 0 < length d → tokenize_loop (suc (length s)) s d 0 [] ≢ none
tokenize_loop-ne-none s d ne e =
    let (ts, q, _) = tokenize_loop-Cuts (suc (length s)) s d 0 [] ne (omega arith) (omega arith) in
    cc

pub tokenize_string-Splits : (s d : Bytes) → 0 < length d → Splits d s (tokenize_string s d)
unfolding tokenize_string
tokenize_string-Splits s [] ne = absurd (omega arith)
tokenize_string-Splits s (c ∷ d) ne =
    let (ts, q, cuts) =
      tokenize_loop-Cuts (suc (length s)) s (c ∷ d) 0 [] ne (omega arith) (omega arith) in
    rw (q, or_else) cuts

Splits-ne-nil : {d s : Bytes} {ts : List Bytes} → Splits d s ts → ts ≢ []
Splits-ne-nil (last e) h = cc
Splits-ne-nil (more n e c) h = cc

join-cons : (d t : Bytes) (ts : List Bytes) → ts ≢ [] → join d (t ∷ ts) ≡ t ++ (d ++ join d ts)
join-cons d t [] h = absurd (h refl)
join-cons d t (u ∷ ts) h = refl

join-Splits : {d s : Bytes} {ts : List Bytes} → Splits d s ts → join d ts ≡ s
join-Splits (last e) = refl
join-Splits {d} {s} (more {ts = ts} n e c) =
    join-cons d (take n s) ts (Splits-ne-nil c)
    ∙ ap (λ r. take n s ++ (d ++ r)) (join-Splits c)
    ∙ sym (find-split s d n e)

-- Joined by the delimiter, the tokens are the string again, with any delimiter.
pub join-tokenize_string : (s d : Bytes) → join d (tokenize_string s d) ≡ s
join-tokenize_string s [] = unfold tokenize_string in refl
join-tokenize_string s (c ∷ d) = join-Splits (tokenize_string-Splits s (c ∷ d) (omega arith))

take-find :
    (s d : Bytes) (n m : ℕ) → 0 < length d → find s d ≡ some n → find (take n s) d ≡ some m → ⊥
take-find s d n m ne e h = ground (arith, occurs, f.first m, k.within, length-take n s, f.within)
  where
    f : IsFirst s d n
    f = find-IsFirst s d n e

    k : IsFirst (take n s) d m
    k = find-IsFirst (take n s) d m h

    whole : drop m (take n s) ++ drop n s ≡ drop m s
    whole =
        sym (drop-append m (take n s) (drop n s) (omega (arith, k.within)))
        ∙ ap (drop m) (take-append-drop n s)

    occurs : starts_with d (drop m s) ≡ true
    occurs = rw whole at (starts_with-append_right d (drop m (take n s)) (drop n s) k.occurs)

Splits-free :
    {d s : Bytes} {ts : List Bytes} → 0 < length d → Splits d s ts → All (λ t. find t d ≡ none) ts
Splits-free ne (last e) = (e, tt)
Splits-free {d} {s} ne (more n e c) = (free, Splits-free ne c)
  where
    free : find (take n s) d ≡ none
    free = elim (Option-cases (find (take n s) d)) [
      | inl miss ↦ miss
      | inr (m, hit) ↦ absurd (take-find s d n m ne e hit)
    ]

-- No token holds the delimiter.
pub tokenize_string-free :
    (s d : Bytes) → 0 < length d → All (λ t. find t d ≡ none) (tokenize_string s d)
tokenize_string-free s d ne = Splits-free ne (tokenize_string-Splits s d ne)
