-- ===== src/Text/Find.antt =====
-- `find` returns the first occurrence, and none only if there is none.
use h2loadrunner.Base.{
  ℕ, zero, suc, ◌+◌, ◌≤◌, ◌<◌, ◌≡◌, refl, sym, ap, ap₂, ◌∙◌, true, false, Option, none, some, [],
  ◌∷◌, ◌++◌, arith, length, take, drop, drop-drop, take-append-drop, length-drop, leb, leb→le,
  Bool-cases, Option-cases, inl, inr, ==→eq, &&-eq-true, map_some,
}
use h2loadrunner.Text.{Bytes, starts_with, find, find_from, rfind}

-- A prefix test that succeeds splits the string.
pub starts_with→split : (p s : Bytes) → starts_with p s ≡ true → s ≡ p ++ drop (length p) s
unfolding starts_with
starts_with→split [] s h = refl
starts_with→split (c ∷ p) [] h = absurd (ground arith)
starts_with→split (c ∷ p) (d ∷ s) h =
    let (e, f) = &&-eq-true _ _ h in ap₂ ◌∷◌ (sym (==→eq c d e)) (starts_with→split p s f)

pub starts_with-append : (p s : Bytes) → starts_with p (p ++ s) ≡ true
unfolding starts_with
starts_with-append [] s = refl
starts_with-append (c ∷ p) s = ground (arith, starts_with-append p s)

-- More text behind the string does not undo a match.
pub starts_with-append_right :
    (p s t : Bytes) → starts_with p s ≡ true → starts_with p (s ++ t) ≡ true
unfolding starts_with
starts_with-append_right [] s t h = refl
starts_with-append_right (c ∷ p) [] t h = absurd (ground arith)
starts_with-append_right (c ∷ p) (d ∷ s) t h = ground (arith, starts_with-append_right p s t)

-- `n` is the first position of `d` in `s`.
pub record IsFirst (s d : Bytes) (n : ℕ) : Type 0 where
  pub within : n + length d ≤ length s
  pub occurs : starts_with d (drop n s) ≡ true
  pub first : (m : ℕ) → m < n → starts_with d (drop m s) ≡ false

starts_with-length : (p s : Bytes) → starts_with p s ≡ true → length p ≤ length s
unfolding starts_with
starts_with-length [] s h = omega arith
starts_with-length (c ∷ p) [] h = absurd (ground arith)
starts_with-length (c ∷ p) (d ∷ s) h = ground (arith, starts_with-length p s)

IsFirst-zero : (s d : Bytes) → starts_with d s ≡ true → IsFirst s d 0
IsFirst-zero s d h = record {
  within = omega (arith, starts_with-length d s h);
  occurs = h;
  first = λ m lt. absurd (omega arith);
}

IsFirst-suc :
    (c : ℕ) (s d : Bytes) (n : ℕ)
    → starts_with d (c ∷ s) ≡ false
    → IsFirst s d n
    → IsFirst (c ∷ s) d (suc n)
IsFirst-suc c s d n h f = record {
  within = omega (arith, f.within);
  occurs = f.occurs;
  first = elim [ zero ↦ λ lt. h | suc m ↦ λ lt. f.first m (omega arith) ];
}

some-inj : {a b : ℕ} → some a ≡ some b → a ≡ b
some-inj h = cc

find-IsFirst-suc :
    (c : ℕ) (s d : Bytes) (n : ℕ) (r : Option ℕ)
    → starts_with d (c ∷ s) ≡ false
    → ((m : ℕ) → r ≡ some m → IsFirst s d m)
    → map_some suc r ≡ some n
    → IsFirst (c ∷ s) d n
find-IsFirst-suc c s d n none miss ih e = absurd (ground arith)
find-IsFirst-suc c s d n (some m) miss ih e =
    rw (sym (some-inj e)) (IsFirst-suc c s d m miss (ih m refl))

pub find-IsFirst : (s d : Bytes) (n : ℕ) → find s d ≡ some n → IsFirst s d n
unfolding find
find-IsFirst [] d n e = elim (Bool-cases (starts_with d [])) [
  | inl here ↦ rw (sym (some-inj (rw here at e))) (IsFirst-zero [] d here)
  | inr miss ↦ absurd (ground arith)
]
find-IsFirst (c ∷ s) d n e = elim (Bool-cases (starts_with d (c ∷ s))) [
  | inl here ↦ rw (sym (some-inj (rw here at e))) (IsFirst-zero (c ∷ s) d here)
  | inr miss ↦ find-IsFirst-suc c s d n (find s d) miss (λ m h. find-IsFirst s d m h) (rw miss at e)
]

-- With no occurrence found, the string does not match at any position.
pub find-eq-none :
    (s d : Bytes) (m : ℕ) → find s d ≡ none → m ≤ length s → starts_with d (drop m s) ≡ false
unfolding find
find-eq-none [] d zero e h = ground arith
find-eq-none [] d (suc m) e h = absurd (omega arith)
find-eq-none (c ∷ s) d zero e h = ground arith
find-eq-none (c ∷ s) d (suc m) e h = ground (arith, find-eq-none s d m)

-- The converse: a position where the string matches is not missed.
pub find-total :
    (s d : Bytes) (m : ℕ)
    → m ≤ length s
    → starts_with d (drop m s) ≡ true
    → (n : ℕ) × (find s d ≡ some n) × (n ≤ m)
find-total s d m h e = elim (Option-cases (find s d)) [
  | inl miss ↦ absurd (ground (arith, find-eq-none s d m miss h))
  | inr (n, hit) ↦ (n, hit, le_of_first n (find-IsFirst s d n hit))
]
  where
    le_of_first : (n : ℕ) → IsFirst s d n → n ≤ m
    le_of_first n f = ground (arith, f.first m)

-- The string around its first occurrence.
pub find-split :
    (s d : Bytes) (n : ℕ) → find s d ≡ some n → s ≡ take n s ++ (d ++ drop (n + length d) s)
find-split s d n e =
    sym (take-append-drop n s)
    ∙ ap (◌++◌ (take n s)) (
        starts_with→split d (drop n s) (find-IsFirst s d n e).occurs
        ∙ ap (◌++◌ d) (drop-drop n (length d) s))

pub map_some-inv :
    (start pos : ℕ) (r : Option ℕ)
    → map_some (λ n. start + n) r ≡ some pos
    → (n : ℕ) × (r ≡ some n) × (pos ≡ start + n)
map_some-inv start pos none e = absurd (ground arith)
map_some-inv start pos (some n) e = (n, refl, sym (some-inj e))

-- A position that `find_from` returns lies between the start and the end.
pub find_from_bounds :
    (s d : Bytes) (start pos : ℕ)
    → find_from s d start ≡ some pos
    → (start ≤ pos) × (pos + length d ≤ length s)
unfolding find_from
find_from_bounds s d start pos e = elim (Bool-cases (leb start (length s))) [
  | inl within ↦
      let (n, hit, q) = map_some-inv start pos (find (drop start s) d) (rw within at e) in
      (
        omega arith,
        omega (
          arith,
          (find-IsFirst (drop start s) d n hit).within,
          length-drop start s,
          leb→le start (length s) within,
        ),
      )
  | inr past ↦ absurd (ground arith)
]

-- `n` is the last position of `d` in `s`.
pub record IsLast (s d : Bytes) (n : ℕ) : Type 0 where
  pub within : n + length d ≤ length s
  pub occurs : starts_with d (drop n s) ≡ true
  pub last : (m : ℕ) → m ≤ length s → starts_with d (drop m s) ≡ true → m ≤ n

pub rfind-none :
    (s d : Bytes) (m : ℕ) → rfind s d ≡ none → m ≤ length s → starts_with d (drop m s) ≡ false
unfolding rfind
rfind-none [] d zero e h = ground arith
rfind-none [] d (suc m) e h = absurd (omega arith)
rfind-none (c ∷ s) d zero e h = ground arith
rfind-none (c ∷ s) d (suc m) e h = ground (arith, rfind-none s d m)

IsLast-zero :
    (s d : Bytes)
    → ((m : ℕ) → m < length s → starts_with d (drop (suc m) s) ≡ false)
    → starts_with d s ≡ true
    → IsLast s d 0
IsLast-zero s d none_later h = record {
  within = omega (arith, starts_with-length d s h);
  occurs = h;
  last = elim [
    | zero ↦ λ lt e. omega arith
    | suc m ↦ λ lt e. absurd (ground (arith, none_later m))
  ];
}

IsLast-suc : (c : ℕ) (s d : Bytes) (n : ℕ) → IsLast s d n → IsLast (c ∷ s) d (suc n)
IsLast-suc c s d n f = record {
  within = omega (arith, f.within);
  occurs = f.occurs;
  last = elim [
    | zero ↦ λ lt e. omega arith
    | suc m ↦ λ lt e. omega (arith, f.last m (omega arith) e)
  ];
}

rfind-IsLast-cons :
    (c : ℕ) (s d : Bytes) (n : ℕ) (r : Option ℕ)
    → rfind s d ≡ r
    → ((m : ℕ) → r ≡ some m → IsLast s d m)
    → rfind (c ∷ s) d ≡ some n
    → IsLast (c ∷ s) d n
unfolding rfind
rfind-IsLast-cons c s d n none q ih e = elim (Bool-cases (starts_with d (c ∷ s))) [
  | inl here ↦
      rw (sym (some-inj (rw (q, here) at e)))
        (IsLast-zero (c ∷ s) d (λ m h. rfind-none s d m q (omega arith)) here)
  | inr miss ↦ absurd (ground arith)
]
rfind-IsLast-cons c s d n (some m) q ih e =
    rw (sym (some-inj (rw q at e))) (IsLast-suc c s d m (ih m refl))

pub rfind-IsLast : (s d : Bytes) (n : ℕ) → rfind s d ≡ some n → IsLast s d n
rfind-IsLast [] d n e =
    unfold rfind in
    elim (Bool-cases (starts_with d [])) [
      | inl here ↦
          rw (sym (some-inj (rw here at e))) (IsLast-zero [] d (λ m h. absurd (omega arith)) here)
      | inr miss ↦ absurd (ground arith)
    ]
rfind-IsLast (c ∷ s) d n e =
    rfind-IsLast-cons c s d n (rfind s d) refl (λ m h. rfind-IsLast s d m h) e
