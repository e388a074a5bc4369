-- ===== src/Load/Schedule/Multiple.antt =====
-- The common multiple is one: every value divides it.
use native.Mathlib.Nat.{mod_self, div_self, div-add-mod}
use mathlib.Core.List.{reverse-reverse}
use h2loadrunner.Base.{
  subst, ℕ, ◌+◌, ◌*◌, ◌/◌, ◌%◌, ◌^◌, ◌==◌, ◌≤◌, ◌<◌, ◌≡◌, refl, sym, ap, ◌∙◌, ltb, leb, ==→eq,
  if◌then◌else◌, Bool, true, ◌&&◌, List, [], ◌∷◌, reverse, arith, All, All-reverse, Bool-cases, inl,
  inr, IsStrictWeak, &&-eq-true,
}
use h2loadrunner.Base.Ordered.{
  equiv, set_insert, set_insert_all, has_equiv, has_equiv-inserted, set_insert-All,
  set_insert_all-All,
}
use h2loadrunner.Load.Schedule.{
  final_set, has_multiple, keep_loop, product_loop, find_common_multiple,
}

abbrev pub product : List ℕ → ℕ
product [] = 1
product (v ∷ vs) = v * product vs

-- One number goes into another without a rest.
abbrev pub Divides : ℕ → ℕ → Type 0
Divides v n = (q : ℕ) × (n ≡ q * v)

abbrev divides : ℕ → ℕ → Bool
divides v m = leb 1 (m / v) && (m % v == 0)

Divides-of_test : (v m : ℕ) → 0 < v → divides v m ≡ true → Divides v m
Divides-of_test v m h t =
    (m / v, whole (m / v) (m % v) (==→eq (m % v) 0 (&&-eq-true _ _ t).1) (div-add-mod m v))
  where
    whole : (q r : ℕ) → r ≡ 0 → v * q + r ≡ m → m ≡ q * v
    whole q r e h = grind arith

divides_self : (v : ℕ) → 0 < v → divides v v ≡ true
divides_self v h = rw (div_self h, mod_self v) refl

ltb-IsStrictWeak : IsStrictWeak ltb
ltb-IsStrictWeak = record {
  irrefl = λ a. ground arith;
  trans = λ a b c h k. ground arith;
  co_trans = λ a b c h k. ground arith;
}

has_multiple-set_insert :
    (v w : ℕ) (ms : List ℕ) → has_multiple v ms ≡ true → has_multiple v (set_insert ltb w ms) ≡ true
unfolding has_multiple set_insert
has_multiple-set_insert v w [] h = absurd (ground arith)
has_multiple-set_insert v w (m ∷ ms) h = ground (arith, has_multiple-set_insert v w ms)

has_multiple-set_insert_self :
    (v : ℕ) (ms : List ℕ) → 0 < v → has_multiple v (set_insert ltb v ms) ≡ true
unfolding has_multiple set_insert
has_multiple-set_insert_self v [] h = ground (arith, divides_self v h)
has_multiple-set_insert_self v (m ∷ ms) h =
    ground
      (arith, divides_self v h, ap (divides v) {x = v} {y = m}, has_multiple-set_insert_self v ms h)

has_multiple-keep_loop :
    (v : ℕ) (vs ms : List ℕ) → has_multiple v ms ≡ true → has_multiple v (keep_loop vs ms) ≡ true
unfolding keep_loop
has_multiple-keep_loop v [] ms h = h
has_multiple-keep_loop v (w ∷ vs) ms h = elim (Bool-cases (has_multiple w ms)) [
  | inl e ↦ rw e (has_multiple-keep_loop v vs ms h)
  | inr e ↦
      rw e (has_multiple-keep_loop v vs (set_insert ltb w ms) (has_multiple-set_insert v w ms h))
]

-- Every value of the list has a multiple in the end.
keep_loop-All :
    (vs ms : List ℕ) → All (λ v. 0 < v) vs → All (λ v. has_multiple v (keep_loop vs ms) ≡ true) vs
unfolding keep_loop
keep_loop-All [] ms p = tt
keep_loop-All (v ∷ vs) ms p = (
  elim (Bool-cases (has_multiple v ms)) [
    | inl e ↦ rw e (has_multiple-keep_loop v vs ms e)
    | inr e ↦
        rw e (
          has_multiple-keep_loop v vs (set_insert ltb v ms) (has_multiple-set_insert_self v ms p.0))
  ],
  keep_loop-All vs (if has_multiple v ms then ms else set_insert ltb v ms) p.1,
)

keep_loop_pos :
    (vs ms : List ℕ)
    → All (λ v. 0 < v) vs
    → All (λ v. 0 < v) ms
    → All (λ v. 0 < v) (keep_loop vs ms)
unfolding keep_loop
keep_loop_pos [] ms p q = q
keep_loop_pos (v ∷ vs) ms p q = elim (Bool-cases (has_multiple v ms)) [
  | inl e ↦ rw e (keep_loop_pos vs ms p.1 q)
  | inr e ↦
      rw e (keep_loop_pos vs (set_insert ltb v ms) p.1 (set_insert-All ltb (λ v. 0 < v) v ms p.0 q))
]

swap_right : (a b c : ℕ) → a * b * c ≡ a * c * b
swap_right a b c = grind arith

regroup : (a b c : ℕ) → a * (b * c) ≡ a * b * c
regroup a b c = grind arith

-- What has a multiple in a list divides the product of the list.
Divides-product : (v : ℕ) (ms : List ℕ) → 0 < v → has_multiple v ms ≡ true → Divides v (product ms)
unfolding has_multiple
Divides-product v [] h t = absurd (ground arith)
Divides-product v (m ∷ ms) h t = elim (Bool-cases (divides v m)) [
  | inl e ↦
      let (q, eq) = Divides-of_test v m h e in
      (q * product ms, ap (λ k. k * product ms) eq ∙ swap_right q v (product ms))
  | inr e ↦
      let (q, eq) = Divides-product v ms h (rw e at t) in
      (m * q, ap (λ k. m * k) eq ∙ regroup m q v)
]

product_pos : (ms : List ℕ) → All (λ v. 0 < v) ms → 0 < product ms
product_pos [] p = omega arith
product_pos (m ∷ ms) p = let h = product_pos ms p.1 in grind arith

product_loop-product :
    (ms : List ℕ) (a : ℕ)
    → All (λ v. 0 < v) ms
    → a * product ms < 2 ^ 64
    → product_loop ms a ≡ a * product ms
unfolding product_loop
product_loop-product [] a p h = omega arith
product_loop-product (m ∷ ms) a p h =
    let same = regroup a m (product ms) in
    rw (no_wrap (a * m) (product ms) (product_pos ms p.1) (omega (arith, same)))
      (product_loop-product ms (a * m) p.1 (omega (arith, same)) ∙ sym same)
  where
    no_wrap : (b c : ℕ) → 0 < c → b * c < 2 ^ 64 → b % 2 ^ 64 ≡ b
    no_wrap b c h k = let le : b ≤ b * c = grind arith in omega arith

-- A value that a set holds has what the set's values have.
All-has_equiv :
    (v : ℕ) (vs ms : List ℕ)
    → has_equiv ltb v vs ≡ true
    → All (λ u. has_multiple u ms ≡ true) vs
    → has_multiple v ms ≡ true
unfolding has_equiv
All-has_equiv v [] ms h a = absurd (ground arith)
All-has_equiv v (u ∷ vs) ms h a = elim (Bool-cases (equiv ltb v u)) [
  | inl e ↦ let same : v ≡ u = ground arith in rw same a.0
  | inr e ↦ All-has_equiv v vs ms (rw e at h) a.1
]

All-imp : (P Q : ℕ → Type 0) (vs : List ℕ) → ((v : ℕ) → P v → Q v) → All P vs → All Q vs
All-imp P Q [] f h = tt
All-imp P Q (v ∷ vs) f h = (f v h.0, All-imp P Q vs f h.1)

All-and : (P Q : ℕ → Type 0) (vs : List ℕ) → All P vs → All Q vs → All (λ v. P v × Q v) vs
All-and P Q [] h k = tt
All-and P Q (v ∷ vs) h k = ((h.0, k.0), All-and P Q vs h.1 k.1)

module _ (input : List ℕ) (positive : All (λ v. 0 < v) input) where
  set_positive : All (λ v. 0 < v) (reverse (set_insert_all ltb input []))
  set_positive =
      All-reverse (λ v. 0 < v) (set_insert_all ltb input [])
        (set_insert_all-All ltb (λ v. 0 < v) input [] positive tt)

  final_set_pos : All (λ v. 0 < v) (final_set input)
  unfolding final_set
  final_set_pos = keep_loop_pos (reverse (set_insert_all ltb input [])) [] set_positive tt

  input_covered : All (λ v. has_multiple v (final_set input) ≡ true) input
  unfolding final_set
  input_covered =
      All-imp _ _ input
        (λ v h. All-has_equiv v (set_insert_all ltb input []) (final_set input) h set_covered)
        (has_equiv-inserted ltb ltb-IsStrictWeak input [])
    where
      set_covered : All (λ v. has_multiple v (final_set input) ≡ true) (set_insert_all ltb input [])
      set_covered =
          subst (All (λ v. has_multiple v (final_set input) ≡ true))
            (reverse-reverse (set_insert_all ltb input []))
            (All-reverse (λ v. has_multiple v (final_set input) ≡ true)
              (reverse (set_insert_all ltb input []))
              (keep_loop-All (reverse (set_insert_all ltb input [])) [] set_positive))

  -- Values above 0 whose `final_set` has a product below 2 ^ 64 all divide what the function returns,
  -- which is not 0.
  pub Divides-find_common_multiple :
      product (final_set input) < 2 ^ 64
      → (0 < find_common_multiple input) × All (λ v. Divides v (find_common_multiple input)) input
  unfolding find_common_multiple
  Divides-find_common_multiple small =
      let whole : product_loop (final_set input) 1 ≡ product (final_set input) =
        product_loop-product (final_set input) 1 final_set_pos (omega arith) ∙ omega arith in
      rw whole (
        product_pos (final_set input) final_set_pos,
        All-imp _ _ input (λ v h. Divides-product v (final_set input) h.0 h.1)
            (All-and _ _ input positive input_covered),
      )
