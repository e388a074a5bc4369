-- ===== src/Base/Weak.antt =====
-- Strict weak orders as Boolean tests: what `std::set` and `std::map` want of `operator<`.
use mathlib.Core.Path.{◌≡◌, refl}
use mathlib.Core.Bool.{Bool, true, false, not, ◌&&◌}
use mathlib.Core.List.{List, [], ◌∷◌}
use mathlib.Core.Logic.{inl, inr}
use native.Mathlib.Omega.{arith}
use h2loadrunner.Base.Tests.{if◌then◌else◌, Bool-cases}
use h2loadrunner.Base.Lists.{length}

pub record IsStrictWeak {ℓ} {A : Type ℓ} (lt : A → A → Bool) : Type ℓ where
  pub irrefl : (a : A) → lt a a ≡ false
  pub trans : (a b c : A) → lt a b ≡ true → lt b c ≡ true → lt a c ≡ true
  pub co_trans : (a b c : A) → lt a b ≡ false → lt b c ≡ false → lt a c ≡ false

-- Elements of the class `top` stand above all others; `lt` orders the elements of one class.
abbrev pub top_last {ℓ} : {A : Type ℓ} → (A → Bool) → (A → A → Bool) → A → A → Bool
top_last top lt a b =
    if top a && not (top b) then false else if top b && not (top a) then true else lt a b

-- Lists compared from the front by their elements; a list that ends first is not below.
unfoldable pub list_lt {ℓ} : {A : Type ℓ} → (A → A → Bool) → List A → List A → Bool
list_lt lt [] ys = false
list_lt lt (x ∷ xs) [] = false
list_lt lt (x ∷ xs) (y ∷ ys) = if lt x y then true else if lt y x then false else list_lt lt xs ys

module _ {ℓ} {A : Type ℓ} (lt : A → A → Bool) (w : IsStrictWeak lt) where
  pub asym : (a b : A) → lt a b ≡ true → lt b a ≡ false
  asym a b h = elim (Bool-cases (lt b a)) [
    | inl back ↦ absurd (ground (arith, w.trans a b a h back, w.irrefl a))
    | inr no_back ↦ no_back
  ]

  pub top_last-IsStrictWeak : (top : A → Bool) → IsStrictWeak (top_last top lt)
  top_last-IsStrictWeak top = record {
    irrefl = λ a. ground (arith, w.irrefl a);
    trans = λ a b c h k. ground (arith, w.trans a b c);
    co_trans = λ a b c h k. ground (arith, w.co_trans a b c);
  }

  pub list_lt_irrefl : (xs : List A) → list_lt lt xs xs ≡ false
  unfolding list_lt
  list_lt_irrefl [] = refl
  list_lt_irrefl (x ∷ xs) = ground (arith, w.irrefl x, list_lt_irrefl xs)

  -- What one comparison of heads says of the next.
  abbrev Heads : A → A → A → Type 0
  Heads x y z =
      (lt x y ≡ true → lt y z ≡ true → lt x z ≡ true)
      × (lt x y ≡ false → lt y z ≡ false → lt x z ≡ false)

  pub list_lt_trans :
      (xs ys zs : List A)
      → list_lt lt xs ys ≡ true
      → list_lt lt ys zs ≡ true
      → list_lt lt xs zs ≡ true
  unfolding list_lt
  list_lt_trans [] ys zs h k = absurd (ground arith)
  list_lt_trans (x ∷ xs) [] zs h k = absurd (ground arith)
  list_lt_trans (x ∷ xs) (y ∷ ys) [] h k = absurd (ground arith)
  list_lt_trans (x ∷ xs) (y ∷ ys) (z ∷ zs) h k = ground (
    arith,
    w.trans x y z,
    w.co_trans x z y,
    w.co_trans y x z,
    w.co_trans z y x,
    w.co_trans z x y,
    w.co_trans y z x,
    asym x z,
    asym x y,
    list_lt_trans xs ys zs,
  )

  pub list_lt_co_trans :
      (xs ys zs : List A)
      → length xs ≡ length ys
      → length ys ≡ length zs
      → list_lt lt xs ys ≡ false
      → list_lt lt ys zs ≡ false
      → list_lt lt xs zs ≡ false
  unfolding list_lt
  list_lt_co_trans [] ys zs p q h k = refl
  list_lt_co_trans (x ∷ xs) [] zs p q h k = absurd (omega arith)
  list_lt_co_trans (x ∷ xs) (y ∷ ys) [] p q h k = refl
  list_lt_co_trans (x ∷ xs) (y ∷ ys) (z ∷ zs) p q h k = ground (
    arith,
    w.co_trans x y z,
    w.trans z y x,
    w.co_trans z x y,
    w.co_trans y z x,
    asym x y,
    asym y z,
    list_lt_co_trans xs ys zs,
  )
