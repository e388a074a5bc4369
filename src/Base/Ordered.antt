-- ===== src/Base/Ordered.antt =====
-- `std::set` and `std::map` as lists in the order of `operator<`, which alone decides what is equal.
use h2loadrunner.Base.{
  ℕ, suc, ◌≡◌, refl, Bool, true, false, not, ◌&&◌, ◌||◌, List, [], ◌∷◌, ◌++◌, All-back, arith,
  IsStrictWeak, if◌then◌else◌, All, Bool-cases, inl, inr,
}

module _ {ℓ} {A : Type ℓ} (lt : A → A → Bool) where
  -- Neither is below the other.
  abbrev pub equiv : A → A → Bool
  equiv a b = not (lt a b) && not (lt b a)

  -- `insert` leaves the set alone where it holds an equivalent element.
  unfoldable pub set_insert : A → List A → List A
  set_insert x [] = x ∷ []
  set_insert x (y ∷ ys) =
      if lt x y then x ∷ (y ∷ ys) else if lt y x then y ∷ set_insert x ys else y ∷ ys

  unfoldable pub set_insert_all : List A → List A → List A
  unfolding set_insert
  set_insert_all [] set = set
  set_insert_all (x ∷ xs) set = set_insert_all xs (set_insert x set)

  -- `std::distance(begin(), find(x))`: the size of the set where `x` is missing.
  unfoldable pub index_of : A → List A → ℕ
  index_of x [] = 0
  index_of x (y ∷ ys) = if equiv x y then 0 else suc (index_of x ys)

  abbrev pub IsSorted : List A → Type 0
  IsSorted [] = Unit {0}
  IsSorted (x ∷ xs) = All (λ y. lt x y ≡ true) xs × IsSorted xs

  unfoldable pub has_equiv : A → List A → Bool
  has_equiv x [] = false
  has_equiv x (y ∷ ys) = equiv x y || has_equiv x ys

module _ {ℓ} {A : Type ℓ} (lt : A → A → Bool) (w : IsStrictWeak lt) where
  All-below :
      (x y : A) (ys : List A)
      → lt x y ≡ true
      → All (λ z. lt y z ≡ true) ys
      → All (λ z. lt x z ≡ true) ys
  All-below x y [] h a = tt
  All-below x y (z ∷ zs) h a = (w.trans x y z h a.0, All-below x y zs h a.1)

  All-set_insert :
      (z x : A) (ys : List A)
      → lt z x ≡ true
      → All (λ y. lt z y ≡ true) ys
      → All (λ y. lt z y ≡ true) (set_insert lt x ys)
  unfolding set_insert
  All-set_insert z x [] h a = (h, tt)
  All-set_insert z x (y ∷ ys) h a = ground (arith, All-set_insert z x ys h a.1)

  pub set_insert-IsSorted :
      (x : A) (ys : List A) → IsSorted lt ys → IsSorted lt (set_insert lt x ys)
  unfolding set_insert
  set_insert-IsSorted x [] s = (tt, tt)
  set_insert-IsSorted x (y ∷ ys) s =
      ground (arith, All-below x y ys, All-set_insert y x ys, set_insert-IsSorted x ys s.1)

  pub set_insert_all-IsSorted :
      (xs ys : List A) → IsSorted lt ys → IsSorted lt (set_insert_all lt xs ys)
  unfolding set_insert_all
  set_insert_all-IsSorted [] ys s = s
  set_insert_all-IsSorted (x ∷ xs) ys s =
      set_insert_all-IsSorted xs (set_insert lt x ys) (set_insert-IsSorted x ys s)

  -- An element that is equivalent to one of a sorted list is refused.
  pub set_insert_equiv :
      (a b : A) (xs ys : List A)
      → lt a b ≡ false
      → lt b a ≡ false
      → IsSorted lt (xs ++ (a ∷ ys))
      → set_insert lt b (xs ++ (a ∷ ys)) ≡ xs ++ (a ∷ ys)
  unfolding set_insert
  set_insert_equiv a b [] ys p q s = ground arith
  set_insert_equiv a b (x ∷ xs) ys p q s = ground (
    arith,
    (All-back (λ y. lt x y ≡ true) xs (a ∷ ys) s.0).0,
    w.trans b x a,
    w.co_trans x b a,
    set_insert_equiv a b xs ys p q s.1,
  )

  has_equiv-set_insert_self : (x : A) (ys : List A) → has_equiv lt x (set_insert lt x ys) ≡ true
  unfolding has_equiv set_insert
  has_equiv-set_insert_self x [] = ground (arith, w.irrefl x)
  has_equiv-set_insert_self x (y ∷ ys) = ground (arith, w.irrefl x, has_equiv-set_insert_self x ys)

  has_equiv-set_insert :
      (x z : A) (ys : List A)
      → has_equiv lt z ys ≡ true
      → has_equiv lt z (set_insert lt x ys) ≡ true
  unfolding has_equiv set_insert
  has_equiv-set_insert x z [] h = absurd (ground arith)
  has_equiv-set_insert x z (y ∷ ys) h = ground (arith, has_equiv-set_insert x z ys)

  has_equiv-set_insert_all :
      (xs : List A) (z : A) (ys : List A)
      → has_equiv lt z ys ≡ true
      → has_equiv lt z (set_insert_all lt xs ys) ≡ true
  unfolding set_insert_all
  has_equiv-set_insert_all [] z ys h = h
  has_equiv-set_insert_all (x ∷ xs) z ys h =
      has_equiv-set_insert_all xs z (set_insert lt x ys) (has_equiv-set_insert x z ys h)

  -- Nothing that is inserted is lost: the set holds an equivalent of it.
  pub has_equiv-inserted :
      (xs ys : List A) → All (λ x. has_equiv lt x (set_insert_all lt xs ys) ≡ true) xs
  unfolding set_insert_all
  has_equiv-inserted [] ys = tt
  has_equiv-inserted (x ∷ xs) ys = (
    has_equiv-set_insert_all xs x (set_insert lt x ys) (has_equiv-set_insert_self x ys),
    has_equiv-inserted xs (set_insert lt x ys),
  )

  -- Two elements that the set holds have one position exactly if they are equivalent.
  pub index_of_eq :
      (a b : A) (ys : List A)
      → has_equiv lt a ys ≡ true
      → has_equiv lt b ys ≡ true
      → index_of lt a ys ≡ index_of lt b ys
      → equiv lt a b ≡ true
  unfolding has_equiv index_of
  index_of_eq a b [] h k e = absurd (ground arith)
  index_of_eq a b (y ∷ ys) h k e =
      ground (arith, w.co_trans a y b, w.co_trans b y a, index_of_eq a b ys)

  pub equiv-index_of :
      (a b : A) (ys : List A) → equiv lt a b ≡ true → index_of lt a ys ≡ index_of lt b ys
  unfolding index_of
  equiv-index_of a b [] e = refl
  equiv-index_of a b (y ∷ ys) e = ground (
    arith,
    w.co_trans a b y,
    w.co_trans y a b,
    w.co_trans b a y,
    w.co_trans y b a,
    equiv-index_of a b ys e,
  )

module _ {ℓ κ} {A : Type ℓ} (lt : A → A → Bool) (P : A → Type κ) where
  -- What holds of the elements holds of the set that they are inserted into.
  pub set_insert-All : (x : A) (ys : List A) → P x → All P ys → All P (set_insert lt x ys)
  unfolding set_insert
  set_insert-All x [] h k = (h, tt)
  set_insert-All x (y ∷ ys) h k = elim (Bool-cases (lt x y)) [
    | inl below ↦ rw below (h, k)
    | inr not_below ↦ rw not_below (elim (Bool-cases (lt y x)) [
      | inl above ↦ rw above (k.0, set_insert-All x ys h k.1)
      | inr same ↦ rw same k
    ])
  ]

  pub set_insert_all-All : (xs ys : List A) → All P xs → All P ys → All P (set_insert_all lt xs ys)
  unfolding set_insert_all
  set_insert_all-All [] ys h k = k
  set_insert_all-All (x ∷ xs) ys h k =
      set_insert_all-All xs (set_insert lt x ys) h.1 (set_insert-All x ys h.0 k)
