-- ===== src/Load/Client/Changes.antt =====
-- The maps from the identifiers of streams, after a change of one element.
use h2loadrunner.Base.{ℕ, ◌≡◌, refl, some, none, List, [], ◌∷◌, arith}
use h2loadrunner.Load.Client.{find_at, change_at, erase_at}

module _ {ℓ} {A : Type ℓ} where
  pub find_at-change_at :
      (id : ℕ) (f : A → A) (m : List (ℕ × A)) (a : A)
      → find_at id m ≡ some a
      → find_at id (change_at id f m) ≡ some (f a)
  unfolding find_at change_at
  find_at-change_at id f [] a h = ground arith
  find_at-change_at id f ((k, b) ∷ m) a h = ground (arith, find_at-change_at id f m a)

  -- Two changes in a row are one.
  pub change_at-change_at :
      (id : ℕ) (f g : A → A) (m : List (ℕ × A))
      → change_at id g (change_at id f m) ≡ change_at id (λ a. g (f a)) m
  unfolding change_at
  change_at-change_at id f g [] = refl
  change_at-change_at id f g ((k, b) ∷ m) = ground (arith, change_at-change_at id f g m)

  -- Only what a change makes of the element that is there matters.
  pub change_at_same :
      (id : ℕ) (f g : A → A) (m : List (ℕ × A)) (a : A)
      → find_at id m ≡ some a
      → f a ≡ g a
      → change_at id f m ≡ change_at id g m
  unfolding find_at change_at
  change_at_same id f g [] a h e = refl
  change_at_same id f g ((k, b) ∷ m) a h e = ground (arith, change_at_same id f g m a)

  pub change_at_nothing : (id : ℕ) (m : List (ℕ × A)) → change_at id (λ a. a) m ≡ m
  unfolding change_at
  change_at_nothing id [] = refl
  change_at_nothing id ((k, b) ∷ m) = ground (arith, change_at_nothing id m)

  pub find_at-erase_at_self : (id : ℕ) (m : List (ℕ × A)) → find_at id (erase_at id m) ≡ none
  unfolding find_at erase_at
  find_at-erase_at_self id [] = refl
  find_at-erase_at_self id ((k, b) ∷ m) = ground (arith, find_at-erase_at_self id m)

  pub find_at-erase_at-none :
      (id other : ℕ) (m : List (ℕ × A)) → find_at id m ≡ none → find_at id (erase_at other m) ≡ none
  unfolding find_at erase_at
  find_at-erase_at-none id other [] h = refl
  find_at-erase_at-none id other ((k, b) ∷ m) h = ground (arith, find_at-erase_at-none id other m)
