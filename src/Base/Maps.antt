-- ===== src/Base/Maps.antt =====
-- `std::map` as a list in the order of its keys, under a given `operator<`.
use h2loadrunner.Base.{
  ◌≡◌, refl, Bool, true, Option, none, some, List, [], ◌∷◌, arith, IsStrictWeak, if◌then◌else◌, All,
}
use h2loadrunner.Base.Ordered.{equiv}

module _ {ℓ κ} {K : Type ℓ} {V : Type κ} (lt : K → K → Bool) where
  -- `m[k] = v`: the key of an entry that is already there stays as it is.
  unfoldable pub map_assign : K → V → List (K × V) → List (K × V)
  map_assign k v [] = (k, v) ∷ []
  map_assign k v ((j, w) ∷ m) =
      if lt k j
      then (k, v) ∷ ((j, w) ∷ m)
      else if lt j k
      then (j, w) ∷ map_assign k v m
      else (j, v) ∷ m

  -- The value that `m.find(k)` reaches.
  unfoldable pub map_find : K → List (K × V) → Option V
  map_find k [] = none
  map_find k ((j, w) ∷ m) = if equiv lt j k then some w else map_find k m

  -- The keys are in the order.
  abbrev pub KeysSorted : List (K × V) → Type 0
  KeysSorted [] = Unit {0}
  KeysSorted ((k, v) ∷ m) = All (λ e. lt k e.0 ≡ true) m × KeysSorted m

module _ {ℓ κ} {K : Type ℓ} {V : Type κ} (lt : K → K → Bool) (w : IsStrictWeak lt) where
  -- A value that is assigned is found under every equivalent key, and the others are as they were.
  pub map_find-map_assign :
      (k j : K) (v : V) (m : List (K × V))
      → map_find lt k (map_assign lt j v m) ≡ (if equiv lt j k then some v else map_find lt k m)
  unfolding map_find map_assign
  map_find-map_assign k j v [] = refl
  map_find-map_assign k j v ((i, u) ∷ m) = ground (
    arith,
    w.co_trans i j k,
    w.co_trans k j i,
    w.co_trans j i k,
    w.co_trans k i j,
    w.co_trans i k j,
    w.co_trans j k i,
    map_find-map_assign k j v m,
  )

  All-keys_below :
      (k j : K) (m : List (K × V))
      → lt k j ≡ true
      → All (λ e. lt j e.0 ≡ true) m
      → All (λ e. lt k e.0 ≡ true) m
  All-keys_below k j [] h a = tt
  All-keys_below k j (e ∷ m) h a = (w.trans k j e.0 h a.0, All-keys_below k j m h a.1)

  All-map_assign :
      (i k : K) (v : V) (m : List (K × V))
      → lt i k ≡ true
      → All (λ e. lt i e.0 ≡ true) m
      → All (λ e. lt i e.0 ≡ true) (map_assign lt k v m)
  unfolding map_assign
  All-map_assign i k v [] h a = (h, tt)
  All-map_assign i k v ((j, u) ∷ m) h a = ground (arith, All-map_assign i k v m h a.1)

  pub map_assign-KeysSorted :
      (k : K) (v : V) (m : List (K × V)) → KeysSorted lt m → KeysSorted lt (map_assign lt k v m)
  unfolding map_assign
  map_assign-KeysSorted k v [] s = (tt, tt)
  map_assign-KeysSorted k v ((j, u) ∷ m) s =
      ground (arith, All-keys_below k j m, All-map_assign j k v m, map_assign-KeysSorted k v m s.1)

  -- Equivalent keys find the same value.
  pub map_find-equiv :
      (k j : K) (m : List (K × V)) → equiv lt j k ≡ true → map_find lt j m ≡ map_find lt k m
  unfolding map_find
  map_find-equiv k j [] h = refl
  map_find-equiv k j ((i, u) ∷ m) h = ground (
    arith,
    w.co_trans i j k,
    w.co_trans k j i,
    w.co_trans i k j,
    w.co_trans j k i,
    map_find-equiv k j m h,
  )
