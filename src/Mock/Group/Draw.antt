-- ===== src/Mock/Group/Draw.antt =====
-- Each response is drawn as often as its weight says.
use h2loadrunner.Base.{
  ℕ, suc, ◌+◌, ◌-◌, ◌%◌, ◌^◌, ◌≤◌, ◌<◌, ◌≡◌, refl, sym, ap, ◌∙◌, ltb, ◌==◌, if◌then◌else◌, true,
  some, List, [], ◌∷◌, ◌++◌, arith, All, append-nil, append_assoc, or_else, Bool-cases, ==→eq, inl,
  inr,
}
use h2loadrunner.Mock.Group.{
  map_set, upper_bound, distribution_loop, distribution_map, first_index, select_from,
  select_response,
}

abbrev pub sum : List ℕ → ℕ
sum [] = 0
sum (w ∷ ws) = w + sum ws

-- The weights laid end to end: the response whose stretch holds the point `r`.
unfoldable pub owner : List ℕ → ℕ → ℕ
owner [] r = 0
owner (w ∷ ws) r = if ltb r w then 0 else suc (owner ws (r - w))

-- The map without the wrap of the sums.
unfoldable pub cumulated : List ℕ → ℕ → ℕ → List (ℕ × ℕ)
cumulated [] index total = []
cumulated (w ∷ ws) index total =
    let rest = cumulated ws (suc index) (total + w) in
    if w == 0 then rest else (total + w, index) ∷ rest

map_set-end :
    (k v : ℕ) (m : List (ℕ × ℕ))
    → All (λ (e : ℕ × ℕ). e.0 < k) m
    → map_set k v m ≡ m ++ ((k, v) ∷ [])
unfolding map_set
map_set-end k v [] h = refl
map_set-end k v ((j, w) ∷ m) h = ground (arith, map_set-end k v m h.1)

All-grow :
    (a b : ℕ) (m : List (ℕ × ℕ))
    → a ≤ b
    → All (λ (e : ℕ × ℕ). e.0 ≤ a) m
    → All (λ (e : ℕ × ℕ). e.0 ≤ b) m
All-grow a b [] h k = tt
All-grow a b (e ∷ m) h k = (omega arith, All-grow a b m h k.1)

All-below :
    (a b : ℕ) (m : List (ℕ × ℕ))
    → a < b
    → All (λ (e : ℕ × ℕ). e.0 ≤ a) m
    → All (λ (e : ℕ × ℕ). e.0 < b) m
All-below a b [] h k = tt
All-below a b (e ∷ m) h k = (omega arith, All-below a b m h k.1)

All-snoc :
    (a v : ℕ) (m : List (ℕ × ℕ))
    → All (λ (e : ℕ × ℕ). e.0 ≤ a) m
    → All (λ (e : ℕ × ℕ). e.0 ≤ a) (m ++ ((a, v) ∷ []))
All-snoc a v [] k = (omega arith, tt)
All-snoc a v (e ∷ m) k = (k.0, All-snoc a v m k.1)

pub distribution_loop-cumulated :
    (ws : List ℕ) (index total : ℕ) (m : List (ℕ × ℕ))
    → All (λ (e : ℕ × ℕ). e.0 ≤ total) m
    → total + sum ws < 2 ^ 64
    → distribution_loop ws index total m ≡ m ++ cumulated ws index total
unfolding distribution_loop cumulated
distribution_loop-cumulated [] index total m h k = sym (append-nil m)
distribution_loop-cumulated (w ∷ ws) index total m h k = elim (Bool-cases (w == 0)) [
  | inl none_left ↦ rw none_left (
      distribution_loop-cumulated ws (suc index) total m h (omega arith)
      ∙ ap (λ t. m ++ cumulated ws (suc index) t) (no_more none_left))
  | inr some_left ↦
      let below = All-below total (total + w) m (ground arith) h in
      rw (some_left, no_wrap, map_set-end (total + w) index m below)
        (distribution_loop-cumulated ws (suc index) (total + w) (m ++ ((total + w, index) ∷ []))
            (All-snoc (total + w) index m (All-grow total (total + w) m (omega arith) h))
            (omega arith)
          ∙ append_assoc m ((total + w, index) ∷ []) (cumulated ws (suc index) (total + w)))
]
  where
    no_wrap : (total + w) % 2 ^ 64 ≡ total + w
    no_wrap = omega arith

    no_more : (w == 0) ≡ true → total ≡ total + w
    no_more e = omega (arith, ==→eq w 0 e)

pub distribution_map-cumulated :
    (ws : List ℕ) → sum ws < 2 ^ 64 → distribution_map ws ≡ cumulated ws 0 0
unfolding distribution_map
distribution_map-cumulated ws h = distribution_loop-cumulated ws 0 0 [] tt (omega arith)

pub upper_bound-cumulated :
    (ws : List ℕ) (index total r : ℕ)
    → total ≤ r
    → r < total + sum ws
    → upper_bound r (cumulated ws index total) ≡ some (index + owner ws (r - total))
unfolding upper_bound cumulated owner
upper_bound-cumulated [] index total r h k = absurd (omega arith)
upper_bound-cumulated (w ∷ ws) index total r h k =
    ground (
      arith,
      upper_bound-cumulated ws (suc index) (total + w) r,
      ap (owner ws) (same_rest total w r),
    )
  where
    same_rest : (total w r : ℕ) → r - (total + w) ≡ r - total - w
    same_rest total w r = omega arith

-- A map of one entry needs no draw.
select_from-upper_bound :
    (m : List (ℕ × ℕ)) (r v : ℕ) → upper_bound r m ≡ some v → select_from m r ≡ v
unfolding select_from upper_bound first_index
select_from-upper_bound [] r v e = absurd (ground arith)
select_from-upper_bound ((k, w) ∷ []) r v e = ground arith
select_from-upper_bound (a ∷ b ∷ m) r v e = rw (e, or_else) (ground arith)

no_offset : (r : ℕ) → 0 + r ≡ r
no_offset r = omega arith

no_start : (r : ℕ) → r - 0 ≡ r
no_start r = omega arith

-- A draw below the sum of the weights selects the response whose stretch it falls in.
pub select_response-owner :
    (ws : List ℕ) (r : ℕ) → sum ws < 2 ^ 64 → r < sum ws → select_response ws r ≡ owner ws r
unfolding select_response
select_response-owner ws r small h = rw (distribution_map-cumulated ws small) (
    select_from-upper_bound (cumulated ws 0 0) r (owner ws r) (
      upper_bound-cumulated ws 0 0 r (omega arith) (omega arith)
      ∙ ap some (no_offset (owner ws (r - 0)) ∙ ap (owner ws) (no_start r))))
