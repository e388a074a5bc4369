-- ===== src/Mock/Group.antt =====
-- `H2Server_Response_Group` of H2Server.h: one of several responses, drawn by weight.
pub mod Draw
pub mod Shares
use h2loadrunner.Base.{
  ℕ, zero, suc, ◌+◌, ◌%◌, ◌^◌, ltb, ◌==◌, if◌then◌else◌, Option, none, some, List, [], ◌∷◌, length,
  or_else,
}

-- `distribution_map[k] = v` on a `std::map`, a list in the order of the keys.
unfoldable pub map_set : ℕ → ℕ → List (ℕ × ℕ) → List (ℕ × ℕ)
map_set k v [] = (k, v) ∷ []
map_set k v ((j, w) ∷ m) =
    if ltb k j
    then (k, v) ∷ ((j, w) ∷ m)
    else if ltb j k
    then (j, w) ∷ map_set k v m
    else (k, v) ∷ m

-- The value at `upper_bound(r)`: of the first key above `r`.
unfoldable pub upper_bound : ℕ → List (ℕ × ℕ) → Option ℕ
upper_bound r [] = none
upper_bound r ((k, v) ∷ m) = if ltb r k then some v else upper_bound r m

-- The loop over the responses' weights, with `totalWeight`, a `uint64_t`.
unfoldable pub distribution_loop : List ℕ → ℕ → ℕ → List (ℕ × ℕ) → List (ℕ × ℕ)
distribution_loop [] index total m = m
distribution_loop (w ∷ ws) index total m =
    let total' = if w == 0 then total else (total + w) % 2 ^ 64 in
    distribution_loop ws (suc index) total' (if w == 0 then m else map_set total' index m)

unfoldable pub distribution_map : List ℕ → List (ℕ × ℕ)
unfolding distribution_loop map_set
distribution_map weights = distribution_loop weights 0 0 []

unfoldable pub last_key : ℕ → List (ℕ × ℕ) → ℕ
last_key k [] = k
last_key k ((j, v) ∷ m) = last_key j m

-- `total_weight`; the draw is uniform between 0 and one less.
unfoldable pub total_weight : List ℕ → ℕ
unfolding distribution_map last_key
total_weight weights = last_key 1 (distribution_map weights)

first_index : List (ℕ × ℕ) → ℕ
first_index [] = 0
first_index ((k, v) ∷ m) = v

-- `select_response()` where the draw, if there is one, gives `random_number`.
select_from : List (ℕ × ℕ) → ℕ → ℕ
select_from m random_number =
    if ltb 1 (length m)
    then or_else (upper_bound random_number m) (first_index m)
    else first_index m

unfoldable pub select_response : List ℕ → ℕ → ℕ
unfolding distribution_map select_from first_index upper_bound
select_response weights random_number = select_from (distribution_map weights) random_number
