-- ===== src/Load/Schedule.antt =====
-- The choice of the next scenario: get_index_of_next_scenario_to_run of base_client.cc, and
-- find_common_multiple of h2load_utils.cc.
pub mod Multiple
pub mod Shares
use h2loadrunner.Base.{
  ℕ, zero, suc, ◌+◌, ◌*◌, ◌/◌, ◌%◌, ◌^◌, ◌==◌, ltb, leb, if◌then◌else◌, Bool, true, false, ◌&&◌,
  ◌||◌, Option, none, some, List, [], ◌∷◌, map, reverse, length, or_else, Outcome, ok, stop, exits,
  ◌>>=◌,
}
use h2loadrunner.Base.Ordered.{set_insert, set_insert_all}
use h2loadrunner.Mock.Group.{map_set, upper_bound, last_key}

-- A multiple of the value is in the set. The values are not zero.
has_multiple : ℕ → List ℕ → Bool
has_multiple v [] = false
has_multiple v (m ∷ ms) = (leb 1 (m / v) && (m % v == 0)) || has_multiple v ms

-- The loop from the greatest value down.
keep_loop : List ℕ → List ℕ → List ℕ
keep_loop [] kept = kept
keep_loop (v ∷ vs) kept = keep_loop vs (if has_multiple v kept then kept else set_insert ltb v kept)

-- The loop over the set, with `retVal`, a `uint64_t`.
product_loop : List ℕ → ℕ → ℕ
product_loop [] product = product
product_loop (v ∷ vs) product = product_loop vs (product * v % 2 ^ 64)

-- `final_set`: of the values, those that divide no other one of it.
unfoldable pub final_set : List ℕ → List ℕ
unfolding has_multiple keep_loop set_insert_all
final_set input = keep_loop (reverse (set_insert_all ltb input [])) []

unfoldable pub find_common_multiple : List ℕ → ℕ
unfolding product_loop
find_common_multiple input = product_loop (final_set input) 1

-- What the choice reads of a scenario.
pub record ScheduledScenario : Type 0 where
  pub weight : ℕ
  pub requests_size : ℕ

-- `(scenario.weight * common_multiple) / scenario.requests.size()`.
unfoldable pub share : ℕ → ScheduledScenario → ℕ
share common_multiple s = s.weight * common_multiple % 2 ^ 64 / s.requests_size

-- The loop over the scenarios.
schedule_loop : ℕ → List ScheduledScenario → ℕ → ℕ → List (ℕ × ℕ) → List (ℕ × ℕ)
schedule_loop common_multiple [] index total m = m
schedule_loop common_multiple (s ∷ ss) index total m =
    let total' = if ltb 0 s.weight then (total + share common_multiple s) % 2 ^ 64 else total in
    schedule_loop common_multiple ss (suc index) total'
      (if ltb 0 s.weight then map_set total' index m else m)

unfoldable pub schedule_map : List ScheduledScenario → List (ℕ × ℕ)
unfolding schedule_loop share find_common_multiple final_set
schedule_map ss = schedule_loop (find_common_multiple (map (λ s. s.requests_size) ss)) ss 0 0 []

-- `schedule_map.rbegin()->first`. With weights of 0 alone the program ends.
greatest_key : List (ℕ × ℕ) → Outcome ℕ
greatest_key [] = stop exits
greatest_key ((k, v) ∷ m) = ok (last_key k m)

-- `total_weight`: the draw is uniform between 0 and one less.
unfoldable pub schedule_total : List ScheduledScenario → Outcome ℕ
unfolding schedule_map greatest_key
schedule_total ss = greatest_key (schedule_map ss)

-- The scenario that a draw selects.
unfoldable pub get_index_of_next_scenario_to_run : List ScheduledScenario → ℕ → Outcome ℕ
unfolding schedule_total schedule_map
get_index_of_next_scenario_to_run ss random_number =
    if leb (length ss) 1
    then ok 0
    else schedule_total ss >>= λ total. ok (or_else (upper_bound random_number (schedule_map ss)) 0)
