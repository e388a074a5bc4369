-- ===== src/Load/Variable/Assign.antt =====
-- `slice_var_ids`: the ranges and first values of the variables of a scenario for one client.
use h2loadrunner.Base.{
  ℕ, suc, ltb, if◌then◌else◌, Bool, not, ◌&&◌, Option, none, some, List, [], ◌∷◌, map_some,
}
use h2loadrunner.Load.Variable.{GenericVariable, ScenarioDataPerClient, slice}

-- The range of a variable and its first value. A value that is picked from responses has no range; without
-- slicing, the first value is drawn.
abbrev assigned : ℕ → ℕ → Bool → ℕ → ℕ → ℕ → GenericVariable → Option (ℕ × ℕ × ℕ)
assigned nclients my_id slicing drawn value_pickers var_id v =
    if ltb var_id value_pickers
    then some (0, 0, 0)
    else if not slicing
    then some (v.range_start, v.range_end, drawn)
    else map_some (λ (start, end). (start, end, start))
        (slice nclients my_id v.range_start v.range_end)

abbrev put_first : ℕ × ℕ × ℕ → ScenarioDataPerClient → ScenarioDataPerClient
put_first (start, end, curr) d = record {
  req_variable_values_start = start ∷ d.req_variable_values_start;
  req_variable_values_end = end ∷ d.req_variable_values_end;
  curr_req_variable_values = curr ∷ d.curr_req_variable_values;
}

abbrev no_variables : ScenarioDataPerClient
no_variables = record {
  req_variable_values_start = [];
  req_variable_values_end = [];
  curr_req_variable_values = [];
}

-- The loop over the variables of a scenario, with what is drawn for each; `none` where one has fewer values
-- than there are clients: the first worker then ends the process, the others give up.
abbrev assign_loop :
    ℕ → ℕ → Bool → (ℕ → ℕ) → ℕ → ℕ → List GenericVariable → Option ScenarioDataPerClient
assign_loop nclients my_id slicing draws value_pickers var_id [] = some no_variables
assign_loop nclients my_id slicing draws value_pickers var_id (v ∷ vs) =
    let rest = assign_loop nclients my_id slicing draws value_pickers (suc var_id) vs in
    elim (assigned nclients my_id slicing (draws var_id) value_pickers var_id v) [
      | none ↦ none
      | some a ↦ map_some (put_first a) rest
    ]

-- A single client, or one that is not a controller, has the whole ranges.
abbrev whole_ranges : List GenericVariable → ScenarioDataPerClient
whole_ranges [] = no_variables
whole_ranges (v ∷ vs) = put_first (v.range_start, v.range_end, v.range_start) (whole_ranges vs)

abbrev pub slice_var_ids :
    ℕ → Bool → ℕ → Bool → (ℕ → ℕ) → ℕ → List GenericVariable → Option ScenarioDataPerClient
slice_var_ids nclients is_controller_client my_id slicing draws value_pickers vs =
    if ltb 1 nclients && is_controller_client
    then assign_loop nclients my_id slicing draws value_pickers 0 vs
    else some (whole_ranges vs)
