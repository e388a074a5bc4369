-- ===== src/Tests/Load.antt =====
-- The variables, the choice of a scenario, and the distribution of requests.
use h2loadrunner.Base.{subst, sym, false}
use h2loadrunner.Text.{find_from, find, starts_with}
use h2loadrunner.Cookie.Jar.{RequestData}
use h2loadrunner.Load.Request.{Scenario, StringWithVariables}
use h2loadrunner.Load.Request.First.{empty_request}
use h2loadrunner.Load.Request.Assemble.{assemble_string, variable_value}
use h2loadrunner.Load.Template.{split_loop, put_variable, put_in_front, variable_present}
use h2loadrunner.Load.Template.Known.{assemble_string_total}
use h2loadrunner.Base.{
  ◌≡◌, ◌≢◌, ◌↔◌, ◌≤◌, ◌<◌, ◌*◌, ◌-◌, ◌%◌, ◌^◌, ◌+◌, ◌/◌, refl, false, arith, ℕ, some, List, [], ◌∷◌,
  Outcome, ok, length,
}
use h2loadrunner.Base.Maps.{map_find}
use h2loadrunner.Text.{Bytes, codes, lt_bytes}
use h2loadrunner.Mock.Group.{map_set, last_key}
use h2loadrunner.Mock.Group.Shares.{count_below}
use h2loadrunner.Load.Variable.{GenericVariable, VariableManager, slice, add64, get_gen_var_id}
use h2loadrunner.Load.Variable.Slices.{InSlice, slice-divides}
use h2loadrunner.Load.Variable.Turns.{inc_times, from_slice, inc_times-apart}
use h2loadrunner.Load.Schedule.{
  ScheduledScenario, find_common_multiple, final_set, schedule_total, share,
}
use h2loadrunner.Load.Schedule.Shares.{selects, multiple, count_below-get_index}
use h2loadrunner.Load.Distribution.{distribute, total, total-distribute}
use h2loadrunner.Load.Totals.{WorkerStats, report, requests_todo, report_accounts}
use h2loadrunner.Load.Template.{pad_row, split_string_and_var}
use h2loadrunner.Load.Template.Rows.{pad_row-length}

slice-divides_example :
    ((10 ≤ 15) × (15 < 22))
    ↔ ((i : ℕ) × (i < 5) × InSlice 5 10 22 i 15 × ((j : ℕ) → j < 5 → InSlice 5 10 22 j 15 → i ≡ j))
slice-divides_example =
    slice-divides 5 10 22 (omega arith) (omega arith) (omega arith) (omega arith) 15

inc_times-apart_example :
    (inc_times 7 (from_slice (10, 13))).curr_req_variable_values
    ≢ (inc_times 9 (from_slice (18, 20))).curr_req_variable_values
unfolding slice
inc_times-apart_example =
    inc_times-apart 5 10 22 0 3 7 9 (10, 13) (18, 20) (omega arith) (omega arith) (omega arith)
      (omega arith) (omega arith) (omega arith) refl refl

abbrev numbers : GenericVariable
numbers = record {
  var_name = codes "n";
  range_start = 5;
  range_end = 100;
  var_value_list = [];
  full_range_len = 3;
}

abbrev two_scenarios : List ScheduledScenario
two_scenarios =
    record { weight = 1; requests_size = 2 } ∷ record { weight = 2; requests_size = 3 } ∷ []

count_below-get_index_example :
    count_below 7 (selects two_scenarios 1) * 3 ≡ 2 * multiple two_scenarios
unfolding final_set find_common_multiple share schedule_total map_set last_key
count_below-get_index_example =
    count_below-get_index two_scenarios 1 7 (record { weight = 2; requests_size = 3 }) (omega arith)
      (omega arith, (omega arith, tt)) (omega arith) (omega arith, (omega arith, tt)) (omega arith)
      (omega arith) refl refl

total-distribute_example : total (distribute false 100 7 3) ≡ 100
total-distribute_example = total-distribute 100 7 3 (omega arith) (omega arith)

abbrev worker_stats : ℕ → ℕ → WorkerStats
worker_stats success errors = record {
  req_todo = 10;
  stats = record {
    req_started = 9;
    req_done = 8;
    req_success = success;
    req_status_success = 3;
    req_failed = success + errors - 3;
    req_error = errors;
    req_timedout = 0;
    bytes_head = 0;
    bytes_head_decomp = 0;
    bytes_body = 0;
    status = 0 ∷ 0 ∷ 0 ∷ 0 ∷ 0 ∷ 0 ∷ [];
  };
}

abbrev workers : List WorkerStats
workers = worker_stats 4 2 ∷ worker_stats 5 3 ∷ []

report_accounts_example :
    (add64 (report workers).stats.req_failed (report workers).stats.req_status_success
      ≡ requests_todo workers % 2 ^ 64)
    × (add64 (report workers).stats.req_error (report workers).stats.req_success
        ≡ requests_todo workers % 2 ^ 64)
report_accounts_example = report_accounts workers (refl, (refl, tt))

pad_row-length_example : length (pad_row 5 (codes "a" ∷ [])) ≡ 1 + (5 - 1 + 1) / 2
pad_row-length_example = pad_row-length 5 (codes "a" ∷ [])

abbrev one_variable : VariableManager
one_variable = record { generic_variables = numbers ∷ []; var_name_to_id = (codes "n", 0) ∷ [] }

abbrev in_braces : ℕ → Outcome Bytes
in_braces id = ok (codes "${n}")

-- A scenario whose variable has a value that was picked.
abbrev picked_scenario : Scenario
picked_scenario = record {
  requests = [];
  run_requests_in_parallel = false;
  variable_manager = one_variable;
  number_of_variables_from_value_pickers = 1;
}

abbrev picking : RequestData
picking = record (empty_request [] 0) { variable_index_to_value = codes "7" ∷ [] }

id_of_n : (name : Bytes) (id : ℕ) → get_gen_var_id name one_variable ≡ some id → id ≡ 0
unfolding get_gen_var_id map_find lt_bytes
id_of_n [] id h = absurd (ground arith)
id_of_n (c ∷ []) id h = ground arith
id_of_n (c ∷ d ∷ s) id h = absurd (ground arith)

picked_value :
    (name : Bytes) (id : ℕ)
    → get_gen_var_id name one_variable ≡ some id
    → (v : Bytes) × (variable_value picked_scenario 0 picking id ≡ ok v)
unfolding variable_value
picked_value name id h =
    subst (λ i. (v : Bytes) × (variable_value picked_scenario 0 picking i ≡ ok v))
      (sym (id_of_n name id h)) (codes "7", refl)

abbrev split_path : StringWithVariables
split_path = record {
  string_segments = codes "/a/" ∷ (codes "?b" ∷ []);
  variable_ids_in_between = 0 ∷ [];
}

assemble_string_total_example :
    (text : Bytes) × (assemble_string picked_scenario 0 picking split_path ≡ ok text)
unfolding split_string_and_var split_loop put_variable put_in_front variable_present find_from find
    starts_with get_gen_var_id map_find lt_bytes
assemble_string_total_example =
    assemble_string_total one_variable (codes "/a/${n}?b") split_path picked_scenario 0 picking refl
      picked_value
