-- ===== src/Load/Variable.antt =====
-- Variables of a scenario (config_schema.h), the values that a client gives them in turn (h2load.h) and
-- the ranges that the clients share (base_client.cc, slice_var_ids).
pub mod Values
pub mod Slices
pub mod Turns
pub mod Assign
use h2loadrunner.Base.{
  ℕ, zero, suc, ◌+◌, ◌-◌, ◌*◌, ◌/◌, ◌%◌, ◌^◌, ◌==◌, ltb, leb, if◌then◌else◌, min, Bool, true, false,
  not, ◌&&◌, Option, none, some, List, [], ◌∷◌, ◌++◌, length, get_elem?, or_else, Outcome, ok, stop,
  exits, aborts, ◌>>=◌,
}
use h2loadrunner.Base.Maps.{map_assign, map_find}
use h2loadrunner.Text.{Bytes, lt_bytes}
use h2loadrunner.Text.Decimal.{to_string}

pub record GenericVariable : Type 0 where
  pub var_name : Bytes
  pub range_start : ℕ
  pub range_end : ℕ
  pub var_value_list : List (List Bytes)
  pub full_range_len : ℕ

-- The length of the longest column.
longest : List (List Bytes) → ℕ
longest [] = 0
longest (c ∷ cs) = let n = longest cs in if ltb (length c) n then n else length c

-- The constructor for a table of values, which has a column at least.
unfoldable pub list_variable : Bytes → List (List Bytes) → GenericVariable
unfolding longest
list_variable name value_list = record {
  var_name = name;
  range_start = 0;
  range_end = longest value_list;
  var_value_list = value_list;
  full_range_len = 0;
}

-- The constructor for a range.
unfoldable pub range_variable : Bytes → ℕ → ℕ → Outcome GenericVariable
range_variable name start end =
    if not (end == 0) && leb end start
    then stop exits
    else ok (record {
      var_name = name;
      range_start = start;
      range_end = end;
      var_value_list = [];
      full_range_len = length (to_string end);
    })

abbrev pub replicate {ℓ} : {A : Type ℓ} → ℕ → A → List A
replicate zero a = []
replicate (suc n) a = a ∷ replicate n a

-- The entry of a column, whose rows are used again from the first one on.
row_value : List Bytes → ℕ → Bytes
row_value column user_id =
    if length column == 0 then [] else or_else (get_elem? column (user_id % length column)) []

-- `produce_value(col, user_id)`. A number with more digits than the end of the range throws.
unfoldable pub produce_value : GenericVariable → ℕ → ℕ → Outcome Bytes
unfolding row_value
produce_value v col user_id =
    let text = to_string user_id in
    if not (length v.var_value_list == 0)
    then ok (
        row_value (or_else (get_elem? v.var_value_list (col % length v.var_value_list)) []) user_id)
    else if ltb v.range_start v.range_end
    then (if ltb v.full_range_len (length text)
        then stop aborts
        else ok (replicate (v.full_range_len - length text) b'0' ++ text))
    else ok []

-- `Variable_Manager`.
pub record VariableManager : Type 0 where
  pub generic_variables : List GenericVariable
  pub var_name_to_id : List (Bytes × ℕ)

-- `insert`: a name that is there already is kept as it is.
unfoldable pub insert_variable : GenericVariable → VariableManager → VariableManager
insert_variable v m = elim (map_find lt_bytes v.var_name m.var_name_to_id) [
  | some id ↦ m
  | none ↦ record {
    generic_variables = m.generic_variables ++ (v ∷ []);
    var_name_to_id = map_assign lt_bytes v.var_name (length m.var_name_to_id) m.var_name_to_id;
  }
]

unfoldable pub get_gen_var_id : Bytes → VariableManager → Option ℕ
get_gen_var_id name m = map_find lt_bytes name m.var_name_to_id

-- `Scenario_Data_Per_Client`.
pub record ScenarioDataPerClient : Type 0 where
  pub req_variable_values_start : List ℕ
  pub req_variable_values_end : List ℕ
  pub curr_req_variable_values : List ℕ

-- One round of `inc_var`: the next value of a variable, which starts again after its last one.
unfoldable pub inc_value : ℕ → ℕ → ℕ → ℕ
inc_value start end curr =
    let next = (curr + 1) % 2 ^ 64 in
    if leb end start then curr else if leb end next then start else next

-- The three vectors have one length.
inc_loop : List ℕ → List ℕ → List ℕ → List ℕ
unfolding inc_value
inc_loop (s ∷ ss) (e ∷ es) (c ∷ cs) = inc_value s e c ∷ inc_loop ss es cs
inc_loop _ _ cs = cs

unfoldable pub inc_var : ScenarioDataPerClient → ScenarioDataPerClient
unfolding inc_loop
inc_var d = record d {
  curr_req_variable_values =
      inc_loop d.req_variable_values_start d.req_variable_values_end d.curr_req_variable_values;
}

-- `uint64_t` additions and subtractions.
abbrev pub add64 : ℕ → ℕ → ℕ
add64 a b = (a + b) % 2 ^ 64

abbrev pub sub64 : ℕ → ℕ → ℕ
sub64 a b = (a + (2 ^ 64 - b)) % 2 ^ 64

-- The slice of a range that a client gets: `none` where there are fewer values than clients.
unfoldable pub slice : ℕ → ℕ → ℕ → ℕ → Option (ℕ × ℕ)
slice nclients my_id range_start range_end =
    let tokens_per_client = sub64 range_end range_start / nclients in
    let tokens_left = sub64 range_end range_start % nclients in
    let start =
      add64 (add64 range_start (my_id * tokens_per_client % 2 ^ 64)) (min my_id tokens_left) in
    if tokens_per_client == 0
    then none
    else some
        (start, add64 (add64 start tokens_per_client) (if leb tokens_left my_id then 0 else 1))
