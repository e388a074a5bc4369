-- ===== src/Load/Template.antt =====
-- Texts with variables, h2load_utils.cc: `variable_present`, `split_string_and_var`; and the rows of the
-- table of variables in `load_generic_variables_from_csv_file`.
pub mod Splits
pub mod Rows
pub mod Known
use h2loadrunner.Base.{
  ℕ, zero, suc, ◌+◌, ◌-◌, ◌==◌, ltb, leb, if◌then◌else◌, Bool, true, false, not, ◌&&◌, Option, none,
  some, List, [], ◌∷◌, ◌++◌, length, drop, Outcome, ok, stop, exits, map_ok,
}
use h2loadrunner.Text.{Bytes, codes, find_from, substr}
use h2loadrunner.Load.Variable.{VariableManager, get_gen_var_id}
use h2loadrunner.Load.Request.{StringWithVariables}

-- Where the next variable starts and ends; the size less one is a large number for an empty text.
unfoldable pub variable_present : Bytes → ℕ → Option (ℕ × ℕ)
variable_present source start_offset =
    if not (length source == 0) && leb (length source - 1) start_offset
    then none
    else elim (find_from source (codes "${") start_offset) [
      | none ↦ none
      | some var_start ↦ elim (find_from source (codes "}") var_start) [
        | none ↦ none
        | some var_end ↦ if ltb var_end var_start then none else some (var_start, var_end)
      ]
    ]

-- A segment and the variable behind it, in front of the rest.
unfoldable pub put_in_front : Bytes → ℕ → StringWithVariables → StringWithVariables
put_in_front segment id r = record {
  string_segments = segment ∷ r.string_segments;
  variable_ids_in_between = id ∷ r.variable_ids_in_between;
}

-- What is in front of a variable, the variable, and the result for the text behind it.
unfoldable pub put_variable :
    VariableManager
    → Bytes
    → ℕ
    → ℕ
    → ℕ
    → Option (Outcome StringWithVariables)
    → Option (Outcome StringWithVariables)
unfolding put_in_front
put_variable m source offset var_start var_end none = none
put_variable m source offset var_start var_end (some rest) =
    some (elim (get_gen_var_id (substr source (var_start + 2) (var_end - (var_start + 2))) m) [
      | none ↦ stop exits
      | some id ↦ map_ok (put_in_front (substr source offset (var_start - offset)) id) rest
    ])

-- The `while` loop from an offset on; `none` where the fuel runs out.
unfoldable pub split_loop : ℕ → VariableManager → Bytes → ℕ → Option (Outcome StringWithVariables)
unfolding put_variable
split_loop zero m source offset = none
split_loop (suc fuel) m source offset = elim (variable_present source offset) [
  | none ↦
      some (ok (record { string_segments = drop offset source ∷ []; variable_ids_in_between = [] }))
  | some (var_start, var_end) ↦
      put_variable m source offset var_start var_end (split_loop fuel m source (var_end + 1))
]

-- Each round goes on behind a brace, so a round for each byte and one more are enough.
unfoldable pub split_string_and_var : VariableManager → Bytes → Option (Outcome StringWithVariables)
unfolding split_loop
split_string_and_var m source = split_loop (suc (length source)) m source 0

-- The loop that adds empty cells to a row that is too short: its bound is computed anew each time.
unfoldable pub pad_loop : ℕ → ℕ → ℕ → List Bytes → List Bytes
pad_loop zero columns i row = row
pad_loop (suc fuel) columns i row =
    let rest = pad_loop fuel columns (i + 1) (row ++ ([] ∷ [])) in
    if ltb i (columns - length row) then rest else row

-- A round for each missing cell is enough.
unfoldable pub pad_row : ℕ → List Bytes → List Bytes
unfolding pad_loop
pad_row columns row = pad_loop (columns - length row) columns 0 row
