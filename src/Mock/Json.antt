-- ===== src/Mock/Json.antt =====
-- JSON pointers of H2Server_Response.h, with the extension `/~#N#name` and `/~#N#value` for the N-th
-- member of an object. rapidjson is not part of the repository: `Json` holds what is called of it.
pub mod Nth
pub mod Pieces
use h2loadrunner.Base.{
  ℕ, zero, suc, ◌+◌, ◌-◌, ◌==◌, ltb, if◌then◌else◌, Bool, true, false, Option, none, some, List, [],
  ◌∷◌, ◌++◌, reverse, length, drop, Outcome, ok, stop, exits, aborts, or_stop, map_ok, or_else,
  map_some, ◌>>=◌,
}
use h2loadrunner.Text.{Bytes, codes, substr, find, find_from, eq_bytes, c_str}
use h2loadrunner.Text.Decimal.{
  ℤ, pos, negsuc, to_string, to_string_ℤ, stoi, value, invalid_argument, out_of_range,
}

-- The calls of rapidjson. A member is a name and a value; each `as_…` is an `Is…` test with its getter.
pub record Json (Value : Type 0) : Type 0 where
  -- `Document::Parse`.
  pub parse : Bytes → Value
  -- `MemberBegin` to `MemberEnd`, on an object; on any other value rapidjson asserts.
  pub members : Value → Option (List (Value × Value))
  -- `Pointer(text).Get(value)`.
  pub get : Bytes → Value → Option Value
  pub as_string : Value → Option Bytes
  pub as_bool : Value → Option Bool
  pub as_uint64 : Value → Option ℕ
  -- `std::to_string(GetDouble())`.
  pub as_double : Value → Option Bytes
  -- What `Accept(writer)` writes.
  pub as_object : Value → Option Bytes

abbrev pub extended_json_pointer_indicator : Bytes
extended_json_pointer_indicator = codes "/~#"

abbrev pub extended_json_pointer_name_indicator : Bytes
extended_json_pointer_name_indicator = codes "#name"

abbrev pub extended_json_pointer_value_indicator : Bytes
extended_json_pointer_value_indicator = codes "#value"

module _ {A : Type 0} where
  -- The loop from the first member on, with its counter.
  nth_forward : List A → ℕ → ℕ → Option A
  nth_forward [] index n = none
  nth_forward (m ∷ ms) index n = if index == n then some m else nth_forward ms (index + 1) n

  -- The loop from the last member down, which stops when it reaches the first one; the counter and
  -- `n` are written without their signs.
  nth_backward : List A → ℕ → ℕ → Option A
  nth_backward [] index n = none
  nth_backward (m ∷ []) index n = none
  nth_backward (m ∷ m' ∷ ms) index n =
      if index == n then some m else nth_backward (m' ∷ ms) (index + 1) n

  -- `&(d.MemberBegin()->…)`.
  first : List A → Option A
  first [] = none
  first (m ∷ ms) = some m

  -- What `getNthValue` and `getNthName` have in common.
  unfoldable pub get_nth : List A → ℤ → Option A
  unfolding nth_forward nth_backward first
  get_nth ms (pos zero) = none
  get_nth ms (pos (suc k)) = nth_forward ms 1 (suc k)
  get_nth ms (negsuc k) =
      if length ms == suc k then first ms else nth_backward (reverse ms) 1 (suc k)

-- The loop of `splitComplexJsonPointer` from `start_pos` on.
split_loop : ℕ → Bytes → ℕ → List Bytes → Option (List Bytes)
split_loop zero json_pointer start_pos json_pointers = none
split_loop (suc fuel) json_pointer start_pos json_pointers =
    elim (find_from json_pointer extended_json_pointer_indicator start_pos) [
      | none ↦ some (json_pointers ++ (drop start_pos json_pointer ∷ []))
      | some end_pos ↦
          let before =
            if end_pos == start_pos
            then json_pointers
            else json_pointers ++ (substr json_pointer start_pos (end_pos - start_pos) ∷ []) in
          elim (find_from json_pointer (b'/' ∷ []) (end_pos + 1)) [
            | none ↦ some (before ++ (drop end_pos json_pointer ∷ []))
            | some next ↦
                split_loop fuel json_pointer next
                  (before ++ (substr json_pointer end_pos (next - end_pos) ∷ []))
          ]
    ]

unfoldable pub split_complex_json_pointer : Bytes → List Bytes
unfolding split_loop find_from
split_complex_json_pointer json_pointer =
    or_else (split_loop (suc (length json_pointer)) json_pointer 0 []) []

module _ {Value : Type 0} (j : Json Value) where
  unfoldable pub get_nth_value : Value → ℤ → Outcome (Option Value)
  unfolding get_nth
  get_nth_value d n =
      map_ok (λ ms. map_some (λ (m : Value × Value). m.1) (get_nth ms n))
        (or_stop (j.members d) aborts)

  unfoldable pub get_nth_name : Value → ℤ → Outcome (Option Value)
  unfolding get_nth
  get_nth_name d n =
      map_ok (λ ms. map_some (λ (m : Value × Value). m.0) (get_nth ms n))
        (or_stop (j.members d) aborts)

  -- The ladder of tests on a value that is there. `GetString` is read up to its first zero byte.
  value_to_str : Value → Bytes
  value_to_str v = elim (j.as_string v) [
    | some s ↦ c_str s
    | none ↦ elim (j.as_bool v) [
      | some true ↦ codes "true"
      | some false ↦ codes "false"
      | none ↦ elim (j.as_uint64 v) [
        | some n ↦ to_string n
        | none ↦ elim (j.as_double v) [
          | some s ↦ s
          | none ↦ elim (j.as_object v) [ some s ↦ c_str s | none ↦ [] ]
        ]
      ]
    ]
  ]

  -- `convertRapidVJsonValueToStr`.
  unfoldable pub convert_rapid_v_json_value_to_str : Option Value → Bytes
  unfolding value_to_str to_string c_str
  convert_rapid_v_json_value_to_str none = []
  convert_rapid_v_json_value_to_str (some v) = value_to_str v

  -- A piece `/~#N…`: the value it leads to, and whether the loop breaks there.
  extended_step : Bytes → Value → ℤ → Outcome (Bool × Option Value)
  extended_step piece v index =
      let str = extended_json_pointer_indicator ++ to_string_ℤ index in
      let name_or_value = drop (length str) piece in
      if ltb (length piece) (length str)
      then stop exits
      else if eq_bytes name_or_value extended_json_pointer_name_indicator
      then map_ok (λ r. (true, r)) (get_nth_name v index)
      else if eq_bytes name_or_value extended_json_pointer_value_indicator
      then map_ok (λ r. (false, r)) (get_nth_value v index)
      else ok (false, some v)

  pointer_step : Bytes → Value → Outcome (Bool × Option Value)
  unfolding extended_step
  pointer_step piece v = elim (find piece extended_json_pointer_indicator) [
    | none ↦ ok (false, j.get (c_str piece) v)
    | some _ ↦ elim (stoi (drop (length extended_json_pointer_indicator) piece)) [
      | value index ↦ extended_step piece v index
      | invalid_argument ↦ stop exits
      | out_of_range ↦ stop exits
    ]
  ]

  -- The loop over the pieces; it breaks at a name and at a value that is missing.
  pointer_loop : List Bytes → Value → Outcome (Option Value)
  unfolding pointer_step
  pointer_loop [] v = ok (some v)
  pointer_loop (piece ∷ pieces) v = elim (pointer_step piece v) [
    | stop s ↦ stop s
    | ok (_, none) ↦ ok none
    | ok (true, some v') ↦ ok (some v')
    | ok (false, some v') ↦ pointer_loop pieces v'
  ]

  unfoldable pub get_value_from_json_ptr : Value → Bytes → Outcome Bytes
  unfolding pointer_loop split_complex_json_pointer
  get_value_from_json_ptr d json_pointer =
      map_ok convert_rapid_v_json_value_to_str
        (pointer_loop (split_complex_json_pointer json_pointer) d)
