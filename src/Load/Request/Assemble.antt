-- ===== src/Load/Request/Assemble.antt =====
-- `assemble_string`: a text with the values of variables in between.
use h2loadrunner.Base.{
  ℕ, ltb, if◌then◌else◌, List, [], ◌∷◌, ◌++◌, get_elem?, or_stop, Outcome, ok, stop, aborts, ◌>>=◌,
  map_ok,
}
use h2loadrunner.Text.{Bytes}
use h2loadrunner.Cookie.Jar.{RequestData}
use h2loadrunner.Load.Variable.{produce_value}
use h2loadrunner.Load.Request.{StringWithVariables, Scenario}

-- The value of a variable: one that was picked from a response, or one of a range or a table. An index
-- past the end of a vector is undefined in the code, and stops here.
unfoldable pub variable_value : Scenario → ℕ → RequestData → ℕ → Outcome Bytes
variable_value sc req_index d var_id =
    if ltb var_id sc.number_of_variables_from_value_pickers
    then or_stop (get_elem? d.variable_index_to_value var_id) aborts
    else or_stop (get_elem? sc.variable_manager.generic_variables var_id) aborts >>= λ v.
        or_stop (get_elem? d.user_ids var_id) aborts >>= λ user_id.
        produce_value v req_index user_id

-- The loop over the variables, with the text so far.
unfoldable pub assemble_loop : (ℕ → Outcome Bytes) → List Bytes → List ℕ → Bytes → Outcome Bytes
assemble_loop value segments [] result = ok result
assemble_loop value [] (id ∷ ids) result = stop aborts
assemble_loop value (s ∷ segments) (id ∷ ids) result =
    value id >>= λ v. assemble_loop value segments ids ((result ++ s) ++ v)

-- `string_segments.back()`, undefined in the code where there is none.
unfoldable pub back : List Bytes → Outcome Bytes
back [] = stop aborts
back (s ∷ []) = ok s
back (s ∷ t ∷ ss) = back (t ∷ ss)

unfoldable pub assemble_string : Scenario → ℕ → RequestData → StringWithVariables → Outcome Bytes
unfolding assemble_loop back variable_value
assemble_string sc req_index d source =
    assemble_loop (variable_value sc req_index d) source.string_segments
      source.variable_ids_in_between []
    >>= λ text. map_ok (◌++◌ text) (back source.string_segments)
