-- ===== src/Load/Request/Pick.antt =====
-- `run_post_response_action`: values picked from a finished request and its response into variables.
use h2loadrunner.Base.{
  ℕ, zero, suc, if◌then◌else◌, or_else, Option, none, some, List, [], ◌∷◌, Outcome, ok, ◌>>=◌,
}
use h2loadrunner.Base.Maps.{map_find}
use h2loadrunner.Text.{Bytes, codes, eq_bytes, c_str}
use h2loadrunner.Mock.Json.{Json, get_value_from_json_ptr}
use h2loadrunner.Cookie.Jar.{RequestData, HeaderMap, ci_less}
use h2loadrunner.Load.Request.{
  Library, RegexPicker, ValueSourceType, req_header, req_pointer, res_header, res_pointer,
}

-- A write to an entry of a vector.
abbrev pub set {ℓ} : {A : Type ℓ} → List A → ℕ → A → List A
set [] i v = []
set (x ∷ xs) zero v = v ∷ xs
set (x ∷ xs) (suc i) v = x ∷ set xs i v

-- The value of the first header map that has the name.
unfoldable pub first_header : Bytes → List HeaderMap → Option Bytes
first_header name [] = none
first_header name (hs ∷ more) =
    let rest = first_header name more in
    elim (map_find ci_less name hs) [ some v ↦ some v | none ↦ rest ]

-- The tests for a pseudo header are on `source`, which is still empty.
pseudo_header : RequestData → Bytes → Bytes
pseudo_header r source =
    if eq_bytes source (codes ":path")
    then r.path
    else if eq_bytes source (codes ":scheme")
    then r.schema
    else if eq_bytes source (codes ":method")
    then r.method
    else if eq_bytes source (codes ":authority")
    then r.authority
    else source

request_header : RequestData → Bytes → Bytes
unfolding pseudo_header
request_header r name = elim (map_find ci_less name r.req_headers_of_individual) [
  | some v ↦ v
  | none ↦ elim (map_find ci_less name r.req_headers_from_config) [
    | some v ↦ v
    | none ↦ pseudo_header r []
  ]
]

module _ {Value : Type 0} (lib : Library) (j : Json Value) where
  -- The `switch`. The case of the request's payload falls through to that of the response's.
  unfoldable pub picked_source : ValueSourceType → Bytes → RequestData → Outcome Bytes
  unfolding request_header first_header
  picked_source res_header name r = ok (or_else (first_header name r.resp_headers) [])
  picked_source req_header name r = ok (request_header r name)
  picked_source req_pointer name r =
      get_value_from_json_ptr j (j.parse (c_str r.req_payload)) name >>= λ _.
      get_value_from_json_ptr j (j.parse (c_str r.resp_payload)) name
  picked_source res_pointer name r = get_value_from_json_ptr j (j.parse (c_str r.resp_payload)) name

  -- The loop over the pickers; what does not match leaves an empty text.
  unfoldable pub run_post_response_action : List RegexPicker → RequestData → Outcome RequestData
  unfolding picked_source
  run_post_response_action [] r = ok r
  run_post_response_action (p ∷ ps) r =
      picked_source p.where_to_pick_up_from p.source r >>= λ source.
      run_post_response_action ps (record r {
        variable_index_to_value =
            set r.variable_index_to_value p.unique_id
              (or_else (lib.regex_search p.picker_regexp source) []);
      })
