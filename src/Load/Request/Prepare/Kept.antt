-- ===== src/Load/Request/Prepare/Kept.antt =====
-- The parts of `prepare_next_request` leave a request in its place in the scenario, with its user.
use h2loadrunner.Base.{
  Ok, Ok-any, Ok-bind, Ok-map, if_both, arith, ℕ, ◌≡◌, refl, ◌∙◌, Bool, true, false, Option, none,
  some, List, [], ◌∷◌, Outcome, ok, stop,
}
use h2loadrunner.Text.{Bytes, is_empty}
use h2loadrunner.Mock.Json.{Json}
use h2loadrunner.Cookie.Jar.{RequestData, Jar, produce_request_cookie_header, put_cookie_header}
use h2loadrunner.Load.Request.{
  StringWithVariables, Request, Scenario, Library, UriAction, RegexPicker, LuaValue, LuaCall,
  input_uri, same_with_last_one, from_response_header, from_lua_script, from_x_path,
  from_json_pointer, input_with_variable, lua_string, lua_table, lua_boolean, lua_other,
  no_function, raises_error, returns,
}
use h2loadrunner.Load.Request.Assemble.{assemble_string}
use h2loadrunner.Load.Request.Pick.{run_post_response_action, picked_source}
use h2loadrunner.Load.Request.Lua.{update_request_with_lua, value_loop, after_call}
use h2loadrunner.Load.Request.Prepare.{
  header_loop, populate_request_from_config_template, update_content_length, sanitize_request,
  complete, with_script, request_of_step,
}
use h2loadrunner.Load.Request.Locate.{
  parse_uri_and_populate_request, locate, last_header, at_header, at_uri,
}

-- The step of the scenario, and the data of the user.
abbrev pub Place : Type 0
Place = ℕ × ℕ × List Bytes × Jar × List ℕ

abbrev pub place : RequestData → Place
place r =
    (r.curr_request_idx, r.scenario_index, r.variable_index_to_value, r.saved_cookies, r.user_ids)

abbrev pub SamePlace : RequestData → RequestData → Type 0
SamePlace r r' = place r' ≡ place r

pub Ok-SamePlace :
    (r r' : RequestData) (m : Outcome (Bool × RequestData))
    → SamePlace r r'
    → Ok (λ e. SamePlace r' e.1) m
    → Ok (λ e. SamePlace r e.1) m
Ok-SamePlace r r' (ok e) same same' = same' ∙ same
Ok-SamePlace r r' (stop s) same same' = tt

-- The step and the user alone.
abbrev pub step_of : RequestData → ℕ × ℕ × List ℕ
step_of r = (r.curr_request_idx, r.scenario_index, r.user_ids)

header_loop-SamePlace :
    (sc : Scenario) (hs : List (StringWithVariables × StringWithVariables)) (r : RequestData)
    → Ok (SamePlace r) (header_loop sc hs r)
unfolding header_loop
header_loop-SamePlace sc [] r = refl
header_loop-SamePlace sc ((n, v) ∷ hs) r =
    Ok-bind _ (SamePlace r) (assemble_string sc r.curr_request_idx r n) _ (Ok-any _) λ name _.
      Ok-bind _ (SamePlace r) (assemble_string sc r.curr_request_idx r v) _ (Ok-any _)
        λ value _. header_loop-SamePlace sc hs _

pub populate-SamePlace :
    (sc : Scenario) (t : Request) (r : RequestData)
    → Ok (SamePlace r) (populate_request_from_config_template sc t r)
unfolding populate_request_from_config_template
populate-SamePlace sc t r =
    Ok-bind _ (SamePlace r) (assemble_string sc r.curr_request_idx r t.tokenized_payload_with_vars)
      _ (Ok-any _) λ payload _. header_loop-SamePlace sc t.headers_with_variable _

-- What comes of a request that may not be there.
abbrev pub KeptBy : RequestData → Option RequestData → Type 0
KeptBy r none = Unit
KeptBy r (some r') = SamePlace r r'

abbrev KeptByUri : RequestData → Option (Bool × RequestData) → Type 0
KeptByUri r none = Unit
KeptByUri r (some (b, r')) = SamePlace r r'

parse_uri-SamePlace :
    (lib : Library) (uri : Bytes) (r : RequestData)
    → KeptByUri r (parse_uri_and_populate_request lib uri r)
unfolding parse_uri_and_populate_request
parse_uri-SamePlace lib uri r = ground arith

pub at_uri-SamePlace : (lib : Library) (r : RequestData) (uri : Bytes) → KeptBy r (at_uri lib r uri)
unfolding at_uri
at_uri-SamePlace lib r uri = let kept = parse_uri-SamePlace lib uri r in ground arith

at_header-SamePlace :
    (lib : Library) (finished r : RequestData) (uri : Option Bytes)
    → KeptBy r (at_header lib finished r uri)
unfolding at_header
at_header-SamePlace lib finished r none = tt
at_header-SamePlace lib finished r (some uri) =
    let kept = parse_uri-SamePlace lib uri r in ground arith

locate-SamePlace :
    (lib : Library) (sc : Scenario) (t : Request) (finished r : RequestData) (action : UriAction)
    → Ok (KeptBy r) (locate lib sc t finished r action)
unfolding locate
locate-SamePlace lib sc t finished r input_uri = ground arith
locate-SamePlace lib sc t finished r same_with_last_one = refl
locate-SamePlace lib sc t finished r from_response_header =
    at_header-SamePlace lib finished r (last_header t.uri_input finished.resp_headers none)
locate-SamePlace lib sc t finished r input_with_variable =
    Ok-map (KeptBy r) (at_uri lib r)
      (assemble_string sc r.curr_request_idx r t.tokenized_path_with_vars) (at_uri-SamePlace lib r)
locate-SamePlace lib sc t finished r from_lua_script = refl
locate-SamePlace lib sc t finished r from_x_path = refl
locate-SamePlace lib sc t finished r from_json_pointer = refl

cookie_header-SamePlace : (r : RequestData) → SamePlace r (produce_request_cookie_header r)
unfolding produce_request_cookie_header put_cookie_header
cookie_header-SamePlace r = ground arith

value_loop-SamePlace :
    (vs : List LuaValue) (code : Bool) (r : RequestData) → SamePlace r (value_loop vs code r).1
unfolding value_loop
value_loop-SamePlace [] code r = refl
value_loop-SamePlace (lua_string s ∷ vs) code r = value_loop-SamePlace vs code _
value_loop-SamePlace (lua_table hs ∷ vs) code r = value_loop-SamePlace vs code _
value_loop-SamePlace (lua_boolean b ∷ vs) code r = value_loop-SamePlace vs false r
value_loop-SamePlace (lua_other ∷ vs) code r = value_loop-SamePlace vs false r

pub after_call-SamePlace :
    (call : LuaCall) (r : RequestData) → Ok (λ e. SamePlace r e.1) (after_call call r)
unfolding after_call
after_call-SamePlace no_function r = refl
after_call-SamePlace raises_error r = tt
after_call-SamePlace (returns vs) r = value_loop-SamePlace vs true r

pub finish-SamePlace :
    (schema authority : Bytes) (r : RequestData)
    → SamePlace r (sanitize_request schema authority (update_content_length r))
unfolding sanitize_request update_content_length
finish-SamePlace schema authority r = ground arith

with_script-SamePlace :
    (lib : Library) (t : Request) (finished r : RequestData)
    → Ok (λ e. SamePlace r e.1) (with_script lib t finished r)
unfolding with_script update_request_with_lua
with_script-SamePlace lib t finished r =
    let with_cookies = produce_request_cookie_header r in
    if_both (Ok (λ e. SamePlace r e.1)) (is_empty t.lua_script) _ _ (cookie_header-SamePlace r) (
      Ok-SamePlace r with_cookies _ (cookie_header-SamePlace r)
        (after_call-SamePlace (lib.make_request t.lua_script finished with_cookies) with_cookies))

complete-SamePlace :
    (lib : Library) (t : Request) (schema authority : Bytes) (finished r : RequestData)
    → Ok (λ e. SamePlace r e.1) (complete lib t schema authority finished r)
unfolding complete
complete-SamePlace lib t schema authority finished r =
    Ok-bind (λ e. SamePlace r e.1) _ _ _ (with_script-SamePlace lib t finished r)
      λ (success, r') same. finish-SamePlace schema authority r' ∙ same

pub request_of_step-SamePlace :
    (lib : Library) (sc : Scenario) (t : Request) (schema authority : Bytes)
    (finished r : RequestData)
    → Ok (λ e. SamePlace r e.1) (request_of_step lib sc t schema authority finished r)
unfolding request_of_step
request_of_step-SamePlace lib sc t schema authority finished r =
    Ok-bind (SamePlace r) _ _ _ (populate-SamePlace sc t r) λ r' same.
      Ok-bind (KeptBy r') _ _ _ (locate-SamePlace lib sc t finished r' t.uri_action) (elim [
        | none ↦ λ kept. same
        | some r'' ↦ λ kept.
            Ok-SamePlace r r'' _ (kept ∙ same)
              (complete-SamePlace lib t schema authority finished r'')
      ])

module _ {Value : Type 0} (lib : Library) (j : Json Value) where
  -- Picking values into variables changes nothing else.
  pub run_post_response_action-Picks :
      (ps : List RegexPicker) (r : RequestData)
      → Ok
          (λ r'. r' ≡ record r { variable_index_to_value = r'.variable_index_to_value })
          (run_post_response_action lib j ps r)
  unfolding run_post_response_action
  run_post_response_action-Picks [] r = refl
  run_post_response_action-Picks (p ∷ ps) r =
      Ok-bind _ (λ r'. r' ≡ record r { variable_index_to_value = r'.variable_index_to_value })
        (picked_source lib j p.where_to_pick_up_from p.source r) _ (Ok-any _)
        λ source _. run_post_response_action-Picks ps _
