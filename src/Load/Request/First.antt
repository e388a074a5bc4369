-- ===== src/Load/Request/First.antt =====
-- `prepare_first_request`: the first request of a new user, and for a scenario whose requests run in
-- parallel the others as well.
pub mod Parallel
use h2loadrunner.Base.{
  ℕ, zero, suc, ◌-◌, if◌then◌else◌, Bool, true, false, not, Option, none, some, List, [], ◌∷◌,
  length, get_elem?, or_stop, Outcome, ok, stop, exits, aborts, ◌>>=◌, map_ok,
}
use h2loadrunner.Text.{Bytes, is_empty}
use h2loadrunner.Mock.Json.{Json}
use h2loadrunner.Cookie.Jar.{RequestData}
use h2loadrunner.Load.Variable.{replicate}
use h2loadrunner.Load.Request.{
  Request, Scenario, Library, UriAction, input_uri, same_with_last_one, from_response_header,
  from_lua_script, from_x_path, from_json_pointer, input_with_variable,
}
use h2loadrunner.Load.Request.Assemble.{assemble_string}
use h2loadrunner.Load.Request.Lua.{update_request_with_lua}
use h2loadrunner.Load.Request.Queues.{Queues}
use h2loadrunner.Load.Request.Prepare.{
  populate_request_from_config_template, update_content_length, sanitize_request,
  prepare_next_request,
}
use h2loadrunner.Load.Request.Locate.{at_uri}

-- `Request_Data(user_ids)`, which makes the data of a new user.
unfoldable pub empty_request : List ℕ → ℕ → RequestData
empty_request user_ids scenario_index = record {
  schema = [];
  authority = [];
  req_payload = [];
  path = [];
  method = [];
  req_headers_from_config = [];
  req_headers_of_individual = [];
  resp_payload = [];
  resp_headers = [];
  resp_trailer_present = false;
  req_payload_cursor = 0;
  stream_timeout_in_ms = 0;
  request_sent_callback = none;
  status_code = 0;
  expected_status_code = 0;
  delay_before_executing_next = 0;
  curr_request_idx = 0;
  scenario_index = scenario_index;
  variable_index_to_value = replicate (length user_ids) [];
  saved_cookies = [];
  user_ids = user_ids;
}

-- The path of the first request; a URI with variables that is invalid ends the process.
unfoldable pub first_path :
    Library → Scenario → Request → UriAction → RequestData → Outcome RequestData
first_path lib sc t input_with_variable r =
    assemble_string sc r.curr_request_idx r t.tokenized_path_with_vars >>= λ uri.
    or_stop (at_uri lib r uri) aborts
first_path lib sc t _ r =
    map_ok (λ path. record r { path = path })
      (assemble_string sc r.curr_request_idx r t.tokenized_path_with_vars)

-- A script that refuses the first request ends the process.
unfoldable pub first_script : Library → Request → RequestData → Outcome RequestData
first_script lib t r =
    if t.make_request_function_present
    then (update_request_with_lua lib t.lua_script (empty_request [] 0) r >>= λ (success, r').
        if success then ok r' else stop exits)
    else ok r

-- The request of the first step, before the others of a parallel scenario.
unfoldable pub first_request : Library → Bytes → Bytes → Scenario → ℕ → List ℕ → Outcome RequestData
unfolding first_path first_script
first_request lib schema authority sc scenario_index user_ids =
    or_stop (get_elem? sc.requests 0) aborts >>= λ t.
    populate_request_from_config_template sc t (empty_request user_ids scenario_index) >>= λ r.
    first_path lib sc t t.uri_action r >>= λ r'. first_script lib t r' >>= λ r''.
    ok (sanitize_request schema authority (update_content_length r''))

module _ {Value : Type 0} (lib : Library) (j : Json Value) where
  -- The loop of a parallel scenario, which passes the first request every time.
  unfoldable pub parallel_loop :
      ℕ → Bytes → Bytes → Scenario → ℕ → RequestData → Queues → Outcome (RequestData × Queues)
  parallel_loop now schema authority sc zero r q = ok (r, q)
  parallel_loop now schema authority sc (suc n) r q =
      prepare_next_request lib j now schema authority sc r q >>= λ (success, r', q').
      parallel_loop now schema authority sc n r' q'

  -- `prepare_first_request` for the scenario of an index, with the current values of its variables.
  unfoldable pub prepare_first_request :
      ℕ → Bytes → Bytes → Scenario → ℕ → List ℕ → Queues → Outcome (RequestData × Queues)
  unfolding parallel_loop
  prepare_first_request now schema authority sc scenario_index user_ids q =
      first_request lib schema authority sc scenario_index user_ids >>= λ r.
      if sc.run_requests_in_parallel
      then parallel_loop now schema authority sc (length sc.requests - 1) r q
      else ok (r, q)
