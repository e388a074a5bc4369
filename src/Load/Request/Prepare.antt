-- ===== src/Load/Request/Prepare.antt =====
-- `prepare_next_request`: the request after a finished one, put into the queue of the client.
pub mod Kept
pub mod Steps
pub mod Ends
use h2loadrunner.Base.{
  ℕ, suc, ◌+◌, ◌%◌, ◌^◌, ◌==◌, ltb, if◌then◌else◌, Bool, true, false, not, ◌&&◌, Option, none, some,
  List, [], ◌∷◌, ◌++◌, length, get_elem?, or_else, or_stop, Outcome, ok, stop, aborts, ◌>>=◌,
  map_ok,
}
use h2loadrunner.Base.Maps.{map_assign, map_find}
use h2loadrunner.Text.{Bytes, codes, is_empty, inp_strlower}
use h2loadrunner.Text.Decimal.{to_string}
use h2loadrunner.Mock.Json.{Json}
use h2loadrunner.Cookie.Jar.{
  RequestData, HeaderMap, ci_less, parse_and_save_cookies, produce_request_cookie_header,
}
use h2loadrunner.Load.Request.{
  StringWithVariables, Request, Scenario, Url, Library, UriAction, input_uri, same_with_last_one,
  from_response_header, from_lua_script, from_x_path, from_json_pointer, input_with_variable,
}
use h2loadrunner.Load.Request.Locate.{locate}
use h2loadrunner.Load.Request.Queues.{Queues, enqueue_request}
use h2loadrunner.Load.Request.Assemble.{assemble_string}
use h2loadrunner.Load.Request.Pick.{run_post_response_action}
use h2loadrunner.Load.Request.Lua.{update_request_with_lua}

-- `Request_Data(scenario_data)` after `init()`: only the user's data is taken over.
unfoldable pub sibling_request : RequestData → ℕ → ℕ → RequestData
sibling_request user scenario_index curr_request_idx = record {
  schema = [];
  authority = [];
  req_payload = [];
  path = [];
  method = [];
  req_headers_from_config = [];
  req_headers_of_individual = [];
  resp_payload = [];
  resp_headers = [];
  resp_trailer_present = false;
  req_payload_cursor = 0;
  stream_timeout_in_ms = 0;
  request_sent_callback = none;
  status_code = 0;
  expected_status_code = 0;
  delay_before_executing_next = 0;
  curr_request_idx = curr_request_idx;
  scenario_index = scenario_index;
  variable_index_to_value = user.variable_index_to_value;
  saved_cookies = user.saved_cookies;
  user_ids = user.user_ids;
}

-- `emplace` keeps a header that is there already.
emplace : Bytes → Bytes → HeaderMap → HeaderMap
emplace name value hs = elim (map_find ci_less name hs) [
  | some v ↦ hs
  | none ↦ map_assign ci_less name value hs
]

-- The loop over the headers with variables.
unfoldable pub header_loop :
    Scenario → List (StringWithVariables × StringWithVariables) → RequestData → Outcome RequestData
unfolding emplace
header_loop sc [] r = ok r
header_loop sc ((n, v) ∷ hs) r = assemble_string sc r.curr_request_idx r n >>= λ name.
    assemble_string sc r.curr_request_idx r v >>= λ value.
    header_loop sc hs
      (record r { req_headers_of_individual = emplace name value r.req_headers_of_individual })

unfoldable pub populate_request_from_config_template :
    Scenario → Request → RequestData → Outcome RequestData
unfolding header_loop
populate_request_from_config_template sc t r =
    assemble_string sc r.curr_request_idx r t.tokenized_payload_with_vars >>= λ payload.
    header_loop sc t.headers_with_variable (record r {
      method = t.method;
      schema = t.schema;
      authority = t.authority;
      req_payload = payload;
      req_headers_from_config = t.headers_in_map;
      expected_status_code = t.expected_status_code;
      delay_before_executing_next = t.delay_before_executing_next;
    })

unfoldable pub update_content_length : RequestData → RequestData
update_content_length r = if is_empty r.req_payload then r else record r {
  req_headers_of_individual =
      map_assign ci_less (codes "content-length") (to_string (length r.req_payload))
        r.req_headers_of_individual;
}

-- The client's own schema and authority where the request has none.
unfoldable pub sanitize_request : Bytes → Bytes → RequestData → RequestData
sanitize_request schema authority r = record r {
  schema = (if is_empty r.schema then schema else r.schema);
  authority = (if is_empty r.authority then authority else r.authority);
}

-- The cookies, and what the step's script makes of the request.
unfoldable pub with_script :
    Library → Request → RequestData → RequestData → Outcome (Bool × RequestData)
with_script lib t finished r =
    let with_cookies = produce_request_cookie_header r in
    if is_empty t.lua_script
    then ok (true, with_cookies)
    else update_request_with_lua lib t.lua_script finished with_cookies

-- The end of the function: the length of the payload and the origin are set last.
unfoldable pub complete :
    Library → Request → Bytes → Bytes → RequestData → RequestData → Outcome (Bool × RequestData)
unfolding with_script update_content_length sanitize_request
complete lib t schema authority finished r = with_script lib t finished r >>= λ (success, r').
    ok (success, sanitize_request schema authority (update_content_length r'))

-- The new request of a step: not there where its URI is not, and with `false` where the script says so.
unfoldable pub request_of_step :
    Library
    → Scenario
    → Request
    → Bytes
    → Bytes
    → RequestData
    → RequestData
    → Outcome (Bool × RequestData)
unfolding populate_request_from_config_template locate complete
request_of_step lib sc t schema authority finished empty =
    populate_request_from_config_template sc t empty >>= λ r.
    locate lib sc t finished r t.uri_action >>= λ located. elim located [
      | none ↦ ok (false, r)
      | some r' ↦ complete lib t schema authority finished r'
    ]

-- Cookies of the response are kept, unless the next step starts without the old ones.
unfoldable pub take_cookies : Request → RequestData → RequestData
take_cookies t finished = if t.clear_old_cookies then finished else parse_and_save_cookies finished

-- The pointer to the user's data is moved out of the finished request, unless the scenario runs in
-- parallel.
unfoldable pub give_up_user_data : Scenario → RequestData → RequestData
give_up_user_data sc finished =
    if sc.run_requests_in_parallel
    then finished
    else record finished { variable_index_to_value = []; saved_cookies = []; user_ids = [] }

-- The request of the next step is queued, unless it cannot be made.
unfoldable pub queue_next :
    Library
    → ℕ
    → Bytes
    → Bytes
    → Scenario
    → Queues
    → RequestData
    → ℕ
    → Request
    → Outcome (Bool × RequestData × Queues)
unfolding request_of_step enqueue_request sibling_request give_up_user_data
queue_next lib now schema authority sc q finished next t =
    let kept = give_up_user_data sc finished in
    request_of_step lib sc t schema authority kept
      (sibling_request finished finished.scenario_index next)
    >>= λ (success, r). ok (success, kept, if success then enqueue_request now kept r q else q)

-- The next step, unless the finished one was the last.
unfoldable pub next_step :
    Library
    → ℕ
    → Bytes
    → Bytes
    → Scenario
    → Queues
    → RequestData
    → Outcome (Bool × RequestData × Queues)
unfolding queue_next take_cookies
next_step lib now schema authority sc q finished =
    let next = (finished.curr_request_idx + 1) % length sc.requests in
    if next == 0
    then ok (false, finished, q)
    else or_stop (get_elem? sc.requests next) aborts >>= λ t.
        queue_next lib now schema authority sc q (take_cookies t finished) next t

module _ {Value : Type 0} (lib : Library) (j : Json Value) where
  -- `prepare_next_request` at a time, for a client with a schema and an authority: whether there is a
  -- next request, what is left of the finished one, and the queues. The data of the user, into which
  -- values were picked, goes over to the next request; those of a parallel scenario share it, as copies.
  unfoldable pub prepare_next_request :
      ℕ → Bytes → Bytes → Scenario → RequestData → Queues → Outcome (Bool × RequestData × Queues)
  unfolding next_step
  prepare_next_request now schema authority sc finished q =
      or_stop (get_elem? sc.requests finished.curr_request_idx) aborts >>= λ last.
      run_post_response_action lib j last.actual_regex_value_pickers finished
      >>= next_step lib now schema authority sc q
