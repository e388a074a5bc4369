-- ===== src/Tests/Scenario.antt =====
-- The requests of a scenario, and the counters of a client.
use h2loadrunner.Base.{Ok, ◌≡◌, ◌<◌, ◌+◌, refl, true, false, arith, Bool, some, none, [], ◌∷◌}
use h2loadrunner.Text.{Bytes, codes}
use h2loadrunner.Mock.Json.{Json}
use h2loadrunner.Mock.Rule.{Regex}
use h2loadrunner.Cookie.Jar.{
  RequestData, parse_and_save_cookies, produce_request_cookie_header, put_cookie_header,
  append_loop, save_loop,
}
use h2loadrunner.Load.Request.{
  Request, Scenario, Library, StringWithVariables, input_uri, no_function,
}
use h2loadrunner.Load.Request.Assemble.{assemble_string, assemble_loop, back}
use h2loadrunner.Load.Request.Pick.{run_post_response_action}
use h2loadrunner.Load.Request.Queues.{Queues, enqueue_request}
use h2loadrunner.Load.Request.Prepare.{
  prepare_next_request, next_step, queue_next, give_up_user_data, take_cookies, request_of_step,
  populate_request_from_config_template, header_loop, complete, with_script, sibling_request,
  update_content_length, sanitize_request,
}
use h2loadrunner.Load.Request.Locate.{locate}
use h2loadrunner.Load.Request.Prepare.Ends.{Chain, Follows, Chain-shorter}
use h2loadrunner.Load.Request.First.{empty_request, prepare_first_request}
use h2loadrunner.Load.Request.First.Parallel.{AtStep, prepare_first_request-AtStep}
use h2loadrunner.Load.Client.{Client, Stats, main_duration, count_started}
use h2loadrunner.Load.Client.Lost.{fail}
use h2loadrunner.Load.Client.Balance.{AllBalanced}
use h2loadrunner.Load.Client.Steps.{Step, Reach, Reach-AllBalanced}

abbrev pub plain_library : Library
plain_library = record {
  regex_search = λ p s. none;
  parse_url = λ s. none;
  make_request = λ script finished new. no_function;
  validate_response = λ script finished. no_function;
}

abbrev pub plain_json : Json Bytes
plain_json = record {
  parse = λ s. s;
  members = λ v. none;
  get = λ p v. none;
  as_string = λ v. some v;
  as_bool = λ v. none;
  as_uint64 = λ v. none;
  as_double = λ v. none;
  as_object = λ v. none;
}

abbrev pub plain_regex : Regex
plain_regex = record { full = λ p s. false; search = λ p s. none }

abbrev plain_text : Bytes → StringWithVariables
plain_text s = record { string_segments = s ∷ []; variable_ids_in_between = [] }

abbrev step_for : Bytes → Request
step_for path = record {
  clear_old_cookies = false;
  lua_script = [];
  schema = codes "http";
  authority = codes "a.com";
  uri_action = input_uri;
  uri_input = path;
  method = codes "GET";
  expected_status_code = 200;
  headers_in_map = [];
  headers_with_variable = [];
  tokenized_path_with_vars = plain_text path;
  tokenized_payload_with_vars = plain_text [];
  delay_before_executing_next = 0;
  actual_regex_value_pickers = [];
  make_request_function_present = false;
  validate_response_function_present = false;
  response_match_rules = [];
  payload_match = [];
}

abbrev three_steps : Bool → Scenario
three_steps parallel = record {
  requests = step_for (codes "/1") ∷ step_for (codes "/2") ∷ step_for (codes "/3") ∷ [];
  run_requests_in_parallel = parallel;
  variable_manager = record { generic_variables = []; var_name_to_id = [] };
  number_of_variables_from_value_pickers = 0;
}

abbrev pub no_queues : Queues
no_queues = record { requests_to_submit = []; delayed_requests_to_submit = [] }

prepare_first_request-AtStep_example :
    Ok
      (λ e. (e.0.curr_request_idx ≡ 0) × AtStep 1 e.1)
      (prepare_first_request plain_library plain_json 0
        (codes "http")
        (codes "a.com")
        (three_steps true)
        0
        []
        no_queues)
prepare_first_request-AtStep_example =
    prepare_first_request-AtStep plain_library plain_json 0 (codes "http") (codes "a.com")
      (three_steps true) 0 [] no_queues (tt, tt)

abbrev pub second_request : RequestData
second_request = record (empty_request [] 0) {
  schema = codes "http";
  authority = codes "a.com";
  path = codes "/2";
  method = codes "GET";
  expected_status_code = 200;
  curr_request_idx = 1;
}

two_requests :
    Chain plain_library plain_json (three_steps false) (empty_request [] 0) 1 second_request
unfolding empty_request prepare_next_request enqueue_request run_post_response_action next_step
    queue_next take_cookies request_of_step populate_request_from_config_template header_loop locate
    complete with_script sibling_request update_content_length sanitize_request assemble_string
    assemble_loop back parse_and_save_cookies produce_request_cookie_header put_cookie_header
    append_loop save_loop give_up_user_data
two_requests =
    Chain.next {finished = empty_request [] 0} Chain.here refl
      (Follows.prepared {kept = empty_request [] 0} 0 (codes "http") (codes "a.com") no_queues refl)

Chain-shorter_example : 0 + 1 < 3
unfolding empty_request
Chain-shorter_example =
    Chain-shorter plain_library plain_json (three_steps false) (empty_request [] 0) second_request 1
      (omega arith) two_requests

abbrev pub empty_stats : Stats
empty_stats = record {
  req_started = 0;
  req_done = 0;
  req_success = 0;
  req_status_success = 0;
  req_failed = 0;
  req_error = 0;
  req_timedout = 0;
  bytes_head = 0;
  bytes_head_decomp = 0;
  bytes_body = 0;
  status = 0 ∷ 0 ∷ 0 ∷ 0 ∷ 0 ∷ 0 ∷ [];
}

abbrev pub new_client : Client
new_client = record {
  setting = record {
    is_timing_based_mode = false;
    rps_mode = false;
    timing_script = false;
    connection_retry_on_disconnect = false;
    is_controller_client = true;
    number_of_dest_clients = 1;
  };
  current_phase = main_duration;
  stats = empty_stats;
  scenario_stats = (empty_stats ∷ empty_stats ∷ empty_stats ∷ []) ∷ [];
  req_left = 10;
  req_inflight = 0;
  req_started = 0;
  req_done = 0;
  rps_req_pending = 0;
  rps_req_inflight = 0;
  client_req_success = 0;
  new_connection_requested = false;
  streams = [];
  requests_awaiting_response = [];
  stream_timestamp = [];
  sent_callbacks = [];
  queues = no_queues;
}

Reach-AllBalanced_example : AllBalanced (fail (count_started 0 0 new_client))
Reach-AllBalanced_example =
    Reach-AllBalanced plain_regex plain_json (λ v. false) plain_library new_client
      (fail (count_started 0 0 new_client))
      (refl, (((refl, refl), ((refl, refl), ((refl, refl), tt))), tt))
      (Reach.next (Reach.next Reach.here (Step.request_counted new_client 0 0))
        (Step.fails (count_started 0 0 new_client)))
