-- ===== src/Load/Client/Validate.antt =====
-- `inc_status_counter_and_validate_response`, and `match` of a rule on a response.
use h2loadrunner.Base.{
  ℕ, ◌/◌, ◌==◌, ltb, if◌then◌else◌, Bool, true, false, not, Option, none, some, List, [], ◌∷◌,
  length, get_elem?, or_stop, Outcome, ok, aborts, ◌>>=◌, map_ok,
}
use h2loadrunner.Text.{is_empty, c_str}
use h2loadrunner.Mock.Json.{Json}
use h2loadrunner.Mock.Rule.{MatchRule, Regex, match_text, match_json_doc}
use h2loadrunner.Cookie.Jar.{RequestData, HeaderMap}
use h2loadrunner.Load.Variable.{add64}
use h2loadrunner.Load.Request.{Request, Scenario, Library}
use h2loadrunner.Load.Request.Pick.{first_header}
use h2loadrunner.Load.Request.Lua.{validate_response_with_lua}
use h2loadrunner.Load.Client.{Client, Stats, find_at, change_at, change}

-- `match_header`: the value in the first frame that has the header.
unfoldable pub match_header : Regex → MatchRule → List HeaderMap → Bool
match_header re r frames = elim (first_header r.header_name frames) [
  | none ↦ false
  | some v ↦ match_text re v r.match_type r.object
]

-- `requests[curr_request_idx]` of the scenario of a request.
unfoldable pub step_at : List Scenario → RequestData → Outcome Request
step_at scenarios r = or_stop (get_elem? scenarios r.scenario_index) aborts >>= λ sc.
    or_stop (get_elem? sc.requests r.curr_request_idx) aborts

-- `++status[status / 100]`, for a status below 600.
unfoldable pub count_status : ℕ → Stats → Stats
count_status status s =
    if ltb status 600
    then record s { status = change (status / 100) (λ n. add64 n 1) s.status }
    else s

unfoldable pub count_scenario_status : ℕ → RequestData → Client → Client
unfolding count_status
count_scenario_status status r c = record c {
  scenario_stats =
      change r.scenario_index (change r.curr_request_idx (count_status status)) c.scenario_stats;
}

-- `stream.status_success = …`.
unfoldable pub set_status_success : ℕ → Bool → Client → Client
set_status_success stream_id b c = record c {
  streams = change_at stream_id (λ s. record s { status_success = some b }) c.streams;
}

-- `HasParseError` is asked of a parsed document.
module _ {Value : Type 0} (re : Regex) (j : Json Value) (has_parse_error : Value → Bool)
    (lib : Library) where
  -- `match` on the headers of a response and its document, `none` for one that was not read.
  unfoldable pub match_response : MatchRule → List HeaderMap → Option Value → Outcome Bool
  unfolding match_header
  match_response r frames d =
      if not (is_empty r.header_name)
      then ok (match_header re r frames)
      else match_json_doc re j r d

  -- The loop over the rules, with `matched`: it breaks at the first that fails.
  unfoldable pub all_match : List MatchRule → List HeaderMap → Option Value → Bool → Outcome Bool
  unfolding match_response
  all_match [] frames d matched = ok matched
  all_match (r ∷ rs) frames d matched = match_response r frames d >>= λ matched'.
      if matched' then all_match rs frames d true else ok false

  -- No rule is run on a payload that cannot be parsed.
  unfoldable pub run_match_rules : Request → RequestData → Outcome Bool
  unfolding all_match
  run_match_rules t r =
      if length t.payload_match == 0
      then all_match t.response_match_rules r.resp_headers none false
      else let d = j.parse (c_str r.resp_payload) in
        if has_parse_error d
        then ok false
        else all_match t.response_match_rules r.resp_headers (some d) false

  -- The new `status_success` of a stream whose request has a step.
  unfoldable pub validate_request : Request → RequestData → ℕ → Bool → Outcome Bool
  unfolding run_match_rules
  validate_request t r status status_success =
      if t.validate_response_function_present
      then validate_response_with_lua lib t.lua_script r
      else if not (length t.response_match_rules == 0)
      then run_match_rules t r
      else if not (r.expected_status_code == 0)
      then ok (status == r.expected_status_code)
      else ok status_success

  unfoldable pub validate_stream : List Scenario → ℕ → ℕ → Client → Outcome Client
  unfolding count_scenario_status set_status_success validate_request step_at
  validate_stream scenarios stream_id status c =
      let status_success = ltb status 400 in
      elim (find_at stream_id c.requests_awaiting_response) [
        | none ↦ ok (set_status_success stream_id status_success c)
        | some r ↦ step_at scenarios r >>= λ t.
            map_ok (λ b. set_status_success stream_id b (count_scenario_status status r c))
              (validate_request t r status status_success)
      ]

  unfoldable pub inc_status_counter_and_validate_response :
      List Scenario → ℕ → Client → Outcome Client
  unfolding validate_stream count_status
  inc_status_counter_and_validate_response scenarios stream_id c =
      elim (find_at stream_id c.streams) [
        | none ↦ ok c
        | some s ↦
            if not s.statistics_eligible
            then ok (set_status_success stream_id true c)
            else validate_stream scenarios stream_id s.status
                (record c { stats = count_status s.status c.stats })
      ]
