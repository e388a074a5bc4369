-- ===== src/Load/Client/Close.antt =====
-- `on_stream_close`: what is counted when a stream is closed, and what the client does next.
use h2loadrunner.Base.{
  ℕ, ◌==◌, ltb, if◌then◌else◌, Bool, true, false, not, ◌&&◌, Option, none, some, List, get_elem?,
  or_stop, Outcome, ok, aborts, ◌>>=◌, map_ok,
}
use h2loadrunner.Text.{Bytes}
use h2loadrunner.Mock.Json.{Json}
use h2loadrunner.Mock.Rule.{Regex}
use h2loadrunner.Cookie.Jar.{RequestData}
use h2loadrunner.Load.Variable.{add64, sub64}
use h2loadrunner.Load.Request.{Scenario, Library}
use h2loadrunner.Load.Request.Prepare.{prepare_next_request}
use h2loadrunner.Load.Client.{Client, Stats, Stream, find_at, erase_at, change, is_measured}
use h2loadrunner.Load.Client.Validate.{inc_status_counter_and_validate_response}

-- `status_success == 1`.
abbrev pub is_status_success : Stream → Bool
is_status_success s = elim s.status_success [ none ↦ false | some b ↦ b ]

-- The outcome of a request, counted for the worker or for a step: `success` says that the stream was not
-- reset, and `status_success` that the response was the expected one.
unfoldable pub count_outcome : Bool → Bool → Stats → Stats
count_outcome true true s = record s {
  req_success = add64 s.req_success 1;
  req_status_success = add64 s.req_status_success 1;
  req_done = add64 s.req_done 1;
}
count_outcome true false s = record s {
  req_success = add64 s.req_success 1;
  req_failed = add64 s.req_failed 1;
  req_done = add64 s.req_done 1;
}
count_outcome false status_success s = record s {
  req_failed = add64 s.req_failed 1;
  req_error = add64 s.req_error 1;
  req_done = add64 s.req_done 1;
}

-- `update_scenario_based_stats`.
unfoldable pub update_scenario_based_stats :
    ℕ → ℕ → Bool → Bool → List (List Stats) → List (List Stats)
unfolding count_outcome
update_scenario_based_stats scenario_index request_index success status_success m =
    change scenario_index (change request_index (count_outcome success status_success)) m

-- One request less under way.
count_down : ℕ → ℕ
count_down n = if ltb 0 n then sub64 n 1 else n

unfoldable pub count_inflight : Client → Client
unfolding count_down
count_inflight c = record c {
  req_inflight = count_down c.req_inflight;
  rps_req_inflight =
      (if c.setting.rps_mode then count_down c.rps_req_inflight else c.rps_req_inflight);
}

-- The counting for a stream that counts.
unfoldable pub count_closed : Bool → Stream → Option RequestData → Client → Client
unfolding update_scenario_based_stats count_outcome
count_closed success s finished c = record c {
  stats = count_outcome success (is_status_success s) c.stats;
  client_req_success = (if success then add64 c.client_req_success 1 else c.client_req_success);
  req_done = add64 c.req_done 1;
  scenario_stats = elim finished [
    | none ↦ c.scenario_stats
    | some r ↦
        update_scenario_based_stats r.scenario_index r.curr_request_idx success
          (is_status_success s) c.scenario_stats
  ];
}

-- What the client does last: it tears the session down, submits a request, or waits.
pub data Then : Type 0 where
  terminates submits submits_pending feeds_timing_script waits : Then

unfoldable pub then_ : Bool → Client → Then
then_ final c =
    if (c.req_left == 0) && (c.req_inflight == 0)
    then terminates
    else if not final && ltb 0 c.req_left
    then (if c.setting.timing_script
        then feeds_timing_script
        else if not c.setting.rps_mode
        then submits
        else if not (c.rps_req_pending == 0)
        then submits_pending
        else waits)
    else waits

-- The counting, in a phase that is measured; `none` where the stream is not known.
unfoldable pub measure : ℕ → Bool → Client → Option Client
unfolding count_inflight count_closed
measure stream_id success c =
    if not (is_measured c.current_phase) then some c else elim (find_at stream_id c.streams) [
      | none ↦ none
      | some s ↦
          if s.statistics_eligible
          then some (
              count_closed success s (find_at stream_id c.requests_awaiting_response)
                (count_inflight c))
          else some (count_inflight c)
    ]

module _ {Value : Type 0} (re : Regex) (j : Json Value) (has_parse_error : Value → Bool)
    (lib : Library) where
  -- The request that comes after the finished one, which then is no longer awaited.
  unfoldable pub after_request :
      ℕ → Bytes → Bytes → List Scenario → ℕ → Option RequestData → Client → Outcome Client
  after_request now schema authority scenarios stream_id none c = ok c
  after_request now schema authority scenarios stream_id (some r) c =
      let rest = erase_at stream_id c.requests_awaiting_response in
      or_stop (get_elem? scenarios r.scenario_index) aborts >>= λ sc.
      if not sc.run_requests_in_parallel
      then map_ok (λ (success, kept, q). record c { queues = q; requests_awaiting_response = rest })
          (prepare_next_request lib j now schema authority sc r c.queues)
      else ok (record c { requests_awaiting_response = rest })

  -- The end of the handler, from the report of the progress on.
  unfoldable pub end_stream :
      ℕ → Bytes → Bytes → List Scenario → ℕ → Bool → Client → Outcome (Client × Then)
  unfolding after_request then_
  end_stream now schema authority scenarios stream_id final c =
      after_request now schema authority scenarios stream_id
        (find_at stream_id c.requests_awaiting_response) c
      >>= λ c'.
          let closed = record c' { streams = erase_at stream_id c'.streams } in
          ok (closed, then_ final closed)

  unfoldable pub on_stream_close :
      ℕ → Bytes → Bytes → List Scenario → ℕ → Bool → Bool → Client → Outcome (Client × Then)
  unfolding end_stream measure
  on_stream_close now schema authority scenarios stream_id success final c =
      inc_status_counter_and_validate_response re j has_parse_error lib scenarios stream_id c
      >>= λ c'. elim (measure stream_id success c') [
        | none ↦ ok (count_inflight c', waits)
        | some c'' ↦ end_stream now schema authority scenarios stream_id final c''
      ]
