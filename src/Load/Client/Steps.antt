-- ===== src/Load/Client/Steps.antt =====
-- A client as a state machine: its handlers are the steps.
use h2loadrunner.Base.{
  Ok, Ok-any, Ok-bind, Ok-map, elim_both, if_both, ℕ, ◌≡◌, ltb, Bool, not, Option, none, some, List,
  [], get_elem?, or_stop, Outcome, ok, aborts, subst,
}
use h2loadrunner.Text.{Bytes}
use h2loadrunner.Mock.Json.{Json}
use h2loadrunner.Mock.Rule.{Regex}
use h2loadrunner.Cookie.Jar.{RequestData}
use h2loadrunner.Load.Request.{Scenario, Library}
use h2loadrunner.Load.Request.Queues.{Queues}
use h2loadrunner.Load.Request.Prepare.{prepare_next_request}
use h2loadrunner.Load.Client.{Client, Phase, Stream, count_started, find_at}
use h2loadrunner.Load.Client.Validate.{
  count_status, set_status_success, step_at, validate_request, validate_stream,
  inc_status_counter_and_validate_response,
}
use h2loadrunner.Load.Client.Close.{
  Then, count_inflight, measure, after_request, end_stream, on_stream_close,
}
use h2loadrunner.Load.Client.Receive.{reset_timeout_requests}
use h2loadrunner.Load.Client.Lost.{process_request_failure, try_again_or_fail, fail, timeout}
use h2loadrunner.Load.Client.Balance.{
  IsBalanced, AllBalanced, BalancedIf, BalancedIf-measure, AllBalanced-count_started,
  AllBalanced-count_scenario_status,
}
use h2loadrunner.Load.Client.Handlers.{
  AllBalanced-process_abandoned_streams, AllBalanced-process_request_failure,
  AllBalanced-reset_loop, AllBalanced-timeout, AllBalanced-try_again_or_fail,
}

module _ {Value : Type 0} (re : Regex) (j : Json Value) (has_parse_error : Value → Bool)
    (lib : Library) where
  AllBalanced-validate_stream :
      (scenarios : List Scenario) (stream_id status : ℕ) (c : Client)
      → AllBalanced c
      → Ok AllBalanced (validate_stream re j has_parse_error lib scenarios stream_id status c)
  unfolding validate_stream set_status_success
  AllBalanced-validate_stream scenarios stream_id status c h =
      elim_both (Ok AllBalanced) (find_at stream_id c.requests_awaiting_response) _ _ h λ r.
        Ok-bind (λ t. Unit {0}) AllBalanced (step_at scenarios r) _ (Ok-any _)
          λ t _.
            Ok-map AllBalanced _
              (validate_request re j has_parse_error lib t r status (ltb status 400))
              λ b. AllBalanced-count_scenario_status status r c h

  AllBalanced-inc_status :
      (scenarios : List Scenario) (stream_id : ℕ) (c : Client)
      → AllBalanced c
      → Ok AllBalanced
          (inc_status_counter_and_validate_response re j has_parse_error lib scenarios stream_id c)
  unfolding inc_status_counter_and_validate_response set_status_success count_status
  AllBalanced-inc_status scenarios stream_id c h =
      elim_both (Ok AllBalanced) (find_at stream_id c.streams) _ _ h λ s.
        if_both (Ok AllBalanced) (not s.statistics_eligible) _ _ h (
          AllBalanced-validate_stream scenarios stream_id s.status _
            (if_both IsBalanced (ltb s.status 600) _ _ h.0 h.0, h.1))

  AllBalanced-after_request :
      (now : ℕ) (schema authority : Bytes) (scenarios : List Scenario) (stream_id : ℕ)
      → (finished : Option RequestData) (c : Client) → AllBalanced c
      → Ok AllBalanced (
          after_request re j has_parse_error lib now schema authority scenarios stream_id finished
            c)
  unfolding after_request
  AllBalanced-after_request now schema authority scenarios stream_id none c h = h
  AllBalanced-after_request now schema authority scenarios stream_id (some r) c h =
      Ok-bind (λ sc. Unit {0}) AllBalanced (or_stop (get_elem? scenarios r.scenario_index) aborts) _
        (Ok-any _)
        λ sc _.
          if_both (Ok AllBalanced) (not sc.run_requests_in_parallel) _ _
            (Ok-map AllBalanced _ (prepare_next_request lib j now schema authority sc r c.queues)
              λ e. h)
            h

  AllBalanced-end_stream :
      (now : ℕ) (schema authority : Bytes) (scenarios : List Scenario) (stream_id : ℕ)
      (final : Bool) (c : Client)
      → AllBalanced c
      → Ok
          (λ e. AllBalanced e.0)
          (end_stream re j has_parse_error lib now schema authority scenarios stream_id final c)
  unfolding end_stream
  AllBalanced-end_stream now schema authority scenarios stream_id final c h =
      let finished = find_at stream_id c.requests_awaiting_response in
      Ok-bind AllBalanced (λ e. AllBalanced e.0)
        (after_request re j has_parse_error lib now schema authority scenarios stream_id finished c)
        _ (AllBalanced-after_request now schema authority scenarios stream_id finished c h)
        λ c' h'. h'

  measured_end :
      (now : ℕ) (schema authority : Bytes) (scenarios : List Scenario) (stream_id : ℕ)
      (final : Bool)
      → (measured : Option Client) (x : Outcome (Client × Then)) → BalancedIf measured
      → Ok (λ e. AllBalanced e.0) x
      → Ok
          (λ e. AllBalanced e.0)
          (elim measured [
            | none ↦ x
            | some c ↦
                end_stream re j has_parse_error lib now schema authority scenarios stream_id final c
          ])
  measured_end now schema authority scenarios stream_id final none x h k = k
  measured_end now schema authority scenarios stream_id final (some c) x h k =
      AllBalanced-end_stream now schema authority scenarios stream_id final c h

  -- The counters that agree before a stream is closed agree when it is.
  pub AllBalanced-on_stream_close :
      (now : ℕ) (schema authority : Bytes) (scenarios : List Scenario) (stream_id : ℕ)
      (success final : Bool)
      → (c : Client) → AllBalanced c
      → Ok
          (λ e. AllBalanced e.0)
          (on_stream_close re j has_parse_error lib now schema authority scenarios stream_id success
            final c)
  unfolding on_stream_close count_inflight
  AllBalanced-on_stream_close now schema authority scenarios stream_id success final c h =
      Ok-bind AllBalanced (λ e. AllBalanced e.0)
        (inc_status_counter_and_validate_response re j has_parse_error lib scenarios stream_id c) _
        (AllBalanced-inc_status scenarios stream_id c h)
        λ c' h'.
          measured_end now schema authority scenarios stream_id final (measure stream_id success c')
            _ (BalancedIf-measure stream_id success c' h') h'

  -- The handlers that count, and what counts nothing: a change of the phase, and a request that is sent,
  -- with its stream.
  pub data Step : Client → Client → Type 0 where
    phase_changes : (c : Client) (p : Phase) → Step c (record c { current_phase = p })
    request_sent :
        (c : Client) (streams : List (ℕ × Stream)) (awaiting : List (ℕ × RequestData))
        (times : List (ℕ × ℕ)) (queues : Queues) (callbacks : List (ℕ × ℕ))
        → Step c (record c {
          streams = streams;
          requests_awaiting_response = awaiting;
          stream_timestamp = times;
          queues = queues;
          sent_callbacks = callbacks;
        })
    streams_reset : (c : Client) (now : ℕ) → Step c (reset_timeout_requests now c).0
    request_counted :
        (c : Client) (scenario_index request_index : ℕ)
        → Step c (count_started scenario_index request_index c)
    request_fails : (c : Client) (exhausted : Bool) → Step c (process_request_failure exhausted c)
    stream_closes :
        {c c' : Client} {next : Then} (now : ℕ) (schema authority : Bytes)
        (scenarios : List Scenario)
        → (stream_id : ℕ) (success final : Bool)
        → on_stream_close re j has_parse_error lib now schema authority scenarios stream_id success
            final c
          ≡ ok (c', next)
        → Step c c'
    times_out : (c : Client) → Step c (timeout c)
    tries_again : (c : Client) (made : Bool) → Step c (try_again_or_fail made c).1
    fails : (c : Client) → Step c (fail c)

  pub data Reach (c : Client) : Client → Type 0 where
    here : Reach c c
    next : {d e : Client} → Reach c d → Step d e → Reach c e

  Step-AllBalanced : {c d : Client} → Step c d → AllBalanced c → AllBalanced d
  unfolding fail reset_timeout_requests
  Step-AllBalanced (phase_changes c p) h = h
  Step-AllBalanced (request_sent c streams awaiting times queues callbacks) h = h
  Step-AllBalanced (streams_reset c now) h = AllBalanced-reset_loop now c.stream_timestamp c [] h
  Step-AllBalanced (request_counted c i k) h = AllBalanced-count_started i k c h
  Step-AllBalanced (request_fails c exhausted) h = AllBalanced-process_request_failure exhausted c h
  Step-AllBalanced (stream_closes {c = c} now schema authority scenarios stream_id success final e)
        h =
      subst (Ok (λ r. AllBalanced r.0)) e
        (AllBalanced-on_stream_close now schema authority scenarios stream_id success final c h)
  Step-AllBalanced (times_out c) h = AllBalanced-timeout c h
  Step-AllBalanced (tries_again c made) h = AllBalanced-try_again_or_fail made c h
  Step-AllBalanced (fails c) h = AllBalanced-process_abandoned_streams c h

  -- From counters that agree, only such are reached: of the worker's requests, those that failed and
  -- those with the expected status are together those with an error and those that succeeded; and for
  -- each step of a scenario, these are also the finished ones.
  pub Reach-AllBalanced : (c d : Client) → AllBalanced c → Reach c d → AllBalanced d
  Reach-AllBalanced c d h here = h
  Reach-AllBalanced c d h (next {d = d'} r s) = Step-AllBalanced s (Reach-AllBalanced c d' h r)
