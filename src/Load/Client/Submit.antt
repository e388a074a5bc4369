-- ===== src/Load/Client/Submit.antt =====
-- How a client submits requests: `submit_request`, `get_total_pending_streams` and `on_rps_timer`, for a
-- controller client that opens no connections for other authorities.
pub mod Bounds
pub mod Fills
use h2loadrunner.Base.{
  ℕ, zero, suc, ◌+◌, ◌==◌, ltb, leb, min, if◌then◌else◌, Bool, true, false, not, ◌&&◌, Option, none,
  some, List, [], ◌∷◌, ◌++◌, length, Outcome, ok, stop, aborts, ◌>>=◌, map_ok,
}
use h2loadrunner.Text.{is_empty}
use h2loadrunner.Cookie.Jar.{RequestData}
use h2loadrunner.Load.Variable.{add64, sub64}
use h2loadrunner.Load.Request.Queues.{Queues}
use h2loadrunner.Load.Client.{
  Client, Phase, phase_value, is_main, count_started, main_duration_graceful_shutdown,
}
use h2loadrunner.Load.Client.Lost.{process_request_failure}
use h2loadrunner.Load.Client.Receive.{reset_timeout_requests}
use h2loadrunner.Load.Session.{RetCode, submitted, not_submitted, max_stream_to_be_exhausted}

-- The streams of some clients.
unfoldable pub streams_of : List Client → ℕ
streams_of [] = 0
streams_of (d ∷ ds) = length d.streams + streams_of ds

-- The streams of the client, and those of its `dest_clients`: itself, since it connected, and others.
unfoldable pub get_total_pending_streams : Client → List Client → ℕ
unfolding streams_of
get_total_pending_streams c others = length c.streams + streams_of (c ∷ others)

-- The scenario and the step of the request that is submitted next.
unfoldable pub front_indices : Bool → List RequestData → ℕ × ℕ
front_indices has_scenarios [] = (0, 0)
front_indices has_scenarios (r ∷ rest) =
    if has_scenarios then (r.scenario_index, r.curr_request_idx) else (0, 0)

-- What the client is at: the configuration, the bound of its session, whether it is connected, and the
-- clients for other authorities.
pub record Place : Type 0 where
  pub null_destination : Bool
  pub has_scenarios : Bool
  pub connected : Bool
  pub max_concurrent_streams : ℕ
  pub others : List Client

-- `submit_request` of the session, and the first request of a new user.
module _ (session_submit : Client → Outcome (RetCode × Client))
    (first : Client → Outcome (RequestData × Queues)) where
  -- A first request is made where the queue is empty.
  unfoldable pub fill_queue : Bool → Client → Outcome Client
  fill_queue has_scenarios c =
      if is_empty c.queues.requests_to_submit && has_scenarios
      then map_ok
          (λ (r, q). record c {
            queues = record q { requests_to_submit = q.requests_to_submit ++ (r ∷ []) };
          })
          (first c)
      else ok c

  -- What comes of the session's attempt.
  unfoldable pub after_submit : ℕ × ℕ → RetCode × Client → RetCode × Client
  unfolding count_started process_request_failure
  after_submit (i, k) (submitted, c) = (submitted, count_started i k c)
  after_submit (i, k) (not_submitted, c) = (not_submitted, process_request_failure false c)
  after_submit (i, k) (max_stream_to_be_exhausted, c) =
      (max_stream_to_be_exhausted, process_request_failure true c)

  unfoldable pub submit_request : Place → Client → Outcome (RetCode × Client)
  unfolding fill_queue after_submit front_indices get_total_pending_streams
  submit_request p c =
      if p.null_destination && is_empty c.queues.requests_to_submit
      then ok (submitted, c)
      else if leb p.max_concurrent_streams (get_total_pending_streams c p.others)
      then ok (not_submitted, c)
      else if phase_value c.current_phase == phase_value main_duration_graceful_shutdown
      then ok (not_submitted, c)
      else (fill_queue p.has_scenarios c >>= λ c'.
          if p.connected
          then map_ok (after_submit (front_indices p.has_scenarios c'.queues.requests_to_submit))
              (session_submit c')
          else ok (submitted, c'))

  -- The loop of the rate timer: it ends at the first request that is not submitted.
  unfoldable pub rps_loop : Place → ℕ → Client → Outcome Client
  rps_loop p zero c = ok c
  rps_loop p (suc n) c = submit_request p c >>= λ (code, c'). elim code [
    | submitted ↦ rps_loop p n (record c' {
      rps_req_inflight = add64 c'.rps_req_inflight 1;
      rps_req_pending = sub64 c'.rps_req_pending 1;
    })
    | not_submitted ↦ ok c'
    | max_stream_to_be_exhausted ↦ ok c'
  ]

  -- How many requests the timer submits: `std::max` in a mode that is based on time.
  unfoldable pub rps_count : Place → Client → ℕ
  rps_count p c =
      let room = sub64 p.max_concurrent_streams (length c.streams) in
      let wanted =
        if c.setting.is_timing_based_mode
        then (if ltb room c.req_left then c.req_left else room)
        else min room c.req_left in
      min wanted c.rps_req_pending

  -- `on_rps_timer` at a time in milliseconds. The number is that of the requests that are due by the rate
  -- since the timer started, a floating-point product; there is none where the clock went back.
  unfoldable pub on_rps_timer : Place → ℕ → Option ℕ → Client → Outcome Client
  unfolding rps_loop rps_count reset_timeout_requests
  on_rps_timer p now due c0 =
      let c = (reset_timeout_requests now c0).0 in
      if c.setting.timing_script
      then stop aborts
      else if not p.connected
      then ok c
      else if c.req_left == 0
      then ok c
      else elim due [
        | none ↦ ok c
        | some n ↦
            let c' = record c { rps_req_pending = n } in
            if n == 0
            then ok c'
            else if sub64 p.max_concurrent_streams (length c.streams) == 0
            then ok c'
            else rps_loop p (rps_count p c') c'
      ]
