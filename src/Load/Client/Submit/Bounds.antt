-- ===== src/Load/Client/Submit/Bounds.antt =====
-- How many streams a client opens at once.
use h2loadrunner.Base.{
  Ok, Ok-bind, Ok-map, if_both, if_cases, elim_both, arith, ℕ, zero, suc, ◌+◌, ◌≤◌, ◌≡◌, ◌==◌, refl,
  ap, ◌∙◌, ltb, leb, Bool, true, false, not, ◌&&◌, Option, List, [], ◌∷◌, length, Outcome, ok, stop,
  map_ok,
}
use h2loadrunner.Text.{is_empty}
use h2loadrunner.Cookie.Jar.{RequestData}
use h2loadrunner.Load.Variable.{add64, sub64}
use h2loadrunner.Load.Request.Queues.{Queues}
use h2loadrunner.Load.Client.{Client, count_started, phase_value, main_duration_graceful_shutdown}
use h2loadrunner.Load.Client.Lost.{process_request_failure}
use h2loadrunner.Load.Client.Receive.{reset_stream, reset_loop, reset_timeout_requests}
use h2loadrunner.Load.Client.Submit.{
  Place, streams_of, get_total_pending_streams, front_indices, fill_queue, after_submit,
  submit_request, rps_loop, on_rps_timer,
}
use h2loadrunner.Load.Session.{RetCode, submitted, not_submitted, max_stream_to_be_exhausted}

-- A change of the counters keeps the streams.
SameStreams : Client → Client → Type 0
SameStreams c d = d.streams ≡ c.streams

count_started-SameStreams : (i k : ℕ) (c : Client) → SameStreams c (count_started i k c)
unfolding SameStreams count_started
count_started-SameStreams i k c = ground arith

process_request_failure-SameStreams :
    (exhausted : Bool) (c : Client) → SameStreams c (process_request_failure exhausted c)
unfolding SameStreams process_request_failure
process_request_failure-SameStreams exhausted c = ground arith

reset_loop-SameStreams :
    (now : ℕ) (m : List (ℕ × ℕ)) (c : Client) (reset : List ℕ)
    → SameStreams c (reset_loop now m (c, reset)).0
unfolding SameStreams reset_loop reset_stream
reset_loop-SameStreams now [] c reset = refl
reset_loop-SameStreams now ((t, id) ∷ m) c reset =
    if_both (λ (e : Client × List ℕ). e.0.streams ≡ c.streams) (ltb now t) _ _ refl
      (reset_loop-SameStreams now m (reset_stream id (c, reset)).0 (reset_stream id (c, reset)).1
        ∙ reset_stream-same id c reset)
  where
    reset_stream-same :
        (id : ℕ) (c : Client) (reset : List ℕ) → (reset_stream id (c, reset)).0.streams ≡ c.streams
    reset_stream-same id c reset = ground arith

-- At most one stream more than the bound is counted.
abbrev pub IsBounded : Place → Client → Type 0
IsBounded p c = get_total_pending_streams c p.others ≤ suc p.max_concurrent_streams

SameStreams-IsBounded : (p : Place) (c d : Client) → SameStreams c d → IsBounded p c → IsBounded p d
unfolding SameStreams get_total_pending_streams streams_of
SameStreams-IsBounded p c d same h = omega (arith, ap length same)

module _ (session_submit : Client → Outcome (RetCode × Client))
    (first : Client → Outcome (RequestData × Queues))
    (adds_one : (c : Client)
      → Ok (λ e. length e.1.streams ≤ suc (length c.streams)) (session_submit c)) where
  fill_queue-SameStreams :
      (has_scenarios : Bool) (c : Client)
      → Ok (SameStreams c) (fill_queue session_submit first has_scenarios c)
  unfolding SameStreams fill_queue
  fill_queue-SameStreams has_scenarios c =
      if_both (Ok (SameStreams c)) (is_empty c.queues.requests_to_submit && has_scenarios) _ _
        (Ok-map (SameStreams c) _ (first c) λ e. refl) refl

  after_submit-SameStreams :
      (at : ℕ × ℕ) (e : RetCode × Client)
      → SameStreams e.1 (after_submit session_submit first at e).1
  unfolding after_submit
  after_submit-SameStreams (i, k) (submitted, c) = count_started-SameStreams i k c
  after_submit-SameStreams (i, k) (not_submitted, c) = process_request_failure-SameStreams false c
  after_submit-SameStreams (i, k) (max_stream_to_be_exhausted, c) =
      process_request_failure-SameStreams true c

  abbrev BoundedAfter : Place → RetCode × Client → Type 0
  BoundedAfter p (code, c) = IsBounded p c

  after_submit-IsBounded :
      (p : Place) (at : ℕ × ℕ) (e : RetCode × Client)
      → IsBounded p e.1
      → BoundedAfter p (after_submit session_submit first at e)
  after_submit-IsBounded p at e h =
      SameStreams-IsBounded p e.1 (after_submit session_submit first at e).1
        (after_submit-SameStreams at e) h

  Ok-map_result {ℓ κ μ ν} :
      {A : Type ℓ} {B : Type κ} (P : A → Type μ) (Q : B → Type ν) (f : A → B) (m : Outcome A)
      → Ok P m
      → ((a : A) → P a → Q (f a))
      → Ok Q (map_ok f m)
  Ok-map_result P Q f (ok a) h k = k a h
  Ok-map_result P Q f (stop s) h k = tt

  pub submit_request-IsBounded :
      (p : Place) (c : Client)
      → IsBounded p c
      → Ok (BoundedAfter p) (submit_request session_submit first p c)
  unfolding submit_request SameStreams get_total_pending_streams streams_of
  submit_request-IsBounded p c h =
      if_both (Ok (BoundedAfter p)) (p.null_destination && is_empty c.queues.requests_to_submit) _ _
        h
        (if_cases (Ok (BoundedAfter p))
          (leb p.max_concurrent_streams (get_total_pending_streams c p.others)) _ _ (λ full. h)
          λ room.
            if_both (Ok (BoundedAfter p))
              (phase_value c.current_phase == phase_value main_duration_graceful_shutdown) _ _ h
              (Ok-bind (SameStreams c) (BoundedAfter p)
                (fill_queue session_submit first p.has_scenarios c) _
                (fill_queue-SameStreams p.has_scenarios c)
                λ c' same.
                  if_both (Ok (BoundedAfter p)) p.connected _ _
                    (Ok-map_result (λ e. length e.1.streams ≤ suc (length c'.streams))
                      (BoundedAfter p) _ (session_submit c') (adds_one c')
                      λ e more.
                        after_submit-IsBounded p
                          (front_indices p.has_scenarios c'.queues.requests_to_submit) e
                          (room_for_one p c c' e.1 room same more))
                    (SameStreams-IsBounded p c c' same h)))
    where
      room_for_one :
          (p : Place) (c c' d : Client)
          → leb p.max_concurrent_streams (get_total_pending_streams c p.others) ≡ false
          → c'.streams ≡ c.streams
          → length d.streams ≤ suc (length c'.streams)
          → IsBounded p d
      room_for_one p c c' d room same more = ground (arith, ap length same)

  next_round :
      (p : Place) (n : ℕ)
      → ((c : Client) → IsBounded p c → Ok (IsBounded p) (rps_loop session_submit first p n c))
      → (e : RetCode × Client) → BoundedAfter p e
      → Ok (IsBounded p) (elim e.0 [
        | submitted ↦ rps_loop session_submit first p n (record e.1 {
          rps_req_inflight = add64 e.1.rps_req_inflight 1;
          rps_req_pending = sub64 e.1.rps_req_pending 1;
        })
        | not_submitted ↦ ok e.1
        | max_stream_to_be_exhausted ↦ ok e.1
      ])
  unfolding get_total_pending_streams streams_of
  next_round p n again (submitted, c) h = again _ h
  next_round p n again (not_submitted, c) h = h
  next_round p n again (max_stream_to_be_exhausted, c) h = h

  rps_loop-IsBounded :
      (p : Place) (n : ℕ) (c : Client)
      → IsBounded p c
      → Ok (IsBounded p) (rps_loop session_submit first p n c)
  unfolding rps_loop get_total_pending_streams streams_of
  rps_loop-IsBounded p zero c h = h
  rps_loop-IsBounded p (suc n) c h =
      Ok-bind (BoundedAfter p) (IsBounded p) (submit_request session_submit first p c) _
        (submit_request-IsBounded p c h) (next_round p n (rps_loop-IsBounded p n))

  -- The timer of the rate keeps the bound: where each call of the session adds one stream at most, and the
  -- streams of the client counted twice, with those of its other clients, are at most one more than
  -- max_concurrent_streams, they still are when the timer is done, if it does not stop.
  pub on_rps_timer-IsBounded :
      (p : Place) (now : ℕ) (due : Option ℕ) (c : Client)
      → length c.streams + (length c.streams + streams_of p.others) ≤ suc p.max_concurrent_streams
      → Ok
          (λ c'.
            length c'.streams + (length c'.streams + streams_of p.others)
            ≤ suc p.max_concurrent_streams)
          (on_rps_timer session_submit first p now due c)
  unfolding on_rps_timer get_total_pending_streams streams_of reset_timeout_requests
  on_rps_timer-IsBounded p now due c h =
      let c1 = (reset_timeout_requests now c).0 in
      let h1 =
        SameStreams-IsBounded p c c1 (reset_loop-SameStreams now c.stream_timestamp c []) h in
      if_both (Ok (IsBounded p)) c1.setting.timing_script _ _ tt (
        if_both (Ok (IsBounded p)) (not p.connected) _ _ h1 (
          if_both (Ok (IsBounded p)) (c1.req_left == 0) _ _ h1 (
            elim_both (Ok (IsBounded p)) due _ _ h1 λ n.
              if_both (Ok (IsBounded p)) (n == 0) _ _ h1 (
                if_both (Ok (IsBounded p)) (sub64 p.max_concurrent_streams (length c1.streams) == 0)
                  _ _ h1 (rps_loop-IsBounded p _ (record c1 { rps_req_pending = n }) h1)))))
