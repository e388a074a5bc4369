-- ===== src/Load/Session/Http2/Submitted.antt =====
-- A request of HTTP/2 that is submitted and answered.
use h2loadrunner.Base.{
  ℕ, ◌-◌, ◌≤◌, ◌<◌, ◌≡◌, leb, true, false, not, some, none, List, [], ◌∷◌, ◌++◌, All, arith, ap,
  ◌∙◌, refl, ok, map_ok,
}
use h2loadrunner.Text.{Bytes, codes, eq_bytes, is_empty}
use h2loadrunner.Text.Decimal.{ℤ}
use h2loadrunner.Cookie.Jar.{RequestData}
use h2loadrunner.Load.Request.Queues.{get_request_to_submit, take_front}
use h2loadrunner.Load.Client.{Client, find_at, erase_at, is_measured}
use h2loadrunner.Load.Client.Changes.{find_at-change_at}
use h2loadrunner.Load.Client.Receive.{on_request_start, forget_callback, new_stream}
use h2loadrunner.Load.Client.Receive.Answer.{on_response, answered, on_response_lem}
use h2loadrunner.Load.Session.{is_empty_request, RetCode, submitted}
use h2loadrunner.Load.Session.Started.{
  started, on_request_start-first, emplace_at_new, find_at_first,
}
use h2loadrunner.Load.Session.Http2.{
  Nghttp2, Http2, int32_max, http2_nvs, register_stream, submit_to_nghttp2, submit_request,
}

last_id : (id : ℕ) → id < int32_max - 1 → leb (int32_max - 1) id ≡ false
last_id id h = ground arith

module _ {ℓ} {Session : Type ℓ} (n : Nghttp2 Session) where
  -- The session once the request of the front has a stream.
  abbrev accepted :
      ℕ → ℕ → ℤ → ℕ → Session → RequestData → List RequestData → Http2 Session → Http2 Session
  accepted now configured memory id session' r more s = record {
    client =
        started now configured memory id r s.client.requests_awaiting_response
          (record s.client { queues = record s.client.queues { requests_to_submit = more } });
    session = session';
    curr_stream_id = id;
  }

  submit_to_nghttp2-accepted :
      (now configured : ℕ) (memory : ℤ) (id : ℕ) (session' : Session) (r : RequestData)
      (more : List RequestData) (s : Http2 Session)
      → n.submit_request s.session (http2_nvs r) (not (is_empty r.req_payload))
        ≡ (some id, session')
      → find_at id s.client.requests_awaiting_response ≡ none
      → submit_to_nghttp2 n now configured memory r (record s {
        client = record s.client { queues = record s.client.queues { requests_to_submit = more } };
      })
        ≡ ok (submitted, accepted now configured memory id session' r more s)
  unfolding submit_to_nghttp2 register_stream
  submit_to_nghttp2-accepted now configured memory id session' r more s takes new =
      let c = record s.client { queues = record s.client.queues { requests_to_submit = more } } in
      let wrap : Client → RetCode × Http2 Session =
        λ c'. (submitted, record { client = c'; session = session'; curr_stream_id = id }) in
      ap (λ a. register_stream now configured memory r a (record s { client = c })) takes
      ∙ (ap
            (λ m. map_ok wrap (
              on_request_start now configured memory id
                (record c { requests_awaiting_response = m })))
            (emplace_at_new id r c.requests_awaiting_response new)
          ∙ ap (map_ok wrap) (
              on_request_start-first now configured memory id r s.client.requests_awaiting_response
                c))

  -- A request that nghttp2 takes is sent with its pseudo headers and its other headers, and answered: where
  -- it is the first in the queue, nghttp2 allows it and takes it under an identifier that no request
  -- waits under, then `submit_request` succeeds, and the response under that identifier, with a status of
  -- at most three digits and whatever headers and pieces of a payload, is handled without a stop and held
  -- by that request, its status by the new stream. The callback of the request, if it has one, is called
  -- once, with that identifier, and then dropped.
  pub submit_request-answered :
      (now configured : ℕ) (memory : ℤ) (id : ℕ) (session' : Session) (r : RequestData)
      (more : List RequestData) (s : Http2 Session) (status : ℕ) (hs : List (Bytes × Bytes))
      (ds : List Bytes)
      → s.client.queues.requests_to_submit ≡ r ∷ more
      → is_empty_request r ≡ false
      → n.check_request_allowed s.session ≡ true
      → s.curr_stream_id < int32_max - 1
      → n.submit_request s.session (http2_nvs r) (not (is_empty r.req_payload))
        ≡ (some id, session')
      → find_at id s.client.requests_awaiting_response ≡ none
      → status ≤ 999
      → All (λ e. eq_bytes e.0 (codes ":status") ≡ false) hs
      → (s' : Http2 Session) × (c : Client) × (submit_request n now configured memory false s
          ≡ ok (submitted, s'))
        × (s'.client.queues.requests_to_submit ≡ more)
        × (s'.client.sent_callbacks ≡ elim r.request_sent_callback [
          | none ↦ s.client.sent_callbacks
          | some f ↦ s.client.sent_callbacks ++ ((f, id) ∷ [])
        ])
        × (on_response id status hs ds s'.client ≡ ok c)
        × (find_at id c.requests_awaiting_response
            ≡ some (answered status hs ds (forget_callback r)))
        × (find_at id c.streams
            ≡ some (record (new_stream memory (is_measured s.client.current_phase)) {
              status = status;
            }))
  unfolding submit_request get_request_to_submit take_front new_stream
  submit_request-answered now configured memory id session' r more s status hs ds front set allowed
        below takes new le a =
      let s' = accepted now configured memory id session' r more s in
      let stat = new_stream memory (is_measured s.client.current_phase) in
      let there = find_at_first id stat (erase_at id s.client.streams) in
      let sent = forget_callback r in
      let awaited = find_at_first id sent s.client.requests_awaiting_response in
      (
        s',
        _,
        rw (allowed, last_id s.curr_stream_id below, front, set)
            (submit_to_nghttp2-accepted now configured memory id session' r more s takes new),
        refl,
        refl,
        on_response_lem id status hs ds s'.client stat sent le a there refl awaited,
        find_at-change_at id (answered status hs ds) s'.client.requests_awaiting_response sent
            awaited,
        find_at-change_at id _ s'.client.streams stat there,
      )
