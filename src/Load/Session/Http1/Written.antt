-- ===== src/Load/Session/Http1/Written.antt =====
-- A request of HTTP/1.1 on the wire: what the client writes until the session has nothing left.
use h2loadrunner.Base.{
  ℕ, suc, ◌+◌, ◌≤◌, ◌<◌, ◌≡◌, leb, leb→le, Bool, true, false, some, none, List, [], ◌∷◌, ◌++◌,
  length, take, drop, take-append-drop, append_assoc, append-nil, length-append, length-drop, All,
  arith, ap, ap₂, sym, ◌∙◌, refl, subst, Bool-cases, inl, inr, Outcome, ok, ◌>>=◌,
}
use h2loadrunner.Text.{Bytes, is_empty}
use h2loadrunner.Text.Decimal.{ℤ}
use h2loadrunner.Cookie.Jar.{RequestData}
use h2loadrunner.Load.Request.Queues.{get_request_to_submit, take_front}
use h2loadrunner.Load.Client.{Stream, find_at, erase_at, is_measured}
use h2loadrunner.Load.Client.Receive.{on_request_start, forget_callback, new_stream}
use h2loadrunner.Load.Client.Changes.{find_at-erase_at-none}
use h2loadrunner.Load.Session.{is_empty_request, submitted}
use h2loadrunner.Load.Session.Started.{
  started, on_request_start-first, emplace_at_new, find_at_first,
}
use h2loadrunner.Load.Session.Http1.{
  Http1, chunk_size, push_data_to_output_buffer, request_text, client_on_write, send_request,
  submit_request, set_client, write_clear,
}
use h2loadrunner.Load.Session.Http1.Sent.{
  Holds, going, finished, push_with_room, Pushed, on_write-Pushed,
}

empty_is_nil : (d : Bytes) → is_empty d ≡ true → d ≡ []
empty_is_nil [] h = refl
empty_is_nil (b ∷ d) h = absurd (ground arith)

-- What the session holds does not depend on the buffer.
Holds-any_output :
    (s : Http1) (rest d : Bytes) → Holds s rest → Holds (record s { output = d }) rest
Holds-any_output s rest d (going up before there none_next awaited is_rest more) =
    going up before there none_next awaited is_rest more
Holds-any_output s rest d (finished up none_there) = finished up none_there

next_is_new :
    (id : ℕ) (stat : Stream) (m : List (ℕ × Stream))
    → find_at (id + 2) m ≡ none
    → find_at (id + 2) ((id, stat) ∷ erase_at id m) ≡ none
unfolding find_at
next_is_new id stat m h = ground (arith, find_at-erase_at-none (id + 2) id m h)

shorter :
    (n m : ℕ) (output rest : Bytes)
    → 0 < n
    → is_empty output ≡ false
    → length (output ++ rest) ≤ suc m
    → length (drop n output ++ rest) ≤ m
shorter n m [] rest h k le = absurd (ground arith)
shorter n m (b ∷ output) rest h k le = omega (
  arith,
  length-append (b ∷ output) rest,
  length-append (drop n (b ∷ output)) rest,
  length-drop n (b ∷ output),
)

taken_in_front :
    (n : ℕ) (output rest : Bytes) → take n output ++ (drop n output ++ rest) ≡ output ++ rest
taken_in_front n output rest =
    sym (append_assoc (take n output) (drop n output) rest)
    ∙ ap (λ o. o ++ rest) (take-append-drop n output)

module _ (close : ℕ → Bool → Http1 → Outcome Http1) where
  -- The same of the client's call, which does nothing while the buffer is full.
  record Asked (s : Http1) (rest : Bytes) : Type 0 where
    after : Http1
    rest_after : Bytes
    result : client_on_write close s ≡ ok (true, after)
    holds : Holds after rest_after
    same : after.output ++ rest_after ≡ s.output ++ rest
    progress : after.output ≡ [] → rest_after ≡ []

  client_on_write-Asked : (s : Http1) (rest : Bytes) → Holds s rest → Asked s rest
  unfolding client_on_write
  client_on_write-Asked s rest h = elim (Bool-cases (leb chunk_size (length s.output))) [
    | inl full ↦ record {
      after = s;
      rest_after = rest;
      result = rw full refl;
      holds = h;
      same = refl;
      progress = λ e. absurd (omega (arith, leb→le _ _ full, ap length e));
    }
    | inr room ↦
        let p : Pushed close s rest = on_write-Pushed close s rest (ground arith) h in
        record {
          after = p.after;
          rest_after = p.rest_after;
          result = rw room p.result;
          holds = p.holds;
          same = p.same;
          progress = p.progress;
        }
  ]

  -- With enough calls of `writev` that take a byte at least, all is sent.
  write_clear-Holds :
      (ns : List ℕ) (s : Http1) (rest : Bytes)
      → Holds s rest
      → All (λ n. 0 < n) ns
      → length (s.output ++ rest) ≤ length ns
      → (s' : Http1) × (write_clear close ns s ≡ ok (s.output ++ rest, s'))
  unfolding write_clear
  write_clear-Holds [] s rest h a le =
      (s, ap (λ d. ok (d, s)) (sym (no_bytes (s.output ++ rest) le)))
    where
      no_bytes : (d : Bytes) → length d ≤ 0 → d ≡ []
      no_bytes [] k = refl
      no_bytes (b ∷ d) k = absurd (omega arith)
  write_clear-Holds (n ∷ ns) s rest h a le =
      let p : Asked s rest = client_on_write-Asked s rest h in
      elim (Bool-cases (is_empty p.after.output)) [
        | inl none_left ↦
            let nothing = empty_is_nil p.after.output none_left in
            (
              p.after,
              rw (p.result, none_left)
                  (ap (λ d. ok (d, p.after))
                    (sym (sym p.same ∙ ap₂ ◌++◌ nothing (p.progress nothing)))),
            )
        | inr some_left ↦
            let s1 = record p.after { output = drop n p.after.output } in
            let (s', e) =
              write_clear-Holds ns s1 p.rest_after
                (Holds-any_output p.after p.rest_after (drop n p.after.output) p.holds) a.1
                (shorter n (length ns) p.after.output p.rest_after a.0 some_left
                  (subst (λ d. length d ≤ suc (length ns)) (sym p.same) le)) in
            (
              s',
              rw (p.result, some_left, e)
                  (ap (λ d. ok (d, s')) (taken_in_front n p.after.output p.rest_after ∙ p.same)),
            )
      ]

  -- The request is pushed: its text and as much of its payload as goes at once.
  send_request-Holds :
      (s : Http1) (stat : Stream) (r : RequestData)
      → s.complete ≡ false
      → s.stream_resp_counter ≤ s.stream_req_counter
      → find_at s.stream_req_counter s.client.streams ≡ some stat
      → find_at (s.stream_req_counter + 2) s.client.streams ≡ none
      → find_at s.stream_req_counter s.client.requests_awaiting_response ≡ some r
      → s.output ≡ []
      → length (request_text r) < chunk_size
      → (s' : Http1) × (rest : Bytes) × (send_request close r s ≡ ok (submitted, s'))
        × Holds s' rest
        × (s'.output ++ rest ≡ request_text r ++ r.req_payload)
  unfolding send_request
  send_request-Holds s stat r up before there none_next awaited clear fits =
      let text = request_text r in
      let pushed : push_data_to_output_buffer s.output text ≡ text =
        ap (λ o. push_data_to_output_buffer o text) clear ∙ push_with_room [] text (omega arith) in
      let s1 = record s { output = push_data_to_output_buffer s.output text } in
      elim (Bool-cases (is_empty r.req_payload)) [
        | inl no_payload ↦ (
          record s1 { stream_req_counter = s.stream_req_counter + 2 },
          [],
          rw no_payload refl,
          finished up none_next,
          append-nil _
              ∙ pushed
              ∙ sym (append-nil text)
              ∙ ap (◌++◌ text) (sym (empty_is_nil r.req_payload no_payload)),
        )
        | inr payload ↦
            let p : Pushed close s1 r.req_payload =
              on_write-Pushed close s1 r.req_payload
                (subst (λ o. length o < chunk_size) (sym pushed) fits)
                (going up before there none_next awaited refl payload) in
            (
              p.after,
              p.rest_after,
              rw (payload, p.result) refl,
              p.holds,
              p.same ∙ ap (λ o. o ++ r.req_payload) pushed,
            )
      ]

  -- The callback is no part of what is sent.
  send_request-forget_callback :
      (r : RequestData) (s : Http1)
      → send_request close r s ≡ send_request close (forget_callback r) s
  unfolding send_request
  send_request-forget_callback r s = refl

  -- The request of the front, with its new stream.
  abbrev registered : ℕ → ℕ → ℤ → RequestData → List RequestData → Http1 → Http1
  registered now configured memory r more s = record s {
    client =
        started now configured memory s.stream_req_counter r s.client.requests_awaiting_response
          (record s.client { queues = record s.client.queues { requests_to_submit = more } });
  }

  submit_request-registered :
      (now configured : ℕ) (memory : ℤ) (s : Http1) (r : RequestData) (more : List RequestData)
      → s.client.queues.requests_to_submit ≡ r ∷ more
      → is_empty_request r ≡ false
      → find_at s.stream_req_counter s.client.requests_awaiting_response ≡ none
      → submit_request close now configured memory s
        ≡ send_request close r (registered now configured memory r more s)
  unfolding submit_request get_request_to_submit take_front on_request_start set_client find_at
  submit_request-registered now configured memory s r more front set new =
      rw (front, set)
        (ap
            (λ m.
              on_request_start now configured memory s.stream_req_counter (record s.client {
                queues = record s.client.queues { requests_to_submit = more };
                requests_awaiting_response = m;
              })
              >>= λ c'. send_request close r (set_client s c'))
            (emplace_at_new s.stream_req_counter r s.client.requests_awaiting_response new)
          ∙ ap (λ o. o >>= λ c'. send_request close r (set_client s c'))
              (on_request_start-first now configured memory s.stream_req_counter r
                s.client.requests_awaiting_response
                (record s.client {
                  queues = record s.client.queues { requests_to_submit = more };
                })))

  -- A request that is submitted is written whole: where it is the first in the queue, with the buffer
  -- empty, its number not in use, and a text that is shorter than the buffer, then whatever numbers of
  -- bytes `writev` takes, at least one each time, enough calls of it write the text of the request and its
  -- payload, all of both and nothing else.
  pub submit_request-written :
      (now configured : ℕ) (memory : ℤ) (ns : List ℕ) (s : Http1) (r : RequestData)
      (more : List RequestData)
      → s.client.queues.requests_to_submit ≡ r ∷ more
      → is_empty_request r ≡ false
      → s.complete ≡ false
      → s.stream_resp_counter ≤ s.stream_req_counter
      → find_at s.stream_req_counter s.client.requests_awaiting_response ≡ none
      → find_at (s.stream_req_counter + 2) s.client.streams ≡ none
      → s.output ≡ []
      → length (request_text r) < chunk_size
      → All (λ n. 0 < n) ns
      → length (request_text r ++ r.req_payload) ≤ length ns
      → (s' : Http1) × ((submit_request close now configured memory s >>= λ (code, s0).
            write_clear close ns s0)
          ≡ ok (request_text r ++ r.req_payload, s'))
  unfolding find_at request_text
  submit_request-written now configured memory ns s r more front set up before new none_next clear
        fits a enough =
      let s1 = registered now configured memory r more s in
      let stat = new_stream memory (is_measured s.client.current_phase) in
      let (s0, rest, sent, holds, same) =
        send_request-Holds s1 stat (forget_callback r) up before
          (find_at_first s.stream_req_counter _ _)
          (next_is_new s.stream_req_counter stat s.client.streams none_next)
          (find_at_first s.stream_req_counter _ _) clear fits in
      let (s', written) =
        write_clear-Holds ns s0 rest holds a
          (subst (λ d. length d ≤ length ns) (sym same) enough) in
      (
        s',
        ap (λ o. o >>= λ (code, s2). write_clear close ns s2)
              (submit_request-registered now configured memory s r more front set new
                ∙ send_request-forget_callback r s1
                ∙ sent)
            ∙ written
            ∙ ap (λ d. ok (d, s')) same,
      )
