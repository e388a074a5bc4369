-- ===== src/Load/Session/Http1/Sent.antt =====
-- What a session of HTTP/1.1 sends: the text of the request and its payload, whole and in order.
use h2loadrunner.Base.{
  ℕ, ◌+◌, ◌≤◌, ◌<◌, ◌≡◌, ◌==◌, ltb, ltb→lt, Bool, true, false, some, none, [], ◌∷◌, ◌++◌, length,
  take, drop, take-append-drop, take-all, append_assoc, append-nil, length-append, length-drop,
  length-take, arith, ap, sym, ◌∙◌, refl, Bool-cases, inl, inr, Outcome, ok, map_ok,
}
use h2loadrunner.Text.{Bytes, is_empty}
use h2loadrunner.Cookie.Jar.{RequestData}
use h2loadrunner.Load.Client.{Stream, find_at}
use h2loadrunner.Load.Client.Changes.{find_at-change_at}
use h2loadrunner.Load.Client.Receive.{change_request, get_req_stat}
use h2loadrunner.Load.Session.Http1.{
  Http1, chunk_size, push_data_to_output_buffer, request_done, send_payload, on_write,
}

-- What the session has yet to push: the payload of the request that is sent, or nothing.
pub data Holds (s : Http1) : Bytes → Type 0 where
  going :
      {rest : Bytes} {stat : Stream} {r : RequestData}
      → s.complete ≡ false
      → s.stream_resp_counter ≤ s.stream_req_counter
      → find_at s.stream_req_counter s.client.streams ≡ some stat
      → find_at (s.stream_req_counter + 2) s.client.streams ≡ none
      → find_at s.stream_req_counter s.client.requests_awaiting_response ≡ some r
      → r.req_payload ≡ rest
      → is_empty rest ≡ false
      → Holds s rest
  finished : s.complete ≡ false → find_at s.stream_req_counter s.client.streams ≡ none → Holds s []

pub push_with_room :
    (output d : Bytes)
    → length output < chunk_size
    → push_data_to_output_buffer output d ≡ output ++ d
unfolding push_data_to_output_buffer
push_with_room output d h = ground arith

-- The first piece of a payload, and the session after it.
abbrev with_piece : Bytes → Http1 → Http1
with_piece payload s = record s {
  output = push_data_to_output_buffer s.output (take chunk_size payload);
  client =
      change_request s.stream_req_counter (λ r. record r { req_payload = drop chunk_size payload })
        s.client;
}

abbrev with_last_piece : Bytes → Http1 → Http1
with_last_piece payload s = record s {
  output = push_data_to_output_buffer s.output payload;
  stream_req_counter = s.stream_req_counter + 2;
}

nonempty : (d : Bytes) → 0 < length d → is_empty d ≡ false
nonempty [] h = absurd (omega arith)
nonempty (b ∷ d) h = refl

push_piece :
    (n : ℕ) (output d : Bytes)
    → length output < chunk_size
    → push_data_to_output_buffer output (take n d) ++ drop n d ≡ output ++ d
push_piece n output d h =
    ap (λ o. o ++ drop n d) (push_with_room output (take n d) h)
    ∙ append_assoc output (take n d) (drop n d)
    ∙ ap (◌++◌ output) (take-append-drop n d)

some_pushed :
    (n : ℕ) (output d : Bytes)
    → length output < chunk_size
    → 0 < n
    → n < length d
    → push_data_to_output_buffer output (take n d) ≡ []
    → drop n d ≡ []
some_pushed n output d h positive more e = absurd (
    omega (
      arith,
      ap length (sym (push_with_room output (take n d) h) ∙ e),
      length-append output (take n d),
      length-take n d,
    ))

left_back : (n : ℕ) (d : Bytes) → n < length d → is_empty (drop n d) ≡ false
left_back n d h = nonempty (drop n d) (omega (arith, length-drop n d))

ltb_irrefl : (n : ℕ) → ltb n n ≡ false
ltb_irrefl n = ground arith

not_behind : (m n : ℕ) → m ≤ n → (m == (n + 2)) ≡ false
not_behind m n h = ground arith

module _ (close : ℕ → Bool → Http1 → Outcome Http1) where
  send_payload_long :
      (payload : Bytes) (s : Http1)
      → ltb chunk_size (length payload) ≡ true
      → send_payload close payload s ≡ ok (with_piece payload s)
  unfolding send_payload
  send_payload_long [] s h = absurd (ground arith)
  send_payload_long (b ∷ payload) s h = rw (h, h) refl

  send_payload_short :
      (payload : Bytes) (s : Http1)
      → is_empty payload ≡ false
      → ltb chunk_size (length payload) ≡ false
      → s.stream_resp_counter ≤ s.stream_req_counter
      → send_payload close payload s ≡ ok (with_last_piece payload s)
  unfolding send_payload request_done
  send_payload_short [] s e h k = absurd (ground arith)
  send_payload_short (b ∷ payload) s e h k =
      rw
        (
          h,
          ltb_irrefl (length (b ∷ payload)),
          take-all (length (b ∷ payload)) (b ∷ payload) (omega arith),
          request_done,
          not_behind s.stream_resp_counter s.stream_req_counter k,
        )
        refl

  on_write_going :
      (s : Http1) (stat : Stream) (r : RequestData)
      → s.complete ≡ false
      → find_at s.stream_req_counter s.client.streams ≡ some stat
      → find_at s.stream_req_counter s.client.requests_awaiting_response ≡ some r
      → on_write close s ≡ map_ok (λ s'. (true, s')) (send_payload close r.req_payload s)
  unfolding on_write get_req_stat
  on_write_going s stat r up there awaited = ground arith

  on_write_done :
      (s : Http1)
      → s.complete ≡ false
      → find_at s.stream_req_counter s.client.streams ≡ none
      → on_write close s ≡ ok (true, s)
  unfolding on_write get_req_stat
  on_write_done s up none_there = ground arith

  -- One call: what is pushed and what is left are what there was, and nothing is left back without cause.
  pub record Pushed (s : Http1) (rest : Bytes) : Type 0 where
    pub after : Http1
    pub rest_after : Bytes
    pub result : on_write close s ≡ ok (true, after)
    pub holds : Holds after rest_after
    pub same : after.output ++ rest_after ≡ s.output ++ rest
    pub progress : after.output ≡ [] → rest_after ≡ []

  pub on_write-Pushed :
      (s : Http1) (rest : Bytes) → length s.output < chunk_size → Holds s rest → Pushed s rest
  unfolding change_request
  on_write-Pushed s rest h (finished up none_there) = record {
    after = s;
    rest_after = [];
    result = on_write_done s up none_there;
    holds = finished up none_there;
    same = refl;
    progress = λ e. refl;
  }
  on_write-Pushed s rest h
        (going {stat = stat} {r = r} up before there none_next awaited is_rest more) =
      let calls = on_write_going s stat r up there awaited in
      elim (Bool-cases (ltb chunk_size (length rest))) [
        | inl long ↦ record {
          after = with_piece rest s;
          rest_after = drop chunk_size rest;
          result =
              calls
              ∙ ap (map_ok (λ s'. (true, s')))
                  (ap (λ p. send_payload close p s) is_rest ∙ send_payload_long rest s long);
          holds =
              going up before there none_next
                (find_at-change_at s.stream_req_counter _ s.client.requests_awaiting_response r
                  awaited)
                refl (left_back chunk_size rest (ltb→lt chunk_size (length rest) long));
          same = push_piece chunk_size s.output rest h;
          progress =
              some_pushed chunk_size s.output rest h (omega arith)
                (ltb→lt chunk_size (length rest) long);
        }
        | inr short ↦ record {
          after = with_last_piece rest s;
          rest_after = [];
          result =
              calls
              ∙ ap (map_ok (λ s'. (true, s'))) (
                  ap (λ p. send_payload close p s) is_rest
                  ∙ send_payload_short rest s more short before);
          holds = finished up none_next;
          same = append-nil _ ∙ push_with_room s.output rest h;
          progress = λ e. refl;
        }
      ]
