-- ===== src/Tests/Session.antt =====
-- The sessions, and what a client does while a response arrives.
use h2loadrunner.Base.{
  ℕ, zero, suc, ◌+◌, ◌*◌, ◌<◌, ◌≡◌, refl, true, false, arith, Bool, some, none, List, [], ◌∷◌, ◌++◌,
  All, Outcome, ok, ◌>>=◌, drop, take, map,
}
use h2loadrunner.Base.Maps.{map_find}
use h2loadrunner.Text.{Bytes, codes, eq_bytes, inp_strlower}
use h2loadrunner.Text.Decimal.{pos, to_string}
use h2loadrunner.Cookie.Jar.{RequestData, HeaderMap, ci_less}
use h2loadrunner.Load.Variable.{replicate, add64}
use h2loadrunner.Load.Request.Queues.{
  Queues, enqueue_request, resume_delayed_request_execution, get_request_to_submit,
}
use h2loadrunner.Load.Request.Queues.Times.{due, not_due}
use h2loadrunner.Load.Request.Queues.Served.{Run, enqueue_request-served}
use h2loadrunner.Load.Request.First.{empty_request}
use h2loadrunner.Load.Client.{Client, find_at, is_measured, main_duration}
use h2loadrunner.Load.Client.Receive.{new_stream, reset_timeout_requests}
use h2loadrunner.Load.Client.Receive.Answer.{on_response, answered}
use h2loadrunner.Load.Client.Receive.Headers.{Gathers, on_response-Gathers}
use h2loadrunner.Load.Client.Receive.Timed.{
  open_streams, counted_streams, timed, reset_timeout_requests_lem,
}
use h2loadrunner.Base.{get_elem?, ◌+◌}
use h2loadrunner.Load.Client.Submit.{Place}
use h2loadrunner.Load.Session.{RetCode}
use h2loadrunner.Load.Session.{
  sent_headers, submitted, is_request_pseudo, configured_headers, own_headers, is_empty_request,
}
use h2loadrunner.Load.Session.Headers.{map_find-sent_headers}
use h2loadrunner.Load.Session.Http1.{Http1, request_text, header_lines, write_clear}
use h2loadrunner.Load.Session.Http1
use h2loadrunner.Load.Session.Http1.Written.{submit_request-written}
use h2loadrunner.Load.Session.Http1.Response.{read_headers, single, read_headers_lem}
use h2loadrunner.Load.Session.Http2.{Nghttp2, Http2}
use h2loadrunner.Load.Session.Http2
use h2loadrunner.Load.Session.Http2.Frames.{read_frames, copies, read_frames_lem}
use h2loadrunner.Load.Session.Http2.Submitted.{submit_request-answered}
use h2loadrunner.Tests.Scenario.{new_client, second_request, no_queues}

-- A request with a payload, in the queue of a client.
abbrev posted : RequestData
posted = record second_request {
  method = codes "POST";
  req_payload = codes "ab";
  req_headers_from_config = (codes "Accept", codes "x") ∷ [];
}

abbrev posting : Client
posting = record new_client { queues = record no_queues { requests_to_submit = posted ∷ [] } }

abbrev posting_http1 : Http1
posting_http1 = record {
  client = posting;
  final = false;
  output = [];
  stream_req_counter = 1;
  stream_resp_counter = 1;
  complete = false;
  hdr_name = [];
  hdr_val = [];
}

-- A request after which the next one waits.
abbrev delayed : RequestData
delayed = record posted { delay_before_executing_next = 5 }

-- `writev` that takes four bytes each time.
abbrev fours : List ℕ
fours = replicate 64 4

positive : (n : ℕ) → All (λ k. 0 < k) (replicate n 4)
unfolding replicate
positive zero = tt
positive (suc n) = (omega arith, positive n)

abbrev plain_close : ℕ → Bool → Http1 → Outcome Http1
plain_close id final s = ok s

submit_request-written_example :
    (s' : Http1) × ((Http1.submit_request plain_close 0 5000 (pos 0) posting_http1 >>= λ (code, s0).
    write_clear plain_close fours s0)
      ≡ ok (request_text posted ++ posted.req_payload, s'))
unfolding request_text header_lines sent_headers configured_headers own_headers find_at
    is_empty_request empty_request is_request_pseudo eq_bytes replicate map_find
submit_request-written_example =
    submit_request-written plain_close 0 5000 (pos 0) fours posting_http1 posted [] refl refl refl
      (omega arith) refl refl refl (omega arith) (positive 64) (omega arith)

-- A session of nghttp2 that takes every request under the next odd number.
abbrev counting : Nghttp2 ℕ
counting = record {
  check_request_allowed = λ n. true;
  submit_request = λ n hs payload. (some (2 * n + 1), n + 1);
  submit_rst_stream = λ n id. n;
  want_read = λ n. true;
  want_write = λ n. false;
}

abbrev posting_http2 : Http2 ℕ
posting_http2 = record {
  client = record posting {
    queues = record no_queues {
      requests_to_submit = record posted { request_sent_callback = some 5 } ∷ [];
    };
  };
  session = 0;
  curr_stream_id = 0;
}

abbrev response_headers : List (Bytes × Bytes)
response_headers = (codes "Set-Cookie", codes " a=1") ∷ ((codes "set-cookie", codes "b=2") ∷ [])

submit_request-answered_example :
    (s' : Http2 ℕ) × (c : Client) × (Http2.submit_request counting 0 5000
        (pos 0)
        false
        posting_http2
      ≡ ok (submitted, s'))
    × (s'.client.queues.requests_to_submit ≡ [])
    × (s'.client.sent_callbacks ≡ (5, 1) ∷ [])
    × (on_response 1 200 response_headers (codes "x" ∷ (codes "y" ∷ [])) s'.client ≡ ok c)
    × (find_at 1 c.requests_awaiting_response
        ≡ some (answered 200 response_headers (codes "x" ∷ (codes "y" ∷ [])) posted))
    × (find_at 1 c.streams
        ≡ some (record (new_stream (pos 0) (is_measured main_duration)) { status = 200 }))
unfolding is_empty_request empty_request find_at eq_bytes
submit_request-answered_example =
    submit_request-answered counting 0 5000 (pos 0) 1 1
      (record posted { request_sent_callback = some 5 }) [] posting_http2 200 response_headers
      (codes "x" ∷ (codes "y" ∷ [])) refl refl refl (omega arith) refl refl (omega arith)
      (refl, (refl, tt))

enqueue_request-served_example :
    (ahead : ℕ) × ((n : ℕ) (q' : Queues)
      → Run
          (resume_delayed_request_execution 20 (enqueue_request 10 delayed posted no_queues))
          ahead
          n
          q'
      → (get_elem? q'.requests_to_submit n ≡ some posted)
        × (n ≡ 0 → (q'' : Queues) × (get_request_to_submit q' ≡ ok (posted, q''))))
unfolding empty_request
enqueue_request-served_example =
    enqueue_request-served 10 20 delayed posted no_queues tt (omega arith)

map_find-sent_headers_example :
    map_find ci_less (codes "accept") (sent_headers posted)
    ≡ elim (map_find ci_less (codes "accept") posted.req_headers_of_individual) [
      | none ↦ map_find ci_less (codes "accept") posted.req_headers_from_config
      | some v ↦ some v
    ]
unfolding is_request_pseudo inp_strlower eq_bytes
map_find-sent_headers_example = map_find-sent_headers (codes "accept") refl posted

-- A client that waits for the response of its first stream.
abbrev expecting : Client
expecting = record new_client {
  requests_awaiting_response = (1, posted) ∷ [];
  streams = (1, new_stream (pos 0) true) ∷ [];
}

on_response-Gathers_example :
    (c' : Client) × (r' : RequestData) × (m : HeaderMap) × (on_response 1 200 response_headers
        (codes "x" ∷ [])
        expecting
      ≡ ok c')
    × (find_at 1 c'.requests_awaiting_response ≡ some r')
    × (r'.resp_headers ≡ posted.resp_headers ++ (m ∷ []))
    × Gathers ((codes ":status", to_string 200) ∷ response_headers) m
unfolding find_at eq_bytes new_stream
on_response-Gathers_example =
    on_response-Gathers 1 200 response_headers (codes "x" ∷ []) expecting (new_stream (pos 0) true)
      posted (omega arith) (refl, (refl, tt)) refl refl refl

-- Two streams, of which the first is late.
abbrev waiting : Client
waiting = record new_client {
  streams = (1, new_stream (pos 0) true) ∷ ((3, new_stream (pos 0) true) ∷ []);
  stream_timestamp = (10, 1) ∷ ((30, 3) ∷ []);
}

reset_timeout_requests_lem_example : reset_timeout_requests 20 waiting ≡ (
  timed waiting
      (not_due 20 waiting.stream_timestamp)
      (add64 0 (counted_streams waiting.streams (due 20 waiting.stream_timestamp))),
  open_streams waiting.streams (due 20 waiting.stream_timestamp),
)
reset_timeout_requests_lem_example =
    reset_timeout_requests_lem 20 waiting ((omega arith, tt), (tt, tt)) (omega arith)

read_frames_lem_example :
    read_frames 3 2 (codes "abcde") 0
    ≡ copies 2 (take 2 (codes "abcde")) ++ drop (2 * 2) (codes "abcde")
read_frames_lem_example =
    read_frames_lem 2 2 (codes "abcde") (omega arith) (omega arith) (omega arith)

-- A session that waits for a response.
abbrev waiting_http1 : Http1
waiting_http1 = record posting_http1 {
  client = record new_client {
    streams = (1, new_stream (pos 0) true) ∷ [];
    requests_awaiting_response = (1, posted) ∷ [];
  };
}

read_headers_lem_example :
    (s' : Http1) × (r' : RequestData) × (read_headers response_headers waiting_http1 ≡ ok s')
    × (find_at 1 s'.client.requests_awaiting_response ≡ some r')
    × (r'.resp_headers ≡ posted.resp_headers ++ map single response_headers)
unfolding eq_bytes find_at
read_headers_lem_example =
    read_headers_lem response_headers waiting_http1 posted (new_stream (pos 0) true)
      (refl, (refl, tt)) refl refl refl

-- A session that opens a stream at each call, and a client at a place without others.
abbrev opening : Client → Outcome (RetCode × Client)
opening c = ok (submitted, record c { streams = (7, new_stream (pos 0) true) ∷ c.streams })

abbrev first_posted : Client → Outcome (RequestData × Queues)
first_posted c = ok (posted, c.queues)

abbrev alone : Place
alone = record {
  null_destination = false;
  has_scenarios = true;
  connected = true;
  max_concurrent_streams = 10;
  others = [];
}
