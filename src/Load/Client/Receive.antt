-- ===== src/Load/Client/Receive.antt =====
-- What a client does when a request is sent and while its response arrives: `on_request_start`,
-- `on_header_frame_begin`, `on_header`, `on_status_code`, `on_data_chunk`, `get_req_stat`
-- and `reset_timeout_requests`.
pub mod Status
pub mod Answer
pub mod Headers
pub mod Timed
use h2loadrunner.Base.{
  ℕ, suc, ◌+◌, ◌-◌, ◌*◌, ◌==◌, ltb, if◌then◌else◌, Bool, true, false, ◌&&◌, Option, none, some,
  List, [], ◌∷◌, ◌++◌, length, Outcome, ok, stop, aborts, ◌>>=◌, map_ok,
}
use h2loadrunner.Base.Maps.{map_assign, map_find}
use h2loadrunner.Text.{Bytes, codes, eq_bytes}
use h2loadrunner.Text.Decimal.{ℤ, is_digit}
use h2loadrunner.Cookie.Jar.{RequestData, HeaderMap, ci_less}
use h2loadrunner.Load.Variable.{add64}
use h2loadrunner.Load.Request.Queues.{insert_delayed}
use h2loadrunner.Load.Client.{Client, Stream, find_at, erase_at, change_at, is_measured}
use h2loadrunner.Load.Client.Validate.{set_status_success}

-- `Stream(...)`. The status is 0x1FFF until it is known, and `data_offset` what the memory held.
unfoldable pub new_stream : ℤ → Bool → Stream
new_stream memory stats_eligible = record {
  status = 8191;
  data_offset = memory;
  status_success = none;
  statistics_eligible = stats_eligible;
}

-- The interval of a request, or the configured one where it has none.
unfoldable pub timeout_interval : ℕ → RequestData → ℕ
timeout_interval configured r =
    if r.stream_timeout_in_ms == 0 then configured else r.stream_timeout_in_ms

-- The callback that is moved out of a request.
abbrev pub forget_callback : RequestData → RequestData
forget_callback r = record r { request_sent_callback = none }

-- The callback of a request is called with the stream, if there is one, and then dropped. What it does is
-- not modelled; that it is called is.
unfoldable pub call_sent_callback : ℕ → Option ℕ → Client → Client
call_sent_callback stream_id callback c = record c {
  requests_awaiting_response = change_at stream_id forget_callback c.requests_awaiting_response;
  sent_callbacks = elim callback [
    | none ↦ c.sent_callbacks
    | some f ↦ c.sent_callbacks ++ ((f, stream_id) ∷ [])
  ];
}

-- `on_request_start` at a time in milliseconds. The request of the stream is read, whether it is there
-- or not.
unfoldable pub on_request_start : ℕ → ℕ → ℤ → ℕ → Client → Outcome Client
unfolding new_stream timeout_interval insert_delayed call_sent_callback
on_request_start now configured memory stream_id c =
    let s = new_stream memory (is_measured c.current_phase) in
    elim (find_at stream_id c.requests_awaiting_response) [
      | none ↦ stop aborts
      | some r ↦ ok (
          call_sent_callback stream_id r.request_sent_callback (record c {
            streams = (stream_id, s) ∷ erase_at stream_id c.streams;
            stream_timestamp =
                insert_delayed (now + timeout_interval configured r) stream_id c.stream_timestamp;
          }))
    ]

-- A change of the request of a stream.
unfoldable pub change_request : ℕ → (RequestData → RequestData) → Client → Client
change_request stream_id f c = record c {
  requests_awaiting_response = change_at stream_id f c.requests_awaiting_response;
}

-- A new map of headers; a second one with the end of the stream is a trailer.
unfoldable pub begin_frame : Bool → RequestData → RequestData
begin_frame end_stream r =
    let frames = r.resp_headers ++ ([] ∷ []) in
    record r {
      resp_headers = frames;
      resp_trailer_present =
          (if ltb 1 (length frames) && end_stream then true else r.resp_trailer_present);
    }

unfoldable pub on_header_frame_begin : ℕ → Bool → Client → Client
unfolding begin_frame change_request
on_header_frame_begin stream_id end_stream c = change_request stream_id (begin_frame end_stream) c

-- `header_value.erase(0, header_value.find_first_not_of(' '))`.
unfoldable pub skip_spaces : Bytes → Bytes
skip_spaces [] = []
skip_spaces (c ∷ s) = let rest = skip_spaces s in if c == b' ' then rest else c ∷ s

-- A header that is there already is continued.
unfoldable pub add_header : Bytes → Bytes → HeaderMap → HeaderMap
add_header name value hs =
    map_assign ci_less name
      (elim (map_find ci_less name hs) [ none ↦ value | some v ↦ v ++ (codes "; " ++ value) ]) hs

-- `resp_headers.back()`, which must be there.
unfoldable pub change_last : (HeaderMap → HeaderMap) → List HeaderMap → Outcome (List HeaderMap)
change_last f [] = stop aborts
change_last f (h ∷ []) = ok (f h ∷ [])
change_last f (h ∷ (h' ∷ hs)) = map_ok (◌∷◌ h) (change_last f (h' ∷ hs))

-- The header of a response is saved with the request that waits for it, if there is one.
unfoldable pub save_header : ℕ → Bytes → Bytes → Client → Outcome Client
unfolding skip_spaces add_header change_last change_request
save_header stream_id name value c = elim (find_at stream_id c.requests_awaiting_response) [
  | none ↦ ok c
  | some r ↦
      map_ok (λ frames. change_request stream_id (λ r'. record r' { resp_headers = frames }) c)
        (change_last (add_header name (skip_spaces value)) r.resp_headers)
]

-- The loop over the digits of a status: `none` where the number is too large.
unfoldable pub status_loop : ℕ → Bytes → Option ℕ
unfolding is_digit
status_loop status [] = some status
status_loop status (c ∷ s) =
    let status' = status * 10 + (c - b'0') in
    let rest = status_loop status' s in
    if is_digit c then (if ltb 999 status' then none else rest) else some status

unfoldable pub on_status_code : ℕ → ℕ → Client → Client
unfolding change_request
on_status_code stream_id status c =
    let c' = change_request stream_id (λ r. record r { status_code = status }) c in
    record c' { streams = change_at stream_id (λ s. record s { status = status }) c'.streams }

-- `stream.status_success == -1`.
abbrev pub is_undecided : Stream → Bool
is_undecided s = elim s.status_success [ none ↦ true | some b ↦ false ]

-- The status of a stream whose response was not judged yet.
unfoldable pub read_status : ℕ → Bytes → Bytes → Stream → Client → Client
unfolding status_loop on_status_code set_status_success
read_status stream_id name value s c =
    if is_undecided s && eq_bytes name (codes ":status")
    then elim (status_loop 0 value) [
      | none ↦ set_status_success stream_id false c
      | some status ↦ on_status_code stream_id status c
    ]
    else c

unfoldable pub on_header : ℕ → Bytes → Bytes → Client → Outcome Client
unfolding save_header read_status
on_header stream_id name value c = elim (find_at stream_id c.streams) [
  | none ↦ ok c
  | some s ↦ map_ok (read_status stream_id name value s) (save_header stream_id name value c)
]

unfoldable pub on_data_chunk : ℕ → Bytes → Client → Client
unfolding change_request
on_data_chunk stream_id data_ c =
    change_request stream_id (λ r. record r { resp_payload = r.resp_payload ++ data_ }) c

-- `get_req_stat`: the statistics of a stream, which the model keeps in the stream.
unfoldable pub get_req_stat : ℕ → Client → Option Stream
get_req_stat stream_id c = find_at stream_id c.streams

-- A stream whose time has come is reset, and counted if it counts.
unfoldable pub reset_stream : ℕ → Client × List ℕ → Client × List ℕ
reset_stream stream_id (c, reset) = elim (find_at stream_id c.streams) [
  | none ↦ (c, reset)
  | some s ↦ (
    (if s.statistics_eligible
        then record c { stats = record c.stats { req_timedout = add64 c.stats.req_timedout 1 } }
        else c),
    reset ++ (stream_id ∷ []),
  )
]

-- The loop over the streams whose time has come: what is left of them, and the streams that are reset.
unfoldable pub reset_loop : ℕ → List (ℕ × ℕ) → Client × List ℕ → Client × List ℕ
unfolding reset_stream
reset_loop now [] (c, reset) = (record c { stream_timestamp = [] }, reset)
reset_loop now ((t, stream_id) ∷ m) (c, reset) =
    let rest = reset_loop now m (reset_stream stream_id (c, reset)) in
    if ltb now t then (record c { stream_timestamp = (t, stream_id) ∷ m }, reset) else rest

-- `reset_timeout_requests` at a time, with the streams that the session is told to reset.
unfoldable pub reset_timeout_requests : ℕ → Client → Client × List ℕ
unfolding reset_loop
reset_timeout_requests now c = reset_loop now c.stream_timestamp (c, [])
