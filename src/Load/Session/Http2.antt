-- ===== src/Load/Session/Http2.antt =====
-- The session of HTTP/2, h2load_http2_session.cc, for a run with scenarios: `_submit_request` and the
-- callbacks that nghttp2 makes; nghttp2 itself is a parameter.
pub mod Frames
pub mod Submitted
use h2loadrunner.Base.{
  ℕ, zero, suc, ◌+◌, ◌-◌, ◌/◌, ◌%◌, ◌^◌, ◌==◌, ltb, leb, if◌then◌else◌, Bool, true, false, not,
  ◌&&◌, ◌||◌, Option, none, some, List, [], ◌∷◌, ◌++◌, length, take, drop, Outcome, ok, stop,
  aborts, ◌>>=◌, map_ok,
}
use h2loadrunner.Text.{Bytes, is_empty}
use h2loadrunner.Text.Decimal.{ℤ}
use h2loadrunner.Cookie.Jar.{RequestData}
use h2loadrunner.Load.Variable.{add64, sub64}
use h2loadrunner.Load.Request.Queues.{get_request_to_submit}
use h2loadrunner.Load.Client.{Client, Stream, find_at}
use h2loadrunner.Load.Client.Receive.{
  on_request_start, on_header_frame_begin, on_header, on_data_chunk, get_req_stat, change_request,
}
use h2loadrunner.Load.Session.{
  sent_headers, is_empty_request, emplace_at, RetCode, submitted, not_submitted,
  max_stream_to_be_exhausted, path_header, scheme_header, authority_header, method_header,
}

-- The calls of nghttp2 on its session; `submit_request` is given the headers and whether there is a
-- payload, and answers the identifier of the new stream, or `none` for an error.
pub record Nghttp2 {ℓ} (Session : Type ℓ) : Type ℓ where
  pub check_request_allowed : Session → Bool
  pub submit_request : Session → List (Bytes × Bytes) → Bool → Option ℕ × Session
  pub submit_rst_stream : Session → ℕ → Session
  pub want_read : Session → Bool
  pub want_write : Session → Bool

-- What the callbacks read of a frame.
pub record Frame : Type 0 where
  pub type_ : ℕ
  pub cat : ℕ
  pub stream_id : ℕ
  pub flags : ℕ
  pub frame_length : ℕ
  pub padlen : ℕ

-- `flags & NGHTTP2_FLAG_END_STREAM`, which is 1, and `flags & NGHTTP2_FLAG_PRIORITY`, which is 0x20.
abbrev pub ends_stream : Frame → Bool
ends_stream f = f.flags % 2 == 1

abbrev pub has_priority : Frame → Bool
has_priority f = (f.flags / 32) % 2 == 1

-- `NGHTTP2_HEADERS`, with `NGHTTP2_HCAT_RESPONSE` or `NGHTTP2_HCAT_HEADERS`.
unfoldable pub is_response_frame : Frame → Bool
is_response_frame f =
    if not (f.type_ == 1) || (not (f.cat == 1) && not (f.cat == 3)) then false else true

unfoldable pub on_begin_header_callback : Frame → Client → Client
unfolding is_response_frame on_header_frame_begin
on_begin_header_callback f c =
    if not (is_response_frame f) then c else on_header_frame_begin f.stream_id (ends_stream f) c

unfoldable pub on_header_callback : Frame → Bytes → Bytes → Client → Outcome Client
unfolding is_response_frame on_header
on_header_callback f name value c =
    if not (is_response_frame f)
    then ok c
    else map_ok
        (λ (c' : Client). record c' {
          stats = record c'.stats {
            bytes_head_decomp = add64 c'.stats.bytes_head_decomp (length name + length value);
          };
        })
        (on_header f.stream_id name value c)

-- The bytes of the frame without its padding and its priority.
unfoldable pub on_frame_recv_callback : Frame → Client → Client
unfolding is_response_frame
on_frame_recv_callback f c = if not (is_response_frame f) then c else record c {
  stats = record c.stats {
    bytes_head =
        add64 c.stats.bytes_head
          (sub64 (sub64 f.frame_length f.padlen) (if has_priority f then 5 else 0));
  };
}

unfoldable pub on_data_chunk_recv_callback : ℕ → Bytes → Client → Client
unfolding on_data_chunk
on_data_chunk_recv_callback stream_id d c =
    let c' = on_data_chunk stream_id d c in
    record c' { stats = record c'.stats { bytes_body = add64 c'.stats.bytes_body (length d) } }

-- `before_frame_send_callback` for a frame that is a request, whose stream must be known.
unfoldable pub before_frame_send_callback : Frame → Client → Outcome Client
unfolding get_req_stat
before_frame_send_callback f c =
    if not (f.type_ == 1) || not (f.cat == 0)
    then ok c
    else elim (get_req_stat f.stream_id c) [ none ↦ stop aborts | some stat ↦ ok c ]

-- What `buffer_read_callback` copies of the payload into a buffer of a length, whether it says that the
-- payload ends, and the new cursor.
unfoldable pub read_buffer : ℕ → Bytes → ℕ → Bytes × Bool × ℕ
read_buffer n payload cursor =
    if ltb cursor (length payload)
    then (if leb (length payload - cursor) n
        then (drop cursor payload, true, length payload)
        else (take n payload, false, cursor + n))
    else ([], true, cursor)

-- `buffer_read_callback` for the request of a stream, which must be known.
unfoldable pub buffer_read_callback : ℕ → ℕ → Client → Outcome (Bytes × Bool × Client)
unfolding read_buffer change_request
buffer_read_callback stream_id n c = elim (find_at stream_id c.requests_awaiting_response) [
  | none ↦ stop aborts
  | some r ↦
      let (copied, eof, cursor) = read_buffer n r.req_payload r.req_payload_cursor in
      ok (copied, eof, change_request stream_id (λ r'. record r' { req_payload_cursor = cursor }) c)
]

-- The pseudo headers of a request in front of the others.
unfoldable pub http2_nvs : RequestData → List (Bytes × Bytes)
unfolding sent_headers
http2_nvs r =
    (path_header, r.path)
    ∷ ((scheme_header, r.schema)
        ∷ ((authority_header, r.authority) ∷ ((method_header, r.method) ∷ sent_headers r)))

-- The session with its client.
pub record Http2 {ℓ} (Session : Type ℓ) : Type ℓ where
  pub client : Client
  pub session : Session
  pub curr_stream_id : ℕ

-- `INT32_MAX`.
abbrev pub int32_max : ℕ
int32_max = 2147483647

-- What nghttp2 answers: the request waits under the new identifier, or is lost where there is none.
unfoldable pub register_stream {ℓ} :
    {Session : Type ℓ}
    → ℕ
    → ℕ
    → ℤ
    → RequestData
    → Option ℕ × Session
    → Http2 Session
    → Outcome (RetCode × Http2 Session)
unfolding emplace_at on_request_start
register_stream now configured memory r (none, session') s =
    ok (not_submitted, record s { session = session' })
register_stream now configured memory r (some id, session') s =
    map_ok (λ c. (submitted, record s { client = c; session = session'; curr_stream_id = id }))
      (on_request_start now configured memory id (record s.client {
        requests_awaiting_response = emplace_at id r s.client.requests_awaiting_response;
      }))

module _ {ℓ} {Session : Type ℓ} (n : Nghttp2 Session) where
  unfoldable pub submit_to_nghttp2 :
      ℕ → ℕ → ℤ → RequestData → Http2 Session → Outcome (RetCode × Http2 Session)
  unfolding http2_nvs register_stream
  submit_to_nghttp2 now configured memory r s =
      register_stream now configured memory r
        (n.submit_request s.session (http2_nvs r) (not (is_empty r.req_payload))) s

  -- `_submit_request`. `gives_up` is the test of the configured rate, a floating-point number, with the
  -- number of clients, the stream and `rand()`.
  unfoldable pub submit_request :
      ℕ → ℕ → ℤ → Bool → Http2 Session → Outcome (RetCode × Http2 Session)
  unfolding submit_to_nghttp2 get_request_to_submit is_empty_request
  submit_request now configured memory gives_up s =
      if not (n.check_request_allowed s.session)
      then ok (not_submitted, s)
      else if gives_up || leb (int32_max - 1) s.curr_stream_id
      then ok (max_stream_to_be_exhausted, s)
      else (get_request_to_submit s.client.queues >>= λ (r, q).
          let s' = record s { client = record s.client { queues = q } } in
          if is_empty_request r
          then ok (not_submitted, s')
          else submit_to_nghttp2 now configured memory r s')

  -- The end of `on_read` and `on_write`: whether the connection is still needed, with whether the client
  -- has data to write.
  unfoldable pub is_needed : Bool → Http2 Session → Bool
  is_needed pending s =
      if not (n.want_read s.session) && (not (n.want_write s.session) && not pending)
      then false
      else true

  unfoldable pub submit_rst_stream : ℕ → Http2 Session → Http2 Session
  submit_rst_stream stream_id s = record s { session = n.submit_rst_stream s.session stream_id }
