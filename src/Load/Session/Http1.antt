-- ===== src/Load/Session/Http1.antt =====
-- The session of HTTP/1.1, h2load_http1_session.cc, for a run with scenarios: `_submit_request`,
-- `_on_write`, and the callbacks that the parser of responses makes; with the output buffer of the
-- client, libev_client.cc: `push_data_to_output_buffer`, `on_write` and
-- `write_clear`.
pub mod Sent
pub mod Written
pub mod Response
use h2loadrunner.Base.{
  ℕ, ◌+◌, ◌-◌, ◌/◌, ◌==◌, ltb, leb, if◌then◌else◌, Bool, true, false, not, ◌&&◌, ◌||◌, Option, none,
  some, List, [], ◌∷◌, ◌++◌, length, take, drop, Outcome, ok, stop, aborts, ◌>>=◌, map_ok,
}
use h2loadrunner.Text.{Bytes, codes, is_empty}
use h2loadrunner.Text.Decimal.{ℤ}
use h2loadrunner.Cookie.Jar.{RequestData}
use h2loadrunner.Load.Variable.{add64}
use h2loadrunner.Load.Request.Queues.{get_request_to_submit}
use h2loadrunner.Load.Client.{Client, Stream, find_at}
use h2loadrunner.Load.Client.Receive.{
  on_request_start, on_header_frame_begin, on_header, on_status_code, on_data_chunk, get_req_stat,
  change_request,
}
use h2loadrunner.Load.Session.{
  sent_headers, is_empty_request, emplace_at, RetCode, submitted, not_submitted,
}

-- The session with its client, the client's `final` and its output buffer `wb`. The counters are of
-- type `int32_t`, which 2 ^ 30 requests on one connection would leave.
pub record Http1 : Type 0 where
  pub client : Client
  pub final : Bool
  pub output : Bytes
  pub stream_req_counter : ℕ
  pub stream_resp_counter : ℕ
  pub complete : Bool
  pub hdr_name : Bytes
  pub hdr_val : Bytes

-- `16_k`, also `BACKOFF_WRITE_BUFFER_THRES`.
abbrev pub chunk_size : ℕ
chunk_size = 16384

-- `push_data_to_output_buffer`: nothing is taken while the buffer is full.
unfoldable pub push_data_to_output_buffer : Bytes → Bytes → Bytes
push_data_to_output_buffer output s = if leb chunk_size (length output) then output else output ++ s

abbrev pub crlf : Bytes
crlf = 13 ∷ (10 ∷ [])

unfoldable pub header_lines : List (Bytes × Bytes) → Bytes
header_lines [] = []
header_lines ((name, value) ∷ hs) = name ++ (codes ": " ++ (value ++ (crlf ++ header_lines hs)))

-- The request line and the headers, up to the empty line.
unfoldable pub request_text : RequestData → Bytes
unfolding header_lines sent_headers
request_text r =
    r.method
    ++ (codes " "
        ++ (r.path
            ++ (codes " HTTP/1.1"
                ++ (crlf
                    ++ (codes "Host: "
                        ++ (r.authority ++ (crlf ++ (header_lines (sent_headers r) ++ crlf))))))))

-- A change of the client.
unfoldable pub set_client : Http1 → Client → Http1
set_client s c = record s { client = c }

-- What `on_stream_close` does for a stream, with what the client does next, also on this session.
module _ (close : ℕ → Bool → Http1 → Outcome Http1) where
  -- The request is sent: the next one has the next odd number. Where its response is there already, its
  -- stream is closed.
  unfoldable pub request_done : Http1 → Outcome Http1
  request_done s =
      let s' = record s { stream_req_counter = s.stream_req_counter + 2 } in
      if s'.stream_resp_counter == s'.stream_req_counter
      then close (s'.stream_resp_counter - 2) s'.final s'
      else ok s'

  -- A piece of the payload is pushed, and cut from what is stored; nothing where it is empty.
  unfoldable pub send_payload : Bytes → Http1 → Outcome Http1
  unfolding push_data_to_output_buffer change_request request_done
  send_payload payload s =
      let send_size = if ltb chunk_size (length payload) then chunk_size else length payload in
      let s' = record s { output = push_data_to_output_buffer s.output (take send_size payload) } in
      if is_empty payload
      then ok s
      else if ltb send_size (length payload)
      then ok (record s' {
        client =
            change_request s.stream_req_counter
              (λ r. record r { req_payload = drop send_size payload }) s.client;
      })
      else request_done s'

  -- `on_write`, with `_on_write`, and whether it fails.
  unfoldable pub on_write : Http1 → Outcome (Bool × Http1)
  unfolding send_payload get_req_stat
  on_write s =
      if s.complete then ok (false, s) else elim (get_req_stat s.stream_req_counter s.client) [
        | none ↦ ok (true, s)
        | some stat ↦ elim (find_at s.stream_req_counter s.client.requests_awaiting_response) [
          | none ↦ stop aborts
          | some r ↦ map_ok (λ s'. (true, s')) (send_payload r.req_payload s)
        ]
      ]

  -- `libev_client::on_write`: nothing is asked of the session while the buffer is full.
  unfoldable pub client_on_write : Http1 → Outcome (Bool × Http1)
  unfolding on_write
  client_on_write s = if leb chunk_size (length s.output) then ok (true, s) else on_write s

  -- `write_clear` over the numbers of bytes that `writev` takes from the buffer: what is sent, until
  -- there is nothing left, or the session fails.
  unfoldable pub write_clear : List ℕ → Http1 → Outcome (Bytes × Http1)
  unfolding client_on_write
  write_clear [] s = ok ([], s)
  write_clear (n ∷ ns) s = client_on_write s >>= λ (success, s').
      if not success || is_empty s'.output
      then ok ([], s')
      else (write_clear ns (record s' { output = drop n s'.output }) >>= λ (sent, s'').
          ok (take n s'.output ++ sent, s''))

  -- The end of `_submit_request`: the text is pushed, and the first piece of the payload.
  unfoldable pub send_request : RequestData → Http1 → Outcome (RetCode × Http1)
  unfolding request_text push_data_to_output_buffer on_write
  send_request r s =
      let s' = record s { output = push_data_to_output_buffer s.output (request_text r) } in
      if is_empty r.req_payload
      then ok (submitted, record s' { stream_req_counter = s.stream_req_counter + 2 })
      else map_ok (λ (success, s''). (if success then submitted else not_submitted, s''))
          (on_write s')

  -- `_submit_request` at a time, with the configured timeout of streams and what the memory of the new
  -- stream held.
  unfoldable pub submit_request : ℕ → ℕ → ℤ → Http1 → Outcome (RetCode × Http1)
  unfolding get_request_to_submit is_empty_request emplace_at on_request_start send_request
      set_client
  submit_request now configured memory s = get_request_to_submit s.client.queues >>= λ (r, q).
      let c = record s.client { queues = q } in
      if is_empty_request r
      then ok (not_submitted, set_client s c)
      else (on_request_start now configured memory s.stream_req_counter (record c {
        requests_awaiting_response = emplace_at s.stream_req_counter r c.requests_awaiting_response;
      })
          >>= λ c'. send_request r (set_client s c'))

  -- `htp_msg_completecb` for a response with a status, and whether the parser goes on; a stream whose
  -- `data_offset` is below the configured length of the data is not closed.
  unfoldable pub reaches : ℤ → ℕ → Bool
  reaches (ℤ.pos n) data_length = leb data_length n
  reaches (ℤ.negsuc n) data_length = false

  -- The connection goes down after the response: the client connects again where requests are left.
  unfoldable pub next_response : Http1 → Bool × Http1
  next_response s =
      let s' = record s { stream_resp_counter = s.stream_resp_counter + 2 } in
      if s'.final
      then (
        false,
        record s' {
          stream_req_counter = s'.stream_resp_counter;
          client = record s'.client {
            new_connection_requested =
                (if not (s'.client.req_left == 0)
                  then true
                  else s'.client.new_connection_requested);
          };
        },
      )
      else (true, s')

  unfoldable pub message_complete : ℕ → ℕ → Bool → Http1 → Outcome (Bool × Http1)
  unfolding next_response reaches get_req_stat
  message_complete data_length status_code keep_alive s =
      let s' = record s { final = not keep_alive } in
      if status_code / 100 == 1
      then ok (true, s)
      else elim (get_req_stat s.stream_resp_counter s.client) [
        | none ↦ stop aborts
        | some stat ↦ map_ok next_response (
            if reaches stat.data_offset data_length
            then close s'.stream_resp_counter s'.final s'
            else ok s')
      ]

-- `htp_msg_begincb`: whether a response may begin. One that nobody asked for may not.
unfoldable pub message_begin : Http1 → Bool
message_begin s = if ltb s.stream_req_counter s.stream_resp_counter then false else true

-- `htp_statuscb`.
unfoldable pub status_complete : ℕ → Http1 → Http1
unfolding on_status_code set_client
status_complete status_code s =
    if status_code / 100 == 1
    then s
    else set_client s (on_status_code s.stream_resp_counter status_code s.client)

-- The bytes of the headers.
unfoldable pub count_head : ℕ → Client → Client
count_head n c = record c {
  stats = record c.stats {
    bytes_head = add64 c.stats.bytes_head n;
    bytes_head_decomp = add64 c.stats.bytes_head_decomp n;
  };
}

-- `htp_hdr_keycb`: the name, or the part of it that was read last.
unfoldable pub header_field : Bytes → Http1 → Http1
unfolding count_head set_client
header_field s' s = record (set_client s (count_head (length s') s.client)) { hdr_name = s' }

-- `htp_hdr_valcb`. `on_header_frame_callback_called` stays false, so a frame begins for every value.
unfoldable pub header_value : Bytes → Http1 → Outcome Http1
unfolding count_head on_header_frame_begin on_header set_client
header_value v s =
    let value = if is_empty s.hdr_val then v else s.hdr_val ++ (codes "; " ++ v) in
    let c = on_header_frame_begin s.stream_resp_counter false (count_head (length v) s.client) in
    map_ok (λ c'. record (set_client s c') { hdr_name = []; hdr_val = [] })
      (on_header s.stream_resp_counter s.hdr_name value c)

-- `expect_response_body` of http2.cc, and `htp_hdrs_completecb`, which says that there is no body.
unfoldable pub expect_response_body : ℕ → Bool
expect_response_body status_code =
    (status_code == 101)
    || (not (status_code / 100 == 1) && (not (status_code == 304) && not (status_code == 204)))

unfoldable pub headers_complete : ℕ → Bool
unfolding expect_response_body
headers_complete status_code = not (expect_response_body status_code)

-- `htp_body_cb`.
unfoldable pub body : Bytes → Http1 → Http1
unfolding on_data_chunk set_client
body d s =
    let c = on_data_chunk s.stream_resp_counter d s.client in
    set_client s
      (record c { stats = record c.stats { bytes_body = add64 c.stats.bytes_body (length d) } })
