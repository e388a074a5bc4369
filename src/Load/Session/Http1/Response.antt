-- ===== src/Load/Session/Http1/Response.antt =====
-- The headers of a response of HTTP/1.1, as the callbacks of the parser pass them on.
use h2loadrunner.Base.{
  ◌≡◌, refl, ap, ◌∙◌, sym, false, some, List, [], ◌∷◌, ◌++◌, map, length, subst, if◌then◌else◌,
  append_assoc, append-nil, All, Outcome, ok, ◌>>=◌, map_ok,
}
use h2loadrunner.Base.Maps.{map_assign, map_find}
use h2loadrunner.Text.{Bytes, codes, eq_bytes, is_empty}
use h2loadrunner.Cookie.Jar.{RequestData, HeaderMap}
use h2loadrunner.Load.Client.{Client, Stream, find_at}
use h2loadrunner.Load.Client.Changes.{find_at-change_at}
use h2loadrunner.Load.Client.Receive.{
  begin_frame, on_header_frame_begin, on_header, skip_spaces, add_header, change_request,
}
use h2loadrunner.Load.Client.Receive.Answer.{on_header_lem, plain_header}
use h2loadrunner.Load.Session.Http1.{Http1, header_field, header_value, set_client, count_head}

-- The callbacks for the headers, each name and value in one piece.
unfoldable pub read_headers : List (Bytes × Bytes) → Http1 → Outcome Http1
unfolding header_field header_value
read_headers [] s = ok s
read_headers ((name, value) ∷ hs) s = header_value value (header_field name s) >>= read_headers hs

abbrev pub single : Bytes × Bytes → HeaderMap
single (name, value) = (name, skip_spaces value) ∷ []

record Added (s : Http1) (r : RequestData) (stat : Stream) (h : Bytes × Bytes) : Type 0 where
  after : Http1
  result : header_value h.1 (header_field h.0 s) ≡ ok after
  same_stream : after.stream_resp_counter ≡ s.stream_resp_counter
  no_value : after.hdr_val ≡ []
  there : find_at s.stream_resp_counter after.client.streams ≡ some stat
  r_after : RequestData
  awaited : find_at s.stream_resp_counter after.client.requests_awaiting_response ≡ some r_after
  frames : r_after.resp_headers ≡ r.resp_headers ++ (single h ∷ [])

header-Added :
    (s : Http1) (r : RequestData) (stat : Stream) (h : Bytes × Bytes)
    → eq_bytes h.0 (codes ":status") ≡ false
    → s.hdr_val ≡ []
    → find_at s.stream_resp_counter s.client.streams ≡ some stat
    → find_at s.stream_resp_counter s.client.requests_awaiting_response ≡ some r
    → Added s r stat h
unfolding header_field header_value set_client count_head on_header_frame_begin change_request
    begin_frame add_header map_assign map_find
header-Added s r stat (name, value) plain empty there awaited =
    let id = s.stream_resp_counter in
    let begun =
      find_at-change_at id (begin_frame false) s.client.requests_awaiting_response r awaited in
    let c = count_head (length value) (count_head (length name) s.client) in
    let c0 = on_header_frame_begin id false c in
    let set : RequestData → RequestData = λ r'. record r' {
      resp_headers = r.resp_headers ++ (add_header name (skip_spaces value) [] ∷ []);
    } in
    let wrap : Client → Http1 =
      λ c'. record (set_client (header_field name s) c') { hdr_name = []; hdr_val = [] } in
    record {
      after = wrap (change_request id set c0);
      result =
          ap
            (λ d.
              map_ok wrap
                (on_header id name (if is_empty d then value else d ++ (codes "; " ++ value)) c0))
            empty
          ∙ ap (map_ok wrap) (
              on_header_lem id name value c0 stat (begin_frame false r) r.resp_headers [] there
                begun refl
              ∙ ap ok (plain_header id name value stat (change_request id set c0) plain));
      same_stream = refl;
      no_value = refl;
      there = there;
      r_after = set (begin_frame false r);
      awaited = find_at-change_at id set c0.requests_awaiting_response (begin_frame false r) begun;
      frames = refl;
    }

-- The callbacks stop at no header of an awaited response, and each header is in a map of its own, which
-- is put behind those that were there, its value without the spaces in front of it.
pub read_headers_lem :
    (hs : List (Bytes × Bytes)) (s : Http1) (r : RequestData) (stat : Stream)
    → All (λ h. eq_bytes h.0 (codes ":status") ≡ false) hs
    → s.hdr_val ≡ []
    → find_at s.stream_resp_counter s.client.streams ≡ some stat
    → find_at s.stream_resp_counter s.client.requests_awaiting_response ≡ some r
    → (s' : Http1) × (r' : RequestData) × (read_headers hs s ≡ ok s')
      × (find_at s.stream_resp_counter s'.client.requests_awaiting_response ≡ some r')
      × (r'.resp_headers ≡ r.resp_headers ++ map single hs)
unfolding read_headers
read_headers_lem [] s r stat a empty there awaited =
    (s, r, refl, awaited, sym (append-nil r.resp_headers))
read_headers_lem (h ∷ hs) s r stat a empty there awaited =
    let d : Added s r stat h = header-Added s r stat h a.0 empty there awaited in
    let (s', r', e, f, g) =
      read_headers_lem hs d.after d.r_after stat a.1 d.no_value
        (subst (λ i. find_at i d.after.client.streams ≡ some stat) (sym d.same_stream) d.there)
        (subst (λ i. find_at i d.after.client.requests_awaiting_response ≡ some d.r_after)
          (sym d.same_stream) d.awaited) in
    (
      s',
      r',
      ap (λ o. o >>= read_headers hs) d.result ∙ e,
      subst (λ i. find_at i s'.client.requests_awaiting_response ≡ some r') d.same_stream f,
      g
          ∙ ap (λ l. l ++ map single hs) d.frames
          ∙ append_assoc r.resp_headers (single h ∷ []) (map single hs),
    )
