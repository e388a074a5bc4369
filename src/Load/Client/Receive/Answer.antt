-- ===== src/Load/Client/Receive/Answer.antt =====
-- A whole response as it arrives: its status, its headers and its payload, and what of them the
-- request that waits for it then holds.
use h2loadrunner.Base.{
  ℕ, ◌≤◌, ◌≡◌, refl, ap, sym, ◌∙◌, false, some, none, List, [], ◌∷◌, ◌++◌, All, arith, Outcome, ok,
  ◌>>=◌, map_ok,
}
use h2loadrunner.Text.{Bytes, codes, eq_bytes}
use h2loadrunner.Text.Decimal.{to_string}
use h2loadrunner.Cookie.Jar.{RequestData, HeaderMap}
use h2loadrunner.Load.Client.{Client, Stream, find_at, change_at}
use h2loadrunner.Load.Client.Changes.{
  find_at-change_at, change_at-change_at, change_at_same, change_at_nothing,
}
use h2loadrunner.Load.Client.Receive.{
  change_request, begin_frame, on_header_frame_begin, skip_spaces, add_header, change_last,
  save_header, read_status, on_status_code, on_header, on_data_chunk,
}
use h2loadrunner.Load.Client.Receive.Status.{read_status-to_string}

-- The calls that a session makes for a response: its headers, then its payload in pieces.
unfoldable pub on_headers : ℕ → List (Bytes × Bytes) → Client → Outcome Client
unfolding on_header
on_headers stream_id [] c = ok c
on_headers stream_id ((name, value) ∷ hs) c =
    on_header stream_id name value c >>= on_headers stream_id hs

unfoldable pub on_data_chunks : ℕ → List Bytes → Client → Client
unfolding on_data_chunk
on_data_chunks stream_id [] c = c
on_data_chunks stream_id (d ∷ ds) c = on_data_chunks stream_id ds (on_data_chunk stream_id d c)

unfoldable pub on_response : ℕ → ℕ → List (Bytes × Bytes) → List Bytes → Client → Outcome Client
unfolding on_headers on_data_chunks on_header_frame_begin
on_response stream_id status hs ds c =
    on_headers stream_id ((codes ":status", to_string status) ∷ hs)
      (on_header_frame_begin stream_id false c)
    >>= λ c'. ok (on_data_chunks stream_id ds c')

-- What the request holds then.
unfoldable pub collect : List (Bytes × Bytes) → HeaderMap → HeaderMap
collect [] m = m
collect ((name, value) ∷ hs) m = collect hs (add_header name (skip_spaces value) m)

unfoldable pub joined : List Bytes → Bytes → Bytes
joined [] s = s
joined (d ∷ ds) s = joined ds (s ++ d)

unfoldable pub answered : ℕ → List (Bytes × Bytes) → List Bytes → RequestData → RequestData
answered status hs ds r = record r {
  resp_headers = r.resp_headers ++ (collect ((codes ":status", to_string status) ∷ hs) [] ∷ []);
  resp_payload = joined ds r.resp_payload;
  status_code = status;
}

change_last-append :
    (f : HeaderMap → HeaderMap) (frames : List HeaderMap) (h : HeaderMap)
    → change_last f (frames ++ (h ∷ [])) ≡ ok (frames ++ (f h ∷ []))
unfolding change_last
change_last-append f [] h = refl
change_last-append f (g ∷ []) h = refl
change_last-append f (g ∷ (g' ∷ frames)) h =
    ap (map_ok (◌∷◌ g)) (change_last-append f (g' ∷ frames) h)

change_request-change_request :
    (stream_id : ℕ) (f g : RequestData → RequestData) (c : Client)
    → change_request stream_id g (change_request stream_id f c)
      ≡ change_request stream_id (λ r. g (f r)) c
unfolding change_request
change_request-change_request stream_id f g c =
    ap (λ m. record c { requests_awaiting_response = m })
      (change_at-change_at stream_id f g c.requests_awaiting_response)

change_request_same :
    (stream_id : ℕ) (f g : RequestData → RequestData) (c : Client) (r : RequestData)
    → find_at stream_id c.requests_awaiting_response ≡ some r
    → f r ≡ g r
    → change_request stream_id f c ≡ change_request stream_id g c
unfolding change_request
change_request_same stream_id f g c r h e =
    ap (λ m. record c { requests_awaiting_response = m })
      (change_at_same stream_id f g c.requests_awaiting_response r h e)

on_data_chunks_lem :
    (stream_id : ℕ) (ds : List Bytes) (c : Client)
    → on_data_chunks stream_id ds c
      ≡ change_request stream_id (λ r. record r { resp_payload = joined ds r.resp_payload }) c
unfolding on_data_chunks on_data_chunk joined change_request
on_data_chunks_lem stream_id [] c = sym (
    ap (λ m. record c { requests_awaiting_response = m })
      (change_at_nothing stream_id c.requests_awaiting_response))
on_data_chunks_lem stream_id (d ∷ ds) c =
    on_data_chunks_lem stream_id ds (on_data_chunk stream_id d c)
    ∙ change_request-change_request stream_id _ _ c

save_header_lem :
    (stream_id : ℕ) (name value : Bytes) (c : Client) (r : RequestData)
    → (frames : List HeaderMap) (m : HeaderMap)
    → find_at stream_id c.requests_awaiting_response ≡ some r
    → r.resp_headers ≡ frames ++ (m ∷ [])
    → save_header stream_id name value c
      ≡ ok (
          change_request stream_id
            (λ r'. record r' {
              resp_headers = frames ++ (add_header name (skip_spaces value) m ∷ []);
            })
            c)
unfolding save_header
save_header_lem stream_id name value c r frames m h e =
    rw (h, save_header)
      (rw e (rw (change_last-append (add_header name (skip_spaces value)) frames m) refl))

-- A header of an awaited response, and what is done with its status.
pub on_header_lem :
    (stream_id : ℕ) (name value : Bytes) (c : Client) (s : Stream) (r : RequestData)
    → (frames : List HeaderMap) (m : HeaderMap) → find_at stream_id c.streams ≡ some s
    → find_at stream_id c.requests_awaiting_response ≡ some r
    → r.resp_headers ≡ frames ++ (m ∷ [])
    → on_header stream_id name value c
      ≡ ok (
          read_status stream_id name value s (
            change_request stream_id
              (λ r'. record r' {
                resp_headers = frames ++ (add_header name (skip_spaces value) m ∷ []);
              })
              c))
unfolding on_header
on_header_lem stream_id name value c s r frames m g h e =
    rw (g, on_header) (rw (save_header_lem stream_id name value c r frames m h e) refl)

-- A header that is no status changes the headers of the request only.
pub plain_header :
    (stream_id : ℕ) (name value : Bytes) (s : Stream) (c : Client)
    → eq_bytes name (codes ":status") ≡ false
    → read_status stream_id name value s c ≡ c
unfolding read_status
plain_header stream_id name value s c h = ground arith

on_headers_lem :
    (stream_id : ℕ) (hs : List (Bytes × Bytes)) (c : Client) (s : Stream) (r : RequestData)
    → (frames : List HeaderMap) (m : HeaderMap)
    → All (λ e. eq_bytes e.0 (codes ":status") ≡ false) hs
    → find_at stream_id c.streams ≡ some s
    → find_at stream_id c.requests_awaiting_response ≡ some r
    → r.resp_headers ≡ frames ++ (m ∷ [])
    → on_headers stream_id hs c
      ≡ ok (
          change_request stream_id
            (λ r'. record r' { resp_headers = frames ++ (collect hs m ∷ []) })
            c)
unfolding on_headers collect change_request
on_headers_lem stream_id [] c s r frames m a g h e = ap ok (
    sym (
      change_request_same stream_id _ (λ r'. r') c r h
        (ap (λ f. record r { resp_headers = f }) (sym e))
      ∙ ap (λ m. record c { requests_awaiting_response = m })
          (change_at_nothing stream_id c.requests_awaiting_response)))
on_headers_lem stream_id ((name, value) ∷ hs) c s r frames m a g h e =
    let r' = record r { resp_headers = frames ++ (add_header name (skip_spaces value) m ∷ []) } in
    let c' =
      change_request stream_id
        (λ r'. record r' { resp_headers = frames ++ (add_header name (skip_spaces value) m ∷ []) })
        c in
    ap (λ o. o >>= on_headers stream_id hs)
      (on_header_lem stream_id name value c s r frames m g h e
        ∙ ap ok (plain_header stream_id name value s c' a.0))
    ∙ on_headers_lem stream_id hs c' s r' frames _ a.1 g
        (find_at-change_at stream_id _ c.requests_awaiting_response r h) refl
    ∙ ap ok (change_request-change_request stream_id _ _ c)

-- A first frame of headers is no trailer.
pub begin_frame_open :
    (r : RequestData)
    → begin_frame false r ≡ record r { resp_headers = r.resp_headers ++ ([] ∷ []) }
unfolding begin_frame
begin_frame_open r =
    ap (λ b. record r { resp_headers = r.resp_headers ++ ([] ∷ []); resp_trailer_present = b })
      (ground arith)

-- The five changes of the request are the answer.
five_changes :
    (status : ℕ) (hs : List (Bytes × Bytes)) (ds : List Bytes) (stream_id : ℕ)
    (m : List (ℕ × RequestData)) (r : RequestData)
    → find_at stream_id m ≡ some r
    → change_at stream_id
        (λ a. record a { resp_payload = joined ds a.resp_payload })
        (change_at stream_id
          (λ a. record a {
            resp_headers =
                r.resp_headers
                ++ (collect hs (add_header (codes ":status") (skip_spaces (to_string status)) [])
                    ∷ []);
          })
          (change_at stream_id
            (λ a. record a { status_code = status })
            (change_at stream_id
              (λ a. record a {
                resp_headers =
                    r.resp_headers
                    ++ (add_header (codes ":status") (skip_spaces (to_string status)) [] ∷ []);
              })
              (change_at stream_id (begin_frame false) m))))
      ≡ change_at stream_id (answered status hs ds) m
unfolding answered collect
five_changes status hs ds stream_id m r h =
    ap (change_at stream_id _) (
      ap (change_at stream_id _) (
        ap (change_at stream_id _) (change_at-change_at stream_id _ _ m)
        ∙ change_at-change_at stream_id _ _ m)
      ∙ change_at-change_at stream_id _ _ m)
    ∙ change_at-change_at stream_id _ _ m
    ∙ change_at_same stream_id _ _ m r h (
        ap
          (λ (a : RequestData). record a {
            resp_payload = joined ds a.resp_payload;
            resp_headers =
                r.resp_headers
                ++ (collect hs (add_header (codes ":status") (skip_spaces (to_string status)) [])
                    ∷ []);
            status_code = status;
          })
          (begin_frame_open r))

-- A response with a status of at most three digits, whatever its headers and however its payload is
-- cut, reaches the request and the stream that wait for it: the handlers never stop, the request gets a
-- new map with the headers, the payload and the status, the stream gets the status, and nothing else of
-- the client changes.
pub on_response_lem :
    (stream_id status : ℕ) (hs : List (Bytes × Bytes)) (ds : List Bytes) (c : Client) (s : Stream)
    (r : RequestData)
    → status ≤ 999
    → All (λ e. eq_bytes e.0 (codes ":status") ≡ false) hs
    → find_at stream_id c.streams ≡ some s
    → s.status_success ≡ none
    → find_at stream_id c.requests_awaiting_response ≡ some r
    → on_response stream_id status hs ds c
      ≡ ok (record c {
        requests_awaiting_response =
            change_at stream_id (answered status hs ds) c.requests_awaiting_response;
        streams = change_at stream_id (λ s'. record s' { status = status }) c.streams;
      })
unfolding on_response on_headers change_request on_status_code on_header_frame_begin begin_frame
on_response_lem stream_id status hs ds c s r le a g u h =
    let first = add_header (codes ":status") (skip_spaces (to_string status)) [] in
    let begun = on_header_frame_begin stream_id false c in
    let r0 = begin_frame false r in
    let h0 = find_at-change_at stream_id (begin_frame false) c.requests_awaiting_response r h in
    let set : RequestData → RequestData =
      λ r'. record r' { resp_headers = r.resp_headers ++ (first ∷ []) } in
    let c1 = change_request stream_id set begun in
    let h1 = find_at-change_at stream_id set begun.requests_awaiting_response r0 h0 in
    let code : RequestData → RequestData = λ a. record a { status_code = status } in
    let c2 = on_status_code stream_id status c1 in
    let h2 = find_at-change_at stream_id code c1.requests_awaiting_response (set r0) h1 in
    ap (λ o. o >>= on_headers stream_id hs >>= λ c'. ok (on_data_chunks stream_id ds c'))
      (on_header_lem stream_id (codes ":status") (to_string status) begun s r0 r.resp_headers [] g
          h0 refl
        ∙ ap ok (read_status-to_string stream_id status s c1 u le))
    ∙ ap (λ o. o >>= λ c'. ok (on_data_chunks stream_id ds c'))
        (on_headers_lem stream_id hs c2 (record s { status = status }) (code (set r0))
          r.resp_headers first a (find_at-change_at stream_id _ c.streams s g) h2 refl)
    ∙ ap ok (on_data_chunks_lem stream_id ds _)
    ∙ ap
        (λ m. ok (record c {
          requests_awaiting_response = m;
          streams = change_at stream_id (λ s'. record s' { status = status }) c.streams;
        }))
        (five_changes status hs ds stream_id c.requests_awaiting_response r h)
