-- ===== src/Load/Session.antt =====
-- What the sessions of both protocols share: the headers that a request is sent with, in
-- h2load_http1_session.cc and h2load_http2_session.cc, and the constants of h2load.h.
pub mod Headers
pub mod Started
pub mod Http1
pub mod Http2
use h2loadrunner.Base.{
  ℕ, if◌then◌else◌, Bool, true, false, ◌&&◌, ◌||◌, Option, none, some, List, [], ◌∷◌, ◌++◌,
}
use h2loadrunner.Base.Maps.{map_find}
use h2loadrunner.Text.{Bytes, codes, eq_bytes, is_empty}
use h2loadrunner.Cookie.Jar.{RequestData, HeaderMap, ci_less}
use h2loadrunner.Load.Client.{find_at}

abbrev pub scheme_header : Bytes
scheme_header = codes ":scheme"

abbrev pub path_header : Bytes
path_header = codes ":path"

abbrev pub authority_header : Bytes
authority_header = codes ":authority"

abbrev pub method_header : Bytes
method_header = codes ":method"

-- The names that are never taken from the maps of headers; they are compared with their case.
unfoldable pub is_request_pseudo : Bytes → Bool
is_request_pseudo name =
    eq_bytes name path_header
    || (eq_bytes name scheme_header
        || (eq_bytes name authority_header || eq_bytes name method_header))

-- The loop over the request's own headers.
unfoldable pub own_headers : HeaderMap → List (Bytes × Bytes)
unfolding is_request_pseudo
own_headers [] = []
own_headers (h ∷ hs) = let rest = own_headers hs in if is_request_pseudo h.0 then rest else h ∷ rest

-- `req_headers_of_individual.count(name)`.
unfoldable pub has_header : HeaderMap → Bytes → Bool
has_header hs name = elim (map_find ci_less name hs) [ none ↦ false | some v ↦ true ]

-- The loop over the configured headers, without those that the request has itself.
unfoldable pub configured_headers : HeaderMap → HeaderMap → List (Bytes × Bytes)
unfolding is_request_pseudo has_header
configured_headers own [] = []
configured_headers own (h ∷ hs) =
    let rest = configured_headers own hs in
    if has_header own h.0 then rest else if is_request_pseudo h.0 then rest else h ∷ rest

-- The headers of a request in the order in which they are sent.
unfoldable pub sent_headers : RequestData → List (Bytes × Bytes)
unfolding configured_headers own_headers
sent_headers r =
    configured_headers r.req_headers_of_individual r.req_headers_from_config
    ++ own_headers r.req_headers_of_individual

-- `is_empty()`: a request whose strings were never set.
unfoldable pub is_empty_request : RequestData → Bool
is_empty_request r = is_empty r.schema && (is_empty r.authority && is_empty r.method)

-- `emplace` into a map from the identifiers of streams keeps what is there.
unfoldable pub emplace_at {ℓ} : {A : Type ℓ} → ℕ → A → List (ℕ × A) → List (ℕ × A)
emplace_at id a m = elim (find_at id m) [ none ↦ (id, a) ∷ m | some b ↦ m ]

-- What `submit_request` of a session returns.
pub data RetCode : Type 0 where
  submitted not_submitted max_stream_to_be_exhausted : RetCode
