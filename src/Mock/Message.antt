-- ===== src/Mock/Message.antt =====
-- H2Server_Request_Message.h: a request as the rules see it, with the JSON payload decoded on demand
-- and the results of the rules that were tried.
use h2loadrunner.Base.{ℕ, ◌==◌, if◌then◌else◌, Bool, Option, none, some, List, [], ◌∷◌, ◌++◌}
use h2loadrunner.Text.{Bytes, codes, is_empty, eq_bytes, c_str}
use h2loadrunner.Mock.Json.{Json}

-- What the constructor reads of `asio_server_request`.
pub record AsioServerRequest : Type 0 where
  pub path : Bytes
  pub raw_query : Bytes
  pub scheme : Bytes
  pub host : Bytes
  pub method : Bytes
  pub header : List (Bytes × Bytes)
  pub unmutable_payload : Bytes

-- The multimap of headers is the list of its insertions: `equal_range` keeps their order.
-- `json_payload_string` is null once the payload is decoded.
pub record H2ServerRequestMessage (Value : Type 0) : Type 0 where
  pub headers : List (Bytes × Bytes)
  pub json_payload : Option Value
  pub json_payload_string : Option Bytes
  pub raw_payload : Bytes
  pub match_result : List (ℕ × Bool)

-- The values of `equal_range(name)`.
unfoldable pub equal_range : Bytes → List (Bytes × Bytes) → List Bytes
equal_range name [] = []
equal_range name ((k, v) ∷ hs) =
    if eq_bytes k name then v ∷ equal_range name hs else equal_range name hs

-- `:path` with its query.
path_header : AsioServerRequest → Bytes
path_header req =
    if is_empty req.raw_query then req.path else req.path ++ (codes "?" ++ req.raw_query)

module _ {Value : Type 0} where
  unfoldable pub request_message : AsioServerRequest → H2ServerRequestMessage Value
  unfolding path_header
  request_message req = record {
    headers =
        (codes ":path", path_header req)
        ∷ (codes ":method", req.method)
        ∷ (codes ":scheme", req.scheme)
        ∷ (codes ":authority", req.host)
        ∷ req.header;
    json_payload = none;
    json_payload_string = some req.unmutable_payload;
    raw_payload = req.unmutable_payload;
    match_result = [];
  }

  module _ (j : Json Value) where
    unfoldable pub decode_json_if_not_yet :
        H2ServerRequestMessage Value → H2ServerRequestMessage Value
    decode_json_if_not_yet m = elim m.json_payload_string [
      | none ↦ m
      | some s ↦ record m { json_payload = some (j.parse (c_str s)); json_payload_string = none }
    ]

-- `match_result.count(id)` and `match_result[id]`, and a write to it.
unfoldable pub cached : ℕ → List (ℕ × Bool) → Option Bool
cached id [] = none
cached id ((k, b) ∷ r) = if k == id then some b else cached id r
