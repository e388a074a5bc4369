-- ===== src/Mock/Response.antt =====
-- `H2Server_Response` of H2Server_Response.h: a payload and headers with placeholders, filled in for
-- each request. The Lua script of a response is left out.
pub mod Fill
use h2loadrunner.Base.{
  ℕ, zero, suc, ◌+◌, ◌==◌, ltb, not, ◌&&◌, if◌then◌else◌, Bool, true, false, Option, none, some,
  List, [], ◌∷◌, ◌++◌, map, length, take, drop, Outcome, ok, stop, exits, aborts, ◌>>=◌, map_ok,
}
use h2loadrunner.Base.Ordered.{set_insert}
use h2loadrunner.Text.{Bytes, is_empty, eq_bytes, lt_bytes, find_from}
use h2loadrunner.Text.Tokenize.{tokenize_string}
use h2loadrunner.Mock.Json.{Json}
use h2loadrunner.Mock.Config.{SchemaResponseHeader, SchemaResponseToReturn}
use h2loadrunner.Mock.Message.{H2ServerRequestMessage}
use h2loadrunner.Mock.Rule.{Regex}
use h2loadrunner.Mock.Argument.{Argument, Surroundings, new_argument, get_value}

pub record H2ServerResponseHeader : Type 0 where
  pub tokenized_header : List Bytes
  pub header_arguments : List Argument

pub record H2ServerResponse : Type 0 where
  pub status_code : ℕ
  pub additonal_headers : List H2ServerResponseHeader
  pub tokenized_payload : List Bytes
  pub payload_arguments : List Argument
  pub throttle_positive : Bool
  pub scaled_throttle_ratio : ℕ
  pub name : Bytes
  pub weight : ℕ
  pub response_index : ℕ

-- `tokens.size() - arguments.size() != 1` ends the process.
check_counts {ℓ} : {A : Type ℓ} → List Bytes → List Argument → A → Outcome A
check_counts tokens arguments r =
    if length tokens == suc (length arguments) then ok r else stop exits

abbrev begins_with_colon : Bytes → Bool
begins_with_colon [] = false
begins_with_colon (c ∷ s) = c == b':'

-- The constructor: a name and a value behind a colon, which is not the first character.
pub new_response_header : SchemaResponseHeader → Outcome H2ServerResponseHeader
new_response_header s =
    let tokens = tokenize_string s.header s.placeholder in
    let arguments = map new_argument s.arguments in
    elim (find_from s.header (b':' ∷ []) 1) [
      | none ↦ stop aborts
      | some t ↦
          if begins_with_colon s.header && (t == 1)
          then stop aborts
          else if is_empty (drop (t + 1) s.header)
          then stop exits
          else check_counts tokens arguments
              (record { tokenized_header = tokens; header_arguments = arguments })
    ]

-- The headers in their order; the first that is wrong ends the process.
pub new_response_headers : List SchemaResponseHeader → Outcome (List H2ServerResponseHeader)
new_response_headers [] = ok []
new_response_headers (s ∷ ss) =
    new_response_header s >>= λ h. map_ok (◌∷◌ h) (new_response_headers ss)

-- The constructor of `H2Server_Response`.
unfoldable pub new_response : SchemaResponseToReturn → ℕ → Outcome H2ServerResponse
unfolding check_counts new_response_headers new_response_header find_from
new_response resp index =
    let tokens = tokenize_string resp.payload.msg_payload resp.payload.placeholder in
    let arguments = map new_argument resp.payload.arguments in
    check_counts {A = Unit {0}} tokens arguments tt >>= λ _.
    map_ok
      (λ headers. record {
        status_code = resp.status_code;
        additonal_headers = headers;
        tokenized_payload = tokens;
        payload_arguments = arguments;
        throttle_positive = resp.throttle_positive;
        scaled_throttle_ratio = resp.scaled_throttle_ratio;
        name = resp.name;
        weight = resp.weight;
        response_index = index;
      })
      (new_response_headers resp.additonal_headers)

-- `is_response_throttled()` where the draw between 0 and 999999 gives `number`. The ratio is a variable of
-- the thread, none before the first call that reaches it, which sets it for all responses.
pub is_response_throttled : H2ServerResponse → Option ℕ → ℕ → Bool × Option ℕ
is_response_throttled r none number =
    if r.throttle_positive
    then (ltb number r.scaled_throttle_ratio, some r.scaled_throttle_ratio)
    else (false, none)
is_response_throttled r (some ratio) number =
    if r.throttle_positive then (ltb number ratio, some ratio) else (false, some ratio)

module _ (re : Regex) (env : Surroundings) {Value : Type 0} (j : Json Value) where
  -- The loop of `produce_payload` and of `produce_header`: a token, and behind it the value of the
  -- argument of the same index, if there is one.
  produce :
      List Bytes
      → List Argument
      → H2ServerRequestMessage Value
      → Bytes
      → Outcome (Bytes × H2ServerRequestMessage Value)
  produce [] arguments m payload = ok (payload, m)
  produce (t ∷ ts) [] m payload = produce ts [] m (payload ++ t)
  produce (t ∷ ts) (a ∷ as') m payload =
      get_value re env j a m >>= λ (v, m'). produce ts as' m' ((payload ++ t) ++ v)

  pub produce_payload :
      H2ServerResponse
      → H2ServerRequestMessage Value
      → Outcome (Bytes × H2ServerRequestMessage Value)
  produce_payload r m = produce r.tokenized_payload r.payload_arguments m []

  -- The name and the value around the first colon behind the first character. With no colon
  -- `t + 1` wraps to 0, and both are the whole text.
  pub split_header : Bytes → Bytes × Bytes
  split_header s = elim (find_from s (b':' ∷ []) 1) [
    | none ↦ (s, s)
    | some t ↦ (take t s, drop (t + 1) s)
  ]

  pub produce_header :
      H2ServerResponseHeader
      → H2ServerRequestMessage Value
      → Outcome ((Bytes × Bytes) × H2ServerRequestMessage Value)
  produce_header h m =
      map_ok (λ (s, m'). (split_header s, m')) (produce h.tokenized_header h.header_arguments m [])

  header_lt : Bytes × Bytes → Bytes × Bytes → Bool
  header_lt a b = lt_bytes a.0 b.0

  -- The loop of `produce_headers`; `insert` keeps the first header of a name.
  produce_headers_loop :
      List H2ServerResponseHeader
      → H2ServerRequestMessage Value
      → List (Bytes × Bytes)
      → Outcome (List (Bytes × Bytes) × H2ServerRequestMessage Value)
  produce_headers_loop [] m headers = ok (headers, m)
  produce_headers_loop (h ∷ hs) m headers =
      produce_header h m >>= λ (p, m'). produce_headers_loop hs m' (set_insert header_lt p headers)

  pub produce_headers :
      H2ServerResponse
      → H2ServerRequestMessage Value
      → Outcome (List (Bytes × Bytes) × H2ServerRequestMessage Value)
  produce_headers r m = produce_headers_loop r.additonal_headers m []
