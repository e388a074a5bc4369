-- ===== src/Cookie/Jar.antt =====
-- The cookies that a user keeps, in base_client.cc: `parse_and_save_cookies` and
-- `produce_request_cookie_header`.
pub mod Saved
pub mod Sent
use h2loadrunner.Base.{
  ℕ, if◌then◌else◌, Bool, true, false, not, ◌&&◌, ◌||◌, Option, none, some, List, [], ◌∷◌, ◌++◌,
  map, or_else,
}
use h2loadrunner.Base.Maps.{map_assign, map_find}
use h2loadrunner.Text.{Bytes, codes, is_empty, lt_bytes, inp_strlower}
use h2loadrunner.Cookie.{
  Cookie, one_of, parse_cookie_string, is_cookie_acceptable, is_cookie_allowed_to_be_sent,
}

-- `std::greater<std::string>`, and `ci_less`, which compares in lower case.
abbrev pub greater : Bytes → Bytes → Bool
greater s t = lt_bytes t s

abbrev pub ci_less : Bytes → Bytes → Bool
ci_less s t = lt_bytes (inp_strlower s) (inp_strlower t)

-- `std::map<std::string, Cookie, std::greater<std::string>>`, and a map of headers.
abbrev pub Jar : Type 0
Jar = List (Bytes × Cookie)

abbrev pub HeaderMap : Type 0
HeaderMap = List (Bytes × Bytes)

-- `Request_Data` with the `Scenario_Data_Per_User` that it points to: the last three fields. A string
-- that is pointed to is the string, and a callback the number of a function that is not modelled. The
-- fields for printing are left out.
pub record RequestData : Type 0 where
  pub schema : Bytes
  pub authority : Bytes
  pub req_payload : Bytes
  pub path : Bytes
  pub method : Bytes
  pub req_payload_cursor : ℕ
  pub req_headers_from_config : HeaderMap
  pub req_headers_of_individual : HeaderMap
  pub resp_payload : Bytes
  pub resp_headers : List HeaderMap
  pub resp_trailer_present : Bool
  pub status_code : ℕ
  pub expected_status_code : ℕ
  pub delay_before_executing_next : ℕ
  pub curr_request_idx : ℕ
  pub scenario_index : ℕ
  pub stream_timeout_in_ms : ℕ
  pub request_sent_callback : Option ℕ
  pub variable_index_to_value : List Bytes
  pub saved_cookies : Jar
  pub user_ids : List ℕ

-- The loop over the cookies of one header.
unfoldable pub save_cookies : List Cookie → Jar → Jar
save_cookies [] jar = jar
save_cookies (c ∷ cs) jar =
    save_cookies cs (if is_cookie_acceptable c then map_assign greater c.cookie_key c jar else jar)

-- The loop over the header maps of the response.
unfoldable pub save_loop : Bytes → Bytes → List HeaderMap → Jar → Jar
save_loop authority schema [] jar = jar
save_loop authority schema (hs ∷ more) jar =
    save_loop authority schema more (elim (map_find ci_less (codes "Set-Cookie") hs) [
      | none ↦ jar
      | some text ↦ save_cookies (parse_cookie_string text authority schema) jar
    ])

unfoldable pub parse_and_save_cookies : RequestData → RequestData
parse_and_save_cookies r = record r {
  saved_cookies = save_loop r.authority r.schema r.resp_headers r.saved_cookies;
}

-- `cookies_from_config`, the names in the configured header.
unfoldable pub names_from_config : RequestData → List Bytes
names_from_config r = elim (map_find ci_less (codes "Cookie") r.req_headers_from_config) [
  | none ↦ []
  | some text ↦ map (λ c. c.cookie_key) (parse_cookie_string text r.authority r.schema)
]

-- Neither overridden by the configuration nor refused for the destination.
unfoldable pub is_sent : RequestData → Bytes × Cookie → Bool
is_sent r (key, c) =
    if one_of (names_from_config r) key
    then false
    else if not (is_cookie_allowed_to_be_sent c r.schema r.authority r.path)
    then false
    else true

-- `append(cookie.first).append("=").append(cookie.second.cookie_value)`.
unfoldable pub cookie_pair : Bytes × Cookie → Bytes
cookie_pair (key, c) = key ++ (codes "=" ++ c.cookie_value)

-- The loop over the saved cookies, with `cookies_to_append`.
unfoldable pub append_loop : RequestData → Jar → Bytes → Bytes
append_loop r [] cookies = cookies
append_loop r (e ∷ jar) cookies = append_loop r jar (
    if is_sent r e
    then (if is_empty cookies then cookies else cookies ++ codes "; ") ++ cookie_pair e
    else cookies)

-- The configured header in front, unless it is missing or empty.
unfoldable pub with_config_header : RequestData → Bytes → Bytes
with_config_header r cookies =
    let configured = or_else (map_find ci_less (codes "Cookie") r.req_headers_from_config) [] in
    if is_empty configured then cookies else configured ++ (codes "; " ++ cookies)

-- `saved_cookies.empty()`.
abbrev pub no_cookies : Jar → Bool
no_cookies [] = true
no_cookies (e ∷ jar) = false

-- Nothing is written where no cookie is sent.
unfoldable pub put_cookie_header : RequestData → Bytes → RequestData
put_cookie_header r cookies = if is_empty cookies then r else record r {
  req_headers_of_individual =
      map_assign ci_less (codes "Cookie") (with_config_header r cookies)
        r.req_headers_of_individual;
}

unfoldable pub produce_request_cookie_header : RequestData → RequestData
unfolding append_loop put_cookie_header is_sent cookie_pair names_from_config with_config_header
produce_request_cookie_header r =
    if no_cookies r.saved_cookies then r else put_cookie_header r (append_loop r r.saved_cookies [])
