-- ===== src/Tests/Cookie.antt =====
-- The cookies.
use h2loadrunner.Base.{◌≡◌, ◌≢◌, ◌↔◌, true, arith, false, [], ◌∷◌, ◌++◌, All, none, some}
use h2loadrunner.Base.Maps.{map_find}
use h2loadrunner.Text.{Bytes, codes, eq_bytes, find, starts_with, inp_strlower, lt_bytes}
use h2loadrunner.Text.Tokenize.{tokenize_string}
use h2loadrunner.Cookie.{
  Cookie, begins, host_of, one_of, parse_cookie_string, is_cookie_allowed_to_be_sent,
  domain_matches,
}
use h2loadrunner.Cookie.Rules.{domain_matches_iff}
use h2loadrunner.Cookie.Decisions.{MayBeSent, is_cookie_allowed_to_be_sent_iff}
use h2loadrunner.Cookie.Origin.{ComesFrom, parse_cookie_string-ComesFrom}
use h2loadrunner.Cookie.Jar.{
  greater, ci_less, RequestData, is_sent, names_from_config, cookie_pair, parse_and_save_cookies,
  produce_request_cookie_header,
}
use h2loadrunner.Cookie.Jar.Saved.{last_accepted, set_cookies, or_jar, find-parse_and_save_cookies}
use h2loadrunner.Cookie.Jar.Sent.{pairs_to_send, find-produce_request_cookie_header}

abbrev example_cookie : Cookie
example_cookie = record {
  origin = codes "a.com";
  secure_origin = true;
  cookie_key = codes "id";
  cookie_value = codes "7";
  expires = [];
  secure = true;
  http_only = false;
  domain = [];
  path = codes "/";
  same_site = codes "Lax";
  max_age = [];
}

domain_matches_iff_example :
    (domain_matches (codes "a.com") (codes "www.a.com") ≡ true)
    ↔ ((l : Bytes) × (codes "www.a.com" ≡ l ++ codes "a.com"))
domain_matches_iff_example = domain_matches_iff (codes "a.com") (codes "www.a.com")

is_cookie_allowed_to_be_sent_iff_example :
    (is_cookie_allowed_to_be_sent example_cookie (codes "https") (codes "a.com") (codes "/x")
      ≡ true)
    ↔ MayBeSent example_cookie (codes "https") (codes "a.com") (codes "/x")
is_cookie_allowed_to_be_sent_iff_example =
    is_cookie_allowed_to_be_sent_iff example_cookie (codes "https") (codes "a.com") (codes "/x")

parse_cookie_string-ComesFrom_example :
    All
      (ComesFrom (codes "A.com") (eq_bytes (codes "https") (codes "https")))
      (parse_cookie_string (codes "id=7; Secure; Domain=b.com") (codes "A.com") (codes "https"))
parse_cookie_string-ComesFrom_example =
    parse_cookie_string-ComesFrom (codes "id=7; Secure; Domain=b.com") (codes "A.com")
      (codes "https")

-- A request of a user with one cookie, and its response.
abbrev example_request : RequestData
example_request = record {
  schema = codes "https";
  authority = codes "a.com";
  path = codes "/x";
  req_headers_from_config = (codes "Cookie", codes "lang=en") ∷ [];
  req_headers_of_individual = [];
  resp_headers = ((codes "set-cookie", codes "id=8; Secure") ∷ []) ∷ [];
  resp_trailer_present = false;
  req_payload_cursor = 0;
  stream_timeout_in_ms = 0;
  request_sent_callback = none;
  saved_cookies = (codes "id", example_cookie) ∷ [];
  req_payload = [];
  method = codes "GET";
  resp_payload = [];
  status_code = 200;
  expected_status_code = 0;
  delay_before_executing_next = 0;
  curr_request_idx = 0;
  scenario_index = 0;
  variable_index_to_value = [];
  user_ids = [];
}

find-parse_and_save_cookies_example :
    map_find greater (codes "id") (parse_and_save_cookies example_request).saved_cookies
    ≡ or_jar
        (last_accepted
          (codes "id")
          (set_cookies (codes "a.com") (codes "https") example_request.resp_headers))
        (map_find greater (codes "id") example_request.saved_cookies)
find-parse_and_save_cookies_example = find-parse_and_save_cookies (codes "id") example_request

-- A configured cookie, a saved one that it replaces, and a saved one that is sent.
abbrev configured_request : RequestData
configured_request = record example_request {
  req_headers_from_config = (codes "Cookie", codes "lang=en") ∷ [];
  saved_cookies =
      (codes "lang", record example_cookie { cookie_key = codes "lang"; cookie_value = codes "de" })
      ∷ (codes "id", example_cookie)
      ∷ [];
}

find-produce_request_cookie_header_example :
    map_find ci_less
      (codes "Cookie")
      (produce_request_cookie_header configured_request).req_headers_of_individual
    ≡ some (codes "lang=en; id=7")
unfolding produce_request_cookie_header is_cookie_allowed_to_be_sent begins find starts_with
    eq_bytes one_of parse_cookie_string inp_strlower map_find ci_less lt_bytes domain_matches
    host_of is_sent cookie_pair names_from_config tokenize_string
find-produce_request_cookie_header_example =
    find-produce_request_cookie_header configured_request sends
  where
    sends : pairs_to_send configured_request configured_request.saved_cookies ≢ []
    sends e = absurd (ground arith)
