-- ===== src/Cookie.antt =====
-- h2load_Cookie.cc, and the use of cookies in base_client.cc: parsing of a Set-Cookie text, the tests
-- whether a cookie is accepted and sent, and the cookies that a user of the load test keeps.
pub mod Rules
pub mod Decisions
pub mod Origin
pub mod Jar
use h2loadrunner.Base.{
  ℕ, ◌-◌, ◌==◌, leb, if◌then◌else◌, Bool, true, false, not, ◌&&◌, ◌||◌, Option, none, some, List,
  [], ◌∷◌, ◌++◌, length,
}
use h2loadrunner.Text.{
  Bytes, codes, is_empty, eq_bytes, lt_bytes, find, rfind, inp_strlower, starts_with,
}
use h2loadrunner.Text.Tokenize.{tokenize_string}

pub record Cookie : Type 0 where
  pub origin : Bytes
  pub secure_origin : Bool
  pub cookie_key : Bytes
  pub cookie_value : Bytes
  pub expires : Bytes
  pub secure : Bool
  pub http_only : Bool
  pub domain : Bytes
  pub path : Bytes
  pub same_site : Bytes
  pub max_age : Bytes

-- Whether the text is one of the lower-case texts.
unfoldable pub one_of : List Bytes → Bytes → Bool
one_of [] s = false
one_of (t ∷ ts) s = eq_bytes s t || one_of ts s

-- `cookie_attributes.count(s)`: the set compares without regard to case.
is_cookie_attribute : Bytes → Bool
is_cookie_attribute s =
    one_of
      (codes "secure"
        ∷ codes "httponly"
        ∷ codes "expires"
        ∷ codes "domain"
        ∷ codes "path"
        ∷ codes "samesite"
        ∷ codes "max-age"
        ∷ [])
      (inp_strlower s)

-- The cookie of a pair: every field that the branch does not write is as `Cookie()` made it.
new_cookie : Bytes → Bool → Bytes → Bytes → Cookie
new_cookie origin_authority secure_origin key value = record {
  origin = inp_strlower origin_authority;
  secure_origin = secure_origin;
  cookie_key = key;
  cookie_value = value;
  expires = [];
  secure = false;
  http_only = false;
  domain = [];
  path = [];
  same_site = codes "Lax";
  max_age = [];
}

-- The ladder over the attribute's name in lower case: alone, or with a value.
flag_attribute : Bytes → Cookie → Cookie
flag_attribute key c =
    if eq_bytes key (codes "secure")
    then record c { secure = true }
    else if eq_bytes key (codes "httponly")
    then record c { http_only = true }
    else c

value_attribute : Bytes → Bytes → Cookie → Cookie
value_attribute key value c =
    if eq_bytes key (codes "expires")
    then record c { expires = value }
    else if eq_bytes key (codes "domain")
    then record c { domain = inp_strlower value }
    else if eq_bytes key (codes "path")
    then record c { path = value }
    else if eq_bytes key (codes "samesite")
    then record c { same_site = value }
    else if eq_bytes key (codes "max-age")
    then record c { max_age = value }
    else c

-- `parsed_cookies.back()` is rewritten; with no cookie yet the attribute is skipped.
update_back : (Cookie → Cookie) → List Cookie → List Cookie
update_back f [] = []
update_back f (c ∷ []) = f c ∷ []
update_back f (c ∷ d ∷ cs) = c ∷ update_back f (d ∷ cs)

-- One token, cut at the equals signs. A token that is neither a pair nor an attribute is reported and
-- skipped.
parse_pair : Bytes → Bool → List Bytes → List Cookie → List Cookie
parse_pair origin_authority secure_origin [] cs = cs
parse_pair origin_authority secure_origin (key ∷ []) cs =
    if is_cookie_attribute key then update_back (flag_attribute (inp_strlower key)) cs else cs
parse_pair origin_authority secure_origin (key ∷ value ∷ []) cs =
    if is_cookie_attribute key
    then update_back (value_attribute (inp_strlower key) value) cs
    else cs ++ (new_cookie origin_authority secure_origin key value ∷ [])
parse_pair origin_authority secure_origin (key ∷ value ∷ more ∷ rest) cs = cs

-- The loop over the tokens.
parse_loop : Bytes → Bool → List Bytes → List Cookie → List Cookie
parse_loop origin_authority secure_origin [] cs = cs
parse_loop origin_authority secure_origin (t ∷ ts) cs =
    parse_loop origin_authority secure_origin ts
      (parse_pair origin_authority secure_origin (tokenize_string t (codes "=")) cs)

unfoldable pub parse_cookie_string : Bytes → Bytes → Bytes → List Cookie
unfolding one_of is_cookie_attribute new_cookie flag_attribute value_attribute update_back
    parse_pair parse_loop tokenize_string eq_bytes inp_strlower
parse_cookie_string cookie_string origin_authority origin_schema =
    parse_loop origin_authority (eq_bytes origin_schema (codes "https"))
      (tokenize_string cookie_string (codes "; ")) []

-- `key.find(prefix) == 0`.
unfoldable pub begins : Bytes → Bytes → Bool
begins s prefix = elim (find s prefix) [ none ↦ false | some n ↦ n == 0 ]

unfoldable pub is_cookie_acceptable : Cookie → Bool
is_cookie_acceptable c =
    if begins c.cookie_key (codes "__Host-")
      && (not c.secure
          || not c.secure_origin
          || not (is_empty c.domain)
          || not (eq_bytes c.path (codes "/")))
    then false
    else if begins c.cookie_key (codes "__Secure-") && (not c.secure || not c.secure_origin)
    then false
    else if eq_bytes c.same_site (codes "None") && not c.secure
    then false
    else true

-- `tokenize_string(authority, ":")[0]`.
unfoldable pub host_of : Bytes → Bytes
host_of authority = elim (tokenize_string authority (codes ":")) [ [] ↦ [] | h ∷ rest ↦ h ]

-- The domain stands at the end of the host, as `rfind` finds it.
unfoldable pub domain_matches : Bytes → Bytes → Bool
domain_matches domain dest_host = elim (rfind dest_host domain) [
  | none ↦ false
  | some pos ↦ length dest_host - pos == length domain
]

unfoldable pub is_cookie_allowed_to_be_sent : Cookie → Bytes → Bytes → Bytes → Bool
is_cookie_allowed_to_be_sent c dest_schema dest_authority dest_path =
    let authority = inp_strlower dest_authority in
    if c.secure && eq_bytes dest_schema (codes "http")
    then false
    else if (if is_empty c.domain
        then not (eq_bytes c.origin authority)
        else not (domain_matches c.domain (host_of authority)))
    then false
    else if not (is_empty c.path) && not (is_empty dest_path) && not (begins dest_path c.path)
    then false
    else if not (is_empty c.same_site)
        && not (eq_bytes c.same_site (codes "None"))
        && not (eq_bytes c.origin authority)
    then false
    else true
