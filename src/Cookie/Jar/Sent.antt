-- ===== src/Cookie/Jar/Sent.antt =====
-- The Cookie header of a request.
use h2loadrunner.Base.{
  ◌≡◌, ◌≢◌, refl, sym, ap, ◌∙◌, Bool, true, false, not, ◌&&◌, ◌||◌, none, some, Option, or_else,
  map, List, [], ◌∷◌, ◌++◌, arith, IsStrictWeak, Bool-cases, inl, inr, if◌then◌else◌, append-nil,
  append_assoc,
}
use h2loadrunner.Base.Maps.{map_find, map_find-map_assign}
use h2loadrunner.Text.{Bytes, codes, is_empty, eq_bytes, lt_bytes, inp_strlower}
use h2loadrunner.Text.Order.{lt_bytes-IsStrictWeak}
use h2loadrunner.Text.Tokenize.Splits.{join}
use h2loadrunner.Cookie.{Cookie, one_of, parse_cookie_string, is_cookie_allowed_to_be_sent}
use h2loadrunner.Cookie.Jar.{
  ci_less, Jar, RequestData, no_cookies, put_cookie_header, is_sent, cookie_pair, names_from_config,
  append_loop, with_config_header, produce_request_cookie_header,
}

-- The pairs of the cookies that are sent, in the order of the jar.
abbrev pub sent_pairs : RequestData → Jar → List Bytes
sent_pairs r [] = []
sent_pairs r (e ∷ jar) = if is_sent r e then cookie_pair e ∷ sent_pairs r jar else sent_pairs r jar

-- The pairs with the delimiter in front of each.
after : List Bytes → Bytes
after [] = []
after (t ∷ ts) = codes "; " ++ (t ++ after ts)

join-after : (t : Bytes) (ts : List Bytes) → t ++ after ts ≡ join (codes "; ") (t ∷ ts)
unfolding after
join-after t [] = append-nil t
join-after t (u ∷ ts) = ap (λ r. t ++ (codes "; " ++ r)) (join-after u ts)

cookie_pair_nonempty : (e : Bytes × Cookie) (s : Bytes) → is_empty (s ++ cookie_pair e) ≡ false
unfolding cookie_pair
cookie_pair_nonempty (key, c) [] = pair_nonempty key
  where
    pair_nonempty : (key : Bytes) → is_empty (key ++ (codes "=" ++ c.cookie_value)) ≡ false
    pair_nonempty [] = refl
    pair_nonempty (b ∷ key) = refl
cookie_pair_nonempty (key, c) (b ∷ s) = refl

append_loop_lem :
    (r : RequestData) (jar : Jar) (cookies : Bytes)
    → is_empty cookies ≡ false
    → append_loop r jar cookies ≡ cookies ++ after (sent_pairs r jar)
unfolding append_loop after
append_loop_lem r [] cookies h = sym (append-nil cookies)
append_loop_lem r (e ∷ jar) cookies h = elim (Bool-cases (is_sent r e)) [
  | inl s ↦
      rw (s, h)
        (append_loop_lem r jar _ (cookie_pair_nonempty e (cookies ++ codes "; "))
          ∙ append_assoc (cookies ++ codes "; ") (cookie_pair e) (after (sent_pairs r jar))
          ∙ append_assoc cookies (codes "; ") (cookie_pair e ++ after (sent_pairs r jar)))
  | inr s ↦ rw s (append_loop_lem r jar cookies h)
]

append_loop-join :
    (r : RequestData) (jar : Jar) → append_loop r jar [] ≡ join (codes "; ") (sent_pairs r jar)
unfolding append_loop
append_loop-join r [] = refl
append_loop-join r (e ∷ jar) = elim (Bool-cases (is_sent r e)) [
  | inl s ↦ rw s (
      append_loop_lem r jar (cookie_pair e) (cookie_pair_nonempty e [])
      ∙ join-after (cookie_pair e) (sent_pairs r jar))
  | inr s ↦ rw s (append_loop-join r jar)
]

join-sent_pairs_nonempty :
    (r : RequestData) (jar : Jar)
    → sent_pairs r jar ≢ []
    → is_empty (join (codes "; ") (sent_pairs r jar)) ≡ false
join-sent_pairs_nonempty r [] h = absurd (h refl)
join-sent_pairs_nonempty r (e ∷ jar) h = elim (Bool-cases (is_sent r e)) [
  | inl s ↦
      rw (s, sym (join-after (cookie_pair e) (sent_pairs r jar))) (nonempty (sent_pairs r jar))
  | inr s ↦ rw s (join-sent_pairs_nonempty r jar (rw s at h))
]
  where
    longer : (s t : Bytes) → is_empty s ≡ false → is_empty (s ++ t) ≡ false
    longer [] t k = absurd (ground arith)
    longer (b ∷ s) t k = refl

    nonempty : (ts : List Bytes) → is_empty (cookie_pair e ++ after ts) ≡ false
    nonempty ts = longer (cookie_pair e) (after ts) (cookie_pair_nonempty e [])

pub ci_less-IsStrictWeak : IsStrictWeak ci_less
ci_less-IsStrictWeak = record {
  irrefl = λ s. lt_bytes-IsStrictWeak.irrefl (inp_strlower s);
  trans = λ s t u. lt_bytes-IsStrictWeak.trans (inp_strlower s) (inp_strlower t) (inp_strlower u);
  co_trans =
      λ s t u. lt_bytes-IsStrictWeak.co_trans (inp_strlower s) (inp_strlower t) (inp_strlower u);
}

no_cookies-sent_pairs :
    (r : RequestData) (jar : Jar) → no_cookies jar ≡ true → sent_pairs r jar ≡ []
no_cookies-sent_pairs r [] h = refl
no_cookies-sent_pairs r (e ∷ jar) h = absurd (ground arith)

-- The configured Cookie header, unless it is missing or empty.
abbrev pub configured_part : RequestData → List Bytes
configured_part r = elim (map_find ci_less (codes "Cookie") r.req_headers_from_config) [
  | none ↦ []
  | some text ↦ if is_empty text then [] else text ∷ []
]

-- A cookie with the name is among the cookies that the configured header gives.
abbrev pub has_name : Bytes → List Cookie → Bool
has_name key [] = false
has_name key (c ∷ cs) = eq_bytes key c.cookie_key || has_name key cs

abbrev pub is_configured : RequestData → Bytes → Bool
is_configured r key = elim (map_find ci_less (codes "Cookie") r.req_headers_from_config) [
  | none ↦ false
  | some text ↦ has_name key (parse_cookie_string text r.authority r.schema)
]

-- The saved cookies that no configured one replaces and that are allowed to be sent, in their order, each
-- as its name, "=" and its value.
abbrev pub pairs_to_send : RequestData → Jar → List Bytes
pairs_to_send r [] = []
pairs_to_send r ((key, c) ∷ jar) =
    if not (is_configured r key) && is_cookie_allowed_to_be_sent c r.schema r.authority r.path
    then (key ++ (codes "=" ++ c.cookie_value)) ∷ pairs_to_send r jar
    else pairs_to_send r jar

one_of-has_name :
    (key : Bytes) (cs : List Cookie) → one_of (map (λ c. c.cookie_key) cs) key ≡ has_name key cs
unfolding one_of
one_of-has_name key [] = refl
one_of-has_name key (c ∷ cs) = ap (◌||◌ (eq_bytes key c.cookie_key)) (one_of-has_name key cs)

one_of-elim :
    (r : RequestData) (key : Bytes) (found : Option Bytes)
    → one_of
        (elim found [
          | none ↦ []
          | some text ↦ map (λ c. c.cookie_key) (parse_cookie_string text r.authority r.schema)
        ])
        key
      ≡ elim found [
        | none ↦ false
        | some text ↦ has_name key (parse_cookie_string text r.authority r.schema)
      ]
unfolding one_of
one_of-elim r key none = refl
one_of-elim r key (some text) = one_of-has_name key (parse_cookie_string text r.authority r.schema)

one_of-is_configured :
    (r : RequestData) (key : Bytes) → one_of (names_from_config r) key ≡ is_configured r key
unfolding names_from_config
one_of-is_configured r key =
    one_of-elim r key (map_find ci_less (codes "Cookie") r.req_headers_from_config)

sent_pairs-pairs_to_send : (r : RequestData) (jar : Jar) → sent_pairs r jar ≡ pairs_to_send r jar
unfolding is_sent cookie_pair
sent_pairs-pairs_to_send r [] = refl
sent_pairs-pairs_to_send r ((key, c) ∷ jar) =
    ground (arith, one_of-is_configured r key, sent_pairs-pairs_to_send r jar)

in_front-join :
    (found : Option Bytes) (t : Bytes) (ts : List Bytes)
    → (let configured = or_else found [] in
        if is_empty configured
        then join (codes "; ") (t ∷ ts)
        else configured ++ (codes "; " ++ join (codes "; ") (t ∷ ts)))
      ≡ join (codes "; ") (
          elim found [ none ↦ [] | some text ↦ if is_empty text then [] else text ∷ [] ]
          ++ (t ∷ ts))
in_front-join none t ts = refl
in_front-join (some []) t ts = refl
in_front-join (some (b ∷ text)) t ts = refl

with_config_header-join :
    (r : RequestData) (ts : List Bytes)
    → ts ≢ []
    → with_config_header r (join (codes "; ") ts) ≡ join (codes "; ") (configured_part r ++ ts)
unfolding with_config_header
with_config_header-join r [] h = absurd (h refl)
with_config_header-join r (t ∷ ts) h =
    in_front-join (map_find ci_less (codes "Cookie") r.req_headers_from_config) t ts

-- Where some saved cookie is allowed to be sent and no cookie of the configured Cookie header has its name,
-- the request's own Cookie header is the configured one, if it is there and not empty, and the pairs of
-- name and value of all those cookies in the order of the jar, with "; " between all of them.
pub find-produce_request_cookie_header :
    (r : RequestData)
    → pairs_to_send r r.saved_cookies ≢ []
    → map_find ci_less (codes "Cookie") (produce_request_cookie_header r).req_headers_of_individual
      ≡ some (join (codes "; ") (configured_part r ++ pairs_to_send r r.saved_cookies))
unfolding produce_request_cookie_header put_cookie_header lt_bytes inp_strlower
find-produce_request_cookie_header r h =
    let same = sent_pairs-pairs_to_send r r.saved_cookies in
    let some_sent : sent_pairs r r.saved_cookies ≢ [] = λ e. h (sym same ∙ e) in
    elim (Bool-cases (no_cookies r.saved_cookies)) [
      | inl e ↦ absurd (some_sent (no_cookies-sent_pairs r r.saved_cookies e))
      | inr e ↦
          rw
            (
              e,
              append_loop-join r r.saved_cookies,
              join-sent_pairs_nonempty r r.saved_cookies some_sent,
            )
            (map_find-map_assign ci_less ci_less-IsStrictWeak (codes "Cookie") (codes "Cookie")
              (with_config_header r (join (codes "; ") (sent_pairs r r.saved_cookies)))
              r.req_headers_of_individual)
          ∙ ap some (
              with_config_header-join r (sent_pairs r r.saved_cookies) some_sent
              ∙ ap (λ ts. join (codes "; ") (configured_part r ++ ts)) same)
    ]

-- Where no cookie is sent, the request is left as it was.
pub produce_request_cookie_header_none :
    (r : RequestData) → sent_pairs r r.saved_cookies ≡ [] → produce_request_cookie_header r ≡ r
unfolding produce_request_cookie_header put_cookie_header
produce_request_cookie_header_none r h = elim (Bool-cases (no_cookies r.saved_cookies)) [
  | inl e ↦ rw e refl
  | inr e ↦ rw (e, append_loop-join r r.saved_cookies, h) refl
]
