-- ===== src/Cookie/Decisions.antt =====
-- What a Set-Cookie must be to be accepted, and a cookie to be sent, as conditions on its texts.
use h2loadrunner.Base.{
  ◌≡◌, ◌≢◌, ◌↔◌, inl, inr, refl, sym, ap, true, false, [], ◌∷◌, ◌++◌, arith, Bool-cases,
}
use h2loadrunner.Text.{Bytes, codes, is_empty, eq_bytes, inp_strlower}
use h2loadrunner.Text.Order.{eq_bytes→eq, eq_bytes_refl}
use h2loadrunner.Cookie.{
  Cookie, begins, domain_matches, host_of, is_cookie_acceptable, is_cookie_allowed_to_be_sent,
}
use h2loadrunner.Cookie.Rules.{begins_iff, domain_matches_iff}

-- The conditions of the two name prefixes, and of SameSite=None.
pub record IsAcceptable (c : Cookie) : Type 0 where
  pub host :
      (r : Bytes)
      → c.cookie_key ≡ codes "__Host-" ++ r
      → (c.secure ≡ true) × (c.secure_origin ≡ true) × (c.domain ≡ []) × (c.path ≡ codes "/")
  pub secure_prefix :
      (r : Bytes)
      → c.cookie_key ≡ codes "__Secure-" ++ r
      → (c.secure ≡ true) × (c.secure_origin ≡ true)
  pub none_is_secure : c.same_site ≡ codes "None" → c.secure ≡ true

is_empty→nil : (s : Bytes) → is_empty s ≡ true → s ≡ []
is_empty→nil [] h = refl
is_empty→nil (c ∷ s) h = absurd (ground arith)

eq_bytes-of_eq : (s t : Bytes) → s ≡ t → eq_bytes s t ≡ true
eq_bytes-of_eq s t e = rw e (eq_bytes_refl t)

accepted : (c : Cookie) → is_cookie_acceptable c ≡ true → IsAcceptable c
unfolding is_cookie_acceptable
accepted c h = record {
  host = λ r e.
      let b = (begins_iff c.cookie_key (codes "__Host-")).1 (r, e) in
      (
        ground arith,
        ground arith,
        is_empty→nil c.domain (ground arith),
        eq_bytes→eq c.path (codes "/") (ground arith),
      );
  secure_prefix = λ r e.
      let b = (begins_iff c.cookie_key (codes "__Secure-")).1 (r, e) in
      (ground arith, ground arith);
  none_is_secure = λ e. let b = eq_bytes-of_eq c.same_site (codes "None") e in ground arith;
}

host_passes :
    (c : Cookie)
    → IsAcceptable c
    → begins c.cookie_key (codes "__Host-") ≡ true
    → (c.secure ≡ true)
      × (c.secure_origin ≡ true)
      × (is_empty c.domain ≡ true)
      × (eq_bytes c.path (codes "/") ≡ true)
host_passes c a b =
    let (r, e) = (begins_iff c.cookie_key (codes "__Host-")).0 b in
    let (p, q, d, s) = a.host r e in (p, q, rw d refl, eq_bytes-of_eq c.path (codes "/") s)

secure_passes :
    (c : Cookie)
    → IsAcceptable c
    → begins c.cookie_key (codes "__Secure-") ≡ true
    → (c.secure ≡ true) × (c.secure_origin ≡ true)
secure_passes c a b =
    let (r, e) = (begins_iff c.cookie_key (codes "__Secure-")).0 b in a.secure_prefix r e

none_passes :
    (c : Cookie) → IsAcceptable c → eq_bytes c.same_site (codes "None") ≡ true → c.secure ≡ true
none_passes c a b = a.none_is_secure (eq_bytes→eq c.same_site (codes "None") b)

-- A cookie is accepted exactly if it meets the conditions of its name's prefix and of SameSite=None.
pub is_cookie_acceptable_iff : (c : Cookie) → (is_cookie_acceptable c ≡ true) ↔ IsAcceptable c
unfolding is_cookie_acceptable
is_cookie_acceptable_iff c =
    (accepted c, λ a. ground (arith, host_passes c a, secure_passes c a, none_passes c a))

-- The conditions under which a cookie goes to a destination.
pub record MayBeSent (c : Cookie) (schema authority path : Bytes) : Type 0 where
  pub not_over_http : schema ≡ codes "http" → c.secure ≡ false
  pub same_domain :
      (is_empty c.domain ≡ false) → (l : Bytes) × (host_of (inp_strlower authority) ≡ l ++ c.domain)
  pub same_host : c.domain ≡ [] → c.origin ≡ inp_strlower authority
  pub below_path : path ≢ [] → (r : Bytes) × (path ≡ c.path ++ r)
  pub same_site_origin :
      c.same_site ≢ [] → c.same_site ≢ codes "None" → c.origin ≡ inp_strlower authority

sent :
    (c : Cookie) (schema authority path : Bytes)
    → is_cookie_allowed_to_be_sent c schema authority path ≡ true
    → MayBeSent c schema authority path
unfolding is_cookie_allowed_to_be_sent
sent c schema authority path h = record {
  not_over_http = λ e. ground (arith, eq_bytes-of_eq schema (codes "http") e);
  same_domain =
      λ e. (domain_matches_iff c.domain (host_of (inp_strlower authority))).0 (ground arith);
  same_host =
      λ e. eq_bytes→eq c.origin (inp_strlower authority) (ground (arith, nil_empty c.domain e));
  below_path = λ ne. elim (Bool-cases (is_empty c.path)) [
    | inl e ↦ (path, ap (λ p. p ++ path) (sym (is_empty→nil c.path e)))
    | inr e ↦ (begins_iff path c.path).0 (ground (arith, not_empty path ne))
  ];
  same_site_origin = λ ne nn.
      eq_bytes→eq c.origin (inp_strlower authority)
        (ground (arith, not_empty c.same_site ne, not_none c.same_site nn));
}
  where
    nil_empty : (s : Bytes) → s ≡ [] → is_empty s ≡ true
    nil_empty s e = rw e refl

    not_empty : (s : Bytes) → s ≢ [] → is_empty s ≡ false
    not_empty [] ne = absurd (ne refl)
    not_empty (x ∷ s) ne = refl

    not_none : (s : Bytes) → s ≢ codes "None" → eq_bytes s (codes "None") ≡ false
    not_none s ne = elim (Bool-cases (eq_bytes s (codes "None"))) [
      | inl e ↦ absurd (ne (eq_bytes→eq s (codes "None") e))
      | inr e ↦ e
    ]

module _ (c : Cookie) (schema authority path : Bytes) (s : MayBeSent c schema authority path) where
  schema_passes : eq_bytes schema (codes "http") ≡ true → c.secure ≡ false
  schema_passes b = s.not_over_http (eq_bytes→eq schema (codes "http") b)

  domain_passes :
      is_empty c.domain ≡ false → domain_matches c.domain (host_of (inp_strlower authority)) ≡ true
  domain_passes b =
      (domain_matches_iff c.domain (host_of (inp_strlower authority))).1 (s.same_domain b)

  host_only_passes : is_empty c.domain ≡ true → eq_bytes c.origin (inp_strlower authority) ≡ true
  host_only_passes b =
      eq_bytes-of_eq c.origin (inp_strlower authority) (s.same_host (is_empty→nil c.domain b))

  path_passes : is_empty path ≡ false → begins path c.path ≡ true
  path_passes b =
      (begins_iff path c.path).1 (s.below_path (λ e. ground (arith, nil_is_empty path e)))
    where
      nil_is_empty : (t : Bytes) → t ≡ [] → is_empty t ≡ true
      nil_is_empty t e = rw e refl

  site_passes :
      is_empty c.same_site ≡ false
      → eq_bytes c.same_site (codes "None") ≡ false
      → eq_bytes c.origin (inp_strlower authority) ≡ true
  site_passes b d = eq_bytes-of_eq c.origin (inp_strlower authority) (
      s.same_site_origin (λ e. ground (arith, nil_is_empty c.same_site e))
        (λ e. ground (arith, eq_bytes-of_eq c.same_site (codes "None") e)))
    where
      nil_is_empty : (t : Bytes) → t ≡ [] → is_empty t ≡ true
      nil_is_empty t e = rw e refl

-- A cookie is sent exactly if: it is not a secure cookie on its way over http; its domain is an end of
-- the destination's host or, without a domain, its origin is the destination; its path begins the
-- destination's path, letter by letter, if that has one; and with a SameSite other than None its origin is
-- the destination. Its expiry date and its maximum age do not matter.
pub is_cookie_allowed_to_be_sent_iff :
    (c : Cookie) (schema authority path : Bytes)
    → (is_cookie_allowed_to_be_sent c schema authority path ≡ true)
      ↔ MayBeSent c schema authority path
unfolding is_cookie_allowed_to_be_sent
is_cookie_allowed_to_be_sent_iff c schema authority path = (
  sent c schema authority path,
  λ s. ground (
    arith,
    schema_passes c schema authority path s,
    domain_passes c schema authority path s,
    host_only_passes c schema authority path s,
    path_passes c schema authority path s,
    site_passes c schema authority path s,
  ),
)
