-- ===== src/Load/Session/Headers.antt =====
-- Which value of a header is sent.
use h2loadrunner.Base.{
  ◌≡◌, if◌then◌else◌, true, false, Option, none, some, [], ◌∷◌, ◌++◌, refl, arith, ap, ap₂, sym,
  subst, ◌∙◌, Bool-cases, inl, inr,
}
use mathlib.Core.Bool.{true≢false}
use h2loadrunner.Base.Ordered.{equiv}
use h2loadrunner.Base.Maps.{map_find, map_find-equiv}
use h2loadrunner.Text.{Bytes, eq_bytes, lt_bytes, inp_strlower}
use h2loadrunner.Text.Order.{eq_bytes→eq}
use h2loadrunner.Cookie.Jar.{RequestData, HeaderMap, ci_less}
use h2loadrunner.Cookie.Jar.Sent.{ci_less-IsStrictWeak}
use h2loadrunner.Load.Session.{
  path_header, scheme_header, authority_header, method_header, is_request_pseudo, own_headers,
  has_header, configured_headers, sent_headers,
}

lt_bytes_antisym : (s t : Bytes) → lt_bytes s t ≡ false → lt_bytes t s ≡ false → s ≡ t
unfolding lt_bytes
lt_bytes_antisym [] [] h k = refl
lt_bytes_antisym [] (d ∷ t) h k = absurd (ground arith)
lt_bytes_antisym (c ∷ s) [] h k = absurd (ground arith)
lt_bytes_antisym (c ∷ s) (d ∷ t) h k =
    ap₂ ◌∷◌ (ground arith) (lt_bytes_antisym s t (ground arith) (ground arith))

-- The names that are left out are in lower case.
lower_pseudo : (k : Bytes) → is_request_pseudo k ≡ true → inp_strlower k ≡ k
unfolding is_request_pseudo inp_strlower
lower_pseudo k h = elim (Bool-cases (eq_bytes k path_header)) [
  | inl e ↦ same path_header e refl
  | inr not_path ↦ elim (Bool-cases (eq_bytes k scheme_header)) [
    | inl e ↦ same scheme_header e refl
    | inr not_scheme ↦ elim (Bool-cases (eq_bytes k authority_header)) [
      | inl e ↦ same authority_header e refl
      | inr not_authority ↦ same method_header (ground arith) refl
    ]
  ]
]
  where
    same : (name : Bytes) → eq_bytes k name ≡ true → inp_strlower name ≡ name → inp_strlower k ≡ k
    same name e l = subst (λ n. inp_strlower n ≡ n) (sym (eq_bytes→eq k name e)) l

-- A name that is none of those in any case is equivalent to none of them.
plain_key :
    (name k : Bytes)
    → is_request_pseudo (inp_strlower name) ≡ false
    → equiv ci_less k name ≡ true
    → is_request_pseudo k ≡ false
plain_key name k p h = elim (Bool-cases (is_request_pseudo k)) [
  | inr plain ↦ plain
  | inl pseudo ↦
      let same =
        lt_bytes_antisym (inp_strlower k) (inp_strlower name) (ground arith) (ground arith) in
      absurd
        (true≢false (sym pseudo ∙ ap is_request_pseudo (sym (lower_pseudo k pseudo) ∙ same) ∙ p))
]

module _ (name : Bytes) (p : is_request_pseudo (inp_strlower name) ≡ false) where
  map_find-own_headers :
      (hs : HeaderMap) → map_find ci_less name (own_headers hs) ≡ map_find ci_less name hs
  unfolding own_headers map_find
  map_find-own_headers [] = refl
  map_find-own_headers ((k, v) ∷ hs) = elim (Bool-cases (equiv ci_less k name)) [
    | inl same ↦ rw (plain_key name k p same, same) refl
    | inr other ↦ elim (Bool-cases (is_request_pseudo k)) [
      | inl pseudo ↦ rw (pseudo, other) (map_find-own_headers hs)
      | inr plain ↦ rw (plain, other) (map_find-own_headers hs)
    ]
  ]

  has_header-equiv :
      (own : HeaderMap) (k : Bytes)
      → equiv ci_less k name ≡ true
      → has_header own k ≡ has_header own name
  unfolding has_header
  has_header-equiv own k h =
      ap (λ o. elim o [ none ↦ false | some v ↦ true ])
        (map_find-equiv ci_less ci_less-IsStrictWeak name k own h)

  map_find-configured_headers :
      (own hs : HeaderMap)
      → map_find ci_less name (configured_headers own hs)
        ≡ (if has_header own name then none else map_find ci_less name hs)
  unfolding configured_headers map_find
  map_find-configured_headers own [] = ground arith
  map_find-configured_headers own ((k, v) ∷ hs) = elim (Bool-cases (equiv ci_less k name)) [
    | inl same ↦ elim (Bool-cases (has_header own name)) [
      | inl there ↦
          rw (has_header-equiv own k same, there)
            (map_find-configured_headers own hs ∙ rw there refl)
      | inr missing ↦ rw (has_header-equiv own k same, missing, plain_key name k p same, same) refl
    ]
    | inr other ↦ elim (Bool-cases (has_header own k)) [
      | inl there ↦ rw (there, other) (map_find-configured_headers own hs)
      | inr missing ↦ elim (Bool-cases (is_request_pseudo k)) [
        | inl pseudo ↦ rw (missing, pseudo, other) (map_find-configured_headers own hs)
        | inr plain ↦ rw (missing, plain, other) (map_find-configured_headers own hs)
      ]
    ]
  ]

  map_find-append :
      (hs ks : HeaderMap)
      → map_find ci_less name (hs ++ ks)
        ≡ elim (map_find ci_less name hs) [ none ↦ map_find ci_less name ks | some v ↦ some v ]
  unfolding map_find
  map_find-append [] ks = refl
  map_find-append ((k, v) ∷ hs) ks = ground (arith, map_find-append hs ks)

  first_or :
      (o there : Option Bytes)
      → elim (if (elim o [ none ↦ false | some v ↦ true ]) then none else there) [
        | none ↦ o
        | some v ↦ some v
      ]
        ≡ elim o [ none ↦ there | some v ↦ some v ]
  first_or none none = refl
  first_or none (some v) = refl
  first_or (some u) there = refl

  -- Of a name that is no pseudo header in any case, the value that is sent is the request's own, and
  -- the configured one where the request has none.
  pub map_find-sent_headers :
      (r : RequestData)
      → map_find ci_less name (sent_headers r)
        ≡ elim (map_find ci_less name r.req_headers_of_individual) [
          | none ↦ map_find ci_less name r.req_headers_from_config
          | some v ↦ some v
        ]
  unfolding sent_headers has_header
  map_find-sent_headers r =
      let own = r.req_headers_of_individual in
      let there = map_find ci_less name r.req_headers_from_config in
      map_find-append (configured_headers own r.req_headers_from_config) (own_headers own)
      ∙ ap₂ (λ (o o' : Option Bytes). elim o [ none ↦ o' | some v ↦ some v ])
          (map_find-configured_headers own r.req_headers_from_config) (map_find-own_headers own)
      ∙ first_or (map_find ci_less name own) there
