-- ===== src/Mock/Rule/Cache.antt =====
-- The results that a message remembers and its late decoding change nothing: a rule matches as if it
-- were evaluated afresh on the message as it came.
use h2loadrunner.Base.{
  ◌≡◌, refl, sym, ap, ◌∙◌, ◌==◌, ==→eq, if◌then◌else◌, Bool, not, none, some, List, arith, Outcome,
  ok, stop, map_ok, Option-cases, Bool-cases, ◌⊎◌, inl, inr,
}
use h2loadrunner.Text.{Bytes, is_empty, c_str}
use h2loadrunner.Mock.Json.{Json}
use h2loadrunner.Mock.Message.{
  H2ServerRequestMessage, AsioServerRequest, request_message, equal_range, decode_json_if_not_yet,
  cached,
}
use h2loadrunner.Mock.Rule.{
  MatchRule, Regex, match_text, match_any, match_json_doc, evaluate, remember, match_rule,
}

module _ (re : Regex) {Value : Type 0} (j : Json Value) where
  -- A rule on the headers and the payload of a request, with nothing remembered.
  pub rule_outcome : MatchRule → List (Bytes × Bytes) → Bytes → Outcome Bool
  rule_outcome r headers raw =
      if not (is_empty r.header_name)
      then ok (match_any re r.match_type r.object (equal_range r.header_name headers))
      else if not (is_empty r.json_pointer)
      then match_json_doc re j r (some (j.parse (c_str raw)))
      else ok (match_text re raw r.match_type r.object)

  module _ (headers : List (Bytes × Bytes)) (raw : Bytes) (Known : MatchRule → Type 0) where
    -- The message is the one that came, decoded or not, and what it remembers is right for each
    -- known rule.
    pub record IsCoherent (m : H2ServerRequestMessage Value) : Type 0 where
      pub same_headers : m.headers ≡ headers
      pub same_payload : m.raw_payload ≡ raw
      pub decoded :
          (m.json_payload_string ≡ some raw)
          ⊎ ((m.json_payload_string ≡ none) × (m.json_payload ≡ some (j.parse (c_str raw))))
      pub right :
          (r : MatchRule) (b : Bool)
          → Known r
          → cached r.unique_id m.match_result ≡ some b
          → rule_outcome r headers raw ≡ ok b

    -- Rules of one id are indistinguishable.
    abbrev pub IdsAgree : Type 0
    IdsAgree =
        (r s : MatchRule)
        → Known r
        → Known s
        → r.unique_id ≡ s.unique_id
        → rule_outcome r headers raw ≡ rule_outcome s headers raw

    -- A run has the outcome `e`, and a message that is still coherent.
    abbrev pub Follows : Outcome Bool → Outcome (Bool × H2ServerRequestMessage Value) → Type 0
    Follows e (ok (b, m)) = (e ≡ ok b) × IsCoherent m
    Follows e (stop s) = e ≡ stop s

    decoded_value :
        (m : H2ServerRequestMessage Value)
        → IsCoherent m
        → (decode_json_if_not_yet j m).json_payload ≡ some (j.parse (c_str raw))
    unfolding decode_json_if_not_yet
    decoded_value m c = ground (arith, c.decoded)

    decode-IsCoherent :
        (m : H2ServerRequestMessage Value) → IsCoherent m → IsCoherent (decode_json_if_not_yet j m)
    unfolding decode_json_if_not_yet
    decode-IsCoherent m c = elim (Option-cases m.json_payload_string) [
      | inl e ↦ rw (e, decode_json_if_not_yet) c
      | inr (s, e) ↦
          let same : s ≡ raw = ground (arith, c.decoded) in
          rw (e, decode_json_if_not_yet, same)
            (record {
              same_headers = c.same_headers;
              same_payload = c.same_payload;
              decoded = inr (refl, refl);
              right = c.right;
            })
    ]

    map-Follows :
        (e x : Outcome Bool) (m : H2ServerRequestMessage Value)
        → e ≡ x
        → IsCoherent m
        → Follows e (map_ok (λ b. (b, m)) x)
    map-Follows e (ok b) m q c = (q, c)
    map-Follows e (stop s) m q c = q

    evaluate-Follows :
        (r : MatchRule) (m : H2ServerRequestMessage Value)
        → IsCoherent m
        → Follows (rule_outcome r headers raw) (evaluate re j r m)
    unfolding evaluate rule_outcome
    evaluate-Follows r m c = elim (Bool-cases (not (is_empty r.header_name))) [
      | inl on_header ↦ rw on_header (
        ap (λ hs. ok (match_any re r.match_type r.object (equal_range r.header_name hs)))
            (sym c.same_headers),
        c,
      )
      | inr no_header ↦ rw no_header (elim (Bool-cases (not (is_empty r.json_pointer))) [
        | inl on_json ↦ rw on_json (
            map-Follows (match_json_doc re j r (some (j.parse (c_str raw))))
              (match_json_doc re j r (decode_json_if_not_yet j m).json_payload)
              (decode_json_if_not_yet j m) (ap (match_json_doc re j r) (sym (decoded_value m c)))
              (decode-IsCoherent m c))
        | inr no_json ↦
            rw no_json
              (ap (λ s. ok (match_text re s r.match_type r.object)) (sym c.same_payload), c)
      ])
    ]

    remember-IsCoherent :
        IdsAgree
        → (r : MatchRule) (b : Bool) (m : H2ServerRequestMessage Value) → Known r
        → rule_outcome r headers raw ≡ ok b
        → IsCoherent m
        → IsCoherent (remember r (b, m)).1
    unfolding remember cached
    remember-IsCoherent agree r b m k e c = record {
      same_headers = c.same_headers;
      same_payload = c.same_payload;
      decoded = c.decoded;
      right = λ s b' k' h. elim (Bool-cases (r.unique_id == s.unique_id)) [
        | inl same ↦ agree s r k' k (sym (==→eq r.unique_id s.unique_id same)) ∙ e ∙ ground arith
        | inr apart ↦ c.right s b' k' (rw apart at h)
      ];
    }

    remember-Follows :
        IdsAgree
        → (r : MatchRule) (x : Outcome (Bool × H2ServerRequestMessage Value)) → Known r
        → Follows (rule_outcome r headers raw) x
        → Follows (rule_outcome r headers raw) (map_ok (remember r) x)
    unfolding remember
    remember-Follows agree r (ok (b, m)) k (e, c) = (e, remember-IsCoherent agree r b m k e c)
    remember-Follows agree r (stop s) k e = e

    -- A known rule matches as on the message that came, and leaves the message coherent.
    pub match_rule-Follows :
        IdsAgree
        → (r : MatchRule) (m : H2ServerRequestMessage Value) → Known r
        → IsCoherent m
        → Follows (rule_outcome r headers raw) (match_rule re j r m)
    unfolding match_rule
    match_rule-Follows agree r m k c = elim (Option-cases (cached r.unique_id m.match_result)) [
      | inl e ↦
          rw (e, match_rule)
            (remember-Follows agree r (evaluate re j r m) k (evaluate-Follows r m c))
      | inr (b, e) ↦ rw (e, match_rule) (c.right r b k e, c)
    ]

  -- A message that has just come is coherent, whatever rules are known.
  pub request_message-IsCoherent :
      (req : AsioServerRequest) (Known : MatchRule → Type 0)
      → let m : H2ServerRequestMessage Value = request_message req in
        IsCoherent m.headers m.raw_payload Known m
  unfolding request_message cached
  request_message-IsCoherent req Known = record {
    same_headers = refl;
    same_payload = refl;
    decoded = inl refl;
    right = λ r b k h. absurd (ground arith);
  }

-- The two rules test the same, whatever their identifiers.
pub record SameTest (r s : MatchRule) : Type 0 where
  pub same_type : r.match_type ≡ s.match_type
  pub same_header : r.header_name ≡ s.header_name
  pub same_pointer : r.json_pointer ≡ s.json_pointer
  pub same_object : r.object ≡ s.object

module _ (re : Regex) {Value : Type 0} (j : Json Value) where
  pub rule_outcome-congr :
      (r s : MatchRule) (headers : List (Bytes × Bytes)) (raw : Bytes)
      → SameTest r s
      → rule_outcome re j r headers raw ≡ rule_outcome re j s headers raw
  unfolding rule_outcome match_json_doc
  rule_outcome-congr r s headers raw t =
      rw (t.same_type, t.same_header, t.same_pointer, t.same_object)
