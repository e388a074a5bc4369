-- ===== src/Mock/Services/Matched.antt =====
-- The service that a request finds: the first one, from the greatest down, whose rules all hold.
use h2loadrunner.Base.{
  ◌≡◌, refl, if◌then◌else◌, Bool, true, false, Option, none, some, List, [], ◌∷◌, reverse, Outcome,
  ok, stop, ◌>>=◌, All, All-reverse,
}
use h2loadrunner.Base.Ordered.{equiv}
use h2loadrunner.Text.{Bytes}
use h2loadrunner.Mock.Json.{Json}
use h2loadrunner.Mock.Message.{H2ServerRequestMessage, AsioServerRequest, request_message}
use h2loadrunner.Mock.Rule.{MatchRule, Regex, rule_lt}
use h2loadrunner.Mock.Rule.Cache.{
  rule_outcome-congr, IsCoherent, IdsAgree, Follows, SameTest, request_message-IsCoherent,
}
use h2loadrunner.Mock.Request.{match_request}
use h2loadrunner.Mock.Request.Rules.{rules_outcome, match_request-Follows}
use h2loadrunner.Mock.Services.{
  H2ServerService, all_rules, build_match_rule_unique_id, matched_loop, get_matched_request,
}
use h2loadrunner.Mock.Services.Ids.{Among, unique_id_iff, all_rules-Among}

-- Equivalent rules test the same: no two different rules collide.
abbrev pub NoCollision : List MatchRule → Type 0
NoCollision rules =
    (r s : MatchRule) → Among rules r → Among rules s → equiv rule_lt r s ≡ true → SameTest r s

reversed_rules :
    (P : MatchRule → Type 0) (ss : List H2ServerService)
    → All (λ (s : H2ServerService). All P s.request.match_rules) ss
    → All (λ (s : H2ServerService). All P (reverse s.request.match_rules)) ss
reversed_rules P [] h = tt
reversed_rules P (s ∷ ss) h = (All-reverse P s.request.match_rules h.0, reversed_rules P ss h.1)

module _ (re : Regex) {Value : Type 0} (j : Json Value) where
  -- The first service of the list whose rules all hold, each tried on the message as it came.
  pub first_service :
      List H2ServerService → List (Bytes × Bytes) → Bytes → Outcome (Option H2ServerService)
  first_service [] headers raw = ok none
  first_service (s ∷ ss) headers raw =
      rules_outcome re j (reverse s.request.match_rules) headers raw >>= λ b.
      if b then ok (some s) else first_service ss headers raw

  module _ (headers : List (Bytes × Bytes)) (raw : Bytes) (Known : MatchRule → Type 0) where
    -- A search has found the service, and left the message coherent.
    abbrev pub Finds :
        Outcome (Option H2ServerService)
        → Outcome (Option H2ServerService × H2ServerRequestMessage Value)
        → Type 0
    Finds e (ok (s, m)) = (e ≡ ok s) × IsCoherent re j headers raw Known m
    Finds e (stop s) = e ≡ stop s

    step-Finds :
        (s : H2ServerService) (ss : List H2ServerService) (e : Outcome Bool)
        (x : Outcome (Bool × H2ServerRequestMessage Value))
        → ((m : H2ServerRequestMessage Value)
            → IsCoherent re j headers raw Known m
            → Finds (first_service ss headers raw) (matched_loop re j ss m))
        → Follows re j headers raw Known e x
        → Finds
            (e >>= λ b. if b then ok (some s) else first_service ss headers raw)
            (x >>= λ (b, m). if b then ok (some s, m) else matched_loop re j ss m)
    step-Finds s ss e (ok (true, m)) rest (q, c) = rw q (refl, c)
    step-Finds s ss e (ok (false, m)) rest (q, c) = rw q (rest m c)
    step-Finds s ss e (stop x) rest q = rw q

    matched_loop-Finds :
        IdsAgree re j headers raw Known
        → (ss : List H2ServerService) (m : H2ServerRequestMessage Value)
        → All (λ (s : H2ServerService). All Known (reverse s.request.match_rules)) ss
        → IsCoherent re j headers raw Known m
        → Finds (first_service ss headers raw) (matched_loop re j ss m)
    unfolding matched_loop first_service
    matched_loop-Finds agree [] m k c = (refl, c)
    matched_loop-Finds agree (s ∷ ss) m k c =
        step-Finds s ss (rules_outcome re j (reverse s.request.match_rules) headers raw)
          (match_request re j s.request m) (λ m' c'. matched_loop-Finds agree ss m' k.1 c')
          (match_request-Follows re j headers raw Known agree s.request m k.0 c)

  -- The server with its identifiers built finds, for a request that has just come, the greatest service
  -- whose rules all hold of it, if no two of its rules collide: the remembered results change nothing.
  pub get_matched_request-Finds :
      (ss : List H2ServerService) (req : AsioServerRequest)
      → NoCollision (all_rules (build_match_rule_unique_id ss))
      → let services = build_match_rule_unique_id ss in
        let m : H2ServerRequestMessage Value = request_message req in
        Finds m.headers m.raw_payload
          (Among (all_rules services))
          (first_service (reverse services) m.headers m.raw_payload)
          (get_matched_request re j services m)
  unfolding get_matched_request
  get_matched_request-Finds ss req distinct =
      matched_loop-Finds m.headers m.raw_payload Known agree (reverse services) m
        (All-reverse (λ (s : H2ServerService). All Known (reverse s.request.match_rules)) services
          (reversed_rules Known services (all_rules-Among Known services (λ r k. k))))
        (request_message-IsCoherent re j req Known)
    where
      services : List H2ServerService
      services = build_match_rule_unique_id ss

      m : H2ServerRequestMessage Value
      m = request_message req

      Known : MatchRule → Type 0
      Known = Among (all_rules services)

      agree : IdsAgree re j m.headers m.raw_payload Known
      agree r s k l e =
          rule_outcome-congr re j r s m.headers m.raw_payload
            (distinct r s k l ((unique_id_iff ss r s k l).0 e))
