-- ===== src/Mock/Request/Rules.antt =====
-- A request matches exactly if all its rules hold of the message as it came.
use h2loadrunner.Base.{
  refl, if◌then◌else◌, Bool, true, false, List, [], ◌∷◌, reverse, Outcome, ok, stop, ◌>>=◌, All,
}
use h2loadrunner.Text.{Bytes}
use h2loadrunner.Mock.Json.{Json}
use h2loadrunner.Mock.Message.{H2ServerRequestMessage}
use h2loadrunner.Mock.Rule.{MatchRule, Regex, match_rule}
use h2loadrunner.Mock.Rule.Cache.{rule_outcome, IsCoherent, IdsAgree, Follows, match_rule-Follows}
use h2loadrunner.Mock.Request.{H2ServerRequest, match_loop, match_request}

module _ (re : Regex) {Value : Type 0} (j : Json Value) where
  -- All rules hold, tried in the order of the list; the first that does not decides.
  pub rules_outcome : List MatchRule → List (Bytes × Bytes) → Bytes → Outcome Bool
  rules_outcome [] headers raw = ok true
  rules_outcome (r ∷ rs) headers raw =
      rule_outcome re j r headers raw >>= λ b. if b then rules_outcome rs headers raw else ok false

  module _ (headers : List (Bytes × Bytes)) (raw : Bytes) (Known : MatchRule → Type 0) where
    step-Follows :
        (rs : List MatchRule) (e : Outcome Bool) (x : Outcome (Bool × H2ServerRequestMessage Value))
        → ((m : H2ServerRequestMessage Value)
            → IsCoherent re j headers raw Known m
            → Follows re j headers raw Known (rules_outcome rs headers raw) (match_loop re j rs m))
        → Follows re j headers raw Known e x
        → Follows re j headers raw Known
            (e >>= λ b. if b then rules_outcome rs headers raw else ok false)
            (x >>= λ (b, m). if b then match_loop re j rs m else ok (false, m))
    step-Follows rs e (ok (true, m)) rest (q, c) = rw q (rest m c)
    step-Follows rs e (ok (false, m)) rest (q, c) = rw q (refl, c)
    step-Follows rs e (stop s) rest q = rw q

    match_loop-Follows :
        IdsAgree re j headers raw Known
        → (rs : List MatchRule) (m : H2ServerRequestMessage Value) → All Known rs
        → IsCoherent re j headers raw Known m
        → Follows re j headers raw Known (rules_outcome rs headers raw) (match_loop re j rs m)
    unfolding match_loop rules_outcome
    match_loop-Follows agree [] m k c = (refl, c)
    match_loop-Follows agree (r ∷ rs) m k c =
        step-Follows rs (rule_outcome re j r headers raw) (match_rule re j r m)
          (λ m' c'. match_loop-Follows agree rs m' k.1 c')
          (match_rule-Follows re j headers raw Known agree r m k.0 c)

    -- A request of known rules has the outcome of its rules on the message that came, from the greatest
    -- rule down, and leaves the message coherent for the next request.
    pub match_request-Follows :
        IdsAgree re j headers raw Known
        → (r : H2ServerRequest) (m : H2ServerRequestMessage Value)
        → All Known (reverse r.match_rules)
        → IsCoherent re j headers raw Known m
        → Follows re j headers raw Known
            (rules_outcome (reverse r.match_rules) headers raw)
            (match_request re j r m)
    unfolding match_request
    match_request-Follows agree r m k c = match_loop-Follows agree (reverse r.match_rules) m k c
