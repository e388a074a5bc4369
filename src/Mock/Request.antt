-- ===== src/Mock/Request.antt =====
-- `H2Server_Request` of H2Server_Request.h: a conjunction of rules, tried from the greatest one down.
pub mod Order
pub mod Rules
use h2loadrunner.Base.{
  ℕ, ltb, if◌then◌else◌, Bool, true, false, List, [], ◌∷◌, map, reverse, length, Outcome, ok, ◌>>=◌,
  list_lt,
}
use h2loadrunner.Base.Ordered.{set_insert_all}
use h2loadrunner.Text.{Bytes}
use h2loadrunner.Mock.Json.{Json}
use h2loadrunner.Mock.Config.{SchemaRequestMatch}
use h2loadrunner.Mock.Message.{H2ServerRequestMessage}
use h2loadrunner.Mock.Rule.{MatchRule, Regex, header_rule, payload_rule, rule_lt, match_rule}

-- `match_rules` is a `std::set`: a list in the order of the rules, without equivalents.
pub record H2ServerRequest : Type 0 where
  pub match_rules : List MatchRule
  pub name : Bytes
  pub request_index : ℕ

unfoldable pub new_request : SchemaRequestMatch → ℕ → H2ServerRequest
unfolding set_insert_all header_rule payload_rule rule_lt
new_request s index = record {
  match_rules =
      set_insert_all rule_lt (map payload_rule s.payload_match)
        (set_insert_all rule_lt (map header_rule s.header_match) []);
  name = s.name;
  request_index = index;
}

-- `operator<`: fewer rules come first, then the rules are compared from the greatest one down.
unfoldable pub request_lt : H2ServerRequest → H2ServerRequest → Bool
unfolding list_lt rule_lt
request_lt a b =
    if ltb (length a.match_rules) (length b.match_rules)
    then true
    else if ltb (length b.match_rules) (length a.match_rules)
    then false
    else list_lt rule_lt (reverse a.match_rules) (reverse b.match_rules)

module _ (re : Regex) {Value : Type 0} (j : Json Value) where
  -- The loop over the rules; it returns at the first that fails.
  match_loop :
      List MatchRule → H2ServerRequestMessage Value → Outcome (Bool × H2ServerRequestMessage Value)
  match_loop [] m = ok (true, m)
  match_loop (r ∷ rs) m =
      match_rule re j r m >>= λ (b, m'). if b then match_loop rs m' else ok (false, m')

  -- `match(request)`.
  pub match_request :
      H2ServerRequest → H2ServerRequestMessage Value → Outcome (Bool × H2ServerRequestMessage Value)
  match_request r m = match_loop (reverse r.match_rules) m
