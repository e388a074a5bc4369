-- ===== src/Mock/Services.antt =====
-- `H2Server` of H2Server.h: the services in the order of their requests, the identifiers of their
-- rules, and the response to a request.
pub mod Ids
pub mod Matched
use h2loadrunner.Base.{
  ℕ, zero, suc, if◌then◌else◌, Bool, true, false, Option, none, some, List, [], ◌∷◌, ◌++◌, map,
  reverse, get_elem?, Outcome, ok, stop, ◌>>=◌, map_ok,
}
use h2loadrunner.Base.Ordered.{set_insert, set_insert_all, index_of}
use h2loadrunner.Text.Decimal.{ℤ, pos, negsuc}
use h2loadrunner.Mock.Json.{Json}
use h2loadrunner.Mock.Config.{SchemaService, SchemaResponseToReturn}
use h2loadrunner.Mock.Message.{H2ServerRequestMessage}
use h2loadrunner.Mock.Rule.{MatchRule, Regex, rule_lt}
use h2loadrunner.Mock.Request.{H2ServerRequest, new_request, request_lt, match_request}
use h2loadrunner.Mock.Response.{H2ServerResponse, new_response}
use h2loadrunner.Mock.Group.{select_response}

-- An entry of the map: a request and its group of responses.
pub record H2ServerService : Type 0 where
  pub request : H2ServerRequest
  pub responses : List H2ServerResponse

unfoldable pub service_lt : H2ServerService → H2ServerService → Bool
unfolding request_lt
service_lt a b = request_lt a.request b.request

-- The loop of `H2Server_Response_Group`'s constructor, from an index on.
new_responses : List SchemaResponseToReturn → ℕ → Outcome (List H2ServerResponse)
new_responses [] index = ok []
new_responses (s ∷ ss) index =
    new_response s index >>= λ r. map_ok (◌∷◌ r) (new_responses ss (suc index))

new_service : SchemaService → ℕ → Outcome H2ServerService
new_service s index =
    map_ok (λ rs. record { request = new_request s.request index; responses = rs })
      (new_responses s.responses 0)

-- The rules of all services, in the order in which they are visited.
abbrev pub all_rules : List H2ServerService → List MatchRule
all_rules [] = []
all_rules (s ∷ ss) = s.request.match_rules ++ all_rules ss

abbrev pub all_match_rules : List H2ServerService → List MatchRule
all_match_rules ss = set_insert_all rule_lt (all_rules ss) []

-- The position in the set of all rules.
abbrev pub assign_rule : List MatchRule → MatchRule → MatchRule
assign_rule known r = record r { unique_id = index_of rule_lt r known }

abbrev pub assign : List MatchRule → H2ServerService → H2ServerService
assign known s = record s {
  request = record s.request { match_rules = map (assign_rule known) s.request.match_rules };
}

unfoldable pub build_match_rule_unique_id : List H2ServerService → List H2ServerService
unfolding set_insert_all service_lt index_of
build_match_rule_unique_id ss = set_insert_all service_lt (map (assign (all_match_rules ss)) ss) []

-- The loop of the constructor; a service with a request that is there already is not inserted.
services_loop : List SchemaService → ℕ → List H2ServerService → Outcome (List H2ServerService)
services_loop [] index services = ok services
services_loop (s ∷ ss) index services =
    new_service s index >>= λ svc. services_loop ss (suc index) (set_insert service_lt svc services)

pub new_server : List SchemaService → Outcome (List H2ServerService)
new_server ss = map_ok build_match_rule_unique_id (services_loop ss 0 [])

abbrev weights : List H2ServerResponse → List ℕ
weights = map (λ (r : H2ServerResponse). r.weight)

-- `get_response_to_return(service, …)` with the draw: the index and the response. With no response at
-- the index, the reference is to nothing.
pub get_response_to_return : H2ServerService → ℕ → ℕ × Option H2ServerResponse
get_response_to_return s random_number =
    let index = select_response (weights s.responses) random_number in
    (index, get_elem? s.responses index)

module _ (re : Regex) {Value : Type 0} (j : Json Value) where
  -- The loop of `get_matched_request` over the services left, the greatest first.
  matched_loop :
      List H2ServerService
      → H2ServerRequestMessage Value
      → Outcome (Option H2ServerService × H2ServerRequestMessage Value)
  matched_loop [] m = ok (none, m)
  matched_loop (s ∷ ss) m = match_request re j s.request m >>= λ (b, m').
      if b then ok (some s, m') else matched_loop ss m'

  pub get_matched_request :
      List H2ServerService
      → H2ServerRequestMessage Value
      → Outcome (Option H2ServerService × H2ServerRequestMessage Value)
  get_matched_request services m = matched_loop (reverse services) m

-- `matched_request_index` after the call: -1 where nothing matched.
pub matched_request_index : Option H2ServerService → ℤ
matched_request_index none = negsuc 0
matched_request_index (some s) = pos s.request.request_index
