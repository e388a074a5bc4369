-- ===== src/Mock/Request/Order.antt =====
-- `operator<` of the requests, by which the server's map of services is kept.
use h2loadrunner.Base.{
  ℕ, List, [], map, reverse, length-reverse, arith, IsStrictWeak, list_lt_irrefl, list_lt_trans,
  list_lt_co_trans,
}
use h2loadrunner.Base.Ordered.{IsSorted, set_insert_all, set_insert_all-IsSorted}
use h2loadrunner.Mock.Rule.{MatchRule, rule_lt, header_rule, payload_rule}
use h2loadrunner.Mock.Rule.Order.{rule_lt-IsStrictWeak}
use h2loadrunner.Mock.Config.{SchemaRequestMatch}
use h2loadrunner.Mock.Request.{request_lt, new_request}

-- `operator<` of `H2Server_Request` is a strict weak order.
pub request_lt-IsStrictWeak : IsStrictWeak request_lt
unfolding request_lt
request_lt-IsStrictWeak = record {
  irrefl = λ a. ground (arith, list_lt_irrefl rule_lt w (reverse a.match_rules));
  trans = λ a b c h k. ground (
    arith,
    list_lt_trans rule_lt w (reverse a.match_rules) (reverse b.match_rules) (reverse c.match_rules),
  );
  co_trans = λ a b c h k. ground (
    arith,
    length-reverse a.match_rules,
    length-reverse b.match_rules,
    length-reverse c.match_rules,
    list_lt_co_trans rule_lt w (reverse a.match_rules) (reverse b.match_rules)
        (reverse c.match_rules),
  );
}
  where
    w : IsStrictWeak rule_lt
    w = rule_lt-IsStrictWeak

-- The rules of a request that the constructor made are in order, without equivalents.
pub new_request-IsSorted :
    (s : SchemaRequestMatch) (index : ℕ) → IsSorted rule_lt (new_request s index).match_rules
unfolding new_request
new_request-IsSorted s index =
    let headers : List MatchRule = map header_rule s.header_match in
    set_insert_all-IsSorted rule_lt rule_lt-IsStrictWeak (map payload_rule s.payload_match)
      (set_insert_all rule_lt headers [])
      (set_insert_all-IsSorted rule_lt rule_lt-IsStrictWeak headers [] tt)
