-- ===== src/Tests/Mock.antt =====
-- The mock server.
use h2loadrunner.Base.{
  ℕ, ◌≡◌, ◌↔◌, refl, sym, ap₂, ◌∙◌, subst, true, false, none, some, List, [], ◌∷◌, reverse, arith,
  inl, inr, ok, map_ok, ◌==◌,
}
use mathlib.Core.Bool.{false≢true}
use h2loadrunner.Base.Ordered.{equiv, set_insert, IsSorted}
use h2loadrunner.Text.{Bytes, codes}
use h2loadrunner.Text.Tokenize.{tokenize_string}
use h2loadrunner.Text.Decimal.{pos, negsuc}
use h2loadrunner.Mock.Json.{Json, split_complex_json_pointer}
use h2loadrunner.Mock.Json.Pieces.{concat, concat-split_complex_json_pointer}
use h2loadrunner.Mock.Config.{SchemaResponseToReturn, SchemaRequestMatch}
use h2loadrunner.Mock.Message.{H2ServerRequestMessage, AsioServerRequest, request_message}
use h2loadrunner.Mock.Rule.{MatchRule, equals_to, start_with, Regex, rule_lt}
use h2loadrunner.Mock.Rule.Cache.{SameTest}
use h2loadrunner.Mock.Rule.Order.{on_header, rule_lt_collision}
use h2loadrunner.Mock.Request.{new_request}
use h2loadrunner.Mock.Request.Order.{new_request-IsSorted}
use h2loadrunner.Mock.Argument.{Surroundings, val_invalid, new_argument}
use h2loadrunner.Mock.Response.{H2ServerResponse, new_response, produce_payload}
use h2loadrunner.Mock.Response.Fill.{fill, filled, replicate_for, values, produce_payload-values}
use h2loadrunner.Mock.Group.{select_response, total_weight}
use h2loadrunner.Mock.Group.Draw.{owner, select_response-owner}
use h2loadrunner.Mock.Group.Shares.{count_below, weight_at, count_below-select_response}
use h2loadrunner.Mock.Services.{
  H2ServerService, all_rules, build_match_rule_unique_id, get_matched_request,
}
use h2loadrunner.Mock.Services.Ids.{Among, unique_id_iff}
use h2loadrunner.Mock.Services.Matched.{
  NoCollision, Finds, first_service, get_matched_request-Finds,
}

-- No expression matches, and no document has any content.
abbrev no_regex : Regex
no_regex = record { full = λ p s. false; search = λ p s. none }

abbrev no_json : Json Bytes
no_json = record {
  parse = λ s. s;
  members = λ v. none;
  get = λ p v. none;
  as_string = λ v. some v;
  as_bool = λ v. none;
  as_uint64 = λ v. none;
  as_double = λ v. none;
  as_object = λ v. none;
}

abbrev three_weights : List ℕ
three_weights = 2 ∷ 0 ∷ 3 ∷ []

select_response_run : select_response three_weights 1 ≡ 0
unfolding select_response
select_response_run = refl

select_response-owner_example : select_response three_weights 3 ≡ owner three_weights 3
select_response-owner_example = select_response-owner three_weights 3 (omega arith) (omega arith)

count_below-select_response_example :
    count_below (total_weight three_weights) (λ r. select_response three_weights r == 2)
    ≡ weight_at three_weights 2
count_below-select_response_example =
    count_below-select_response three_weights 2 (omega arith) (omega arith)

abbrev long_pointer : Bytes
long_pointer = codes "/a/~#1#value/b/~#-1#name"

split_complex_json_pointer_run :
    split_complex_json_pointer long_pointer
    ≡ codes "/a" ∷ codes "/~#1#value" ∷ codes "/b" ∷ codes "/~#-1#name" ∷ []
unfolding split_complex_json_pointer
split_complex_json_pointer_run = refl

concat-split_complex_json_pointer_example :
    concat (split_complex_json_pointer long_pointer) ≡ long_pointer
concat-split_complex_json_pointer_example = concat-split_complex_json_pointer long_pointer

two-IsSorted : IsSorted rule_lt (
    on_header equals_to (codes "aa") (codes "c") 2
    ∷ on_header equals_to (codes "ab") (codes "c") 0
    ∷ [])
unfolding rule_lt
two-IsSorted = ((refl, tt), (tt, tt))

rule_lt_collision_example :
    (equiv rule_lt
        (on_header equals_to (codes "ab") (codes "c") 0)
        (on_header equals_to (codes "a") (codes "bc") 1)
      ≡ true)
    × (set_insert rule_lt (on_header equals_to (codes "a") (codes "bc") 1) (
          on_header equals_to (codes "aa") (codes "c") 2
          ∷ on_header equals_to (codes "ab") (codes "c") 0
          ∷ [])
        ≡ on_header equals_to (codes "aa") (codes "c") 2
          ∷ on_header equals_to (codes "ab") (codes "c") 0
          ∷ [])
rule_lt_collision_example =
    rule_lt_collision equals_to (codes "a") b'b' (codes "c") 0 1
      (on_header equals_to (codes "aa") (codes "c") 2 ∷ []) [] (λ e. cc) two-IsSorted

abbrev greeting : SchemaResponseToReturn
greeting = record {
  status_code = 200;
  throttle_positive = false;
  scaled_throttle_ratio = 0;
  payload = record {
    msg_payload = codes "hello $!";
    placeholder = codes "$";
    arguments =
        record {
          type_of_value = codes "Header";
          value_identifier = codes "name";
          substring_start = pos 0;
          substring_length = negsuc 0;
          regex = [];
        }
        ∷ [];
  };
  additonal_headers = [];
  weight = 1;
  name = codes "greeting";
}

-- The payload tokens and the argument that the constructor makes of `greeting`.
abbrev greeting_response : H2ServerResponse
greeting_response = record {
  status_code = 200;
  additonal_headers = [];
  tokenized_payload = codes "hello " ∷ codes "!" ∷ [];
  payload_arguments =
      record {
        json_pointer = [];
        substring_start = pos 0;
        substring_length = negsuc 0;
        header_name = codes "name";
        regex = [];
        regex_present = false;
        val_type = val_invalid;
      }
      ∷ [];
  throttle_positive = false;
  scaled_throttle_ratio = 0;
  name = codes "greeting";
  weight = 1;
  response_index = 0;
}

greeting_built : new_response greeting 0 ≡ ok greeting_response
unfolding new_response tokenize_string new_argument
greeting_built = refl

abbrev some_request : AsioServerRequest
some_request = record {
  path = codes "/a";
  raw_query = [];
  scheme = codes "http";
  host = codes "h";
  method = codes "GET";
  header = (codes "name", codes "you") ∷ [];
  unmutable_payload = [];
}

abbrev no_surroundings : Surroundings
no_surroundings = record { timestamp = []; random_hex = []; uuid = [] }

produce_payload-values_example :
    (produce_payload no_regex no_surroundings no_json greeting_response
        (request_message some_request)
      ≡ map_ok (filled no_regex no_surroundings no_json [] (codes "hello " ∷ codes "!" ∷ [])) (
          values no_regex no_surroundings no_json greeting_response.payload_arguments
            (request_message some_request)))
    × (fill
          (codes "hello " ∷ codes "!" ∷ [])
          (replicate_for greeting_response.payload_arguments (codes "$"))
        ≡ codes "hello $!")
produce_payload-values_example =
    produce_payload-values no_regex no_surroundings no_json greeting 0 greeting_response
      (request_message some_request) greeting_built

abbrev on_path : SchemaRequestMatch
on_path = record {
  header_match =
      record { match_type = codes "StartsWith"; header = codes ":path"; input = codes "/" }
      ∷ record { match_type = codes "EqualsTo"; header = codes ":method"; input = codes "GET" }
      ∷ [];
  payload_match = [];
  name = codes "any";
}

new_request-IsSorted_example : IsSorted rule_lt (new_request on_path 0).match_rules
new_request-IsSorted_example = new_request-IsSorted on_path 0

-- Two services: one for the path "/a", and one for every path.
abbrev exact_rule : ℕ → MatchRule
exact_rule = on_header equals_to (codes ":path") (codes "/a")

abbrev prefix_rule : ℕ → MatchRule
prefix_rule = on_header start_with (codes ":path") (codes "/")

abbrev service_of : MatchRule → ℕ → H2ServerService
service_of r index = record {
  request = record { match_rules = r ∷ []; name = []; request_index = index };
  responses = [];
}

abbrev two_services : List H2ServerService
two_services = service_of (exact_rule 0) 0 ∷ service_of (prefix_rule 0) 1 ∷ []

built_rules :
    all_rules (build_match_rule_unique_id two_services) ≡ prefix_rule 0 ∷ exact_rule 1 ∷ []
unfolding build_match_rule_unique_id
built_rules = refl

two_rules_apart :
    (equiv rule_lt (prefix_rule 0) (exact_rule 1) ≡ false)
    × (equiv rule_lt (exact_rule 1) (prefix_rule 0) ≡ false)
unfolding rule_lt
two_rules_apart = (refl, refl)

SameTest-of_eq : (r s : MatchRule) → r ≡ s → SameTest r s
SameTest-of_eq r s e =
    subst (SameTest r) e
      (record { same_type = refl; same_header = refl; same_pointer = refl; same_object = refl })

apart :
    (a b r s : MatchRule)
    → equiv rule_lt a b ≡ false
    → a ≡ r
    → b ≡ s
    → equiv rule_lt r s ≡ true
    → SameTest r s
apart a b r s h e f g = absurd (false≢true (sym h ∙ ap₂ (equiv rule_lt) e f ∙ g))

NoCollision-pair :
    (a b : MatchRule)
    → equiv rule_lt a b ≡ false
    → equiv rule_lt b a ≡ false
    → NoCollision (a ∷ b ∷ [])
NoCollision-pair a b h k r s (inl e) (inl f) g = SameTest-of_eq r s (sym e ∙ f)
NoCollision-pair a b h k r s (inl e) (inr (inl f)) g = apart a b r s h e f g
NoCollision-pair a b h k r s (inr (inl e)) (inl f) g = apart b a r s k e f g
NoCollision-pair a b h k r s (inr (inl e)) (inr (inl f)) g = SameTest-of_eq r s (sym e ∙ f)
NoCollision-pair a b h k r s (inl e) (inr (inr f)) g = absurd f
NoCollision-pair a b h k r s (inr (inl e)) (inr (inr f)) g = absurd f
NoCollision-pair a b h k r s (inr (inr e)) m g = absurd e

two_services-NoCollision : NoCollision (all_rules (build_match_rule_unique_id two_services))
two_services-NoCollision = rw built_rules (NoCollision-pair _ _ two_rules_apart.0 two_rules_apart.1)

get_matched_request-Finds_example :
    let services = build_match_rule_unique_id two_services in
    let m : H2ServerRequestMessage Bytes = request_message some_request in
    Finds no_regex no_json m.headers m.raw_payload
      (Among (all_rules services))
      (first_service no_regex no_json (reverse services) m.headers m.raw_payload)
      (get_matched_request no_regex no_json services m)
get_matched_request-Finds_example =
    get_matched_request-Finds no_regex no_json two_services some_request two_services-NoCollision

unique_id_iff_example :
    ((prefix_rule 0).unique_id ≡ (exact_rule 1).unique_id)
    ↔ (equiv rule_lt (prefix_rule 0) (exact_rule 1) ≡ true)
unique_id_iff_example =
    unique_id_iff two_services (prefix_rule 0) (exact_rule 1) (rw built_rules (inl refl))
      (rw built_rules (inr (inl refl)))
