-- ===== src/Mock/Rule.antt =====
-- `Match_Rule` of H2Server_Request.h: a test on a header or on the payload of a request.
pub mod Order
pub mod Verbs
pub mod Cache
use h2loadrunner.Base.{
  ℕ, zero, suc, ◌+◌, ◌-◌, ◌==◌, leb, if◌then◌else◌, Bool, true, false, not, ◌&&◌, Option, none,
  some, List, [], ◌∷◌, ◌++◌, length, drop, Outcome, ok, stop, aborts, or_stop, map_ok, ◌>>=◌,
  top_last,
}
use h2loadrunner.Text.{Bytes, codes, is_empty, eq_bytes, lt_bytes, find, substr}
use h2loadrunner.Mock.Json.{Json, get_value_from_json_ptr}
use h2loadrunner.Mock.Config.{SchemaHeaderMatch, SchemaPayloadMatch}
use h2loadrunner.Mock.Message.{H2ServerRequestMessage, equal_range, decode_json_if_not_yet, cached}

pub data MatchType : Type 0 where
  equals_to start_with end_with contains regex_match : MatchType

-- The regular expression is compiled from `object`, so it is no field of its own. `unique_id` is
-- written by the server before a rule is used.
pub record MatchRule : Type 0 where
  pub match_type : MatchType
  pub header_name : Bytes
  pub json_pointer : Bytes
  pub object : Bytes
  pub unique_id : ℕ

-- `operator[]` of the map makes the first enumerator for a name that is not in it.
unfoldable pub string_to_match_type : Bytes → MatchType
string_to_match_type s =
    if eq_bytes s (codes "StartsWith")
    then start_with
    else if eq_bytes s (codes "EndsWith")
    then end_with
    else if eq_bytes s (codes "Contains")
    then contains
    else if eq_bytes s (codes "RegexMatch")
    then regex_match
    else equals_to

unfoldable pub header_rule : SchemaHeaderMatch → MatchRule
unfolding string_to_match_type eq_bytes
header_rule h = record {
  match_type = string_to_match_type h.match_type;
  header_name = h.header;
  json_pointer = [];
  object = h.input;
  unique_id = 0;
}

unfoldable pub payload_rule : SchemaPayloadMatch → MatchRule
unfolding string_to_match_type eq_bytes
payload_rule p = record {
  match_type = string_to_match_type p.match_type;
  header_name = [];
  json_pointer = p.json_pointer;
  object = p.input;
  unique_id = 0;
}

-- The value of the enumerator.
abbrev enum_value : MatchType → ℕ
enum_value equals_to = 0
enum_value start_with = 1
enum_value end_with = 2
enum_value contains = 3
enum_value regex_match = 4

abbrev is_equals_to : MatchType → Bool
is_equals_to t = enum_value t == 0

-- The match type as a digit, and the three texts behind it with nothing between them.
abbrev order_key : MatchRule → Bytes
order_key r = (b'0' + enum_value r.match_type) ∷ (r.header_name ++ (r.json_pointer ++ r.object))

-- `operator<`: rules on headers stand above rules on the payload, and exact rules above the others.
unfoldable pub rule_lt : MatchRule → MatchRule → Bool
unfolding lt_bytes
rule_lt a b =
    if not (is_empty a.header_name) && is_empty b.header_name
    then false
    else if is_empty a.header_name && not (is_empty b.header_name)
    then true
    else if is_equals_to a.match_type && not (is_equals_to b.match_type)
    then false
    else if is_equals_to b.match_type && not (is_equals_to a.match_type)
    then true
    else lt_bytes (order_key a) (order_key b)

-- `std::regex`: whether a text matches the expression made from another as a whole, and the first
-- part of it that matches. An invalid expression is as the default-constructed one.
pub record Regex : Type 0 where
  pub full : Bytes → Bytes → Bool
  pub search : Bytes → Bytes → Option Bytes

abbrev is_some {ℓ} : {A : Type ℓ} → Option A → Bool
is_some none = false
is_some (some a) = true

abbrev is_zero_pos : Option ℕ → Bool
is_zero_pos none = false
is_zero_pos (some n) = n == 0

-- `match_result[unique_id] = matched`.
remember :
    {Value : Type 0}
    → MatchRule
    → Bool × H2ServerRequestMessage Value
    → Bool × H2ServerRequestMessage Value
remember r (b, m) = (b, record m { match_result = (r.unique_id, b) ∷ m.match_result })

module _ (re : Regex) where
  -- `match(subject, verb, object)`.
  unfoldable pub match_text : Bytes → MatchType → Bytes → Bool
  unfolding eq_bytes find
  match_text subject equals_to object = eq_bytes subject object
  match_text subject start_with object = is_zero_pos (find subject object)
  match_text subject end_with object =
      leb (length object) (length subject)
      && eq_bytes (substr subject (length subject - length object) (length object)) object
  match_text subject contains object = is_some (find subject object)
  match_text subject regex_match object = re.full object subject

  -- The loop over the values of the header: it breaks at the first that matches.
  match_any : MatchType → Bytes → List Bytes → Bool
  match_any verb object [] = false
  match_any verb object (v ∷ vs) =
      if match_text v verb object then true else match_any verb object vs

  module _ {Value : Type 0} (j : Json Value) where
    -- The test on a decoded document.
    unfoldable pub match_json_doc : MatchRule → Option Value → Outcome Bool
    match_json_doc r d = or_stop d aborts >>= λ doc.
        map_ok (λ s. match_text s r.match_type r.object)
          (get_value_from_json_ptr j doc r.json_pointer)

    -- The branch that is taken where the result is not known yet.
    evaluate :
        MatchRule → H2ServerRequestMessage Value → Outcome (Bool × H2ServerRequestMessage Value)
    evaluate r m =
        if not (is_empty r.header_name)
        then ok (match_any r.match_type r.object (equal_range r.header_name m.headers), m)
        else if not (is_empty r.json_pointer)
        then map_ok (λ b. (b, decode_json_if_not_yet j m))
            (match_json_doc r (decode_json_if_not_yet j m).json_payload)
        else ok (match_text m.raw_payload r.match_type r.object, m)

    -- `match(request)`.
    pub match_rule :
        MatchRule → H2ServerRequestMessage Value → Outcome (Bool × H2ServerRequestMessage Value)
    match_rule r m = elim (cached r.unique_id m.match_result) [
      | some b ↦ ok (b, m)
      | none ↦ map_ok (remember r) (evaluate r m)
    ]
