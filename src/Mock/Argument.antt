-- ===== src/Mock/Argument.antt =====
-- `Argument` of H2Server_Response.h: the value that replaces a placeholder of a response.
use h2loadrunner.Base.{
  ℕ, zero, suc, ltb, if◌then◌else◌, Bool, true, false, not, ◌&&◌, ◌||◌, [], ◌∷◌, take, drop, length,
  Outcome, ok, aborts, or_stop, map_ok, ◌>>=◌, or_else,
}
use h2loadrunner.Text.{Bytes, codes, is_empty, eq_bytes}
use h2loadrunner.Text.Decimal.{ℤ, pos, negsuc}
use h2loadrunner.Mock.Json.{Json, get_value_from_json_ptr}
use h2loadrunner.Mock.Config.{SchemaArgument}
use h2loadrunner.Mock.Message.{H2ServerRequestMessage, equal_range, decode_json_if_not_yet}
use h2loadrunner.Mock.Rule.{Regex}

pub data ValueType : Type 0 where
  val_invalid val_random_hex val_timestamp val_uuid val_raw_payload : ValueType

-- `reg_exp` is made from `regex`, and `regex_present` says whether that is not empty.
pub record Argument : Type 0 where
  pub json_pointer : Bytes
  pub substring_start : ℤ
  pub substring_length : ℤ
  pub header_name : Bytes
  pub regex : Bytes
  pub regex_present : Bool
  pub val_type : ValueType

-- What the environment gives at a call: the time as text, and random hexadecimal digits.
pub record Surroundings : Type 0 where
  pub timestamp : Bytes
  pub random_hex : Bytes
  pub uuid : Bytes

is_type : SchemaArgument → Bytes → Bool
unfolding eq_bytes
is_type a s = eq_bytes a.type_of_value s

val_type_of : SchemaArgument → ValueType
unfolding is_type
val_type_of a =
    if is_type a (codes "JsonPointer")
    then val_invalid
    else if is_type a (codes "Header")
    then val_invalid
    else if is_type a (codes "Pseudo-UUID")
    then val_uuid
    else if is_type a (codes "RandomHex")
    then val_random_hex
    else if is_type a (codes "TimeStamp")
    then val_timestamp
    else if is_type a (codes "RawPayload")
    then val_raw_payload
    else val_invalid

unfoldable pub new_argument : SchemaArgument → Argument
unfolding is_type val_type_of
new_argument a = record {
  json_pointer = if is_type a (codes "JsonPointer") then a.value_identifier else [];
  substring_start = a.substring_start;
  substring_length = a.substring_length;
  header_name =
      if not (is_type a (codes "JsonPointer")) && is_type a (codes "Header")
      then a.value_identifier
      else [];
  regex = a.regex;
  regex_present = not (is_empty a.regex);
  val_type = val_type_of a;
}

-- An `int64_t` that is compared with, or passed as, a `size_t` counts modulo 2 ^ 64: a negative one
-- is larger than any length.
is_above_zero : ℤ → Bool
is_above_zero (pos zero) = false
is_above_zero (pos (suc n)) = true
is_above_zero (negsuc n) = false

is_minus_one : ℤ → Bool
is_minus_one (pos n) = false
is_minus_one (negsuc zero) = true
is_minus_one (negsuc (suc n)) = false

is_below_size : ℤ → Bytes → Bool
is_below_size (pos n) s = ltb n (length s)
is_below_size (negsuc n) s = false

start_position : ℤ → ℕ
start_position (pos n) = n
start_position (negsuc n) = 0

-- `substr(start, length)`; a negative length reaches to the end.
cut : ℤ → Bytes → Bytes
cut (pos n) s = take n s
cut (negsuc n) s = s

-- The last step of `getValue`.
unfoldable pub sub_string : ℤ → ℤ → Bytes → Bytes
unfolding is_above_zero is_minus_one is_below_size start_position cut
sub_string start len s =
    if (is_above_zero start || not (is_minus_one len)) && is_below_size start s
    then cut len (drop (start_position start) s)
    else s

module _ (re : Regex) (env : Surroundings) where
  of_type : ValueType → Bytes → Bytes
  of_type val_invalid raw = []
  of_type val_random_hex raw = env.random_hex
  of_type val_timestamp raw = env.timestamp
  of_type val_uuid raw = env.uuid
  of_type val_raw_payload raw = raw

  searched : Argument → Bytes → Bytes
  searched a s = if a.regex_present then or_else (re.search a.regex s) [] else s

  module _ {Value : Type 0} (j : Json Value) where
    -- `header_name.size() && headers.count(header_name)`, and then the first such header; otherwise
    -- the `switch`.
    from_header : Argument → H2ServerRequestMessage Value → Bytes
    unfolding of_type
    from_header a m =
        if is_empty a.header_name
        then of_type a.val_type m.raw_payload
        else elim (equal_range a.header_name m.headers) [
          | [] ↦ of_type a.val_type m.raw_payload
          | v ∷ vs ↦ v
        ]

    -- `getValue(msg)`: the value, and the message, whose payload may now be decoded.
    pub get_value :
        Argument → H2ServerRequestMessage Value → Outcome (Bytes × H2ServerRequestMessage Value)
    get_value a m =
        let finish =
          λ (s : Bytes). sub_string a.substring_start a.substring_length (searched a s) in
        if is_empty a.json_pointer
        then ok (finish (from_header a m), m)
        else (or_stop (decode_json_if_not_yet j m).json_payload aborts >>= λ doc.
            map_ok (λ s. (finish s, decode_json_if_not_yet j m))
              (get_value_from_json_ptr j doc a.json_pointer))
