-- ===== src/Tests/Text.antt =====
-- Strings and tokens.
use h2loadrunner.Text.Uint.{int64_max, parse_uint, parse_uint_with_unit, unit_factor}
use h2loadrunner.Text.Uint.Exact.{parse_uint_lem, parse_uint_with_unit-to_string}
use h2loadrunner.Text.Decimal.Digits.{digits_count}
use h2loadrunner.Base.{
  ◌≡◌, refl, [], ◌∷◌, ◌++◌, ◌*◌, if◌then◌else◌, ◌==◌, ◌&&◌, not, leb, length, some, none,
}
use h2loadrunner.Text.Decimal.{to_string, digits_value}
use h2loadrunner.Text.{Bytes, codes, is_empty}
use h2loadrunner.Text.Tokenize.{tokenize_string}
use h2loadrunner.Text.Tokenize.Splits.{join, join-tokenize_string}

abbrev cookie_text : Bytes
cookie_text = codes "a=1; b; c=3"

abbrev cookie_delimiter : Bytes
cookie_delimiter = codes "; "

tokenize_string_run :
    tokenize_string cookie_text cookie_delimiter ≡ codes "a=1" ∷ codes "b" ∷ codes "c=3" ∷ []
unfolding tokenize_string
tokenize_string_run = refl

-- Occurrences do not overlap.
tokenize_string_overlap : tokenize_string (codes "aaa") (codes "aa") ≡ [] ∷ codes "a" ∷ []
unfolding tokenize_string
tokenize_string_overlap = refl

join-tokenize_string_example :
    join cookie_delimiter (tokenize_string cookie_text cookie_delimiter) ≡ cookie_text
join-tokenize_string_example = join-tokenize_string cookie_text cookie_delimiter

parse_uint_lem_example : parse_uint (codes "120") ≡ (
    if (digits_count (codes "120") == length (codes "120"))
      && (not (is_empty (codes "120")) && leb (digits_value 0 (codes "120")) int64_max)
    then some (digits_value 0 (codes "120"))
    else none)
parse_uint_lem_example = parse_uint_lem (codes "120")

parse_uint_with_unit-to_string_example :
    parse_uint_with_unit (to_string 16 ++ codes "k")
    ≡ (if leb (16 * 1024) int64_max then some (16 * 1024) else none)
unfolding unit_factor
parse_uint_with_unit-to_string_example = parse_uint_with_unit-to_string 16 b'k' 1024 refl
