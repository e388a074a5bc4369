-- ===== src/Text/Uint.antt =====
-- `parse_uint` and `parse_uint_with_unit` of util.cc, which refuse a number that is too large. `none`
-- stands for -1.
pub mod Exact
use h2loadrunner.Base.{
  ℕ, zero, suc, ◌+◌, ◌-◌, ◌*◌, ◌/◌, ◌^◌, ◌==◌, ltb, if◌then◌else◌, Bool, true, false, not, ◌||◌,
  Option, none, some, List, [], ◌∷◌, length, drop,
}
use h2loadrunner.Text.{Bytes}
use h2loadrunner.Text.Decimal.{is_digit}

-- `std::numeric_limits<int64_t>::max()`.
abbrev pub int64_max : ℕ
int64_max = 9223372036854775807

-- The loop over the digits, from a number and the count of the digits so far.
unfoldable pub digits_loop : ℕ → ℕ → Bytes → Option (ℕ × ℕ)
unfolding is_digit
digits_loop n i [] = some (n, i)
digits_loop n i (c ∷ s) =
    let rest = digits_loop (n * 10 + (c - b'0')) (suc i) s in
    if is_digit c
    then (if ltb (int64_max / 10) n
        then none
        else if ltb (int64_max - (c - b'0')) (n * 10)
        then none
        else rest)
    else some (n, i)

-- A number and how many digits it has, one at least.
unfoldable pub parse_uint_digits : Bytes → Option (ℕ × ℕ)
unfolding digits_loop
parse_uint_digits s = elim (digits_loop 0 0 s) [
  | none ↦ none
  | some (n, i) ↦ if i == 0 then none else some (n, i)
]

unfoldable pub parse_uint : Bytes → Option ℕ
unfolding parse_uint_digits
parse_uint s = elim (parse_uint_digits s) [
  | none ↦ none
  | some (n, i) ↦ if not (i == length s) then none else some n
]

-- The factor of a unit.
unfoldable pub unit_factor : ℕ → Option ℕ
unit_factor c =
    if (c == b'K') || (c == b'k')
    then some 1024
    else if (c == b'M') || (c == b'm')
    then some 1048576
    else if (c == b'G') || (c == b'g')
    then some 1073741824
    else none

-- The product, where it is not too large.
unfoldable pub scaled : ℕ → Option ℕ → Option ℕ
scaled n none = none
scaled n (some mul) = if ltb (int64_max / mul) n then none else some (n * mul)

-- What is behind the digits: nothing, or a unit of one letter.
unfoldable pub with_unit : ℕ → Bytes → Option ℕ
unfolding unit_factor scaled
with_unit n [] = some n
with_unit n (c ∷ []) = scaled n (unit_factor c)
with_unit n (c ∷ (d ∷ s)) = none

unfoldable pub parse_uint_with_unit : Bytes → Option ℕ
unfolding parse_uint_digits with_unit
parse_uint_with_unit s = elim (parse_uint_digits s) [
  | none ↦ none
  | some (n, i) ↦ with_unit n (drop i s)
]
