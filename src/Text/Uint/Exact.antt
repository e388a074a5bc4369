-- ===== src/Text/Uint/Exact.antt =====
-- Which texts are numbers, and which numbers they are.
use h2loadrunner.Base.{
  ℕ, suc, ◌+◌, ◌-◌, ◌*◌, ◌≤◌, ◌≡◌, ◌==◌, ap, ◌∙◌, leb, if◌then◌else◌, false, not, ◌&&◌, none, some,
  [], ◌∷◌, ◌++◌, length, drop-length-append, arith, Bool-cases, inl, inr, ◌⊎◌,
}
use h2loadrunner.Text.{Bytes, is_empty}
use h2loadrunner.Text.Decimal.{digits_value, is_digit, to_string}
use h2loadrunner.Text.Decimal.Digits.{
  digits_value_grows, digits_value-to_string-append, digits_count, digits_count-to_string,
  length-to_string_positive,
}
use h2loadrunner.Text.Uint.{
  int64_max, digits_loop, parse_uint_digits, parse_uint, unit_factor, scaled, with_unit,
  parse_uint_with_unit,
}

-- The loop reads the number without its bound, and refuses it where it is above the bound.
digits_loop_lem :
    (n i : ℕ) (s : Bytes)
    → n ≤ int64_max
    → digits_loop n i s ≡ (
        if leb (digits_value n s) int64_max
        then some (digits_value n s, i + digits_count s)
        else none)
unfolding digits_loop digits_value digits_count is_digit
digits_loop_lem n i [] h = ground arith
digits_loop_lem n i (c ∷ s) h = ground (
  arith,
  digits_value_grows (n * 10 + (c - b'0')) s,
  digits_loop_lem (n * 10 + (c - b'0')) (suc i) s,
)

parse_uint_digits_lem :
    (s : Bytes)
    → parse_uint_digits s ≡ (
        if leb (digits_value 0 s) int64_max && not (digits_count s == 0)
        then some (digits_value 0 s, digits_count s)
        else none)
unfolding parse_uint_digits
parse_uint_digits_lem s = ground (arith, digits_loop_lem 0 0 s (omega arith))

-- A text is read as a number exactly where it is made of digits, one at least, and the number that they
-- make is no greater than 2 ^ 63 - 1; and it is read as that number.
pub parse_uint_lem :
    (s : Bytes)
    → parse_uint s ≡ (
        if (digits_count s == length s) && (not (is_empty s) && leb (digits_value 0 s) int64_max)
        then some (digits_value 0 s)
        else none)
unfolding parse_uint
parse_uint_lem [] = ground (arith, parse_uint_digits_lem [])
parse_uint_lem (c ∷ s) = ground (arith, parse_uint_digits_lem (c ∷ s))

unit_is_no_digit : (c mul : ℕ) → unit_factor c ≡ some mul → is_digit c ≡ false
unfolding unit_factor is_digit
unit_is_no_digit c mul h = ground arith

unit_factor-cases :
    (c mul : ℕ) → unit_factor c ≡ some mul → (mul ≡ 1024) ⊎ ((mul ≡ 1048576) ⊎ (mul ≡ 1073741824))
unfolding unit_factor
unit_factor-cases c mul h = ground arith

scaled_lem :
    (n mul : ℕ)
    → (mul ≡ 1024) ⊎ ((mul ≡ 1048576) ⊎ (mul ≡ 1073741824))
    → scaled n (some mul) ≡ (if leb (n * mul) int64_max then some (n * mul) else none)
unfolding scaled
scaled_lem n mul (inl e) = rw e (ground arith)
scaled_lem n mul (inr (inl e)) = rw e (ground arith)
scaled_lem n mul (inr (inr e)) = rw e (ground arith)

too_large :
    (n mul : ℕ)
    → leb n int64_max ≡ false
    → (mul ≡ 1024) ⊎ ((mul ≡ 1048576) ⊎ (mul ≡ 1073741824))
    → none ≡ (if leb (n * mul) int64_max then some (n * mul) else none)
too_large n mul h (inl e) = rw e (ground arith)
too_large n mul h (inr (inl e)) = rw e (ground arith)
too_large n mul h (inr (inr e)) = rw e (ground arith)

-- A number in digits with a unit behind it is read as the product of both, where that is at most
-- 2 ^ 63 - 1, and refused where it is greater.
pub parse_uint_with_unit-to_string :
    (n c mul : ℕ)
    → unit_factor c ≡ some mul
    → parse_uint_with_unit (to_string n ++ (c ∷ []))
      ≡ (if leb (n * mul) int64_max then some (n * mul) else none)
unfolding parse_uint_with_unit with_unit digits_value digits_count
parse_uint_with_unit-to_string n c mul h =
    let plain = unit_is_no_digit c mul h in
    let value : digits_value 0 (to_string n ++ (c ∷ [])) ≡ n =
      ground (arith, digits_value-to_string-append n (c ∷ [])) in
    let count : digits_count (to_string n ++ (c ∷ [])) ≡ length (to_string n) =
      ground (arith, digits_count-to_string n (c ∷ [])) in
    let s = to_string n ++ (c ∷ []) in
    let read : parse_uint_digits s
        ≡ (if leb n int64_max then some (n, length (to_string n)) else none) =
      ground (arith, parse_uint_digits_lem s, value, count, length-to_string_positive n) in
    elim (Bool-cases (leb n int64_max)) [
      | inl fits ↦
          rw (read, fits, parse_uint_with_unit)
            (ap (with_unit n) (drop-length-append (to_string n) (c ∷ []))
              ∙ ap (scaled n) h
              ∙ scaled_lem n mul (unit_factor-cases c mul h))
      | inr large ↦
          rw (read, large, parse_uint_with_unit) (too_large n mul large (unit_factor-cases c mul h))
    ]
