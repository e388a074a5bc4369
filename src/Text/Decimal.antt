-- ===== src/Text/Decimal.antt =====
-- `std::to_string` of a non-negative number and of a signed one, and `std::stoi`.
pub mod Digits
use h2loadrunner.Base.{
  ℕ, zero, suc, ◌+◌, ◌-◌, ◌*◌, ◌/◌, ◌%◌, ◌^◌, Bool, true, false, ◌&&◌, ◌||◌, [], ◌∷◌, ◌++◌, ltb,
  leb, ◌==◌, if◌then◌else◌,
}
use h2loadrunner.Text.{Bytes}

-- The digits of `n`, which has at most `fuel` of them.
decimal_loop : ℕ → ℕ → Bytes
decimal_loop zero n = []
decimal_loop (suc fuel) n =
    let higher = decimal_loop fuel (n / 10) in
    if ltb n 10 then (b'0' + n) ∷ [] else higher ++ ((b'0' + n % 10) ∷ [])

-- `std::to_string(n)`. A number has at most as many digits as its value and one more.
unfoldable pub to_string : ℕ → Bytes
unfolding decimal_loop
to_string n = decimal_loop (suc n) n

-- `int64_t`: `negsuc n` is -(n + 1).
pub data ℤ : Type 0 where
  pos : ℕ → ℤ
  negsuc : ℕ → ℤ

unfoldable pub to_string_ℤ : ℤ → Bytes
unfolding to_string
to_string_ℤ (pos n) = to_string n
to_string_ℤ (negsuc n) = b'-' ∷ to_string (suc n)

pub data Stoi : Type 0 where
  value : ℤ → Stoi
  invalid_argument out_of_range : Stoi

unfoldable pub is_digit : ℕ → Bool
is_digit c = leb b'0' c && leb c b'9'

-- `isspace` in the C locale.
is_space : ℕ → Bool
is_space c = (c == b' ') || (leb 9 c && leb c 13)

-- The number that the leading digits make.
unfoldable pub digits_value : ℕ → Bytes → ℕ
unfolding is_digit
digits_value acc [] = acc
digits_value acc (c ∷ s) =
    let rest = digits_value (acc * 10 + (c - b'0')) s in if is_digit c then rest else acc

starts_with_digit : Bytes → Bool
unfolding is_digit
starts_with_digit [] = false
starts_with_digit (c ∷ s) = is_digit c

negate : ℕ → ℤ
negate zero = pos 0
negate (suc n) = negsuc n

unsigned_stoi : Bool → Bytes → Stoi
unfolding digits_value starts_with_digit negate
unsigned_stoi negative s =
    let n = digits_value 0 s in
    if starts_with_digit s
    then (if negative
        then (if leb n (2 ^ 31) then value (negate n) else out_of_range)
        else (if ltb n (2 ^ 31) then value (pos n) else out_of_range))
    else invalid_argument

signed_stoi : Bytes → Stoi
unfolding unsigned_stoi
signed_stoi [] = invalid_argument
signed_stoi (c ∷ s) =
    if c == b'-'
    then unsigned_stoi true s
    else if c == b'+'
    then unsigned_stoi false s
    else unsigned_stoi false (c ∷ s)

-- `std::stoi`: white space, a sign, digits; what follows the digits is not read.
unfoldable pub stoi : Bytes → Stoi
unfolding is_space signed_stoi
stoi [] = invalid_argument
stoi (c ∷ s) = let rest = stoi s in if is_space c then rest else signed_stoi (c ∷ s)
