-- ===== src/Text/Decimal/Digits.antt =====
-- The digits of a number: how many they are, and that they read back.
use h2loadrunner.Base.{
  ℕ, zero, suc, ◌+◌, ◌-◌, ◌*◌, if◌then◌else◌, ◌/◌, ◌%◌, ◌≤◌, ◌<◌, ◌≡◌, sym, ap, ◌∙◌, ltb, ltb→lt,
  ◌&&◌, append-nil, leb, true, [], ◌∷◌, ◌++◌, length, arith, length-append, append_assoc,
  Bool-cases, inl, inr,
}
use h2loadrunner.Text.{Bytes}
use h2loadrunner.Text.Decimal.{decimal_loop, to_string, digits_value, is_digit}

-- A greater number has at least as many digits.
decimal_loop_mono :
    (f g n m : ℕ) → n < f → m < g → n ≤ m → length (decimal_loop f n) ≤ length (decimal_loop g m)
unfolding decimal_loop
decimal_loop_mono zero g n m h k le = elim h [ ]
decimal_loop_mono (suc f) zero n m h k le = elim k [ ]
decimal_loop_mono (suc f) (suc g) n m h k le = ground (
  arith,
  decimal_loop_mono f g (n / 10) (m / 10),
  length-append (decimal_loop f (n / 10)) ((b'0' + n % 10) ∷ []),
  length-append (decimal_loop g (m / 10)) ((b'0' + m % 10) ∷ []),
)

pub length-to_string_mono : (n m : ℕ) → n ≤ m → length (to_string n) ≤ length (to_string m)
unfolding to_string
length-to_string_mono n m h = decimal_loop_mono (suc n) (suc m) n m (omega arith) (omega arith) h

-- A digit in front of the rest.
digits_value-digit :
    (acc d n : ℕ) (rest : Bytes)
    → d < 10
    → acc * 10 + d ≡ n
    → digits_value acc ((b'0' + d) ∷ rest) ≡ digits_value n rest
unfolding digits_value is_digit
digits_value-digit acc d n rest h e = rw digit (ap (λ a. digits_value a rest) (omega arith))
  where
    digit : (leb b'0' (b'0' + d) && leb (b'0' + d) b'9') ≡ true
    digit = ground arith

digits_value-decimal_loop :
    (f n : ℕ) (rest : Bytes)
    → n < f
    → digits_value 0 (decimal_loop f n ++ rest) ≡ digits_value n rest
unfolding decimal_loop
digits_value-decimal_loop zero n rest h = elim h [ ]
digits_value-decimal_loop (suc f) n rest h = elim (Bool-cases (ltb n 10)) [
  | inl one ↦ rw one (digits_value-digit 0 n n rest (ltb→lt n 10 one) (omega arith))
  | inr more ↦ rw more (
      ap (digits_value 0) (append_assoc (decimal_loop f (n / 10)) ((b'0' + n % 10) ∷ []) rest)
      ∙ digits_value-decimal_loop f (n / 10) ((b'0' + n % 10) ∷ rest) (ground arith)
      ∙ digits_value-digit (n / 10) (n % 10) n rest (omega arith) (omega arith))
]

-- The digits read back as the number.
pub digits_value-to_string : (n : ℕ) → digits_value 0 (to_string n) ≡ n
unfolding to_string digits_value
digits_value-to_string n =
    ap (digits_value 0) (sym (append-nil (decimal_loop (suc n) n)))
    ∙ digits_value-decimal_loop (suc n) n [] (omega arith)

-- A zero in front does not change the number.
pub digits_value_zero : (s : Bytes) → digits_value 0 (b'0' ∷ s) ≡ digits_value 0 s
digits_value_zero s = digits_value-digit 0 0 0 s (omega arith) (omega arith)

pub digits_value_grows : (acc : ℕ) (s : Bytes) → acc ≤ digits_value acc s
unfolding digits_value
digits_value_grows acc [] = omega arith
digits_value_grows acc (c ∷ s) = ground (arith, digits_value_grows (acc * 10 + (c - b'0')) s)

pub digits_value-to_string-append :
    (n : ℕ) (rest : Bytes) → digits_value 0 (to_string n ++ rest) ≡ digits_value n rest
unfolding to_string
digits_value-to_string-append n rest = digits_value-decimal_loop (suc n) n rest (omega arith)

-- How many digits a text begins with.
unfoldable pub digits_count : Bytes → ℕ
unfolding is_digit
digits_count [] = 0
digits_count (c ∷ s) = let rest = digits_count s in if is_digit c then suc rest else 0

digits_count-decimal_loop :
    (f n : ℕ) (rest : Bytes)
    → n < f
    → digits_count (decimal_loop f n ++ rest) ≡ length (decimal_loop f n) + digits_count rest
unfolding decimal_loop digits_count is_digit
digits_count-decimal_loop zero n rest h = elim h [ ]
digits_count-decimal_loop (suc f) n rest h = elim (Bool-cases (ltb n 10)) [
  | inl one ↦ rw one (ground arith)
  | inr more ↦ rw more (
      ap digits_count (append_assoc (decimal_loop f (n / 10)) ((b'0' + n % 10) ∷ []) rest)
      ∙ digits_count-decimal_loop f (n / 10) ((b'0' + n % 10) ∷ rest) (ground arith)
      ∙ ground (arith, length-append (decimal_loop f (n / 10)) ((b'0' + n % 10) ∷ [])))
]

pub digits_count-to_string :
    (n : ℕ) (rest : Bytes)
    → digits_count (to_string n ++ rest) ≡ length (to_string n) + digits_count rest
unfolding to_string
digits_count-to_string n rest = digits_count-decimal_loop (suc n) n rest (omega arith)

pub length-to_string_positive : (n : ℕ) → 0 < length (to_string n)
unfolding to_string decimal_loop
length-to_string_positive n =
    ground (arith, length-append (decimal_loop n (n / 10)) ((b'0' + n % 10) ∷ []))
