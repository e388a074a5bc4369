-- ===== src/Load/Variable/Values.antt =====
-- The texts of the values of a range: of one length, and each of its own number.
use h2loadrunner.Base.{
  ℕ, zero, suc, ◌-◌, ◌==◌, ◌≤◌, ◌<◌, ◌≡◌, refl, sym, ◌∙◌, leb, not, ◌&&◌, false, [], ◌++◌, length,
  arith, length-append, ok,
}
use h2loadrunner.Text.{Bytes}
use h2loadrunner.Text.Decimal.{to_string, digits_value}
use h2loadrunner.Text.Decimal.Digits.{
  length-to_string_mono, digits_value-to_string, digits_value_zero,
}
use h2loadrunner.Load.Variable.{GenericVariable, range_variable, replicate, produce_value}

length-replicate : (n : ℕ) (c : ℕ) → length (replicate n c) ≡ n
length-replicate zero c = refl
length-replicate (suc n) c = omega (arith, length-replicate n c)

digits_value-padded :
    (n : ℕ) (s : Bytes) → digits_value 0 (replicate n b'0' ++ s) ≡ digits_value 0 s
digits_value-padded zero s = refl
digits_value-padded (suc n) s = digits_value_zero (replicate n b'0' ++ s) ∙ digits_value-padded n s

-- What a value of a range must be: as long as the end of the range, and the digits of the number.
pub record IsValueOf (end user_id : ℕ) (text : Bytes) : Type 0 where
  pub width : length text ≡ length (to_string end)
  pub number : digits_value 0 text ≡ user_id

abbrev range_of : Bytes → ℕ → ℕ → GenericVariable
range_of name start end = record {
  var_name = name;
  range_start = start;
  range_end = end;
  var_value_list = [];
  full_range_len = length (to_string end);
}

ok-inj : (a b : GenericVariable) → ok a ≡ ok b → a ≡ b
ok-inj a b h = cc

made_range :
    (name : Bytes) (start end : ℕ) (v : GenericVariable)
    → range_variable name start end ≡ ok v
    → start < end
    → v ≡ range_of name start end
unfolding range_variable
made_range name start end v h lt = ok-inj v (range_of name start end) (sym h ∙ rw not_refused refl)
  where
    not_refused : (not (end == 0) && leb end start) ≡ false
    not_refused = ground arith

padded :
    (name : Bytes) (start end col user_id : ℕ)
    → start < end
    → length (to_string user_id) ≤ length (to_string end)
    → produce_value (range_of name start end) col user_id
      ≡ ok (
          replicate (length (to_string end) - length (to_string user_id)) b'0' ++ to_string user_id)
unfolding produce_value
padded name start end col user_id lt fits = ground arith

-- For a range that its constructor accepts, every number up to the end has a text: the number, padded
-- with zeros to the length of the end; nothing throws.
pub produce_value-IsValueOf :
    (name : Bytes) (start end col user_id : ℕ) (v : GenericVariable)
    → range_variable name start end ≡ ok v
    → start < end
    → user_id ≤ end
    → (text : Bytes) × (produce_value v col user_id ≡ ok text) × IsValueOf end user_id text
produce_value-IsValueOf name start end col user_id v made ordered h = (
  replicate (length (to_string end) - length (to_string user_id)) b'0' ++ to_string user_id,
  rw (made_range name start end v made ordered) (padded name start end col user_id ordered fits),
  record {
    width = omega (
      arith,
      length-append (replicate (length (to_string end) - length (to_string user_id)) b'0')
          (to_string user_id),
      length-replicate (length (to_string end) - length (to_string user_id)) b'0',
      fits,
    );
    number =
        digits_value-padded (length (to_string end) - length (to_string user_id))
          (to_string user_id)
        ∙ digits_value-to_string user_id;
  },
)
  where
    fits : length (to_string user_id) ≤ length (to_string end)
    fits = length-to_string_mono user_id end h
