-- ===== src/Text.antt =====
-- The operations of `std::string` that the program uses, over lists of bytes: `find`, `substr`,
-- `compare`, `==` and `<`. A position is an index, and `none` stands for `npos`.
pub mod Order
pub mod Find
pub mod Tokenize
pub mod Decimal
pub mod Uint
use Prim.Native.Char.{code}
use Prim.Native.String.{String}
use Prim.Native.String
use h2loadrunner.Base.{
  ℕ, zero, suc, ◌+◌, ◌-◌, Bool, true, false, ◌&&◌, Option, none, some, List, [], ◌∷◌, ◌++◌, ltb,
  leb, ◌==◌, if◌then◌else◌, length, take, drop, map_some,
}

abbrev pub Bytes : Type 0
Bytes = List ℕ

-- The bytes of a text of the source, which is ASCII.
abbrev pub codes : String → Bytes
codes String.[] = []
codes (String.◌∷◌ c s) = code c ∷ codes s

-- `s.empty()`.
abbrev pub is_empty {ℓ} : {A : Type ℓ} → List A → Bool
is_empty [] = true
is_empty (c ∷ s) = false

-- `a == b`.
unfoldable pub eq_bytes : Bytes → Bytes → Bool
eq_bytes [] [] = true
eq_bytes [] (d ∷ t) = false
eq_bytes (c ∷ s) [] = false
eq_bytes (c ∷ s) (d ∷ t) = (c == d) && eq_bytes s t

-- `a < b`: the bytes are compared as unsigned numbers, a proper prefix comes first.
unfoldable pub lt_bytes : Bytes → Bytes → Bool
lt_bytes s [] = false
lt_bytes [] (d ∷ t) = true
lt_bytes (c ∷ s) (d ∷ t) = if ltb c d then true else if ltb d c then false else lt_bytes s t

-- Whether `s` begins with `p`.
unfoldable pub starts_with : Bytes → Bytes → Bool
starts_with [] s = true
starts_with (c ∷ p) [] = false
starts_with (c ∷ p) (d ∷ s) = (c == d) && starts_with p s

-- `s.find(d)`: the first position at which `d` occurs.
unfoldable pub find : Bytes → Bytes → Option ℕ
unfolding starts_with
find [] d = if starts_with d [] then some 0 else none
find (c ∷ s) d = if starts_with d (c ∷ s) then some 0 else map_some suc (find s d)

-- `s.find(d, start)`.
unfoldable pub find_from : Bytes → Bytes → ℕ → Option ℕ
unfolding find
find_from s d start =
    if leb start (length s) then map_some (λ n. start + n) (find (drop start s) d) else none

-- `s.substr(start, n)` for a start inside the string.
abbrev pub substr : Bytes → ℕ → ℕ → Bytes
substr s start n = take n (drop start s)

-- `s.c_str()` as a reader sees it that stops at the first zero byte.
unfoldable pub c_str : Bytes → Bytes
c_str [] = []
c_str (c ∷ s) = if c == 0 then [] else c ∷ c_str s

-- `s.rfind(d)`: the last position at which `d` occurs.
unfoldable pub rfind : Bytes → Bytes → Option ℕ
unfolding starts_with
rfind [] d = if starts_with d [] then some 0 else none
rfind (c ∷ s) d = elim (rfind s d) [
  | some n ↦ some (suc n)
  | none ↦ if starts_with d (c ∷ s) then some 0 else none
]

-- `util::lowcase` and `util::inp_strlower`.
abbrev pub lowcase : ℕ → ℕ
lowcase c = if leb b'A' c && leb c b'Z' then c + 32 else c

unfoldable pub inp_strlower : Bytes → Bytes
inp_strlower [] = []
inp_strlower (c ∷ s) = lowcase c ∷ inp_strlower s
