-- ===== src/Base64.antt =====
-- base64.h: encoding of bytes and decoding. Shifts and masks are divisions and remainders.
pub mod Inverse
use h2loadrunner.Base.{
  ℕ, ◌+◌, ◌-◌, ◌*◌, ◌/◌, ◌%◌, ◌==◌, ltb, leb, if◌then◌else◌, Bool, true, false, ◌&&◌, Option, none,
  some, List, [], ◌∷◌, ◌++◌, length,
}
use h2loadrunner.Text.{Bytes, is_empty}

-- `B64_CHARS`, the table by its ranges: capital letters, small letters, digits, plus and slash.
unfoldable pub b64_chars : ℕ → ℕ
b64_chars i =
    if ltb i 26
    then i + 65
    else if ltb i 52
    then i + 71
    else if ltb i 62
    then i - 4
    else if i == 62
    then 43
    else 47

-- `INDEX_TABLE`, with `none` for -1.
unfoldable pub index_table : ℕ → Option ℕ
index_table c =
    if c == 43
    then some 62
    else if c == 47
    then some 63
    else if leb 48 c && leb c 57
    then some (c + 4)
    else if leb 65 c && leb c 90
    then some (c - 65)
    else if leb 97 c && leb c 122
    then some (c - 71)
    else none

-- The characters of a 24-bit group, from the highest.
abbrev pub char_at_18 : ℕ → ℕ
char_at_18 n = b64_chars (n / 262144)

abbrev pub char_at_12 : ℕ → ℕ
char_at_12 n = b64_chars (n / 4096 % 64)

abbrev pub char_at_6 : ℕ → ℕ
char_at_6 n = b64_chars (n / 64 % 64)

abbrev pub char_at_0 : ℕ → ℕ
char_at_0 n = b64_chars (n % 64)

unfoldable pub encode : Bytes → Bytes
encode [] = []
encode (a ∷ []) = let n = a * 65536 in char_at_18 n ∷ char_at_12 n ∷ 61 ∷ 61 ∷ []
encode (a ∷ b ∷ []) =
    let n = a * 65536 + b * 256 in char_at_18 n ∷ char_at_12 n ∷ char_at_6 n ∷ 61 ∷ []
encode (a ∷ b ∷ c ∷ s) =
    let n = (a * 65536 + b * 256) + c in
    char_at_18 n ∷ char_at_12 n ∷ char_at_6 n ∷ char_at_0 n ∷ encode s

-- The loop over groups of four, with the bytes written so far. An early `return d_first` leaves
-- nothing. Padding is read in the last group alone.
unfoldable pub decode_loop : Bytes → Bytes → Bytes
decode_loop [] out = out
decode_loop (x ∷ []) out = []
decode_loop (x ∷ y ∷ []) out = []
decode_loop (x ∷ y ∷ z ∷ []) out = []
decode_loop (x ∷ y ∷ z ∷ w ∷ s) out = elim (index_table x) [
  | none ↦ []
  | some i ↦ elim (index_table y) [
    | none ↦ []
    | some k ↦ elim (index_table z) [
      | none ↦
          let n = i * 262144 + k * 4096 in
          if (z == 61) && ((w == 61) && is_empty s) then out ++ (n / 65536 % 256 ∷ []) else []
      | some l ↦ elim (index_table w) [
        | none ↦
            let n = (i * 262144 + k * 4096) + l * 64 in
            if (w == 61) && is_empty s then out ++ (n / 65536 % 256 ∷ n / 256 % 256 ∷ []) else []
        | some m ↦
            let n = ((i * 262144 + k * 4096) + l * 64) + m in
            decode_loop s (out ++ (n / 65536 % 256 ∷ n / 256 % 256 ∷ n % 256 ∷ []))
      ]
    ]
  ]
]

-- `decode(first, last)`: a text of another length is refused.
unfoldable pub decode : Bytes → Bytes
unfolding decode_loop
decode s = if length s % 4 == 0 then decode_loop s [] else []
