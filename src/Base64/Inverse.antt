-- ===== src/Base64/Inverse.antt =====
-- Decoding what was encoded.
use h2loadrunner.Base.{
  ℕ, ◌+◌, ◌*◌, ◌/◌, ◌%◌, ◌<◌, ◌≡◌, refl, sym, ap, ap₂, ◌∙◌, none, some, [], ◌∷◌, ◌++◌, length,
  arith, All, append_assoc, append-nil,
}
use h2loadrunner.Text.{Bytes}
use h2loadrunner.Base64.{b64_chars, index_table, encode, decode_loop, decode}

-- Every element of the list is a byte.
abbrev pub AreBytes : Bytes → Type 0
AreBytes s = All (λ c. c < 256) s

index_table-b64_chars : (i : ℕ) → i < 64 → index_table (b64_chars i) ≡ some i
unfolding index_table b64_chars
index_table-b64_chars i h = ground arith

length-encode : (s : Bytes) → length (encode s) % 4 ≡ 0
unfolding encode
length-encode [] = refl
length-encode (a ∷ []) = refl
length-encode (a ∷ b ∷ []) = refl
length-encode (a ∷ b ∷ c ∷ s) = omega (arith, length-encode s)

index_table_pad : index_table 61 ≡ none
unfolding index_table
index_table_pad = refl

module _ (x y z w i k l m : ℕ) (s out : Bytes) (ex : index_table x ≡ some i)
    (ey : index_table y ≡ some k) where
  -- A whole group, and the two padded ones.
  decode_group :
      index_table z ≡ some l
      → index_table w ≡ some m
      → decode_loop (x ∷ y ∷ z ∷ w ∷ s) out ≡ (
          let n = ((i * 262144 + k * 4096) + l * 64) + m in
          decode_loop s (out ++ (n / 65536 % 256 ∷ n / 256 % 256 ∷ n % 256 ∷ [])))
  unfolding decode_loop
  decode_group ez ew = rw (ex, ey, ez, ew, decode_loop)

  decode_pad :
      index_table z ≡ some l
      → decode_loop (x ∷ y ∷ z ∷ 61 ∷ []) out ≡ (
          let n = (i * 262144 + k * 4096) + l * 64 in out ++ (n / 65536 % 256 ∷ n / 256 % 256 ∷ []))
  unfolding decode_loop
  decode_pad ez = rw (ex, ey, ez, index_table_pad, decode_loop)

  decode_two_pads :
      decode_loop (x ∷ y ∷ 61 ∷ 61 ∷ []) out
      ≡ (let n = i * 262144 + k * 4096 in out ++ (n / 65536 % 256 ∷ []))
  unfolding decode_loop
  decode_two_pads = rw (ex, ey, index_table_pad, decode_loop)

decode_loop_nil : (out : Bytes) → decode_loop [] out ≡ out ++ []
unfolding decode_loop
decode_loop_nil out = sym (append-nil out)

-- The six-bit digits of a group, put together again and cut into bytes.
three_bytes :
    (a b c : ℕ)
    → a < 256
    → b < 256
    → c < 256
    → (let n = (a * 65536 + b * 256) + c in
        let q = ((n / 262144 * 262144 + n / 4096 % 64 * 4096) + n / 64 % 64 * 64) + n % 64 in
        q / 65536 % 256 ∷ q / 256 % 256 ∷ q % 256 ∷ [])
      ≡ a ∷ b ∷ c ∷ []
three_bytes a b c h k l =
    rw (six_bits ((a * 65536 + b * 256) + c)) (whole (omega arith) (omega arith) (omega arith))
  where
    six_bits :
        (n : ℕ) → ((n / 262144 * 262144 + n / 4096 % 64 * 4096) + n / 64 % 64 * 64) + n % 64 ≡ n
    six_bits n = omega arith

    whole : {x y z : ℕ} → x ≡ a → y ≡ b → z ≡ c → x ∷ y ∷ z ∷ [] ≡ a ∷ b ∷ c ∷ []
    whole p q r = ap₂ ◌∷◌ p (ap₂ ◌∷◌ q (ap (λ z. z ∷ []) r))

decode_loop-encode : (s out : Bytes) → AreBytes s → decode_loop (encode s) out ≡ out ++ s
unfolding encode
decode_loop-encode [] out h = decode_loop_nil out
decode_loop-encode (a ∷ []) out h =
    let n = a * 65536 in
    decode_two_pads _ _ 0 0 (n / 262144) (n / 4096 % 64) 0 0 [] out
      (index_table-b64_chars (n / 262144) (omega (arith, h.0)))
      (index_table-b64_chars (n / 4096 % 64) (omega arith))
    ∙ ap (λ x. out ++ (x ∷ [])) (omega (arith, h.0))
decode_loop-encode (a ∷ b ∷ []) out h =
    let n = a * 65536 + b * 256 in
    decode_pad _ _ _ 0 (n / 262144) (n / 4096 % 64) (n / 64 % 64) 0 [] out
      (index_table-b64_chars (n / 262144) (omega (arith, h.0, h.1.0)))
      (index_table-b64_chars (n / 4096 % 64) (omega arith))
      (index_table-b64_chars (n / 64 % 64) (omega arith))
    ∙ ap₂ (λ x y. out ++ (x ∷ y ∷ [])) (omega (arith, h.0, h.1.0)) (omega (arith, h.0, h.1.0))
decode_loop-encode (a ∷ b ∷ c ∷ s) out h =
    let n = (a * 65536 + b * 256) + c in
    decode_group _ _ _ _ (n / 262144) (n / 4096 % 64) (n / 64 % 64) (n % 64) (encode s) out
      (index_table-b64_chars (n / 262144) (omega (arith, h.0, h.1.0, h.1.1.0)))
      (index_table-b64_chars (n / 4096 % 64) (omega arith))
      (index_table-b64_chars (n / 64 % 64) (omega arith))
      (index_table-b64_chars (n % 64) (omega arith))
    ∙ ap (λ t. decode_loop (encode s) (out ++ t)) (three_bytes a b c h.0 h.1.0 h.1.1.0)
    ∙ decode_loop-encode s (out ++ (a ∷ b ∷ c ∷ [])) h.1.1.1
    ∙ append_assoc out (a ∷ b ∷ c ∷ []) s

-- Whatever bytes are encoded, decoding gives them back.
pub decode-encode : (s : Bytes) → AreBytes s → decode (encode s) ≡ s
unfolding decode
decode-encode s h = rw (length-encode s) (decode_loop-encode s [] h)
