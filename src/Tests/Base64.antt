-- ===== src/Tests/Base64.antt =====
-- The encoding of four bytes, which needs padding.
use h2loadrunner.Base.{◌≡◌, refl, arith}
use h2loadrunner.Text.{codes}
use h2loadrunner.Base64.{encode, decode, b64_chars}
use h2loadrunner.Base64.Inverse.{decode-encode}

encoded_example : encode (codes "Many") ≡ codes "TWFueQ=="
unfolding encode b64_chars
encoded_example = refl

decode-encode_example : decode (encode (codes "Many")) ≡ codes "Many"
decode-encode_example =
    decode-encode (codes "Many") (omega arith, (omega arith, (omega arith, (omega arith, tt))))
