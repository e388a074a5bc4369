-- ===== src/Load/Client/Receive/Status.antt =====
-- The status of a response, read from its digits.
use h2loadrunner.Base.{
  ℕ, ◌+◌, ◌-◌, ◌*◌, ◌≤◌, ◌≡◌, none, some, [], ◌∷◌, arith, ◌∙◌, ap, subst, sym, refl,
}
use h2loadrunner.Text.{Bytes, codes, eq_bytes}
use h2loadrunner.Text.Decimal.{digits_value, to_string}
use h2loadrunner.Text.Decimal.Digits.{digits_value-to_string, digits_value_grows}
use h2loadrunner.Load.Client.{Client, Stream}
use h2loadrunner.Load.Client.Receive.{status_loop, read_status, on_status_code}

-- Up to 999, the loop reads what the digits make.
pub status_loop-digits_value :
    (acc : ℕ) (s : Bytes) → digits_value acc s ≤ 999 → status_loop acc s ≡ some (digits_value acc s)
unfolding digits_value status_loop
status_loop-digits_value acc [] h = refl
status_loop-digits_value acc (c ∷ s) h = ground (
  arith,
  digits_value_grows (acc * 10 + (c - b'0')) s,
  status_loop-digits_value (acc * 10 + (c - b'0')) s,
)

status_loop-to_string : (n : ℕ) → n ≤ 999 → status_loop 0 (to_string n) ≡ some n
status_loop-to_string n h =
    status_loop-digits_value 0 (to_string n)
      (subst (λ k. k ≤ 999) (sym (digits_value-to_string n)) h)
    ∙ ap some (digits_value-to_string n)

-- The header of a status is one for the status.
pub read_status-to_string :
    (stream_id n : ℕ) (s : Stream) (c : Client)
    → s.status_success ≡ none
    → n ≤ 999
    → read_status stream_id (codes ":status") (to_string n) s c ≡ on_status_code stream_id n c
unfolding read_status eq_bytes
read_status-to_string stream_id n s c undecided h =
    rw undecided (rw (status_loop-to_string n h) refl)
