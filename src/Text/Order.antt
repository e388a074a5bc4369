-- ===== src/Text/Order.antt =====
-- `==` on strings decides equality, and `<` is a strict weak order.
use h2loadrunner.Base.{◌≡◌, refl, ap₂, true, false, [], ◌∷◌, arith, IsStrictWeak, ==→eq, &&-eq-true}
use h2loadrunner.Text.{Bytes, eq_bytes, lt_bytes}

pub eq_bytes→eq : (s t : Bytes) → eq_bytes s t ≡ true → s ≡ t
unfolding eq_bytes
eq_bytes→eq [] [] h = refl
eq_bytes→eq [] (d ∷ t) h = absurd (ground arith)
eq_bytes→eq (c ∷ s) [] h = absurd (ground arith)
eq_bytes→eq (c ∷ s) (d ∷ t) h =
    let (p, q) = &&-eq-true _ _ h in ap₂ ◌∷◌ (==→eq c d p) (eq_bytes→eq s t q)

pub eq_bytes_refl : (s : Bytes) → eq_bytes s s ≡ true
unfolding eq_bytes
eq_bytes_refl [] = refl
eq_bytes_refl (c ∷ s) = ground (arith, eq_bytes_refl s)

lt_bytes_irrefl : (s : Bytes) → lt_bytes s s ≡ false
unfolding lt_bytes
lt_bytes_irrefl [] = refl
lt_bytes_irrefl (c ∷ s) = ground (arith, lt_bytes_irrefl s)

lt_bytes_trans : (s t u : Bytes) → lt_bytes s t ≡ true → lt_bytes t u ≡ true → lt_bytes s u ≡ true
unfolding lt_bytes
lt_bytes_trans s t [] h k = ground arith
lt_bytes_trans s [] (e ∷ u) h k = absurd (ground arith)
lt_bytes_trans [] (d ∷ t) (e ∷ u) h k = refl
lt_bytes_trans (c ∷ s) (d ∷ t) (e ∷ u) h k = ground (arith, lt_bytes_trans s t u)

lt_bytes_co_trans :
    (s t u : Bytes) → lt_bytes s t ≡ false → lt_bytes t u ≡ false → lt_bytes s u ≡ false
unfolding lt_bytes
lt_bytes_co_trans s t [] h k = refl
lt_bytes_co_trans s [] (e ∷ u) h k = absurd (ground arith)
lt_bytes_co_trans [] (d ∷ t) (e ∷ u) h k = absurd (ground arith)
lt_bytes_co_trans (c ∷ s) (d ∷ t) (e ∷ u) h k = ground (arith, lt_bytes_co_trans s t u)

pub lt_bytes-IsStrictWeak : IsStrictWeak lt_bytes
lt_bytes-IsStrictWeak = record {
  irrefl = lt_bytes_irrefl;
  trans = lt_bytes_trans;
  co_trans = lt_bytes_co_trans;
}
