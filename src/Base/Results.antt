-- ===== src/Base/Results.antt =====
-- Calls that may end the process: by `exit(1)`, or by an assertion or `abort()`.
use mathlib.Core.Option.{Option, none, some}

pub data Stop : Type 0 where
  exits aborts : Stop

pub data Outcome {ℓ} (A : Type ℓ) : Type ℓ where
  ok : A → Outcome A
  stop : Stop → Outcome A

infixl 5 ◌>>=◌
abbrev pub ◌>>=◌ {ℓ κ} : {A : Type ℓ} {B : Type κ} → Outcome A → (A → Outcome B) → Outcome B
ok a >>= f = f a
stop s >>= f = stop s

abbrev pub map_ok {ℓ κ} : {A : Type ℓ} {B : Type κ} → (A → B) → Outcome A → Outcome B
map_ok f (ok a) = ok (f a)
map_ok f (stop s) = stop s

-- The value of an option; the process stops where there is none.
abbrev pub or_stop {ℓ} : {A : Type ℓ} → Option A → Stop → Outcome A
or_stop none s = stop s
or_stop (some a) s = ok a

-- What holds of the result, where there is one.
abbrev pub Ok {ℓ κ} : {A : Type ℓ} → (A → Type κ) → Outcome A → Type κ
Ok P (ok a) = P a
Ok P (stop s) = Unit

pub Ok-bind {ℓ κ μ ν} :
    {A : Type ℓ} {B : Type κ} (P : A → Type μ) (Q : B → Type ν) (m : Outcome A) (f : A → Outcome B)
    → Ok P m
    → ((a : A) → P a → Ok Q (f a))
    → Ok Q (m >>= f)
Ok-bind P Q (ok a) f p k = k a p
Ok-bind P Q (stop s) f p k = tt

pub Ok-weaken {ℓ κ ν} :
    {A : Type ℓ} (P : A → Type κ) (Q : A → Type ν) (m : Outcome A)
    → Ok P m
    → ((a : A) → P a → Q a)
    → Ok Q m
Ok-weaken P Q (ok a) p k = k a p
Ok-weaken P Q (stop s) p k = tt

pub Ok-any {ℓ} : {A : Type ℓ} (m : Outcome A) → Ok (λ _. Unit {0}) m
Ok-any (ok a) = tt
Ok-any (stop s) = tt

pub Ok-map {ℓ κ ν} :
    {A : Type ℓ} {B : Type κ} (Q : B → Type ν) (f : A → B) (m : Outcome A)
    → ((a : A) → Q (f a))
    → Ok Q (map_ok f m)
Ok-map Q f (ok a) k = k a
Ok-map Q f (stop s) k = tt
