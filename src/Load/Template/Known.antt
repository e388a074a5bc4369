-- ===== src/Load/Template/Known.antt =====
-- A text that was split can be assembled.
use h2loadrunner.Base.{
  Ok, elim_both, ℕ, zero, suc, ◌+◌, ◌≡◌, refl, ap, subst, arith, Option, none, some, List, [], ◌∷◌,
  ◌++◌, length, All, Outcome, ok, stop, exits, map_ok,
}
use h2loadrunner.Text.{Bytes}
use h2loadrunner.Cookie.Jar.{RequestData}
use h2loadrunner.Load.Variable.{VariableManager, get_gen_var_id}
use h2loadrunner.Load.Request.{StringWithVariables, Scenario}
use h2loadrunner.Load.Request.Assemble.{assemble_loop, assemble_string, back, variable_value}
use h2loadrunner.Load.Template.{
  variable_present, put_in_front, put_variable, split_loop, split_string_and_var,
}

-- One segment more than variables, and each variable has a name.
abbrev IsSplit : VariableManager → StringWithVariables → Type 0
IsSplit m t =
    (length t.string_segments ≡ suc (length t.variable_ids_in_between))
    × All (λ id. (name : Bytes) × (get_gen_var_id name m ≡ some id)) t.variable_ids_in_between

abbrev Splits : VariableManager → Option (Outcome StringWithVariables) → Type 0
Splits m none = Unit {0}
Splits m (some o) = Ok (IsSplit m) o

put_found :
    (m : VariableManager) (name segment : Bytes) (found : Option ℕ)
    (rest : Outcome StringWithVariables)
    → get_gen_var_id name m ≡ found
    → Ok (IsSplit m) rest
    → Ok
        (IsSplit m)
        (elim found [ none ↦ stop exits | some id ↦ map_ok (put_in_front segment id) rest ])
unfolding put_in_front
put_found m name segment none rest e h = tt
put_found m name segment (some id) (stop s) e h = tt
put_found m name segment (some id) (ok t) e h = (ap suc h.0, ((name, e), h.1))

put_variable-Splits :
    (m : VariableManager) (source : Bytes) (offset var_start var_end : ℕ)
    (rest : Option (Outcome StringWithVariables))
    → Splits m rest
    → Splits m (put_variable m source offset var_start var_end rest)
unfolding put_variable
put_variable-Splits m source offset var_start var_end none h = tt
put_variable-Splits m source offset var_start var_end (some rest) h = put_found m _ _ _ rest refl h

split_loop-Splits :
    (fuel : ℕ) (m : VariableManager) (source : Bytes) (offset : ℕ)
    → Splits m (split_loop fuel m source offset)
unfolding split_loop
split_loop-Splits zero m source offset = tt
split_loop-Splits (suc fuel) m source offset =
    elim_both (Splits m) (variable_present source offset) _ _ (refl, tt)
      λ e. put_variable-Splits m source offset e.0 e.1 _ (split_loop-Splits fuel m source (e.1 + 1))

-- With a segment for each variable and a value for each, the loop has a result.
assemble_loop_total :
    (value : ℕ → Outcome Bytes) (segments : List Bytes) (ids : List ℕ) (result : Bytes)
    → length segments ≡ suc (length ids)
    → All (λ id. (v : Bytes) × (value id ≡ ok v)) ids
    → (text : Bytes) × (assemble_loop value segments ids result ≡ ok text)
unfolding assemble_loop
assemble_loop_total value segments [] result e a = (result, refl)
assemble_loop_total value [] (id ∷ ids) result e a = absurd (omega (arith, e))
assemble_loop_total value (s ∷ segments) (id ∷ ids) result e a =
    let (text, f) =
      assemble_loop_total value segments ids ((result ++ s) ++ a.0.0) (omega (arith, e)) a.1 in
    (text, rw a.0.1 f)

-- Of one segment at least there is a last one.
back_total :
    (segments : List Bytes) (n : ℕ)
    → length segments ≡ suc n
    → (last : Bytes) × (back segments ≡ ok last)
unfolding back
back_total [] n h = absurd (omega arith)
back_total (s ∷ []) n h = (s, refl)
back_total (s ∷ t ∷ ts) zero h = absurd (omega arith)
back_total (s ∷ t ∷ ts) (suc n) h = back_total (t ∷ ts) n (omega arith)

All-map {ℓ κ ν} :
    {A : Type ℓ} {P : A → Type κ} {Q : A → Type ν} (xs : List A)
    → ((a : A) → P a → Q a)
    → All P xs
    → All Q xs
All-map [] f h = tt
All-map (x ∷ xs) f h = (f x h.0, All-map xs f h.1)

-- A text that was split is assembled: where every variable that has a name has a value, the assembled text
-- of the split one is there, and nothing aborts.
pub assemble_string_total :
    (m : VariableManager) (source : Bytes) (t : StringWithVariables) (sc : Scenario) (req_index : ℕ)
    (d : RequestData)
    → split_string_and_var m source ≡ some (ok t)
    → ((name : Bytes) (id : ℕ)
        → get_gen_var_id name m ≡ some id
        → (v : Bytes) × (variable_value sc req_index d id ≡ ok v))
    → (text : Bytes) × (assemble_string sc req_index d t ≡ ok text)
unfolding split_string_and_var assemble_string
assemble_string_total m source t sc req_index d e values =
    let s = subst (Splits m) e (split_loop-Splits (suc (length source)) m source 0) in
    let (text, f) =
      assemble_loop_total (variable_value sc req_index d) t.string_segments
        t.variable_ids_in_between [] s.0
        (All-map t.variable_ids_in_between (λ id known. values known.0 id known.1) s.1) in
    let (last, g) = back_total t.string_segments (length t.variable_ids_in_between) s.0 in
    (text ++ last, rw (f, g) refl)
