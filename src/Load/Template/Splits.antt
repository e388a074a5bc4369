-- ===== src/Load/Template/Splits.antt =====
-- The segments and variables of a text, put together again.
use h2loadrunner.Base.{
  arith, ℕ, ◌+◌, ◌-◌, ◌≤◌, ◌≡◌, refl, ap, ◌∙◌, Option, none, some, List, [], ◌∷◌, ◌++◌, length,
  drop, drop-drop, append_assoc, Outcome, ok, stop, exits, ◌>>=◌, map_ok,
}
use h2loadrunner.Text.{Bytes, codes}
use h2loadrunner.Load.Variable.{VariableManager, get_gen_var_id}
use h2loadrunner.Load.Request.{StringWithVariables}
use h2loadrunner.Load.Request.Assemble.{assemble_loop, back}

cut : (s : Bytes) (a b : ℕ) → a ≤ b → drop (b - a) (drop a s) ≡ drop b s
cut s a b h = drop-drop a (b - a) s ∙ ap (λ k. drop k s) (omega arith)

back_cons :
    (segment : Bytes) (segments : List Bytes) (n : ℕ)
    → n + 1 ≡ length segments
    → back (segment ∷ segments) ≡ back segments
unfolding back
back_cons segment [] n h = absurd (omega arith)
back_cons segment (t ∷ ts) n h = refl

reassociate :
    (acc segment name rest : Bytes)
    → ((acc ++ segment) ++ (codes "${" ++ (name ++ codes "}"))) ++ rest
      ≡ acc ++ (segment ++ (codes "${" ++ (name ++ (codes "}" ++ rest))))
reassociate acc segment name rest =
    append_assoc (acc ++ segment) (codes "${" ++ (name ++ codes "}")) rest
    ∙ (append_assoc acc segment _
        ∙ ap (λ t. acc ++ (segment ++ (codes "${" ++ t))) (append_assoc name (codes "}") rest))

module _ (m : VariableManager) (value : ℕ → Outcome Bytes)
    (braced : (name : Bytes) (id : ℕ)
      → get_gen_var_id name m ≡ some id
      → value id ≡ ok (codes "${" ++ (name ++ codes "}"))) where
  -- From the position on, there is a variable in braces that has no name in the table.
  abbrev pub HasUndefined : Bytes → ℕ → Type 0
  HasUndefined s offset =
      (name : Bytes) × (before : Bytes) × (behind : Bytes) × (get_gen_var_id name m ≡ none)
      × (drop offset s ≡ before ++ (codes "${" ++ (name ++ (codes "}" ++ behind))))

  -- A result there is, and a stop is one for a variable that is not defined; the parts of a result and the values of
  -- its variables are the text from a position on.
  abbrev pub Rejoins : Bytes → ℕ → Option (Outcome StringWithVariables) → Type 0
  Rejoins s offset none = ⊥
  Rejoins s offset (some (stop st)) = (st ≡ exits) × HasUndefined s offset
  Rejoins s offset (some (ok r)) =
      (length r.variable_ids_in_between + 1 ≡ length r.string_segments)
      × ((acc : Bytes)
          → (assemble_loop value r.string_segments r.variable_ids_in_between acc >>= λ t.
              map_ok (◌++◌ t) (back r.string_segments))
            ≡ ok (acc ++ drop offset s))

  joined :
      (segment name rest acc : Bytes) (id : ℕ) (r : StringWithVariables)
      → get_gen_var_id name m ≡ some id
      → length r.variable_ids_in_between + 1 ≡ length r.string_segments
      → ((acc' : Bytes)
          → (assemble_loop value r.string_segments r.variable_ids_in_between acc' >>= λ t.
              map_ok (◌++◌ t) (back r.string_segments))
            ≡ ok (acc' ++ rest))
      → (assemble_loop value (segment ∷ r.string_segments) (id ∷ r.variable_ids_in_between) acc
          >>= λ t. map_ok (◌++◌ t) (back (segment ∷ r.string_segments)))
        ≡ ok (acc ++ (segment ++ (codes "${" ++ (name ++ (codes "}" ++ rest)))))
  unfolding assemble_loop
  joined segment name rest acc id r hit lengths h =
      rw
        (
          back_cons segment r.string_segments (length r.variable_ids_in_between) lengths,
          braced name id hit,
        )
        (h ((acc ++ segment) ++ (codes "${" ++ (name ++ codes "}")))
          ∙ ap ok (reassociate acc segment name rest))
