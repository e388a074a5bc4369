-- ===== src/Load/Variable/Turns.antt =====
-- The values that a client gives its variables, user after user.
use h2loadrunner.Base.{
  ℕ, zero, suc, ◌+◌, ◌-◌, ◌%◌, ◌^◌, ◌==◌, ◌≤◌, ◌<◌, ◌≡◌, ◌≢◌, refl, sym, ap, ap₂, ◌∙◌, leb,
  if◌then◌else◌, some, List, [], ◌∷◌, All, arith, Bool-cases, inl, inr, ==→eq, subst,
}
use native.Mathlib.Nat.{mod_self, zero-mod, mod-add-mod, mod-lt, mod-eq_of_lt}
use h2loadrunner.Load.Variable.{ScenarioDataPerClient, inc_value, inc_loop, inc_var, slice}
use h2loadrunner.Load.Variable.Slices.{slice-apart, slice_nonempty, slice_bounded, Within}

-- `inc_var` so many times.
abbrev pub inc_times : ℕ → ScenarioDataPerClient → ScenarioDataPerClient
inc_times zero d = d
inc_times (suc k) d = inc_var (inc_times k d)

-- The value of a range after so many turns from its start; an empty range keeps its start.
abbrev pub turn : ℕ → ℕ → ℕ → ℕ
turn k s e = if leb e s then s else s + k % (e - s)

abbrev pub turns : ℕ → List ℕ → List ℕ → List ℕ
turns k [] es = []
turns k (s ∷ ss) [] = s ∷ ss
turns k (s ∷ ss) (e ∷ es) = turn k s e ∷ turns k ss es

whole_mod : (r d : ℕ) → 0 < d → r < d → (r + 1) % d ≡ (if r + 1 == d then 0 else r + 1)
whole_mod r d h k = elim (Bool-cases (r + 1 == d)) [
  | inl e ↦ rw (e, ==→eq (r + 1) d e) (mod_self d)
  | inr e ↦ rw e (mod-eq_of_lt (ground arith))
]

next_mod : (k d : ℕ) → 0 < d → suc k % d ≡ (if k % d + 1 == d then 0 else k % d + 1)
next_mod k d h =
    ap (λ n. n % d) (omega arith) ∙ sym (mod-add-mod k d 1) ∙ whole_mod (k % d) d h (mod-lt k h)

inc_value-turn : (k s e : ℕ) → e < 2 ^ 64 → inc_value s e (turn k s e) ≡ turn (suc k) s e
unfolding inc_value
inc_value-turn k s e h = elim (Bool-cases (leb e s)) [
  | inl empty ↦ rw empty refl
  | inr some_values ↦
      let d : 0 < e - s = ground arith in
      rw some_values (ground (arith, next_mod k (e - s) d, mod-lt k d))
]

inc_loop-turns :
    (k : ℕ) (ss es : List ℕ)
    → All (λ e. e < 2 ^ 64) es
    → inc_loop ss es (turns k ss es) ≡ turns (suc k) ss es
unfolding inc_loop
inc_loop-turns k [] es b = refl
inc_loop-turns k (s ∷ ss) [] b = refl
inc_loop-turns k (s ∷ ss) (e ∷ es) b =
    ap₂ ◌∷◌ (inc_value-turn k s e b.0) (inc_loop-turns k ss es b.1)

turns_zero : (ss es : List ℕ) → turns 0 ss es ≡ ss
turns_zero [] es = refl
turns_zero (s ∷ ss) [] = refl
turns_zero (s ∷ ss) (e ∷ es) = ap₂ ◌∷◌ (ground (arith, zero-mod (e - s))) (turns_zero ss es)

-- After so many turns from the start of a client's ranges, each variable has its value of that turn.
pub inc_times-turns :
    (k : ℕ) (d : ScenarioDataPerClient)
    → d.curr_req_variable_values ≡ d.req_variable_values_start
    → All (λ e. e < 2 ^ 64) d.req_variable_values_end
    → (inc_times k d).curr_req_variable_values
      ≡ turns k d.req_variable_values_start d.req_variable_values_end
unfolding inc_var
inc_times-turns k d h b = ap (λ d'. d'.curr_req_variable_values) (after k)
  where
    start_turn :
        turns 0 d.req_variable_values_start d.req_variable_values_end ≡ d.curr_req_variable_values
    start_turn = turns_zero d.req_variable_values_start d.req_variable_values_end ∙ sym h

    after :
        (k : ℕ)
        → inc_times k d ≡ record d {
          curr_req_variable_values = turns k d.req_variable_values_start d.req_variable_values_end;
        }
    after zero = ap (λ c. record d { curr_req_variable_values = c }) (sym start_turn)
    after (suc k) =
        ap inc_var (after k)
        ∙ ap (λ c. record d { curr_req_variable_values = c })
            (inc_loop-turns k d.req_variable_values_start d.req_variable_values_end b)

-- A turn from the start of a slice is a value of the slice.
turn-Within : (k s e : ℕ) → s < e → Within (some (s, e)) (turn k s e)
turn-Within k s e h = ground (arith, mod-lt k (positive s e h))
  where
    positive : (s e : ℕ) → s < e → 0 < e - s
    positive s e h = omega arith

head_eq : (a b : ℕ) → a ∷ [] ≡ b ∷ [] → a ≡ b
head_eq a b h = cc

-- A client's data for one variable, at the start of its slice.
abbrev pub from_slice : ℕ × ℕ → ScenarioDataPerClient
from_slice (s, e) = record {
  req_variable_values_start = s ∷ [];
  req_variable_values_end = e ∷ [];
  curr_req_variable_values = s ∷ [];
}

-- Two clients with slices of one range never give a variable the same value, however often each of them
-- has moved on.
pub inc_times-apart :
    (nclients range_start range_end i j k l : ℕ) (a b : ℕ × ℕ)
    → range_start ≤ range_end
    → range_end < 2 ^ 64
    → nclients ≤ range_end - range_start
    → i < nclients
    → j < nclients
    → i ≢ j
    → slice nclients i range_start range_end ≡ some a
    → slice nclients j range_start range_end ≡ some b
    → (inc_times k (from_slice a)).curr_req_variable_values
      ≢ (inc_times l (from_slice b)).curr_req_variable_values
inc_times-apart nclients range_start range_end i j k l (s, e) (s', e') ordered small enough h g
      differ p q same =
    differ (
      slice-apart nclients range_start range_end ordered small some_clients enough i j (turn k s e)
        h g (subst (λ o. Within o (turn k s e)) (sym p) (turn-Within k s e (nonempty i s e h p)))
        (subst (λ o. Within o (turn k s e)) (sym q)
          (subst (λ v. Within (some (s', e')) v) (sym value)
            (turn-Within l s' e' (nonempty j s' e' g q)))))
  where
    some_clients : 0 < nclients
    some_clients = omega arith

    nonempty :
        (i s e : ℕ) → i < nclients → slice nclients i range_start range_end ≡ some (s, e) → s < e
    nonempty = slice_nonempty nclients range_start range_end ordered small some_clients enough

    bounded :
        (i s e : ℕ)
        → i < nclients
        → slice nclients i range_start range_end ≡ some (s, e)
        → e < 2 ^ 64
    bounded = slice_bounded nclients range_start range_end ordered small some_clients enough

    turned :
        (k i s e : ℕ)
        → i < nclients
        → slice nclients i range_start range_end ≡ some (s, e)
        → (inc_times k (from_slice (s, e))).curr_req_variable_values ≡ turn k s e ∷ []
    turned k i s e h p = inc_times-turns k (from_slice (s, e)) refl (bounded i s e h p, tt)

    value : turn k s e ≡ turn l s' e'
    value = head_eq _ _ (sym (turned k i s e h p) ∙ same ∙ turned l j s' e' g q)
