-- ===== src/Load/Request/Queues/Times.antt =====
-- Entries in the order of their times: what is due and what is not.
use h2loadrunner.Base.{
  ℕ, suc, ◌≤◌, ◌<◌, ◌≡◌, ltb, ltb→lt, if◌then◌else◌, some, List, [], ◌∷◌, ◌++◌, get_elem?, arith,
  ap, ◌∙◌, sym, refl, Bool-cases, inl, inr, All, append_assoc, append-nil, if_cases, ap₂,
}
use h2loadrunner.Cookie.Jar.{RequestData}
use h2loadrunner.Load.Request.Queues.{Queues, insert_delayed, resume_loop}

module _ {ℓ} {A : Type ℓ} where
  abbrev pub TimesSorted : List (ℕ × A) → Type 0
  TimesSorted [] = Unit {0}
  TimesSorted ((t, a) ∷ m) = All (λ e. t ≤ e.0) m × TimesSorted m

  -- The entries whose time has come, and the others.
  unfoldable pub due : ℕ → List (ℕ × A) → List A
  due now [] = []
  due now ((t, a) ∷ m) = let rest = due now m in if ltb now t then rest else a ∷ rest

  unfoldable pub not_due : ℕ → List (ℕ × A) → List (ℕ × A)
  not_due now [] = []
  not_due now ((t, a) ∷ m) = let rest = not_due now m in if ltb now t then (t, a) ∷ rest else rest

  -- From an entry that is not due on, none is.
  pub due_past :
      (now t : ℕ) (m : List (ℕ × A))
      → now < t
      → All (λ e. t ≤ e.0) m
      → (due now m ≡ []) × (not_due now m ≡ m)
  unfolding due not_due
  due_past now t [] h a = (refl, refl)
  due_past now t ((u, b) ∷ m) h a = ground (arith, due_past now t m h a.1)

  All-insert :
      (u t : ℕ) (a : A) (m : List (ℕ × A))
      → u ≤ t
      → All (λ e. u ≤ e.0) m
      → All (λ e. u ≤ e.0) (insert_delayed t a m)
  unfolding insert_delayed
  All-insert u t a [] h k = (h, tt)
  All-insert u t a ((v, b) ∷ m) h k = ground (arith, All-insert u t a m h k.1)

  All-weaken : (u t : ℕ) (m : List (ℕ × A)) → u ≤ t → All (λ e. t ≤ e.0) m → All (λ e. u ≤ e.0) m
  All-weaken u t [] h a = tt
  All-weaken u t (e ∷ m) h a = (omega arith, All-weaken u t m h a.1)

  pub insert_delayed-TimesSorted :
      (t : ℕ) (a : A) (m : List (ℕ × A)) → TimesSorted m → TimesSorted (insert_delayed t a m)
  unfolding insert_delayed
  insert_delayed-TimesSorted t a [] s = (tt, tt)
  insert_delayed-TimesSorted t a ((u, b) ∷ m) s =
      ground (arith, All-weaken t u m, All-insert u t a m, insert_delayed-TimesSorted t a m s.1)

  pub not_due-TimesSorted :
      (now : ℕ) (m : List (ℕ × A)) → TimesSorted m → TimesSorted (not_due now m)
  unfolding not_due
  not_due-TimesSorted now [] s = tt
  not_due-TimesSorted now ((t, a) ∷ m) s =
      ground (arith, not_due-TimesSorted now m s.1, due_past now t m)

  -- An entry that is inserted is due when its time has come.
  pub due-insert_delayed :
      (now t : ℕ) (a : A) (m : List (ℕ × A))
      → t ≤ now
      → (n : ℕ) × (get_elem? (due now (insert_delayed t a m)) n ≡ some a)
  unfolding due insert_delayed
  due-insert_delayed now t a [] h = (0, ground arith)
  due-insert_delayed now t a ((u, b) ∷ m) h =
      if_cases (λ l. (n : ℕ) × (get_elem? (due now l) n ≡ some a)) (ltb t u) _ _
        (λ before. (0, ground arith))
        (λ after. let (n, e) = due-insert_delayed now t a m h in (suc n, ground arith))

queues :
    {l l' : List RequestData} {m m' : List (ℕ × RequestData)}
    → l ≡ l'
    → m ≡ m'
    → ◌≡◌ {A = Queues}
        (record { requests_to_submit = l; delayed_requests_to_submit = m })
        (record { requests_to_submit = l'; delayed_requests_to_submit = m' })
queues e f = ap₂ (λ l m. record { requests_to_submit = l; delayed_requests_to_submit = m }) e f

-- The loop moves what is due behind what is ready, and keeps the rest.
pub resume_loop_lem :
    (now : ℕ) (ready : List RequestData) (m : List (ℕ × RequestData))
    → TimesSorted m
    → resume_loop now ready m ≡ record {
      requests_to_submit = ready ++ due now m;
      delayed_requests_to_submit = not_due now m;
    }
unfolding resume_loop due not_due
resume_loop_lem now ready [] s = queues (sym (append-nil ready)) refl
resume_loop_lem now ready ((t, r) ∷ m) s = elim (Bool-cases (ltb now t)) [
  | inl later ↦
      let past = due_past now t m (ltb→lt now t later) s.0 in
      rw later
        (queues (sym (ap (◌++◌ ready) past.0 ∙ append-nil ready)) (ap (◌∷◌ (t, r)) (sym past.1)))
  | inr come ↦ rw come (
      resume_loop_lem now (ready ++ (r ∷ [])) m s.1
      ∙ queues (append_assoc ready (r ∷ []) (due now m)) refl)
]
