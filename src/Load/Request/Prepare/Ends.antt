-- ===== src/Load/Request/Prepare/Ends.antt =====
-- A user's way through a scenario: each request is prepared from the one before it.
use h2loadrunner.Base.{
  Ok, arith, ℕ, zero, suc, ◌+◌, ◌<◌, ◌≡◌, refl, ap, true, subst, List, [], ◌∷◌, ◌++◌, length, ok,
}
use h2loadrunner.Text.{Bytes}
use h2loadrunner.Mock.Json.{Json}
use h2loadrunner.Cookie.Jar.{RequestData}
use h2loadrunner.Load.Request.{Scenario, Library}
use h2loadrunner.Load.Request.Queues.{Queues, insert_delayed, enqueue_request}
use h2loadrunner.Load.Request.Prepare.{prepare_next_request}
use h2loadrunner.Load.Request.Prepare.Kept.{step_of}
use h2loadrunner.Load.Request.Prepare.Steps.{StepsOn, prepare_next_request-StepsOn}

-- The last of a list.
last_or {ℓ} : {A : Type ℓ} → A → List A → A
last_or a [] = a
last_or a (x ∷ xs) = last_or x xs

last_or-append {ℓ} : {A : Type ℓ} (a x : A) (xs : List A) → last_or a (xs ++ (x ∷ [])) ≡ x
unfolding last_or
last_or-append a x [] = refl
last_or-append a x (y ∷ ys) = last_or-append y x ys

delayed : RequestData → List (ℕ × RequestData) → RequestData
delayed r [] = r
delayed r ((t, s) ∷ m) = s

insert_delayed-injective :
    (t : ℕ) (r r' : RequestData) (m : List (ℕ × RequestData))
    → insert_delayed t r m ≡ insert_delayed t r' m
    → r ≡ r'
unfolding insert_delayed delayed
insert_delayed-injective t r r' [] e = ap (delayed r) e
insert_delayed-injective t r r' ((u, s) ∷ m) e =
    let ih = insert_delayed-injective t r r' m in ground arith

enqueue_request-injective :
    (now : ℕ) (kept r r' : RequestData) (q : Queues)
    → enqueue_request now kept r q ≡ enqueue_request now kept r' q
    → r ≡ r'
unfolding enqueue_request
enqueue_request-injective now kept r r' q e =
    let ready = last_or-append r r q.requests_to_submit in
    let ready' = last_or-append r r' q.requests_to_submit in
    let late =
      insert_delayed-injective (now + kept.delay_before_executing_next) r r'
        q.delayed_requests_to_submit in
    ground arith

module _ {Value : Type 0} (lib : Library) (j : Json Value) (sc : Scenario) where
  -- The second request is put into the queues when the first one is finished.
  pub data Follows : RequestData → RequestData → Type 0 where
    prepared :
        {finished kept r : RequestData} (now : ℕ) (schema authority : Bytes) (q : Queues)
        → prepare_next_request lib j now schema authority sc finished q
          ≡ ok (true, kept, enqueue_request now finished r q)
        → Follows finished r

  -- So many requests after the first one; a response only adds to a request.
  pub data Chain : RequestData → ℕ → RequestData → Type 0 where
    here : {r : RequestData} → Chain r zero r
    next :
        {r s finished t : RequestData} {n : ℕ}
        → Chain r n s
        → step_of finished ≡ step_of s
        → Follows finished t
        → Chain r (suc n) t

  Follows-next :
      {finished r : RequestData}
      → Follows finished r
      → (r.curr_request_idx ≡ suc finished.curr_request_idx)
        × (r.curr_request_idx < length sc.requests)
  Follows-next {finished} {r} (prepared {kept = kept} now schema authority q e) =
      let steps : StepsOn now sc finished q (true, kept, enqueue_request now finished r q) =
        subst (Ok (StepsOn now sc finished q)) e
          (prepare_next_request-StepsOn lib j now schema authority sc finished q) in
      let (t, values, r', is_next, left, same_queues) = steps in
      let same = enqueue_request-injective now finished r r' q same_queues in
      rw same (is_next.0, is_next.1)

  Chain-step :
      {r s : RequestData} {n : ℕ}
      → Chain r n s
      → r.curr_request_idx < length sc.requests
      → (s.curr_request_idx ≡ r.curr_request_idx + n) × (s.curr_request_idx < length sc.requests)
  Chain-step here h = (omega arith, h)
  Chain-step (next c same f) h =
      let before = Chain-step c h in
      let after = Follows-next f in let idx = ap (λ p. p.0) same in (omega arith, after.1)

  -- Of the requests that follow one another from a request on, each prepared when the one before it is
  -- finished, there are fewer than the scenario has.
  pub Chain-shorter :
      (r s : RequestData) (n : ℕ)
      → r.curr_request_idx < length sc.requests
      → Chain r n s
      → r.curr_request_idx + n < length sc.requests
  Chain-shorter r s n h c = let e = Chain-step c h in omega arith
