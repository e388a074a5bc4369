-- ===== src/Load/Request/Prepare/Steps.antt =====
-- What `prepare_next_request` queues, and what becomes of the user's data.
use h2loadrunner.Base.{
  Ok, Ok-bind, Ok-weaken, if_cases, arith, ℕ, zero, suc, ◌+◌, ◌%◌, ◌==◌, ◌<◌, ◌≡◌, refl, sym, ap,
  ◌∙◌, if◌then◌else◌, Bool, true, false, List, [], ◌∷◌, length, get_elem?, or_stop, aborts, Stop,
  some, none, Option, Bool-cases, inl, inr, subst,
}
use h2loadrunner.Text.{Bytes}
use h2loadrunner.Mock.Json.{Json}
use h2loadrunner.Cookie.Jar.{RequestData, Jar, parse_and_save_cookies}
use h2loadrunner.Load.Request.{Request, Scenario, Library}
use h2loadrunner.Load.Request.Pick.{run_post_response_action}
use h2loadrunner.Load.Request.Queues.{Queues, enqueue_request}
use h2loadrunner.Load.Request.Prepare.{
  request_of_step, take_cookies, sibling_request, give_up_user_data, queue_next, next_step,
  prepare_next_request,
}
use h2loadrunner.Load.Request.Prepare.Kept.{
  SamePlace, request_of_step-SamePlace, run_post_response_action-Picks,
}

or_stop-below {ℓ} :
    {A : Type ℓ} (xs : List A) (i : ℕ) (s : Stop)
    → Ok (λ x. i < length xs) (or_stop (get_elem? xs i) s)
or_stop-below [] i s = tt
or_stop-below (x ∷ xs) zero s = omega arith
or_stop-below (x ∷ xs) (suc i) s =
    Ok-weaken (λ x'. i < length xs) _ _ (or_stop-below xs i s) λ x' h. omega arith

or_stop-found {ℓ} :
    {A : Type ℓ} (found : Option A) (s : Stop) → Ok (λ x. found ≡ some x) (or_stop found s)
or_stop-found none s = tt
or_stop-found (some x) s = refl

next_below : (i n : ℕ) → i < n → ((i + 1) % n == 0) ≡ false → ((i + 1) % n ≡ suc i) × (suc i < n)
next_below i n h e = grind arith

-- The cookies that a user has for a step: those of the last response are among them only where the step
-- does not say that old cookies are cleared.
abbrev pub cookies_for : Request → RequestData → Jar
cookies_for t finished =
    if t.clear_old_cookies
    then finished.saved_cookies
    else (parse_and_save_cookies finished).saved_cookies

-- The finished request with the user's data as they are for the next step.
abbrev pub with_user_data : Request → RequestData → List Bytes → RequestData
with_user_data t finished values = record finished {
  variable_index_to_value = values;
  saved_cookies = cookies_for t finished;
}

-- A request of the step after the finished one, with the data of the same user.
abbrev pub IsNext : Scenario → RequestData → Request → List Bytes → RequestData → Type 0
IsNext sc finished t values r =
    (r.curr_request_idx ≡ suc finished.curr_request_idx)
    × (r.curr_request_idx < length sc.requests)
    × (get_elem? sc.requests r.curr_request_idx ≡ some t)
    × (r.scenario_index ≡ finished.scenario_index)
    × (r.user_ids ≡ finished.user_ids)
    × (r.saved_cookies ≡ cookies_for t finished)
    × (r.variable_index_to_value ≡ values)

-- What is left of the finished request: with the user's data in a parallel scenario, without in others.
abbrev pub IsLeft : Scenario → RequestData → Request → List Bytes → RequestData → Type 0
IsLeft sc finished t values kept = kept ≡ (
    if sc.run_requests_in_parallel
    then with_user_data t finished values
    else record finished { variable_index_to_value = []; saved_cookies = []; user_ids = [] })

-- Such a request is queued, or nothing is.
abbrev pub StepsOn : ℕ → Scenario → RequestData → Queues → Bool × RequestData × Queues → Type 0
StepsOn now sc finished q (true, kept, q') =
    (t : Request) × (values : List Bytes) × (r : RequestData) × IsNext sc finished t values r
    × IsLeft sc finished t values kept
    × (q' ≡ enqueue_request now finished r q)
StepsOn now sc finished q (false, kept, q') =
    (kept.curr_request_idx ≡ finished.curr_request_idx)
    × (kept.scenario_index ≡ finished.scenario_index)
    × (q' ≡ q)

IsNext-sibling_request :
    (sc : Scenario) (finished : RequestData) (t : Request) (values : List Bytes) (r : RequestData)
    → get_elem? sc.requests (suc finished.curr_request_idx) ≡ some t
    → SamePlace
        (sibling_request
          (with_user_data t finished values)
          finished.scenario_index
          (suc finished.curr_request_idx))
        r
    → suc finished.curr_request_idx < length sc.requests
    → IsNext sc finished t values r
unfolding sibling_request
IsNext-sibling_request sc finished t values r step same h =
    let at : r.curr_request_idx ≡ suc finished.curr_request_idx = ap (λ p. p.0) same in
    (
      at,
      rw at h,
      ap (get_elem? sc.requests) at ∙ step,
      ap (λ p. p.1) same,
      ap (λ p. p.4) same,
      ap (λ p. p.3) same,
      ap (λ p. p.2) same,
    )

IsLeft-give_up_user_data :
    (sc : Scenario) (finished : RequestData) (t : Request) (values : List Bytes)
    → IsLeft sc finished t values (give_up_user_data sc (with_user_data t finished values))
unfolding give_up_user_data
IsLeft-give_up_user_data sc finished t values = refl

give_up_user_data-kept :
    (sc : Scenario) (r : RequestData)
    → let kept = give_up_user_data sc r in
      (kept.curr_request_idx ≡ r.curr_request_idx)
      × (kept.scenario_index ≡ r.scenario_index)
      × (kept.delay_before_executing_next ≡ r.delay_before_executing_next)
unfolding give_up_user_data
give_up_user_data-kept sc r = elim (Bool-cases sc.run_requests_in_parallel) [
  | inl parallel ↦ rw parallel (refl, refl, refl)
  | inr serial ↦ rw serial (refl, refl, refl)
]

-- The delay is all that queueing reads of the finished request.
enqueue_request-same_delay :
    (now : ℕ) (kept finished r : RequestData) (q : Queues)
    → kept.delay_before_executing_next ≡ finished.delay_before_executing_next
    → enqueue_request now kept r q ≡ enqueue_request now finished r q
unfolding enqueue_request
enqueue_request-same_delay now kept finished r q e = rw e refl

queued-StepsOn :
    (now : ℕ) (sc : Scenario) (finished : RequestData) (t : Request) (values : List Bytes)
    (r : RequestData) (q : Queues) (success : Bool)
    → IsNext sc finished t values r
    → let kept = give_up_user_data sc (with_user_data t finished values) in
      StepsOn now sc finished q (success, kept, if success then enqueue_request now kept r q else q)
queued-StepsOn now sc finished t values r q true is_next =
    let left = with_user_data t finished values in
    (
      t,
      values,
      r,
      is_next,
      IsLeft-give_up_user_data sc finished t values,
      enqueue_request-same_delay now (give_up_user_data sc left) finished r q
          (give_up_user_data-kept sc left).2,
    )
queued-StepsOn now sc finished t values r q false is_next =
    let keeps = give_up_user_data-kept sc (with_user_data t finished values) in
    (keeps.0, keeps.1, refl)

queue_next-StepsOn :
    (lib : Library) (now : ℕ) (schema authority : Bytes) (sc : Scenario) (q : Queues)
    (finished : RequestData) (t : Request) (values : List Bytes)
    → get_elem? sc.requests (suc finished.curr_request_idx) ≡ some t
    → suc finished.curr_request_idx < length sc.requests
    → Ok (StepsOn now sc finished q) (
        queue_next lib now schema authority sc q
          (with_user_data t finished values)
          (suc finished.curr_request_idx)
          t)
unfolding queue_next
queue_next-StepsOn lib now schema authority sc q finished t values step h =
    let user = with_user_data t finished values in
    let r0 = sibling_request user finished.scenario_index (suc finished.curr_request_idx) in
    Ok-bind (λ e. SamePlace r0 e.1) (StepsOn now sc finished q)
      (request_of_step lib sc t schema authority (give_up_user_data sc user) r0) _
      (request_of_step-SamePlace lib sc t schema authority (give_up_user_data sc user) r0)
      λ (success, r) same.
        queued-StepsOn now sc finished t values r q success
          (IsNext-sibling_request sc finished t values r step same h)

take_cookies-with_user_data :
    (t : Request) (finished : RequestData) (values : List Bytes)
    → take_cookies t (record finished { variable_index_to_value = values })
      ≡ with_user_data t finished values
unfolding take_cookies parse_and_save_cookies
take_cookies-with_user_data t finished values = elim (Bool-cases t.clear_old_cookies) [
  | inl clears ↦ rw clears refl
  | inr saves ↦ rw saves refl
]

next_step-StepsOn :
    (lib : Library) (now : ℕ) (schema authority : Bytes) (sc : Scenario) (q : Queues)
    (finished : RequestData) (values : List Bytes)
    → finished.curr_request_idx < length sc.requests
    → Ok (StepsOn now sc finished q) (
        next_step lib now schema authority sc q
          (record finished { variable_index_to_value = values }))
unfolding next_step
next_step-StepsOn lib now schema authority sc q finished values h =
    let next = (finished.curr_request_idx + 1) % length sc.requests in
    if_cases (Ok (StepsOn now sc finished q)) (next == 0) _ _ (λ e. (refl, refl, refl))
      λ e.
        let below = next_below finished.curr_request_idx (length sc.requests) h e in
        rw below.0 (
          Ok-bind (λ t. get_elem? sc.requests (suc finished.curr_request_idx) ≡ some t)
            (StepsOn now sc finished q)
            (or_stop (get_elem? sc.requests (suc finished.curr_request_idx)) aborts) _
            (or_stop-found (get_elem? sc.requests (suc finished.curr_request_idx)) aborts)
            λ t step.
              subst
                (λ p.
                  Ok (StepsOn now sc finished q)
                    (queue_next lib now schema authority sc q p (suc finished.curr_request_idx) t))
                (sym (take_cookies-with_user_data t finished values))
                (queue_next-StepsOn lib now schema authority sc q finished t values step below.1))

module _ {Value : Type 0} (lib : Library) (j : Json Value) where
  pub prepare_next_request-StepsOn :
      (now : ℕ) (schema authority : Bytes) (sc : Scenario) (finished : RequestData) (q : Queues)
      → Ok
          (StepsOn now sc finished q)
          (prepare_next_request lib j now schema authority sc finished q)
  unfolding prepare_next_request
  prepare_next_request-StepsOn now schema authority sc finished q =
      Ok-bind (λ t. finished.curr_request_idx < length sc.requests) (StepsOn now sc finished q)
        (or_stop (get_elem? sc.requests finished.curr_request_idx) aborts) _
        (or_stop-below sc.requests finished.curr_request_idx aborts)
        λ last h.
          Ok-bind (λ r. r ≡ record finished { variable_index_to_value = r.variable_index_to_value })
            (StepsOn now sc finished q)
            (run_post_response_action lib j last.actual_regex_value_pickers finished) _
            (run_post_response_action-Picks lib j last.actual_regex_value_pickers finished)
            λ picked same.
              subst
                (λ p. Ok (StepsOn now sc finished q) (next_step lib now schema authority sc q p))
                (sym same)
                (next_step-StepsOn lib now schema authority sc q finished
                  picked.variable_index_to_value h)
