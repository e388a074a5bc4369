-- ===== src/Load/Request/Queues.antt =====
-- The queues of requests: `enqueue_request`, `resume_delayed_request_execution`,
-- `get_request_to_submit`, and what other clients give back.
pub mod Times
pub mod Served
use h2loadrunner.Base.{
  ℕ, ◌+◌, ◌==◌, ltb, if◌then◌else◌, List, [], ◌∷◌, ◌++◌, Outcome, ok, stop, aborts,
}
use h2loadrunner.Cookie.Jar.{RequestData}

-- The queues of the controller client; the delayed requests are in the order of their times.
pub record Queues : Type 0 where
  pub requests_to_submit : List RequestData
  pub delayed_requests_to_submit : List (ℕ × RequestData)

-- `multimap::insert`: behind the entries of the same time.
unfoldable pub insert_delayed {ℓ} : {A : Type ℓ} → ℕ → A → List (ℕ × A) → List (ℕ × A)
insert_delayed t r [] = (t, r) ∷ []
insert_delayed t r ((u, s) ∷ m) =
    if ltb t u then (t, r) ∷ ((u, s) ∷ m) else (u, s) ∷ insert_delayed t r m

-- `enqueue_request` at a time, in milliseconds.
unfoldable pub enqueue_request : ℕ → RequestData → RequestData → Queues → Queues
unfolding insert_delayed
enqueue_request now finished r q =
    if finished.delay_before_executing_next == 0
    then record q { requests_to_submit = q.requests_to_submit ++ (r ∷ []) }
    else record q {
      delayed_requests_to_submit =
          insert_delayed (now + finished.delay_before_executing_next) r
            q.delayed_requests_to_submit;
    }

-- The loop over the delayed requests whose time has come.
unfoldable pub resume_loop : ℕ → List RequestData → List (ℕ × RequestData) → Queues
resume_loop now ready [] = record { requests_to_submit = ready; delayed_requests_to_submit = [] }
resume_loop now ready ((t, r) ∷ m) =
    let rest = resume_loop now (ready ++ (r ∷ [])) m in
    if ltb now t
    then record { requests_to_submit = ready; delayed_requests_to_submit = (t, r) ∷ m }
    else rest

unfoldable pub resume_delayed_request_execution : ℕ → Queues → Queues
unfolding resume_loop
resume_delayed_request_execution now q =
    resume_loop now q.requests_to_submit q.delayed_requests_to_submit

-- What another client of the controller gives back when it is connected, for the front of the queue.
unfoldable pub push_front : RequestData → Queues → Queues
push_front r q = record q { requests_to_submit = r ∷ q.requests_to_submit }

-- The first of the requests to submit; the process ends where there is none.
unfoldable pub take_front :
    List RequestData → List (ℕ × RequestData) → Outcome (RequestData × Queues)
take_front [] delayed = stop aborts
take_front (r ∷ rest) delayed =
    ok (r, record { requests_to_submit = rest; delayed_requests_to_submit = delayed })

unfoldable pub get_request_to_submit : Queues → Outcome (RequestData × Queues)
unfolding take_front
get_request_to_submit q = take_front q.requests_to_submit q.delayed_requests_to_submit
