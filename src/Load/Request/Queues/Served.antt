-- ===== src/Load/Request/Queues/Served.antt =====
-- The place of a request in the queue, from its being enqueued until it is taken. Losing the connection
-- clears the queue in base_client.cc, with all that waits in it; that is none of the steps here.
use h2loadrunner.Base.{
  ℕ, zero, suc, ◌+◌, ◌≤◌, ◌≡◌, ◌==◌, ltb, some, List, [], ◌∷◌, ◌++◌, length, get_elem?, arith, ap,
  ◌∙◌, subst, if_cases, if_both, ok, Ok,
}
use mathlib.Core.Option.{some-injective}
use h2loadrunner.Cookie.Jar.{RequestData}
use h2loadrunner.Load.Request.Queues.{
  Queues, enqueue_request, resume_loop, resume_delayed_request_execution, get_request_to_submit,
  take_front, push_front,
}
use h2loadrunner.Load.Request.Queues.Times.{
  TimesSorted, due-insert_delayed, insert_delayed-TimesSorted, resume_loop_lem,
}

-- What may happen to the queues while the connection is there, with the number of the requests that are
-- ahead of one of the queue: more are enqueued, the delayed ones are resumed, another client gives one back
-- to the front, and the first is taken.
pub data Run (q : Queues) (ahead : ℕ) : ℕ → Queues → Type 0 where
  start : Run q ahead ahead q
  enqueued :
      {n : ℕ} {q' : Queues}
      → Run q ahead n q'
      → (now : ℕ) (finished r : RequestData) → Run q ahead n (enqueue_request now finished r q')
  resumed :
      {n : ℕ} {q' : Queues}
      → Run q ahead n q'
      → (now : ℕ) → Run q ahead n (resume_delayed_request_execution now q')
  pushed_front :
      {n : ℕ} {q' : Queues}
      → Run q ahead n q'
      → (r : RequestData) → Run q ahead (suc n) (push_front r q')
  taken :
      {n : ℕ} {q' q'' : Queues} {r : RequestData}
      → Run q ahead (suc n) q'
      → get_request_to_submit q' ≡ ok (r, q'')
      → Run q ahead n q''

get_elem?-front :
    (k : ℕ) (a : RequestData) (xs ys : List RequestData)
    → get_elem? xs k ≡ some a
    → get_elem? (xs ++ ys) k ≡ some a
get_elem?-front k a [] ys h = ground arith
get_elem?-front zero a (x ∷ xs) ys h = h
get_elem?-front (suc k) a (x ∷ xs) ys h = get_elem?-front k a xs ys h

get_elem?-behind :
    (k : ℕ) (xs ys : List RequestData) → get_elem? (xs ++ ys) (length xs + k) ≡ get_elem? ys k
get_elem?-behind k [] ys = ap (get_elem? ys) (omega arith)
get_elem?-behind k (x ∷ xs) ys =
    ap (get_elem? (x ∷ (xs ++ ys))) {y = suc (length xs + k)} (omega arith)
    ∙ get_elem?-behind k xs ys

-- The request at a place in the queue.
abbrev At : ℕ → RequestData → Queues → Type 0
At k r q = get_elem? q.requests_to_submit k ≡ some r

resume_loop-At :
    (now k : ℕ) (r : RequestData) (ready : List RequestData) (m : List (ℕ × RequestData))
    → get_elem? ready k ≡ some r
    → At k r (resume_loop now ready m)
unfolding resume_loop
resume_loop-At now k r ready [] h = h
resume_loop-At now k r ready ((t, s) ∷ m) h =
    if_both (At k r) (ltb now t) _ _ h
      (resume_loop-At now k r (ready ++ (s ∷ [])) m (get_elem?-front k r ready (s ∷ []) h))

enqueue_request-At :
    (now k : ℕ) (finished s r : RequestData) (q : Queues)
    → At k r q
    → At k r (enqueue_request now finished s q)
unfolding enqueue_request
enqueue_request-At now k finished s r q h =
    if_both (At k r) (finished.delay_before_executing_next == 0) _ _
      (get_elem?-front k r q.requests_to_submit (s ∷ []) h) h

take_front-At :
    (k : ℕ) (r : RequestData) (l : List RequestData) (m : List (ℕ × RequestData))
    → get_elem? l (suc k) ≡ some r
    → Ok (λ e. At k r e.1) (take_front l m)
unfolding take_front
take_front-At k r [] m h = tt
take_front-At k r (s ∷ l) m h = h

take_front_first :
    (r : RequestData) (l : List RequestData) (m : List (ℕ × RequestData))
    → get_elem? l 0 ≡ some r
    → (q : Queues) × (take_front l m ≡ ok (r, q))
unfolding take_front
take_front_first r [] m h = absurd (ground arith)
take_front_first r (s ∷ l) m h =
    let rest : Queues = record { requests_to_submit = l; delayed_requests_to_submit = m } in
    (rest, ap (λ a. ok (a, rest)) (some-injective s r h))

-- A request moves up by one place for each that is taken and down by one for each that is pushed to the
-- front, whatever else happens.
pub Run-At :
    (r : RequestData) (q : Queues) (ahead n : ℕ) (q' : Queues)
    → At ahead r q
    → Run q ahead n q'
    → At n r q'
unfolding resume_delayed_request_execution get_request_to_submit push_front
Run-At r q ahead n q' h start = h
Run-At r q ahead n q' h (enqueued {q' = p} run now finished s) =
    enqueue_request-At now n finished s r p (Run-At r q ahead n p h run)
Run-At r q ahead n q' h (resumed {q' = p} run now) =
    resume_loop-At now n r p.requests_to_submit p.delayed_requests_to_submit
      (Run-At r q ahead n p h run)
Run-At r q ahead n q' h (pushed_front {n = k} {q' = p} run s) = Run-At r q ahead k p h run
Run-At r q ahead n q' h (taken {q' = p} {r = s} run e) = subst (Ok (λ a. At n r a.1)) e (
    take_front-At n r p.requests_to_submit p.delayed_requests_to_submit
      (Run-At r q ahead (suc n) p h run))

-- What is enqueued has a place as soon as its time has come.
pub enqueue_request-placed :
    (now later : ℕ) (finished r : RequestData) (q : Queues)
    → TimesSorted q.delayed_requests_to_submit
    → now + finished.delay_before_executing_next ≤ later
    → (n : ℕ) × At n r (resume_delayed_request_execution later (enqueue_request now finished r q))
unfolding resume_delayed_request_execution enqueue_request
enqueue_request-placed now later finished r q s h =
    if_cases (λ p. (n : ℕ) × At n r (resume_delayed_request_execution later p))
      (finished.delay_before_executing_next == 0) _ _
      (λ at_once. (
        length q.requests_to_submit,
        resume_loop-At later (length q.requests_to_submit) r _ q.delayed_requests_to_submit (
            ap (get_elem? (q.requests_to_submit ++ (r ∷ []))) {y = length q.requests_to_submit + 0}
              (omega arith)
            ∙ get_elem?-behind 0 q.requests_to_submit (r ∷ [])),
      ))
      (λ delayed.
        let t = now + finished.delay_before_executing_next in
        let (n, e) = due-insert_delayed later t r q.delayed_requests_to_submit h in
        (
          length q.requests_to_submit + n,
          ap (λ p. get_elem? p.requests_to_submit (length q.requests_to_submit + n))
                (resume_loop_lem later q.requests_to_submit _
                  (insert_delayed-TimesSorted t r q.delayed_requests_to_submit s))
              ∙ get_elem?-behind n q.requests_to_submit _
              ∙ e,
        ))

-- A request that is enqueued keeps its turn while the connection is there: once its delay is over and the
-- delayed requests are resumed, some number of requests is ahead of it; a request that is taken lowers that
-- number by one, one that is pushed to the front raises it by one, and requests that are enqueued or
-- resumed do not change it; it is in the queue with that number ahead, and where none is ahead, it is the
-- next that is taken.
pub enqueue_request-served :
    (now later : ℕ) (finished r : RequestData) (q : Queues)
    → TimesSorted q.delayed_requests_to_submit
    → now + finished.delay_before_executing_next ≤ later
    → (ahead : ℕ) × ((n : ℕ) (q' : Queues)
        → Run (resume_delayed_request_execution later (enqueue_request now finished r q)) ahead n q'
        → (get_elem? q'.requests_to_submit n ≡ some r)
          × (n ≡ 0 → (q'' : Queues) × (get_request_to_submit q' ≡ ok (r, q''))))
unfolding get_request_to_submit
enqueue_request-served now later finished r q s h =
    let (ahead, at) = enqueue_request-placed now later finished r q s h in
    let resumes = resume_delayed_request_execution later (enqueue_request now finished r q) in
    (
      ahead,
      λ n q' run.
          let place = Run-At r resumes ahead n q' at run in
          (
            place,
            λ first.
                take_front_first r q'.requests_to_submit q'.delayed_requests_to_submit
                  (subst (λ i. At i r q') first place),
          ),
    )
