-- ===== src/Load/Distribution.antt =====
-- How h2load.cc hands out requests and clients to its workers, and base_worker.cc the requests of a worker
-- to its clients.
use h2loadrunner.Base.{
  if_both, arith, ℕ, zero, suc, ◌+◌, ◌-◌, ◌*◌, ◌/◌, ◌%◌, ◌^◌, ◌≤◌, ◌<◌, ◌≡◌, refl, sym, ap, ap₂,
  ◌∙◌, ltb, if◌then◌else◌, Bool, false, List, [], ◌∷◌, length, All, Bool-cases, inl, inr,
}
use native.Mathlib.Nat.{div-add-mod, mod-lt}
use h2loadrunner.Mock.Group.Draw.{sum}

-- The loop over the takers: each gets its part, and one of what remains as long as there is some.
unfoldable pub hand_out : ℕ → ℕ → ℕ → List ℕ
hand_out zero part remaining = []
hand_out (suc n) part remaining =
    let fewer = hand_out n part (remaining - 1) in
    let none_left = hand_out n part remaining in
    if ltb 0 remaining then (part + 1) ∷ fewer else part ∷ none_left

-- The shares of a number for some takers.
unfoldable pub shares : ℕ → ℕ → List ℕ
unfolding hand_out
shares total takers = hand_out takers (total / takers) (total % takers)

-- What each worker gets: with a timing script, each client makes all the requests.
unfoldable pub worker_requests : Bool → ℕ → List ℕ → List ℕ → List ℕ
worker_requests timing_script nreqs (nclients ∷ more) (share ∷ other_shares) =
    (if timing_script then nreqs * nclients % 2 ^ 64 else share)
    ∷ worker_requests timing_script nreqs more other_shares
worker_requests timing_script nreqs _ _ = []

-- `req_todo` of the clients of each worker.
unfoldable pub client_requests : List ℕ → List ℕ → List (List ℕ)
unfolding shares
client_requests (nreqs ∷ more) (nclients ∷ more_clients) =
    shares nreqs nclients ∷ client_requests more more_clients
client_requests _ _ = []

unfoldable pub distribute : Bool → ℕ → ℕ → ℕ → List (List ℕ)
unfolding client_requests worker_requests shares
distribute timing_script nreqs nclients nthreads =
    let clients = shares nclients nthreads in
    client_requests (worker_requests timing_script nreqs clients (shares nreqs nthreads)) clients

abbrev pub total : List (List ℕ) → ℕ
total [] = 0
total (ns ∷ more) = sum ns + total more

sum-hand_out :
    (n part remaining : ℕ) → remaining ≤ n → sum (hand_out n part remaining) ≡ n * part + remaining
unfolding hand_out
sum-hand_out zero part remaining h = omega arith
sum-hand_out (suc n) part remaining h =
    let fewer = sum-hand_out n part (remaining - 1) (omega arith) in
    let none_left = sum-hand_out n part 0 (omega arith) in
    let more : suc n * part ≡ part + n * part = grind arith in
    elim (Bool-cases (ltb 0 remaining)) [
      | inl some_left ↦ ground (arith, fewer, more)
      | inr nothing_left ↦
          let zero_left : remaining ≡ 0 = ground arith in
          rw zero_left (ground (arith, none_left, more))
    ]

div_pos : (n k : ℕ) → 0 < k → k ≤ n → 0 < n / k
div_pos n k h e = let below = mod-lt n h in let whole = div-add-mod n k in grind arith

sum-shares : (n takers : ℕ) → 0 < takers → sum (shares n takers) ≡ n
unfolding shares
sum-shares n takers h =
    let below = mod-lt n h in
    sum-hand_out takers (n / takers) (n % takers) (omega arith) ∙ div-add-mod n takers

length-hand_out : (n part remaining : ℕ) → length (hand_out n part remaining) ≡ n
unfolding hand_out
length-hand_out zero part remaining = refl
length-hand_out (suc n) part remaining =
    ground (arith, length-hand_out n part (remaining - 1), length-hand_out n part remaining)

All-hand_out : (n part remaining : ℕ) → 0 < part → All (λ k. 0 < k) (hand_out n part remaining)
unfolding hand_out
All-hand_out zero part remaining h = tt
All-hand_out (suc n) part remaining h =
    if_both (All (λ k. 0 < k)) (ltb 0 remaining) _ _
      (omega arith, All-hand_out n part (remaining - 1) h) (h, All-hand_out n part remaining h)

total-client_requests :
    (rs cs : List ℕ)
    → length rs ≡ length cs
    → All (λ k. 0 < k) cs
    → total (client_requests rs cs) ≡ sum rs
unfolding client_requests
total-client_requests [] [] e a = refl
total-client_requests [] (c ∷ cs) e a = absurd (omega arith)
total-client_requests (r ∷ rs) [] e a = absurd (omega arith)
total-client_requests (r ∷ rs) (c ∷ cs) e a =
    ap₂ ◌+◌ (sum-shares r c a.0) (total-client_requests rs cs (omega arith) a.1)

worker_requests-false :
    (nreqs : ℕ) (cs ss : List ℕ) → length cs ≡ length ss → worker_requests false nreqs cs ss ≡ ss
unfolding worker_requests
worker_requests-false nreqs [] [] e = refl
worker_requests-false nreqs [] (s ∷ ss) e = absurd (omega arith)
worker_requests-false nreqs (c ∷ cs) [] e = absurd (omega arith)
worker_requests-false nreqs (c ∷ cs) (s ∷ ss) e =
    ap (◌∷◌ s) (worker_requests-false nreqs cs ss (omega arith))

-- Without a timing script, and with a client at least for each thread, the clients of all workers together
-- get the requests that are asked for.
pub total-distribute :
    (nreqs nclients nthreads : ℕ)
    → 0 < nthreads
    → nthreads ≤ nclients
    → total (distribute false nreqs nclients nthreads) ≡ nreqs
unfolding distribute shares
total-distribute nreqs nclients nthreads some_threads enough =
    let clients = shares nclients nthreads in
    let lengths : length (shares nreqs nthreads) ≡ length clients =
      length-hand_out nthreads _ _ ∙ sym (length-hand_out nthreads _ _) in
    let parts =
      All-hand_out nthreads (nclients / nthreads) (nclients % nthreads)
        (div_pos nclients nthreads some_threads enough) in
    ap (λ rs. total (client_requests rs clients))
      (worker_requests-false nreqs clients (shares nreqs nthreads) (sym lengths))
    ∙ (total-client_requests (shares nreqs nthreads) clients lengths parts
        ∙ sum-shares nreqs nthreads some_threads)
