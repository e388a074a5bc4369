-- ===== src/Load/Totals.antt =====
-- The totals that h2load.cc reports: the counters of the workers added up, and the requests that were
-- never issued.
use h2loadrunner.Base.{arith, ℕ, ◌+◌, ◌%◌, ◌^◌, ◌≡◌, ◌<◌, refl, ap, ◌∙◌, List, [], ◌∷◌, All}
use h2loadrunner.Load.Variable.{add64, sub64}
use h2loadrunner.Load.Client.{Stats, count_errors}
use h2loadrunner.Load.Client.Balance.{IsBalanced}

-- The counters of a worker, with the number of requests it was to make.
pub record WorkerStats : Type 0 where
  pub req_todo : ℕ
  pub stats : Stats

-- `Stats stats(0, 0)`.
unfoldable pub no_stats : WorkerStats
no_stats = record {
  req_todo = 0;
  stats = record {
    req_started = 0;
    req_done = 0;
    req_success = 0;
    req_status_success = 0;
    req_failed = 0;
    req_error = 0;
    req_timedout = 0;
    bytes_head = 0;
    bytes_head_decomp = 0;
    bytes_body = 0;
    status = 0 ∷ 0 ∷ 0 ∷ 0 ∷ 0 ∷ 0 ∷ [];
  };
}

-- `stats.status[i] += s.status[i]`.
add_statuses : List ℕ → List ℕ → List ℕ
add_statuses (n ∷ ns) (k ∷ ks) = add64 n k ∷ add_statuses ns ks
add_statuses ns _ = ns

unfoldable pub add_worker : WorkerStats → WorkerStats → WorkerStats
unfolding add_statuses
add_worker t w = record {
  req_todo = add64 t.req_todo w.req_todo;
  stats = record {
    req_started = add64 t.stats.req_started w.stats.req_started;
    req_done = add64 t.stats.req_done w.stats.req_done;
    req_success = add64 t.stats.req_success w.stats.req_success;
    req_status_success = add64 t.stats.req_status_success w.stats.req_status_success;
    req_failed = add64 t.stats.req_failed w.stats.req_failed;
    req_error = add64 t.stats.req_error w.stats.req_error;
    req_timedout = add64 t.stats.req_timedout w.stats.req_timedout;
    bytes_head = add64 t.stats.bytes_head w.stats.bytes_head;
    bytes_head_decomp = add64 t.stats.bytes_head_decomp w.stats.bytes_head_decomp;
    bytes_body = add64 t.stats.bytes_body w.stats.bytes_body;
    status = add_statuses t.stats.status w.stats.status;
  };
}

-- The loop over the workers.
unfoldable pub add_workers : WorkerStats → List WorkerStats → WorkerStats
unfolding add_worker
add_workers t [] = t
add_workers t (w ∷ ws) = add_workers (add_worker t w) ws

-- Requests that were not issued are counted as failed by an error.
unfoldable pub count_not_issued : WorkerStats → WorkerStats
count_not_issued t = record t {
  stats =
      count_errors (sub64 (sub64 t.req_todo t.stats.req_status_success) t.stats.req_failed) t.stats;
}

unfoldable pub report : List WorkerStats → WorkerStats
unfolding add_workers no_stats count_not_issued
report ws = count_not_issued (add_workers no_stats ws)

-- The number of requests that the workers were to make, which all fit into 64 bits.
unfoldable pub requests_todo : List WorkerStats → ℕ
requests_todo [] = 0
requests_todo (w ∷ ws) = w.req_todo + requests_todo ws

add_workers-IsBalanced :
    (ws : List WorkerStats) (t : WorkerStats)
    → All (λ w. IsBalanced w.stats) ws
    → IsBalanced t.stats
    → IsBalanced (add_workers t ws).stats
unfolding add_workers add_worker
add_workers-IsBalanced [] t h k = k
add_workers-IsBalanced (w ∷ ws) t h k =
    add_workers-IsBalanced ws (add_worker t w) h.1 (let h0 = h.0 in omega arith)

add_workers-req_todo :
    (ws : List WorkerStats) (t : WorkerStats)
    → (add_workers t ws).req_todo % 2 ^ 64 ≡ (t.req_todo + requests_todo ws) % 2 ^ 64
unfolding add_workers add_worker requests_todo
add_workers-req_todo [] t = ap (λ n. n % 2 ^ 64) (omega arith)
add_workers-req_todo (w ∷ ws) t = add_workers-req_todo ws (add_worker t w) ∙ omega arith

-- Counters that fit into 64 bits.
abbrev Fits : Stats → Type 0
Fits s = (s.req_status_success < 2 ^ 64) × (s.req_failed < 2 ^ 64)

add64-below : (a b : ℕ) → add64 a b < 2 ^ 64
add64-below a b = omega arith

Fits-add_workers :
    (ws : List WorkerStats) (t : WorkerStats) → Fits t.stats → Fits (add_workers t ws).stats
unfolding add_workers add_worker
Fits-add_workers [] t h = h
Fits-add_workers (w ∷ ws) t h = Fits-add_workers ws (add_worker t w) (
  add64-below t.stats.req_status_success w.stats.req_status_success,
  add64-below t.stats.req_failed w.stats.req_failed,
)

not_issued :
    (todo status_success failed error success : ℕ)
    → status_success < 2 ^ 64
    → failed < 2 ^ 64
    → add64 failed status_success ≡ add64 error success
    → (add64 (add64 failed (sub64 (sub64 todo status_success) failed)) status_success
        ≡ todo % 2 ^ 64)
      × (add64 (add64 error (sub64 (sub64 todo status_success) failed)) success ≡ todo % 2 ^ 64)
not_issued todo status_success failed error success hs hf h = (omega arith, omega arith)

-- Where the counters of each worker agree, each request that was to be made is reported as one with the
-- expected status or as failed, and as one that succeeded or as one with an error.
pub report_accounts :
    (ws : List WorkerStats)
    → All (λ w. IsBalanced w.stats) ws
    → (add64 (report ws).stats.req_failed (report ws).stats.req_status_success
        ≡ requests_todo ws % 2 ^ 64)
      × (add64 (report ws).stats.req_error (report ws).stats.req_success
          ≡ requests_todo ws % 2 ^ 64)
unfolding report count_not_issued count_errors no_stats
report_accounts ws h =
    let t = add_workers no_stats ws in
    let fits = Fits-add_workers ws no_stats (omega arith, omega arith) in
    let counted =
      not_issued t.req_todo t.stats.req_status_success t.stats.req_failed t.stats.req_error
        t.stats.req_success fits.0 fits.1 (add_workers-IsBalanced ws no_stats h refl) in
    let todo : t.req_todo % 2 ^ 64 ≡ requests_todo ws % 2 ^ 64 =
      add_workers-req_todo ws no_stats ∙ ap (λ n. n % 2 ^ 64) (omega arith) in
    (counted.0 ∙ todo, counted.1 ∙ todo)
