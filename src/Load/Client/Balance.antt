-- ===== src/Load/Client/Balance.antt =====
-- The counters of requests agree with each other, whatever happens to a client.
use h2loadrunner.Base.{
  elim_both, if_both, arith, ℕ, zero, suc, ◌≡◌, ltb, Bool, true, false, not, Option, none, some,
  List, [], ◌∷◌, All,
}
use h2loadrunner.Cookie.Jar.{RequestData}
use h2loadrunner.Load.Variable.{add64}
use h2loadrunner.Load.Client.{
  Client, Stats, Stream, change, count_errors, count_started, find_at, is_main, is_measured,
}
use h2loadrunner.Load.Client.Validate.{count_status, count_scenario_status}
use h2loadrunner.Load.Client.Close.{
  count_outcome, count_closed, count_inflight, measure, update_scenario_based_stats,
}

-- Every request that succeeds or fails by an error of the network is one that has the expected status or
-- failed. The counters are 64 bits wide.
abbrev pub IsBalanced : Stats → Type 0
IsBalanced s = add64 s.req_failed s.req_status_success ≡ add64 s.req_error s.req_success

-- In the counters of a step, which only count finished requests, these are the finished ones.
abbrev pub IsPartition : Stats → Type 0
IsPartition s = IsBalanced s × (s.req_done ≡ add64 s.req_error s.req_success)

abbrev pub AllBalanced : Client → Type 0
AllBalanced c = IsBalanced c.stats × All (All IsPartition) c.scenario_stats

pub count_errors-IsBalanced : (n : ℕ) (s : Stats) → IsBalanced s → IsBalanced (count_errors n s)
unfolding count_errors
count_errors-IsBalanced n s h = omega arith

count_outcome-IsBalanced :
    (success status_success : Bool) (s : Stats)
    → IsBalanced s
    → IsBalanced (count_outcome success status_success s)
unfolding count_outcome
count_outcome-IsBalanced true true s h = omega arith
count_outcome-IsBalanced true false s h = omega arith
count_outcome-IsBalanced false b s h = omega arith

count_outcome-IsPartition :
    (success status_success : Bool) (s : Stats)
    → IsPartition s
    → IsPartition (count_outcome success status_success s)
unfolding count_outcome
count_outcome-IsPartition true true s h = (omega arith, omega arith)
count_outcome-IsPartition true false s h = (omega arith, omega arith)
count_outcome-IsPartition false b s h = (omega arith, omega arith)

All-change {ℓ κ} :
    {A : Type ℓ} (P : A → Type κ) (f : A → A)
    → ((a : A) → P a → P (f a))
    → (i : ℕ) (l : List A) → All P l
    → All P (change i f l)
unfolding change
All-change P f k i [] h = tt
All-change P f k zero (a ∷ l) h = (k a h.0, h.1)
All-change P f k (suc i) (a ∷ l) h = (h.0, All-change P f k i l h.1)

pub AllBalanced-count_scenario_status :
    (status : ℕ) (r : RequestData) (c : Client)
    → AllBalanced c
    → AllBalanced (count_scenario_status status r c)
unfolding count_scenario_status count_status
AllBalanced-count_scenario_status status r c h = (
  h.0,
  All-change _ _ (All-change IsPartition _ (λ s p. if_both IsPartition (ltb status 600) _ _ p p) _)
      _ _ h.1,
)

AllBalanced-count_closed :
    (success : Bool) (s : Stream) (finished : Option RequestData) (c : Client)
    → AllBalanced c
    → AllBalanced (count_closed success s finished c)
unfolding count_closed update_scenario_based_stats
AllBalanced-count_closed success s finished c h = (
  count_outcome-IsBalanced success _ c.stats h.0,
  elim_both (All (All IsPartition)) finished _ _ h.1 λ r.
      All-change _ _ (All-change IsPartition _ (count_outcome-IsPartition success _) _) _ _ h.1,
)

pub AllBalanced-count_started :
    (scenario_index request_index : ℕ) (c : Client)
    → AllBalanced c
    → AllBalanced (count_started scenario_index request_index c)
unfolding count_started
AllBalanced-count_started scenario_index request_index c h =
    if_both AllBalanced (not (is_main c.current_phase)) _ _ h (
      if_both AllBalanced (not c.setting.is_controller_client) _ _ h
        (h.0, All-change _ _ (All-change IsPartition _ (λ s p. p) _) _ _ h.1))

-- What of a client may be missing.
abbrev pub BalancedIf : Option Client → Type 0
BalancedIf none = Unit
BalancedIf (some c) = AllBalanced c

pub BalancedIf-measure :
    (stream_id : ℕ) (success : Bool) (c : Client)
    → AllBalanced c
    → BalancedIf (measure stream_id success c)
unfolding measure count_inflight
BalancedIf-measure stream_id success c h =
    if_both BalancedIf (not (is_measured c.current_phase)) _ _ h (
      elim_both BalancedIf (find_at stream_id c.streams) _ _ tt λ s.
        if_both BalancedIf s.statistics_eligible _ _
          (AllBalanced-count_closed success s _ (count_inflight c) h) h)
