-- ===== src/Load/Client/Handlers.antt =====
-- The handlers of a client that count failures and timeouts keep its counters in agreement.
use h2loadrunner.Base.{elim_both, if_both, arith, ℕ, ◌==◌, ltb, Bool, false, not, List, [], ◌∷◌}
use h2loadrunner.Load.Client.{
  Client, count_errors, find_at, is_main, should_reconnect_on_disconnect,
}
use h2loadrunner.Load.Client.Receive.{reset_stream, reset_loop}
use h2loadrunner.Load.Client.Lost.{
  process_abandoned_streams, process_timedout_streams, process_request_failure, connect,
  try_again_or_fail, timeout, give_up_inflight,
}
use h2loadrunner.Load.Client.Balance.{AllBalanced, count_errors-IsBalanced}

pub AllBalanced-process_abandoned_streams :
    (c : Client) → AllBalanced c → AllBalanced (process_abandoned_streams c)
unfolding process_abandoned_streams
AllBalanced-process_abandoned_streams c h =
    if_both AllBalanced (not (is_main c.current_phase)) _ _ h (
      if_both AllBalanced (should_reconnect_on_disconnect c) _ _
        (count_errors-IsBalanced _ c.stats h.0, h.1) (count_errors-IsBalanced _ c.stats h.0, h.1))

pub AllBalanced-process_timedout_streams :
    (c : Client) → AllBalanced c → AllBalanced (process_timedout_streams c)
unfolding process_timedout_streams
AllBalanced-process_timedout_streams c h =
    if_both AllBalanced (not (is_main c.current_phase)) _ _ h
      (AllBalanced-process_abandoned_streams _ h)

pub AllBalanced-process_request_failure :
    (exhausted : Bool) (c : Client)
    → AllBalanced c
    → AllBalanced (process_request_failure exhausted c)
unfolding process_request_failure
AllBalanced-process_request_failure exhausted c h =
    let counted = record c { stats = count_errors c.req_left c.stats } in
    let h' : AllBalanced counted = (count_errors-IsBalanced _ c.stats h.0, h.1) in
    if_both AllBalanced (not (is_main c.current_phase)) _ _ h (
      if_both AllBalanced exhausted _ _ h'
        (if_both AllBalanced (not (should_reconnect_on_disconnect counted)) _ _ h' h'))

pub AllBalanced-reset_stream :
    (id : ℕ) (c : Client) (reset : List ℕ)
    → AllBalanced c
    → AllBalanced (reset_stream id (c, reset)).0
unfolding reset_stream
AllBalanced-reset_stream id c reset h =
    elim_both (λ (e : Client × List ℕ). AllBalanced e.0) (find_at id c.streams) _ _ h
      λ s. if_both AllBalanced s.statistics_eligible _ _ h h

pub AllBalanced-reset_loop :
    (now : ℕ) (m : List (ℕ × ℕ)) (c : Client) (reset : List ℕ)
    → AllBalanced c
    → AllBalanced (reset_loop now m (c, reset)).0
unfolding reset_loop
AllBalanced-reset_loop now [] c reset h = h
AllBalanced-reset_loop now ((t, id) ∷ m) c reset h =
    if_both (λ (e : Client × List ℕ). AllBalanced e.0) (ltb now t) _ _ h
      (AllBalanced-reset_loop now m (reset_stream id (c, reset)).0 (reset_stream id (c, reset)).1
        (AllBalanced-reset_stream id c reset h))

pub AllBalanced-timeout : (c : Client) → AllBalanced c → AllBalanced (timeout c)
unfolding timeout
AllBalanced-timeout c h =
    if_both AllBalanced (should_reconnect_on_disconnect c) _ _ h
      (AllBalanced-process_timedout_streams c h)

pub AllBalanced-connect :
    (made : Bool) (c : Client) → AllBalanced c → AllBalanced (connect made c).1
unfolding connect
AllBalanced-connect made c h = ground arith

pub AllBalanced-give_up_inflight : (c : Client) → AllBalanced c → AllBalanced (give_up_inflight c)
unfolding give_up_inflight
AllBalanced-give_up_inflight c h =
    if_both AllBalanced (is_main c.current_phase) _ _ (count_errors-IsBalanced _ c.stats h.0, h.1) h

abbrev pub AllBalancedAfter : Bool × Client → Type 0
AllBalancedAfter (b, c) = AllBalanced c

pub AllBalanced-try_again_or_fail :
    (made : Bool) (c : Client) → AllBalanced c → AllBalanced (try_again_or_fail made c).1
unfolding try_again_or_fail
AllBalanced-try_again_or_fail made c h =
    let again = record c { new_connection_requested = false } in
    let tried = connect made (give_up_inflight again) in
    let h' =
      AllBalanced-connect made (give_up_inflight again) (AllBalanced-give_up_inflight again h) in
    if_both AllBalancedAfter (not c.new_connection_requested) _ _
      (AllBalanced-process_abandoned_streams c h)
      (if_both AllBalancedAfter (c.req_left == 0) _ _
        (AllBalanced-process_abandoned_streams again h)
        (if_both AllBalancedAfter tried.0 _ _ h'
          (AllBalanced-process_abandoned_streams tried.1 h')))
