-- ===== src/Load/Client/Lost.antt =====
-- Requests that get no response: streams that are abandoned or time out, connections that fail.
use h2loadrunner.Base.{◌==◌, if◌then◌else◌, Bool, true, false, not, ◌||◌}
use h2loadrunner.Load.Variable.{add64}
use h2loadrunner.Load.Client.{
  Client, warm_up, is_main, phase_value, is_test_finished, should_reconnect_on_disconnect,
  count_errors,
}

unfoldable pub process_abandoned_streams : Client → Client
process_abandoned_streams c =
    if not (is_main c.current_phase)
    then c
    else if should_reconnect_on_disconnect c
    then record c { stats = count_errors c.req_inflight c.stats; req_inflight = 0 }
    else record c {
      stats = count_errors (add64 c.req_inflight c.req_left) c.stats;
      req_left = 0;
      req_inflight = 0;
    }

unfoldable pub process_timedout_streams : Client → Client
unfolding process_abandoned_streams
process_timedout_streams c =
    if not (is_main c.current_phase)
    then c
    else process_abandoned_streams (record c {
      stats = record c.stats { req_timedout = add64 c.stats.req_timedout c.req_inflight };
    })

-- `process_request_failure`, where `exhausted` says that the error is MAX_STREAM_TO_BE_EXHAUSTED: the
-- connection is then started again.
unfoldable pub process_request_failure : Bool → Client → Client
process_request_failure exhausted c =
    if not (is_main c.current_phase)
    then c
    else let counted = record c { stats = count_errors c.req_left c.stats } in
      if exhausted
      then counted
      else if not (should_reconnect_on_disconnect counted)
      then record counted { req_left = 0 }
      else counted

-- The start of a connection, which the asynchronous part may refuse.
unfoldable pub connect : Bool → Client → Bool × Client
connect made c =
    if is_test_finished c
    then (false, c)
    else if not c.setting.is_timing_based_mode || is_main c.current_phase
    then (made, c)
    else if phase_value c.current_phase == 0
    then (made, record c { current_phase = warm_up })
    else (made, c)

-- Requests under way fail before the client connects again.
unfoldable pub give_up_inflight : Client → Client
give_up_inflight c =
    if is_main c.current_phase
    then record c { stats = count_errors c.req_inflight c.stats; req_inflight = 0 }
    else c

-- Whether the client goes on with a new connection.
unfoldable pub try_again_or_fail : Bool → Client → Bool × Client
unfolding give_up_inflight connect process_abandoned_streams
try_again_or_fail made c =
    if not c.new_connection_requested
    then (false, process_abandoned_streams c)
    else let again = record c { new_connection_requested = false } in
      if again.req_left == 0
      then (false, process_abandoned_streams again)
      else let (connected, c') = connect made (give_up_inflight again) in
        if connected then (true, c') else (false, process_abandoned_streams c')

-- `fail`, after the connection is closed.
unfoldable pub fail : Client → Client
unfolding process_abandoned_streams
fail c = process_abandoned_streams c

unfoldable pub timeout : Client → Client
unfolding process_timedout_streams
timeout c = if should_reconnect_on_disconnect c then c else process_timedout_streams c
