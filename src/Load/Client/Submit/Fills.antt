-- ===== src/Load/Client/Submit/Fills.antt =====
-- How many requests the timer of the rate submits.
use h2loadrunner.Base.{ℕ, suc, ◌≡◌, ◌==◌, false, List, length, Outcome, ok}
use h2loadrunner.Cookie.Jar.{RequestData}
use h2loadrunner.Load.Variable.{add64, sub64}
use h2loadrunner.Load.Request.Queues.{Queues}
use h2loadrunner.Load.Client.{
  Client, Phase, Setting, Stream, phase_value, main_duration_graceful_shutdown,
}
use h2loadrunner.Load.Session.{RetCode, submitted}

-- What of a client the timer looks at, apart from the number of requests that are due.
abbrev Seen : Type 0
Seen = List (ℕ × Stream) × Setting × Phase × ℕ

abbrev seen : Client → Seen
seen c = (c.streams, c.setting, c.current_phase, c.req_left)

-- The phase in which nothing is submitted any more is not there.
abbrev pub IsGoing : Client → Type 0
IsGoing c = (phase_value c.current_phase == phase_value main_duration_graceful_shutdown) ≡ false

module _ (session_submit : Client → Outcome (RetCode × Client))
    (first : Client → Outcome (RequestData × Queues))
    (opens : (c : Client)
      → (c' : Client) × (session_submit c ≡ ok (submitted, c'))
        × (length c'.streams ≡ suc (length c.streams))
        × (c'.current_phase ≡ c.current_phase))
    (makes : (c : Client) → (e : RequestData × Queues) × (first c ≡ ok e)) where
  -- The client for the next round.
  abbrev again : Client → Client
  again c = record c {
    rps_req_inflight = add64 c.rps_req_inflight 1;
    rps_req_pending = sub64 c.rps_req_pending 1;
  }
