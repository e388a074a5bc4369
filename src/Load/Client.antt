-- ===== src/Load/Client.antt =====
-- A client with the counters of its worker: h2load_stats.h, and the handlers of base_client.cc that
-- send, receive and count requests.
pub mod Changes
pub mod Validate
pub mod Receive
pub mod Submit
pub mod Close
pub mod Lost
pub mod Balance
pub mod Handlers
pub mod Steps
use h2loadrunner.Base.{
  ℕ, zero, suc, ◌==◌, ltb, if◌then◌else◌, Bool, true, false, not, ◌&&◌, ◌||◌, Option, none, some,
  List, [], ◌∷◌, get_elem?,
}
use h2loadrunner.Text.Decimal.{ℤ}
use h2loadrunner.Cookie.Jar.{RequestData}
use h2loadrunner.Load.Variable.{add64, sub64}
use h2loadrunner.Load.Request.Queues.{Queues}

pub data Phase : Type 0 where
  initial_idle warm_up main_duration main_duration_graceful_shutdown duration_over : Phase

-- The value of the enumerator.
abbrev pub phase_value : Phase → ℕ
phase_value initial_idle = 0
phase_value warm_up = 1
phase_value main_duration = 2
phase_value main_duration_graceful_shutdown = 3
phase_value duration_over = 4

abbrev pub is_main : Phase → Bool
is_main p = phase_value p == 2

abbrev pub is_measured : Phase → Bool
is_measured p = is_main p || (phase_value p == 3)

-- `Stats`, the counters of requests and bytes.
pub record Stats : Type 0 where
  pub req_started : ℕ
  pub req_done : ℕ
  pub req_success : ℕ
  pub req_status_success : ℕ
  pub req_failed : ℕ
  pub req_error : ℕ
  pub req_timedout : ℕ
  pub bytes_head : ℕ
  pub bytes_head_decomp : ℕ
  pub bytes_body : ℕ
  pub status : List ℕ

-- `Stream`; `status_success` is -1 until the response was validated.
pub record Stream : Type 0 where
  pub status : ℕ
  pub data_offset : ℤ
  pub status_success : Option Bool
  pub statistics_eligible : Bool

-- What of the configuration the counting depends on, and the place of a client among the others.
pub record Setting : Type 0 where
  pub is_timing_based_mode : Bool
  pub rps_mode : Bool
  pub timing_script : Bool
  pub connection_retry_on_disconnect : Bool
  pub is_controller_client : Bool
  pub number_of_dest_clients : ℕ

-- A client, with the phase and the counters of its worker, and the callbacks of sent requests that it
-- has called, each with its stream.
pub record Client : Type 0 where
  pub setting : Setting
  pub current_phase : Phase
  pub stats : Stats
  pub scenario_stats : List (List Stats)
  pub req_left : ℕ
  pub req_inflight : ℕ
  pub req_started : ℕ
  pub req_done : ℕ
  pub rps_req_pending : ℕ
  pub rps_req_inflight : ℕ
  pub client_req_success : ℕ
  pub new_connection_requested : Bool
  pub streams : List (ℕ × Stream)
  pub requests_awaiting_response : List (ℕ × RequestData)
  pub stream_timestamp : List (ℕ × ℕ)
  pub queues : Queues
  pub sent_callbacks : List (ℕ × ℕ)

-- Maps from the identifiers of streams.
unfoldable pub find_at {ℓ} : {A : Type ℓ} → ℕ → List (ℕ × A) → Option A
find_at id [] = none
find_at id ((k, a) ∷ m) = let found = find_at id m in if k == id then some a else found

unfoldable pub erase_at {ℓ} : {A : Type ℓ} → ℕ → List (ℕ × A) → List (ℕ × A)
erase_at id [] = []
erase_at id ((k, a) ∷ m) = let rest = erase_at id m in if k == id then rest else (k, a) ∷ rest

unfoldable pub change_at {ℓ} : {A : Type ℓ} → ℕ → (A → A) → List (ℕ × A) → List (ℕ × A)
change_at id f [] = []
change_at id f ((k, a) ∷ m) =
    let rest = change_at id f m in if k == id then (k, f a) ∷ m else (k, a) ∷ rest

-- A change of an element of a vector; nothing is changed past the end.
unfoldable pub change {ℓ} : {A : Type ℓ} → ℕ → (A → A) → List A → List A
change i f [] = []
change zero f (a ∷ more) = f a ∷ more
change (suc i) f (a ∷ more) = a ∷ change i f more

unfoldable pub is_test_finished : Client → Bool
is_test_finished c =
    if (c.req_left == 0) || ltb 2 (phase_value c.current_phase) then true else false

unfoldable pub should_reconnect_on_disconnect : Client → Bool
unfolding is_test_finished
should_reconnect_on_disconnect c =
    if not (is_test_finished c)
    then (if c.setting.is_controller_client && ltb 1 c.setting.number_of_dest_clients
        then true
        else if c.setting.connection_retry_on_disconnect
        then true
        else false)
    else false

-- A number of requests that failed by errors of the network.
unfoldable pub count_errors : ℕ → Stats → Stats
count_errors n s = record s { req_failed = add64 s.req_failed n; req_error = add64 s.req_error n }

-- The counting at the end of `submit_request`, for the request of a scenario and a step.
unfoldable pub count_started : ℕ → ℕ → Client → Client
count_started scenario_index request_index c =
    if not (is_main c.current_phase)
    then c
    else if not c.setting.is_controller_client
    then c
    else record c {
      stats = record c.stats { req_started = add64 c.stats.req_started 1 };
      req_started = add64 c.req_started 1;
      req_inflight = add64 c.req_inflight 1;
      req_left = (if c.setting.is_timing_based_mode then c.req_left else sub64 c.req_left 1);
      scenario_stats =
          change scenario_index
            (change request_index (λ s. record s { req_started = add64 s.req_started 1 }))
            c.scenario_stats;
    }
