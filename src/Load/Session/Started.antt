-- ===== src/Load/Session/Started.antt =====
-- A request that is put under a new stream.
use h2loadrunner.Base.{ℕ, ◌+◌, ◌≡◌, ==_refl, refl, some, none, List, [], ◌∷◌, ◌++◌, ok}
use h2loadrunner.Text.Decimal.{ℤ}
use h2loadrunner.Cookie.Jar.{RequestData}
use h2loadrunner.Load.Request.Queues.{insert_delayed}
use h2loadrunner.Load.Client.{Client, find_at, erase_at, change_at, is_measured}
use h2loadrunner.Load.Client.Receive.{
  on_request_start, call_sent_callback, forget_callback, new_stream, timeout_interval,
}
use h2loadrunner.Load.Session.{emplace_at}

pub emplace_at_new :
    (id : ℕ) (r : RequestData) (m : List (ℕ × RequestData))
    → find_at id m ≡ none
    → emplace_at id r m ≡ (id, r) ∷ m
unfolding emplace_at
emplace_at_new id r m h = rw (h, emplace_at) refl

pub find_at_first {ℓ} :
    {A : Type ℓ} (id : ℕ) (a : A) (m : List (ℕ × A)) → find_at id ((id, a) ∷ m) ≡ some a
unfolding find_at
find_at_first id a m = rw (==_refl id) refl

change_at_first {ℓ} :
    {A : Type ℓ} (id : ℕ) (f : A → A) (a : A) (m : List (ℕ × A))
    → change_at id f ((id, a) ∷ m) ≡ (id, f a) ∷ m
unfolding change_at
change_at_first id f a m = rw (==_refl id) refl

-- The client once a request that waits has its stream, and its callback was called.
abbrev pub started : ℕ → ℕ → ℤ → ℕ → RequestData → List (ℕ × RequestData) → Client → Client
started now configured memory id r awaiting c = record c {
  streams = (id, new_stream memory (is_measured c.current_phase)) ∷ erase_at id c.streams;
  stream_timestamp = insert_delayed (now + timeout_interval configured r) id c.stream_timestamp;
  requests_awaiting_response = (id, forget_callback r) ∷ awaiting;
  sent_callbacks = elim r.request_sent_callback [
    | none ↦ c.sent_callbacks
    | some f ↦ c.sent_callbacks ++ ((f, id) ∷ [])
  ];
}

pub on_request_start-first :
    (now configured : ℕ) (memory : ℤ) (id : ℕ) (r : RequestData) (awaiting : List (ℕ × RequestData))
    (c : Client)
    → on_request_start now configured memory id
        (record c { requests_awaiting_response = (id, r) ∷ awaiting })
      ≡ ok (started now configured memory id r awaiting c)
unfolding on_request_start call_sent_callback
on_request_start-first now configured memory id r awaiting c =
    rw (find_at_first id r awaiting, on_request_start)
      (rw (change_at_first id forget_callback r awaiting) refl)
