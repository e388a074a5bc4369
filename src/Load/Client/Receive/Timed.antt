-- ===== src/Load/Client/Receive/Timed.antt =====
-- The streams whose time is over.
use h2loadrunner.Base.{
  ℕ, suc, ◌^◌, ◌<◌, ◌≡◌, ltb, ltb→lt, if◌then◌else◌, some, none, List, [], ◌∷◌, ◌++◌, arith, ap,
  ap₂, ◌∙◌, sym, Bool-cases, Option-cases, inl, inr, append_assoc, append-nil, Ok, elim_both,
}
use h2loadrunner.Text.Decimal.{ℤ}
use h2loadrunner.Load.Variable.{add64}
use h2loadrunner.Load.Request.Queues.Times.{
  TimesSorted, due, not_due, due_past, insert_delayed-TimesSorted,
}
use h2loadrunner.Load.Client.{Client, Stream, find_at}
use h2loadrunner.Load.Client.Receive.{
  on_request_start, reset_stream, reset_loop, reset_timeout_requests,
}

-- The streams of a list that are open, and how many of them count.
unfoldable pub open_streams : List (ℕ × Stream) → List ℕ → List ℕ
open_streams m [] = []
open_streams m (id ∷ ids) =
    let rest = open_streams m ids in elim (find_at id m) [ none ↦ rest | some s ↦ id ∷ rest ]

unfoldable pub counted_streams : List (ℕ × Stream) → List ℕ → ℕ
counted_streams m [] = 0
counted_streams m (id ∷ ids) =
    let rest = counted_streams m ids in
    elim (find_at id m) [ none ↦ rest | some s ↦ if s.statistics_eligible then suc rest else rest ]

add64-suc : (a n : ℕ) → add64 (add64 a 1) n ≡ add64 a (suc n)
unfolding add64
add64-suc a n = omega arith

add64_zero : (a : ℕ) → a < 2 ^ 64 → a ≡ add64 a 0
unfolding add64
add64_zero a h = omega arith

-- A client with other times and another number of timeouts.
abbrev pub timed : Client → List (ℕ × ℕ) → ℕ → Client
timed c m n = record c { stream_timestamp = m; stats = record c.stats { req_timedout = n } }

reset_loop_lem :
    (now : ℕ) (m : List (ℕ × ℕ)) (c : Client) (reset : List ℕ)
    → TimesSorted m
    → c.stats.req_timedout < 2 ^ 64
    → reset_loop now m (c, reset) ≡ (
      timed c (not_due now m) (add64 c.stats.req_timedout (counted_streams c.streams (due now m))),
      reset ++ open_streams c.streams (due now m),
    )
unfolding reset_loop due not_due open_streams counted_streams
reset_loop_lem now [] c reset s h =
    ap₂ (λ n l. (timed c [] n, l)) (add64_zero c.stats.req_timedout h) (sym (append-nil reset))
reset_loop_lem now ((t, id) ∷ m) c reset s h = elim (Bool-cases (ltb now t)) [
  | inl later ↦
      let past = due_past now t m (ltb→lt now t later) s.0 in
      rw (later, past.0, past.1)
        (ap₂ (λ n l. (timed c ((t, id) ∷ m) n, l)) (add64_zero c.stats.req_timedout h)
          (sym (append-nil reset)))
  | inr come ↦ rw come (elim (Option-cases (find_at id c.streams)) [
    | inl gone ↦
        rw (gone, reset_stream, open_streams, counted_streams) (reset_loop_lem now m c reset s.1 h)
    | inr (a, there) ↦
        rw (there, reset_stream, open_streams, counted_streams)
          (elim (Bool-cases a.statistics_eligible) [
            | inl counts ↦ rw counts (
                reset_loop_lem now m (timed c c.stream_timestamp (add64 c.stats.req_timedout 1))
                  (reset ++ (id ∷ [])) s.1 (omega arith)
                ∙ ap₂ (λ n l. (timed c (not_due now m) n, l))
                    (add64-suc c.stats.req_timedout (counted_streams c.streams (due now m)))
                    (append_assoc reset (id ∷ []) (open_streams c.streams (due now m))))
            | inr plain ↦ rw plain (
                reset_loop_lem now m c (reset ++ (id ∷ [])) s.1 h
                ∙ ap
                    (λ l. (
                      timed c (not_due now m)
                          (add64 c.stats.req_timedout (counted_streams c.streams (due now m))),
                      l,
                    ))
                    (append_assoc reset (id ∷ []) (open_streams c.streams (due now m))))
          ])
  ])
]

-- With the times in their order, exactly the open streams whose time has come are reset, in that order;
-- those that count are counted as timed out, modulo 2 ^ 64; and the times that are left are those that
-- have not come.
pub reset_timeout_requests_lem :
    (now : ℕ) (c : Client)
    → TimesSorted c.stream_timestamp
    → c.stats.req_timedout < 2 ^ 64
    → reset_timeout_requests now c ≡ (
      timed c
          (not_due now c.stream_timestamp)
          (add64 c.stats.req_timedout (counted_streams c.streams (due now c.stream_timestamp))),
      open_streams c.streams (due now c.stream_timestamp),
    )
unfolding reset_timeout_requests
reset_timeout_requests_lem now c s h = reset_loop_lem now c.stream_timestamp c [] s h

-- The times stay in their order when a request is sent.
pub on_request_start-TimesSorted :
    (now configured : ℕ) (memory : ℤ) (stream_id : ℕ) (c : Client)
    → TimesSorted c.stream_timestamp
    → Ok
        (λ c'. TimesSorted c'.stream_timestamp)
        (on_request_start now configured memory stream_id c)
unfolding on_request_start
on_request_start-TimesSorted now configured memory stream_id c s =
    elim_both (Ok (λ (c' : Client). TimesSorted c'.stream_timestamp))
      (find_at stream_id c.requests_awaiting_response) _ _ tt
      λ r. insert_delayed-TimesSorted _ stream_id c.stream_timestamp s
