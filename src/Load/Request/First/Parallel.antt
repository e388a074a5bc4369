-- ===== src/Load/Request/First/Parallel.antt =====
-- What a scenario whose requests run in parallel queues.
use h2loadrunner.Base.{
  Ok, Ok-any, Ok-bind, if_both, arith, ℕ, zero, suc, ◌-◌, ◌==◌, ◌≡◌, refl, ap, ◌∙◌, ltb, Bool, true,
  false, Option, none, some, List, [], ◌∷◌, length, get_elem?, or_stop, ok, stop, exits, aborts,
  All, All-append,
}
use h2loadrunner.Text.{Bytes}
use h2loadrunner.Mock.Json.{Json}
use h2loadrunner.Cookie.Jar.{RequestData}
use h2loadrunner.Load.Request.{
  Request, Scenario, Library, UriAction, input_uri, same_with_last_one, from_response_header,
  from_lua_script, from_x_path, from_json_pointer, input_with_variable,
}
use h2loadrunner.Load.Request.Assemble.{assemble_string}
use h2loadrunner.Load.Request.Lua.{update_request_with_lua, after_call}
use h2loadrunner.Load.Request.Queues.{Queues, insert_delayed, enqueue_request}
use h2loadrunner.Load.Request.Locate.{at_uri}
use h2loadrunner.Load.Request.Prepare.{prepare_next_request, populate_request_from_config_template}
use h2loadrunner.Load.Request.Prepare.Kept.{
  SamePlace, KeptBy, populate-SamePlace, at_uri-SamePlace, after_call-SamePlace, finish-SamePlace,
}
use h2loadrunner.Load.Request.Prepare.Steps.{StepsOn, prepare_next_request-StepsOn}
use h2loadrunner.Load.Request.First.{
  empty_request, first_path, first_script, first_request, parallel_loop, prepare_first_request,
}

-- The requests in the queues belong to one step.
abbrev pub AtStep : ℕ → Queues → Type 0
AtStep n q =
    All (λ r. r.curr_request_idx ≡ n) q.requests_to_submit
    × All (λ e. e.1.curr_request_idx ≡ n) q.delayed_requests_to_submit

All-insert_delayed {κ} :
    (P : ℕ × RequestData → Type κ) (t : ℕ) (r : RequestData) (m : List (ℕ × RequestData))
    → P (t, r)
    → All P m
    → All P (insert_delayed t r m)
unfolding insert_delayed
All-insert_delayed P t r [] p a = (p, tt)
All-insert_delayed P t r ((u, s) ∷ m) p a =
    if_both (All P) (ltb t u) _ _ (p, a) (a.0, All-insert_delayed P t r m p a.1)

AtStep-enqueue_request :
    (n now : ℕ) (kept r : RequestData) (q : Queues)
    → r.curr_request_idx ≡ n
    → AtStep n q
    → AtStep n (enqueue_request now kept r q)
unfolding enqueue_request
AtStep-enqueue_request n now kept r q e a =
    if_both (AtStep n) (kept.delay_before_executing_next == 0) _ _
      (All-append _ q.requests_to_submit (r ∷ []) a.0 (e, tt), a.1)
      (a.0, All-insert_delayed _ _ r q.delayed_requests_to_submit e a.1)

AtStep-StepsOn :
    (now n : ℕ) (sc : Scenario) (r : RequestData) (q : Queues)
    → (success : Bool) (kept : RequestData) (q' : Queues) → r.curr_request_idx ≡ n
    → AtStep (suc n) q
    → StepsOn now sc r q (success, kept, q')
    → (kept.curr_request_idx ≡ n) × AtStep (suc n) q'
AtStep-StepsOn now n sc r q true kept q' e a (t, values, r', is_next, left, same) = (
  ap (λ k. k.curr_request_idx) left
      ∙ if_both (λ (k : RequestData). k.curr_request_idx ≡ n) sc.run_requests_in_parallel _ _ e e,
  rw same (AtStep-enqueue_request _ now r r' q (is_next.0 ∙ ap suc e) a),
)
AtStep-StepsOn now n sc r q false kept q' e a (keeps, scenario, same) = (keeps ∙ e, rw same a)

SamePlace-or_stop :
    (r : RequestData) (o : Option RequestData) → KeptBy r o → Ok (SamePlace r) (or_stop o aborts)
SamePlace-or_stop r none k = tt
SamePlace-or_stop r (some r') k = k

first_path-SamePlace :
    (lib : Library) (sc : Scenario) (t : Request) (action : UriAction) (r : RequestData)
    → Ok (SamePlace r) (first_path lib sc t action r)
unfolding first_path
first_path-SamePlace lib sc t input_with_variable r =
    Ok-bind (λ uri. Unit {0}) (SamePlace r)
      (assemble_string sc r.curr_request_idx r t.tokenized_path_with_vars) _ (Ok-any _)
      λ uri _. SamePlace-or_stop r (at_uri lib r uri) (at_uri-SamePlace lib r uri)
first_path-SamePlace lib sc t input_uri r = ground arith
first_path-SamePlace lib sc t same_with_last_one r = ground arith
first_path-SamePlace lib sc t from_response_header r = ground arith
first_path-SamePlace lib sc t from_lua_script r = ground arith
first_path-SamePlace lib sc t from_x_path r = ground arith
first_path-SamePlace lib sc t from_json_pointer r = ground arith

first_script-SamePlace :
    (lib : Library) (t : Request) (r : RequestData) → Ok (SamePlace r) (first_script lib t r)
unfolding first_script update_request_with_lua
first_script-SamePlace lib t r =
    let call = lib.make_request t.lua_script (empty_request [] 0) r in
    if_both (Ok (SamePlace r)) t.make_request_function_present _ _
      (Ok-bind (λ e. SamePlace r e.1) (SamePlace r) (after_call call r) _
        (after_call-SamePlace call r)
        λ e same. if_both (Ok (SamePlace r)) e.0 (ok e.1) (stop exits) same tt)
      refl

first_request-idx :
    (lib : Library) (schema authority : Bytes) (sc : Scenario) (scenario_index : ℕ)
    (user_ids : List ℕ)
    → Ok
        (λ r. r.curr_request_idx ≡ 0)
        (first_request lib schema authority sc scenario_index user_ids)
unfolding first_request empty_request
first_request-idx lib schema authority sc scenario_index user_ids =
    let r0 = empty_request user_ids scenario_index in
    Ok-bind (λ t. Unit {0}) _ (or_stop (get_elem? sc.requests 0) aborts) _ (Ok-any _)
      λ t _.
        Ok-bind (SamePlace r0) (λ r. r.curr_request_idx ≡ 0)
          (populate_request_from_config_template sc t r0) _ (populate-SamePlace sc t r0)
          λ r same.
            Ok-bind (SamePlace r) (λ r. r.curr_request_idx ≡ 0) (first_path lib sc t t.uri_action r)
              _ (first_path-SamePlace lib sc t t.uri_action r)
              λ r' same'.
                Ok-bind (SamePlace r') (λ r. r.curr_request_idx ≡ 0) (first_script lib t r') _
                  (first_script-SamePlace lib t r')
                  λ r'' same''.
                    ap (λ p. p.0)
                      (finish-SamePlace schema authority r'' ∙ (same'' ∙ (same' ∙ same)))

module _ {Value : Type 0} (lib : Library) (j : Json Value) where
  parallel_loop-AtStep :
      (now : ℕ) (schema authority : Bytes) (sc : Scenario) (n : ℕ) (r : RequestData) (q : Queues)
      → r.curr_request_idx ≡ 0
      → AtStep 1 q
      → Ok
          (λ e. (e.0.curr_request_idx ≡ 0) × AtStep 1 e.1)
          (parallel_loop lib j now schema authority sc n r q)
  unfolding parallel_loop
  parallel_loop-AtStep now schema authority sc zero r q e a = (e, a)
  parallel_loop-AtStep now schema authority sc (suc n) r q e a =
      Ok-bind (StepsOn now sc r q) _ (prepare_next_request lib j now schema authority sc r q) _
        (prepare_next_request-StepsOn lib j now schema authority sc r q)
        λ (success, r', q') steps.
          let after = AtStep-StepsOn now 0 sc r q success r' q' e a steps in
          parallel_loop-AtStep now schema authority sc n r' q' after.0 after.1

  -- Whatever the first request of a scenario queues is a request of the second step.
  pub prepare_first_request-AtStep :
      (now : ℕ) (schema authority : Bytes) (sc : Scenario) (scenario_index : ℕ) (user_ids : List ℕ)
      (q : Queues)
      → AtStep 1 q
      → Ok
          (λ e. (e.0.curr_request_idx ≡ 0) × AtStep 1 e.1)
          (prepare_first_request lib j now schema authority sc scenario_index user_ids q)
  unfolding prepare_first_request
  prepare_first_request-AtStep now schema authority sc scenario_index user_ids q a =
      Ok-bind (λ r. r.curr_request_idx ≡ 0) _
        (first_request lib schema authority sc scenario_index user_ids) _
        (first_request-idx lib schema authority sc scenario_index user_ids)
        λ r e.
          if_both (Ok (λ e. (e.0.curr_request_idx ≡ 0) × AtStep 1 e.1)) sc.run_requests_in_parallel
            _ _ (parallel_loop-AtStep now schema authority sc (length sc.requests - 1) r q e a)
            (e, a)
