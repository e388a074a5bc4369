-- ===== src/Memchunk/Refines.antt =====
-- A run of operations on the chunks, against the same run on a plain queue of bytes.
use h2loadrunner.Base.{
  ℕ, ◌+◌, ◌^◌, ◌≤◌, ◌<◌, ◌≡◌, refl, ap, ◌∙◌, min, List, [], ◌∷◌, ◌++◌, length, take, drop, Outcome,
  ok, ◌>>=◌, arith, length-append, length-drop,
}
use h2loadrunner.Text.{Bytes}
use h2loadrunner.Memchunk.{Memchunks, append, append_char, remove, drain, reset}
use h2loadrunner.Memchunk.Queue.{contents, IsQueue, append-Queue}
use h2loadrunner.Memchunk.Moves.{append_char-Queue}
use h2loadrunner.Memchunk.Drain.{drain-Queue, remove-Queue}

pub data Operation : Type 0 where
  appends : Bytes → Operation
  appends_char : ℕ → Operation
  removes drains : ℕ → Operation
  resets : Operation

-- What an operation gives back.
pub data Answer : Type 0 where
  copied : Bytes → Answer
  counted : ℕ → Answer

module _ (size : ℕ) where
  unfoldable pub step : Operation → Memchunks → Outcome (Answer × Memchunks)
  step (appends src) m = ok (counted (length src), append size src m)
  step (appends_char b) m = ok (counted 1, append_char size b m)
  step (removes count) m = remove size count m >>= λ (dest, m'). ok (copied dest, m')
  step (drains count) m = let (n, m') = drain size count m in ok (counted n, m')
  step resets m = ok (counted 0, reset size m)

  unfoldable pub run : List Operation → Memchunks → Outcome (List Answer × Memchunks)
  unfolding step
  run [] m = ok ([], m)
  run (o ∷ os) m = step o m >>= λ (a, m'). run os m' >>= λ (as', m''). ok (a ∷ as', m'')

-- The same on the bytes alone.
abbrev pub byte_step : Operation → Bytes → Answer × Bytes
byte_step (appends src) q = (counted (length src), q ++ src)
byte_step (appends_char b) q = (counted 1, q ++ (b ∷ []))
byte_step (removes count) q = (copied (take count q), drop count q)
byte_step (drains count) q = (counted (min count (length q)), drop count q)
byte_step resets q = (counted 0, [])

abbrev pub byte_run : List Operation → Bytes → List Answer × Bytes
byte_run [] q = ([], q)
byte_run (o ∷ os) q =
    let (a, q') = byte_step o q in let (as', q'') = byte_run os q' in (a ∷ as', q'')

-- How many bytes are appended.
abbrev pub appended : List Operation → ℕ
appended [] = 0
appended (appends src ∷ os) = length src + appended os
appended (appends_char b ∷ os) = 1 + appended os
appended (removes count ∷ os) = appended os
appended (drains count ∷ os) = appended os
appended (resets ∷ os) = appended os

one_fits :
    (o : Operation) (os : List Operation) (q : Bytes)
    → length q + appended (o ∷ os) < 2 ^ 64
    → length q + appended (o ∷ []) < 2 ^ 64
one_fits (appends src) os q h = omega arith
one_fits (appends_char b) os q h = omega arith
one_fits (removes count) os q h = omega arith
one_fits (drains count) os q h = omega arith
one_fits resets os q h = omega arith

rest_fits :
    (o : Operation) (os : List Operation) (q r : Bytes)
    → r ≡ (byte_step o q).1
    → length q + appended (o ∷ os) < 2 ^ 64
    → length r + appended os < 2 ^ 64
rest_fits (appends src) os q r e h = omega (arith, ap length e, length-append q src)
rest_fits (appends_char b) os q r e h = omega (arith, ap length e, length-append q (b ∷ []))
rest_fits (removes count) os q r e h = omega (arith, ap length e, length-drop count q)
rest_fits (drains count) os q r e h = omega (arith, ap length e, length-drop count q)
rest_fits resets os q r e h = omega (arith, ap length e)

module _ (size : ℕ) (positive : 1 ≤ size) where
  -- What a step must do to be the step of the queue of bytes.
  record Agrees (before : Bytes) (o : Operation) (m : Memchunks) : Type 0 where
    after : Memchunks
    steps : step size o m ≡ ok ((byte_step o before).0, after)
    rest : contents after.chain ≡ (byte_step o before).1
    right : IsQueue size after

  step-Agrees :
      (o : Operation) (m : Memchunks)
      → IsQueue size m
      → length (contents m.chain) + appended (o ∷ []) < 2 ^ 64
      → Agrees (contents m.chain) o m
  unfolding step reset
  step-Agrees (appends src) m q bound =
      let (whole, right) = append-Queue size positive src m q (omega arith) in
      record { after = append size src m; steps = refl; rest = whole; right = right }
  step-Agrees (appends_char b) m q bound =
      let (whole, right) = append_char-Queue size positive b m q (omega arith) in
      record { after = append_char size b m; steps = refl; rest = whole; right = right }
  step-Agrees (removes count) m q bound =
      let (m', e, rest, right) = remove-Queue size count m q in
      record { after = m'; steps = rw e refl; rest = rest; right = right }
  step-Agrees (drains count) m q bound =
      let (number, rest, right) = drain-Queue size count m q in
      record {
        after = (drain size count m).1;
        steps = ap (λ n. ok (counted n, (drain size count m).1)) number;
        rest = rest;
        right = right;
      }
  step-Agrees resets m q bound = record {
    after = reset size m;
    steps = refl;
    rest = refl;
    right = record { chunks = tt; counted = refl; bounded = omega arith };
  }

  -- On a right queue, a run that appends fewer bytes than `size_t` counts gives the answers of the same
  -- run on a plain queue of bytes, fails no assertion, and leaves a right queue of the same bytes.
  pub run-byte_run :
      (os : List Operation) (m : Memchunks)
      → IsQueue size m
      → length (contents m.chain) + appended os < 2 ^ 64
      → (m' : Memchunks) × (run size os m ≡ ok ((byte_run os (contents m.chain)).0, m'))
        × (contents m'.chain ≡ (byte_run os (contents m.chain)).1)
        × IsQueue size m'
  unfolding run
  run-byte_run [] m q bound = (m, refl, refl, q)
  run-byte_run (o ∷ os) m q bound =
      let a = step-Agrees o m q (one_fits o os (contents m.chain) bound) in
      let (m', e, whole, right) =
        run-byte_run os a.after a.right
          (rest_fits o os (contents m.chain) (contents a.after.chain) a.rest bound) in
      (
        m',
        rw (a.steps, e)
            (ap (λ q'. ok ((byte_step o (contents m.chain)).0 ∷ (byte_run os q').0, m')) a.rest),
        whole ∙ ap (λ q'. (byte_run os q').1) a.rest,
        right,
      )
