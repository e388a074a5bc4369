-- ===== src/Memchunk/Buffer.antt =====
-- `MemchunkBuffer` of memchunk.h: one chunk as a buffer that is written at its end and read at its front.
use h2loadrunner.Base.{
  ℕ, ◌+◌, ◌-◌, ◌≤◌, ◌≡◌, sym, ap, ap₂, ◌∙◌, min, Option, none, some, ◌++◌, length, take, drop,
  arith, length-append, length-take, length-drop, Bool, true, false, drop-all, take-all, leb,
  leb→le, Bool-cases, inl, inr, ◌<◌,
}
use h2loadrunner.Text.{Bytes}
use h2loadrunner.Memchunk.{Memchunk, Pool, left, get, recycle, reset_chunk}

pub record MemchunkBuffer : Type 0 where
  pub pool : Pool
  pub chunk : Option Memchunk

module _ (size : ℕ) where
  -- `ensure_chunk()` and `release_chunk()`.
  unfoldable pub ensure_chunk : MemchunkBuffer → MemchunkBuffer
  unfolding get reset_chunk
  ensure_chunk b = elim b.chunk [
    | some c ↦ b
    | none ↦ let (c, p) = get size b.pool in record { pool = p; chunk = some c }
  ]

  unfoldable pub release_chunk : MemchunkBuffer → MemchunkBuffer
  unfolding recycle
  release_chunk b = elim b.chunk [
    | none ↦ b
    | some c ↦ record { pool = recycle size c b.pool; chunk = none }
  ]

  -- The functions that need a chunk, on the chunk: `rleft`, `wleft`, `write`, `drain`, `drain_reset`.
  abbrev pub rleft : Memchunk → ℕ
  rleft c = length c.bytes

  abbrev pub wleft : Memchunk → ℕ
  wleft c = left size c

  unfoldable pub write : Bytes → Memchunk → ℕ × Memchunk
  write src c =
      let count = min (length src) (wleft c) in
      (count, record c { bytes = c.bytes ++ take count src })

unfoldable pub chunk_avail : MemchunkBuffer → Bool
chunk_avail b = elim b.chunk [ none ↦ false | some c ↦ true ]

unfoldable pub drain_chunk : ℕ → Memchunk → ℕ × Memchunk
drain_chunk count c =
    let n = min count (length c.bytes) in (n, record { pos = c.pos + n; bytes = drop n c.bytes })

unfoldable pub drain_reset : ℕ → Memchunk → ℕ × Memchunk
drain_reset count c =
    let n = min count (length c.bytes) in (n, record { pos = 0; bytes = drop n c.bytes })

capped_drop : (n : ℕ) (xs : Bytes) → drop (min n (length xs)) xs ≡ drop n xs
capped_drop n xs = elim (Bool-cases (leb (length xs) n)) [
  | inl e ↦
      let le = leb→le (length xs) n e in
      drop-all (min n (length xs)) xs (omega arith) ∙ sym (drop-all n xs le)
  | inr e ↦ let lt : n < length xs = ground arith in ap (λ k. drop k xs) (omega arith)
]

capped_take : (n : ℕ) (xs : Bytes) → take (min (length xs) n) xs ≡ take n xs
capped_take n xs = elim (Bool-cases (leb (length xs) n)) [
  | inl e ↦
      let le = leb→le (length xs) n e in
      take-all (min (length xs) n) xs (omega arith) ∙ sym (take-all n xs le)
  | inr e ↦ let lt : n < length xs = ground arith in ap (λ k. take k xs) (omega arith)
]

-- The read and the written end stay inside the buffer.
abbrev pub Fits : ℕ → Memchunk → Type 0
Fits size c = c.pos + length c.bytes ≤ size

-- After `drain_reset(count)`, all of the buffer is free but for the bytes that are left, and a write
-- puts as much of the source behind them as that leaves room for, inside the buffer's bounds.
pub write-drain_reset :
    (size count : ℕ) (src : Bytes) (c : Memchunk)
    → Fits size c
    → (let c' = (drain_reset count c).1 in
        (wleft size c' ≡ size - (length c.bytes - count))
        × ((write size src c').1.bytes
            ≡ drop count c.bytes ++ take (size - (length c.bytes - count)) src)
        × Fits size (write size src c').1)
unfolding drain_reset write
write-drain_reset size count src c h =
    let kept = drop (min count (length c.bytes)) c.bytes in
    let room = left size (record { pos = 0; bytes = kept }) in
    let kept_length : length kept ≡ length c.bytes - count =
      omega (arith, length-drop (min count (length c.bytes)) c.bytes) in
    let room_is : room ≡ size - (length c.bytes - count) = omega (arith, kept_length) in
    (
      room_is,
      ap₂ ◌++◌ (capped_drop count c.bytes) (capped_take room src ∙ ap (λ n. take n src) room_is),
      omega (
        arith,
        kept_length,
        length-append kept (take (min (length src) room) src),
        length-take (min (length src) room) src,
        h,
      ),
    )
