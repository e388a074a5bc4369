-- ===== src/Memchunk/Iovec.antt =====
-- The buffers handed to `writev`: `riovec` of memchunk.h, and `limit_iovec`. An `iovec` is the bytes
-- that it spans.
use h2loadrunner.Base.{
  ℕ, zero, suc, ◌-◌, ◌==◌, ◌≤◌, ◌<◌, ◌≡◌, refl, sym, ap, ap₂, ◌∙◌, min, if◌then◌else◌, List, [],
  ◌∷◌, ◌++◌, length, take, arith, Bool-cases, inl, inr, take-past, take-in_front, take-all,
  take-nil, append-nil, ==→eq,
}
use h2loadrunner.Text.{Bytes}
use h2loadrunner.Memchunk.{Memchunk, Memchunks}
use h2loadrunner.Memchunk.Queue.{contents}

riovec_loop : ℕ → List Memchunk → List Bytes
riovec_loop zero cs = []
riovec_loop (suc iovcnt) [] = []
riovec_loop (suc iovcnt) (c ∷ cs) = c.bytes ∷ riovec_loop iovcnt cs

-- The entries that `riovec(iov, iovcnt)` writes; it returns how many they are.
unfoldable pub riovec : ℕ → Memchunks → List Bytes
unfolding riovec_loop
riovec iovcnt m = riovec_loop iovcnt m.chain

limit_loop : ℕ → List Bytes → ℕ × List Bytes
limit_loop max [] = (0, [])
limit_loop max (v ∷ iov) =
    let d = min max (length v) in
    let (n, rest) = limit_loop (max - d) iov in
    if max - d == 0 then (1, take d v ∷ iov) else (suc n, take d v ∷ rest)

-- `limit_iovec(iov, iovcnt, max)`: how many entries are left, and all entries.
unfoldable pub limit_iovec : List Bytes → ℕ → ℕ × List Bytes
unfolding limit_loop
limit_iovec iov max = if max == 0 then (0, iov) else limit_loop max iov

-- The bytes that the entries span.
abbrev pub gathered : List Bytes → Bytes
gathered [] = []
gathered (v ∷ iov) = v ++ gathered iov

gathered-riovec_loop :
    (n : ℕ) (cs : List Memchunk) → gathered (riovec_loop n cs) ≡ contents (take n cs)
unfolding riovec_loop
gathered-riovec_loop zero cs = refl
gathered-riovec_loop (suc n) [] = refl
gathered-riovec_loop (suc n) (c ∷ cs) = ap (◌++◌ c.bytes) (gathered-riovec_loop n cs)

-- The entries span the bytes of the first `iovcnt` chunks, in order.
pub gathered-riovec :
    (iovcnt : ℕ) (m : Memchunks) → gathered (riovec iovcnt m) ≡ contents (take iovcnt m.chain)
unfolding riovec
gathered-riovec iovcnt m = gathered-riovec_loop iovcnt m.chain

limit_loop_lem :
    (max : ℕ) (iov : List Bytes)
    → 1 ≤ max
    → gathered (take (limit_loop max iov).0 (limit_loop max iov).1) ≡ take max (gathered iov)
unfolding limit_loop
limit_loop_lem max [] h = sym (take-nil max)
limit_loop_lem max (v ∷ iov) h = elim (Bool-cases (max - min max (length v) == 0)) [
  | inl e ↦ rw e (
      append-nil (take (min max (length v)) v)
      ∙ ap (λ n. take n v) (omega (arith, ==→eq (max - min max (length v)) 0 e))
      ∙ sym (
          take-in_front max v (gathered iov) (omega (arith, ==→eq (max - min max (length v)) 0 e))))
  | inr e ↦
      let past : length v < max = ground arith in
      rw e (
        ap₂ ◌++◌ (take-all (min max (length v)) v (omega arith)) (
          limit_loop_lem (max - min max (length v)) iov (omega arith)
          ∙ ap (λ n. take n (gathered iov)) (omega arith))
        ∙ sym (take-past max v (gathered iov) (omega arith)))
]

-- The entries that are left span the first `max` bytes of those that were given.
pub gathered-limit_iovec :
    (iov : List Bytes) (max : ℕ)
    → gathered (take (limit_iovec iov max).0 (limit_iovec iov max).1) ≡ take max (gathered iov)
unfolding limit_iovec
gathered-limit_iovec iov max = elim (Bool-cases (max == 0)) [
  | inl e ↦ rw (e, ==→eq max 0 e) refl
  | inr e ↦ rw e (limit_loop_lem max iov (ground arith))
]
