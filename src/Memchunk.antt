-- ===== src/Memchunk.antt =====
-- memchunk.h: queues of bytes in chunks of a fixed size, which come from a pool and go back to it.
pub mod Queue
pub mod Drain
pub mod Moves
pub mod Refines
pub mod Iovec
pub mod Buffer
use h2loadrunner.Base.{
  ℕ, zero, suc, ◌+◌, ◌-◌, ◌%◌, ◌^◌, ◌==◌, leb, if◌then◌else◌, min, List, [], ◌∷◌, ◌++◌, length,
  take, drop, Outcome, ok, stop, aborts, ◌>>=◌, Bool, true, false,
}
use h2loadrunner.Text.{Bytes}

-- `Memchunk`: the bytes between `pos` and `last`, and how far `pos` is from the start of the buffer.
-- The chain of `next` pointers is the list that the chunk stands in.
pub record Memchunk : Type 0 where
  pub pos : ℕ
  pub bytes : Bytes

-- `pool` counts the chunks that were made.
pub record Pool : Type 0 where
  pub pool : ℕ
  pub freelist : List Memchunk
  pub poolsize : ℕ
  pub freelistsize : ℕ

-- `head` and `tail` are the ends of the chain; both are null where it is empty.
pub record Memchunks : Type 0 where
  pub pool : Pool
  pub chain : List Memchunk
  pub len : ℕ

-- `+=` and `-=` on `size_t`.
abbrev pub add_size : ℕ → ℕ → ℕ
add_size a b = (a + b) % 2 ^ 64

abbrev pub sub_size : ℕ → ℕ → ℕ
sub_size a b = (a + (2 ^ 64 - b)) % 2 ^ 64

unfoldable pub reset_chunk : Memchunk → Memchunk
reset_chunk c = record { pos = 0; bytes = [] }

-- `head == nullptr`.
abbrev pub is_null : List Memchunk → Bool
is_null [] = true
is_null (c ∷ cs) = false

module _ (size : ℕ) where
  abbrev pub left : Memchunk → ℕ
  left c = size - (c.pos + length c.bytes)

  unfoldable pub get : Pool → Memchunk × Pool
  get p = elim p.freelist [
    | [] ↦ (
      record { pos = 0; bytes = [] },
      record p { pool = suc p.pool; poolsize = add_size p.poolsize size },
    )
    | c ∷ free ↦
        (reset_chunk c, record p { freelist = free; freelistsize = sub_size p.freelistsize size })
  ]

  unfoldable pub recycle : Memchunk → Pool → Pool
  recycle c p = record p { freelist = c ∷ p.freelist; freelistsize = add_size p.freelistsize size }

  -- The loop of `append` from the tail on, with `len`. Every round but the first fills a fresh chunk.
  unfoldable pub append_loop : ℕ → Bytes → Memchunk → Pool → ℕ → List Memchunk × (Pool × ℕ)
  unfolding get reset_chunk
  append_loop zero src tail p len = (tail ∷ [], (p, len))
  append_loop (suc fuel) src tail p len =
      let n = min (length src) (left tail) in
      let tail' = record tail { bytes = tail.bytes ++ take n src } in
      let len' = add_size len n in
      elim (drop n src) [
        | [] ↦ (tail' ∷ [], (p, len'))
        | b ∷ rest ↦
            let (fresh, p') = get p in
            let (cs, r) = append_loop fuel (b ∷ rest) fresh p' len' in (tail' ∷ cs, r)
      ]

  -- The chunks in front of the tail stay as they are.
  unfoldable pub append_at :
      Bytes → Memchunk → List Memchunk → Pool → ℕ → List Memchunk × (Pool × ℕ)
  unfolding append_loop
  append_at src c [] p len = append_loop (suc (length src)) src c p len
  append_at src c (d ∷ ds) p len = let (cs, r) = append_at src d ds p len in (c ∷ cs, r)

  unfoldable pub append_chain : Bytes → List Memchunk → Pool → ℕ → List Memchunk × (Pool × ℕ)
  unfolding append_at get reset_chunk
  append_chain src [] p len = let (fresh, p') = get p in append_at src fresh [] p' len
  append_chain src (c ∷ cs) p len = append_at src c cs p len

  -- `append(src, count)`.
  unfoldable pub append : Bytes → Memchunks → Memchunks
  unfolding append_chain
  append [] m = m
  append (b ∷ src) m =
      let (chain, r) = append_chain (b ∷ src) m.chain m.pool m.len in
      record { pool = r.0; chain = chain; len = r.1 }

  -- The loop of `remove(dest, count)`, with what was copied so far; an empty chunk fails the assertion.
  unfoldable pub remove_loop : ℕ → List Memchunk → Pool → ℕ → Bytes → Outcome (Bytes × Memchunks)
  unfolding recycle
  remove_loop count [] p len dest = ok (dest, record { pool = p; chain = []; len = len })
  remove_loop count (c ∷ cs) p len dest =
      let n = min count (length c.bytes) in
      let rest =
        remove_loop (count - n) cs (recycle c p) (sub_size len n) (dest ++ take n c.bytes) in
      if length c.bytes == 0
      then stop aborts
      else if leb (length c.bytes) n
      then rest
      else ok (
        dest ++ take n c.bytes,
        record {
          pool = p;
          chain = record { pos = c.pos + n; bytes = drop n c.bytes } ∷ cs;
          len = sub_size len n;
        },
      )

  -- `remove(dest, count)`.
  unfoldable pub remove : ℕ → Memchunks → Outcome (Bytes × Memchunks)
  unfolding remove_loop
  remove count m = if count == 0 then ok ([], m) else remove_loop count m.chain m.pool m.len []

  -- The loop of `drain(count)`, with `ndata - count` so far.
  unfoldable pub drain_loop : ℕ → List Memchunk → Pool → ℕ → ℕ → ℕ × Memchunks
  unfolding recycle
  drain_loop count [] p len drained = (drained, record { pool = p; chain = []; len = len })
  drain_loop count (c ∷ cs) p len drained =
      let n = min count (length c.bytes) in
      let rest = drain_loop (count - n) cs (recycle c p) (sub_size len n) (drained + n) in
      if leb (length c.bytes) n then rest else (
        drained + n,
        record {
          pool = p;
          chain = record { pos = c.pos + n; bytes = drop n c.bytes } ∷ cs;
          len = sub_size len n;
        },
      )

  -- `drain(count)`.
  unfoldable pub drain : ℕ → Memchunks → ℕ × Memchunks
  unfolding drain_loop
  drain count m = drain_loop count m.chain m.pool m.len 0

  unfoldable pub recycle_all : List Memchunk → Pool → Pool
  unfolding recycle
  recycle_all [] p = p
  recycle_all (c ∷ cs) p = recycle_all cs (recycle c p)

  -- `reset()`.
  unfoldable pub reset : Memchunks → Memchunks
  unfolding recycle_all
  reset m = record { pool = recycle_all m.chain m.pool; chain = []; len = 0 }

  -- `append(c)`: a byte after the last one, in a fresh chunk where the tail is full.
  unfoldable pub append_char_at : ℕ → Memchunk → List Memchunk → Pool → List Memchunk × Pool
  unfolding get reset_chunk
  append_char_at b c [] p =
      let (fresh, p') = get p in
      if left c == 0
      then (c ∷ record fresh { bytes = fresh.bytes ++ (b ∷ []) } ∷ [], p')
      else (record c { bytes = c.bytes ++ (b ∷ []) } ∷ [], p)
  append_char_at b c (d ∷ ds) p = let (cs, p') = append_char_at b d ds p in (c ∷ cs, p')

  unfoldable pub append_char_chain : ℕ → List Memchunk → Pool → List Memchunk × Pool
  unfolding append_char_at get reset_chunk
  append_char_chain b [] p =
      let (fresh, p') = get p in (record fresh { bytes = fresh.bytes ++ (b ∷ []) } ∷ [], p')
  append_char_chain b (c ∷ cs) p = append_char_at b c cs p

  unfoldable pub append_char : ℕ → Memchunks → Memchunks
  unfolding append_char_chain
  append_char b m =
      let (chain, p) = append_char_chain b m.chain m.pool in
      record { pool = p; chain = chain; len = add_size m.len 1 }

-- `copy(dest)` and `remove(dest)`: the chunks' bytes are appended to `dest`, or the chain itself is.
module _ (size : ℕ) where
  unfoldable pub copy_loop : List Memchunk → Memchunks → Memchunks
  unfolding append
  copy_loop [] dest = dest
  copy_loop (c ∷ cs) dest = copy_loop cs (append size c.bytes dest)

  unfoldable pub copy : Memchunks → Memchunks → ℕ × Memchunks
  unfolding copy_loop
  copy m dest = (m.len, copy_loop m.chain dest)

-- Both queues share the pool: the assertion of the code.
unfoldable pub move_all : Memchunks → Memchunks → ℕ × (Memchunks × Memchunks)
move_all m dest = (
  (if is_null m.chain then 0 else m.len),
  (
    (if is_null m.chain then m else record m { chain = []; len = 0 }),
    (if is_null m.chain
        then dest
        else record dest { chain = dest.chain ++ m.chain; len = add_size dest.len m.len }),
  ),
)
