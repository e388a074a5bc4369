-- ===== src/Memchunk/Moves.antt =====
-- One byte at the end of a queue, and all bytes of a queue to the end of another.
use h2loadrunner.Base.{
  ℕ, ◌+◌, ◌^◌, ◌==◌, ◌≤◌, ◌<◌, ◌≡◌, refl, sym, ap, ◌∙◌, List, [], ◌∷◌, ◌++◌, length, arith, All,
  All-append, append_assoc, append-nil, length-append, true, Bool-cases, inl, inr,
}
use h2loadrunner.Text.{Bytes}
use h2loadrunner.Memchunk.{
  Memchunk, Pool, Memchunks, get, left, append_char_at, append_char_chain, append_char, append,
  copy_loop, copy, move_all, is_null,
}
use h2loadrunner.Memchunk.Queue.{contents, IsChunk, IsQueue, append-Queue, get_fresh}

contents-append : (cs ds : List Memchunk) → contents (cs ++ ds) ≡ contents cs ++ contents ds
contents-append [] ds = refl
contents-append (c ∷ cs) ds =
    ap (λ t. c.bytes ++ t) (contents-append cs ds)
    ∙ sym (append_assoc c.bytes (contents cs) (contents ds))

contents-null : (cs : List Memchunk) → is_null cs ≡ true → contents cs ≡ []
contents-null [] e = refl
contents-null (c ∷ cs) e = absurd (ground arith)

module _ (size : ℕ) where
  -- Moving all chunks puts the bytes at the end of the other queue and leaves none behind; it answers
  -- with their number.
  pub move_all-Queue :
      (m dest : Memchunks)
      → IsQueue size m
      → IsQueue size dest
      → length (contents dest.chain) + length (contents m.chain) < 2 ^ 64
      → ((move_all m dest).0 ≡ length (contents m.chain))
        × (contents (move_all m dest).1.0.chain ≡ [])
        × (contents (move_all m dest).1.1.chain ≡ contents dest.chain ++ contents m.chain)
        × IsQueue size (move_all m dest).1.0
        × IsQueue size (move_all m dest).1.1
  unfolding move_all
  move_all-Queue m dest q d bound = elim (Bool-cases (is_null m.chain)) [
    | inl e ↦
        let empty = contents-null m.chain e in
        rw e (
          sym (ap length empty),
          empty,
          sym (ap (λ t. contents dest.chain ++ t) empty ∙ append-nil (contents dest.chain)),
          q,
          d,
        )
    | inr e ↦
        let whole = contents-append dest.chain m.chain in
        let sizes = length-append (contents dest.chain) (contents m.chain) in
        rw e (
          q.counted,
          refl,
          whole,
          record { chunks = tt; counted = refl; bounded = omega arith },
          record {
            chunks = All-append (IsChunk size) dest.chain m.chain d.chunks q.chunks;
            counted = omega (arith, q.counted, d.counted, ap length whole, sizes, bound);
            bounded = omega (arith, ap length whole, sizes, bound);
          },
        )
  ]

  module _ (positive : 1 ≤ size) where
    -- Copying leaves the queue as it is, and puts its bytes at the end of the other one.
    copy_loop-Queue :
        (cs : List Memchunk) (dest : Memchunks)
        → IsQueue size dest
        → length (contents dest.chain) + length (contents cs) < 2 ^ 64
        → (contents (copy_loop size cs dest).chain ≡ contents dest.chain ++ contents cs)
          × IsQueue size (copy_loop size cs dest)
    unfolding copy_loop
    copy_loop-Queue [] dest d bound = (sym (append-nil (contents dest.chain)), d)
    copy_loop-Queue (c ∷ cs) dest d bound =
        let sizes = length-append c.bytes (contents cs) in
        let (whole, right) = append-Queue size positive c.bytes dest d (omega (arith, sizes)) in
        let (whole', right') =
          copy_loop-Queue cs (append size c.bytes dest) right
            (omega (arith, sizes, ap length whole, length-append (contents dest.chain) c.bytes)) in
        (
          whole'
              ∙ ap (λ t. t ++ contents cs) whole
              ∙ append_assoc (contents dest.chain) c.bytes (contents cs),
          right',
        )

    -- The copy answers with the number of bytes, and puts the bytes at the end of the other queue.
    pub copy-Queue :
        (m dest : Memchunks)
        → IsQueue size m
        → IsQueue size dest
        → length (contents dest.chain) + length (contents m.chain) < 2 ^ 64
        → ((copy size m dest).0 ≡ length (contents m.chain))
          × (contents (copy size m dest).1.chain ≡ contents dest.chain ++ contents m.chain)
          × IsQueue size (copy size m dest).1
    unfolding copy
    copy-Queue m dest q d bound =
        let (whole, right) = copy_loop-Queue m.chain dest d bound in (q.counted, whole, right)

  -- The tail with one byte more, or a fresh chunk behind it where it is full.
  record IsExtended (before : Bytes) (b : ℕ) (chain : List Memchunk) : Type 0 where
    whole : contents chain ≡ before ++ (b ∷ [])
    right : All (IsChunk size) chain

  module _ (positive : 1 ≤ size) where
    one_byte :
        (b : ℕ) (p : Pool)
        → IsExtended [] b (record (get size p).0 { bytes = (get size p).0.bytes ++ (b ∷ []) } ∷ [])
    one_byte b p =
        rw (get_fresh size positive p) (record {
          whole = refl;
          right = (record { holds = omega arith; fits = omega arith }, tt);
        })

    append_char_at-IsExtended :
        (b : ℕ) (c : Memchunk) (cs : List Memchunk) (p : Pool)
        → All (IsChunk size) (c ∷ cs)
        → IsExtended (contents (c ∷ cs)) b (append_char_at size b c cs p).0
    unfolding append_char_at
    append_char_at-IsExtended b c [] p k = elim (Bool-cases (left size c == 0)) [
      | inl e ↦
          let x = one_byte b p in
          rw e (record {
            whole =
                ap (λ t. c.bytes ++ t) x.whole ∙ sym (ap (λ t. t ++ (b ∷ [])) (append-nil c.bytes));
            right = (k.0, x.right);
          })
      | inr e ↦
          let size_of = length-append c.bytes (b ∷ []) in
          let room : 1 ≤ left size c = ground arith in
          rw e (record {
            whole =
                append-nil (c.bytes ++ (b ∷ []))
                ∙ sym (ap (λ t. t ++ (b ∷ [])) (append-nil c.bytes));
            right = (record { holds = omega arith; fits = omega (arith, k.0.fits) }, tt);
          })
    ]
    append_char_at-IsExtended b c (d ∷ ds) p k =
        let x = append_char_at-IsExtended b d ds p k.1 in
        record {
          whole =
              ap (λ t. c.bytes ++ t) x.whole
              ∙ sym (append_assoc c.bytes (contents (d ∷ ds)) (b ∷ []));
          right = (k.0, x.right);
        }

    append_char_chain-IsExtended :
        (b : ℕ) (cs : List Memchunk) (p : Pool)
        → All (IsChunk size) cs
        → IsExtended (contents cs) b (append_char_chain size b cs p).0
    unfolding append_char_chain
    append_char_chain-IsExtended b [] p k = one_byte b p
    append_char_chain-IsExtended b (c ∷ cs) p k = append_char_at-IsExtended b c cs p k

    -- A byte that is appended stands at the end, and the queue stays right.
    pub append_char-Queue :
        (b : ℕ) (m : Memchunks)
        → IsQueue size m
        → length (contents m.chain) + 1 < 2 ^ 64
        → (contents (append_char size b m).chain ≡ contents m.chain ++ (b ∷ []))
          × IsQueue size (append_char size b m)
    unfolding append_char
    append_char-Queue b m q bound =
        let x = append_char_chain-IsExtended b m.chain m.pool q.chunks in
        let sizes = length-append (contents m.chain) (b ∷ []) in
        (
          x.whole,
          record {
            chunks = x.right;
            counted = omega (arith, q.counted, ap length x.whole, sizes, bound);
            bounded = omega (arith, ap length x.whole, sizes, bound);
          },
        )
