-- ===== src/Memchunk/Drain.antt =====
-- Taking bytes from the front of a queue.
use h2loadrunner.Base.{
  ℕ, zero, suc, ◌+◌, ◌-◌, ◌^◌, ◌==◌, ◌≤◌, ◌<◌, ◌≡◌, inl, inr, refl, sym, ap, ap₂, ◌∙◌, leb, leb→le,
  min, List, [], ◌∷◌, ◌++◌, length, take, drop, ok, false, arith, All, append_assoc, append-nil,
  length-append, length-drop, take-in_front, take-past, drop-past, drop-append, drop-nil, take-all,
  take-nil, Bool-cases,
}
use h2loadrunner.Text.{Bytes}
use h2loadrunner.Memchunk.{
  Memchunk, Pool, Memchunks, sub_size, recycle, remove_loop, remove, drain_loop, drain,
}
use h2loadrunner.Memchunk.Queue.{contents, IsChunk, IsQueue}

module _ (size : ℕ) where
  -- The bytes that are left, and how many were taken.
  record IsDrained (count drained : ℕ) (before : Bytes) (r : ℕ × Memchunks) : Type 0 where
    number : r.0 ≡ drained + min count (length before)
    rest : contents r.1.chain ≡ drop count before
    right : All (IsChunk size) r.1.chain
    counted : r.1.len ≡ length (contents r.1.chain)

  -- What a round takes from the head.
  abbrev taken : ℕ → Memchunk → ℕ
  taken count c = min count (length c.bytes)

  module _ (count : ℕ) (c : Memchunk) (cs : List Memchunk) (p : Pool) (len drained : ℕ) where
    -- The chunk that is used up goes back to the pool.
    drain_loop_whole :
        length c.bytes ≤ count
        → drain_loop size count (c ∷ cs) p len drained
          ≡ drain_loop size
              (count - (taken count c))
              cs
              (recycle size c p)
              (sub_size len (taken count c))
              (drained + (taken count c))
    unfolding drain_loop
    drain_loop_whole h = ground arith

    drain_loop_part :
        count < length c.bytes
        → drain_loop size count (c ∷ cs) p len drained ≡ (
          drained + (taken count c),
          record {
            pool = p;
            chain =
                record { pos = c.pos + (taken count c); bytes = drop (taken count c) c.bytes } ∷ cs;
            len = sub_size len (taken count c);
          },
        )
    unfolding drain_loop
    drain_loop_part h = ground arith

    remove_loop_whole :
        (dest : Bytes)
        → 1 ≤ length c.bytes
        → length c.bytes ≤ count
        → remove_loop size count (c ∷ cs) p len dest
          ≡ remove_loop size
              (count - (taken count c))
              cs
              (recycle size c p)
              (sub_size len (taken count c))
              (dest ++ take (taken count c) c.bytes)
    unfolding remove_loop
    remove_loop_whole dest k h = ground arith

    remove_loop_part :
        (dest : Bytes)
        → 1 ≤ length c.bytes
        → count < length c.bytes
        → remove_loop size count (c ∷ cs) p len dest
          ≡ ok (
            dest ++ take (taken count c) c.bytes,
            (drain_loop size count (c ∷ cs) p len drained).1,
          )
    unfolding remove_loop drain_loop
    remove_loop_part dest k h = ground arith

  drain_loop-IsDrained :
      (count : ℕ) (cs : List Memchunk) (p : Pool) (len drained : ℕ)
      → All (IsChunk size) cs
      → len ≡ length (contents cs)
      → len < 2 ^ 64
      → IsDrained count drained (contents cs) (drain_loop size count cs p len drained)
  unfolding drain_loop
  drain_loop-IsDrained count [] p len drained k e b = record {
    number = omega arith;
    rest = sym (drop-nil count);
    right = tt;
    counted = e;
  }
  drain_loop-IsDrained count (c ∷ cs) p len drained k e b =
      elim (Bool-cases (leb (length c.bytes) count)) [
        | inl le ↦ whole (leb→le (length c.bytes) count le) (λ e' b'.
            drain_loop-IsDrained (count - taken count c) cs (recycle size c p)
              (sub_size len (taken count c)) (drained + taken count c) k.1 e' b')
        | inr gt ↦ part (ground arith)
      ]
    where
      sizes : length (contents (c ∷ cs)) ≡ length c.bytes + length (contents cs)
      sizes = length-append c.bytes (contents cs)

      whole :
          length c.bytes ≤ count
          → (sub_size len (taken count c) ≡ length (contents cs)
              → sub_size len (taken count c) < 2 ^ 64
              → IsDrained (count - taken count c) (drained + taken count c) (contents cs) (
                  drain_loop size
                    (count - taken count c)
                    cs
                    (recycle size c p)
                    (sub_size len (taken count c))
                    (drained + taken count c)))
          → IsDrained count drained
              (contents (c ∷ cs))
              (drain_loop size count (c ∷ cs) p len drained)
      whole le rec =
          let d = rec (omega (arith, e, b, sizes)) (omega arith) in
          rw (drain_loop_whole count c cs p len drained le) (record {
            number = omega (arith, d.number, sizes);
            rest =
                d.rest
                ∙ ap (λ n. drop n (contents cs)) (omega arith)
                ∙ sym (drop-past count c.bytes (contents cs) le);
            right = d.right;
            counted = d.counted;
          })

      part :
          count < length c.bytes
          → IsDrained count drained
              (contents (c ∷ cs))
              (drain_loop size count (c ∷ cs) p len drained)
      part lt = rw (drain_loop_part count c cs p len drained lt) (record {
        number = omega (arith, sizes);
        rest =
            ap (λ n. drop n c.bytes ++ contents cs) (omega arith)
            ∙ sym (drop-append count c.bytes (contents cs) (omega arith));
        right = (
          record {
            holds = omega (arith, length-drop (taken count c) c.bytes);
            fits = omega (arith, length-drop (taken count c) c.bytes, k.0.fits);
          },
          k.1,
        );
        counted = omega (
          arith,
          e,
          b,
          sizes,
          length-append (drop (taken count c) c.bytes) (contents cs),
          length-drop (taken count c) c.bytes,
        );
      })

  -- Draining takes the bytes away from the front, says how many, and keeps the queue right.
  pub drain-Queue :
      (count : ℕ) (m : Memchunks)
      → IsQueue size m
      → ((drain size count m).0 ≡ min count (length (contents m.chain)))
        × (contents (drain size count m).1.chain ≡ drop count (contents m.chain))
        × IsQueue size (drain size count m).1
  unfolding drain
  drain-Queue count m q =
      let d =
        drain_loop-IsDrained count m.chain m.pool m.len 0 q.chunks q.counted
          (omega (arith, q.counted, q.bounded)) in
      (
        omega (arith, d.number),
        d.rest,
        record {
          chunks = d.right;
          counted = d.counted;
          bounded =
              omega (arith, ap length d.rest, length-drop count (contents m.chain), q.bounded);
        },
      )

  -- Where no chunk is empty, `remove` copies what is in front, fails no assertion, and leaves what
  -- `drain` leaves.
  remove_loop-drain_loop :
      (count : ℕ) (cs : List Memchunk) (p : Pool) (len drained : ℕ) (dest : Bytes)
      → All (IsChunk size) cs
      → remove_loop size count cs p len dest
        ≡ ok (dest ++ take count (contents cs), (drain_loop size count cs p len drained).1)
  unfolding remove_loop drain_loop
  remove_loop-drain_loop count [] p len drained dest k =
      ap (λ d. ok (d, record { pool = p; chain = []; len = len }))
        (sym (append-nil dest) ∙ ap (λ t. dest ++ t) (sym (take-nil count)))
  remove_loop-drain_loop count (c ∷ cs) p len drained dest k =
      elim (Bool-cases (leb (length c.bytes) count)) [
        | inl le ↦ whole (leb→le (length c.bytes) count le) (
            remove_loop-drain_loop (count - taken count c) cs (recycle size c p)
              (sub_size len (taken count c)) (drained + taken count c)
              (dest ++ take (taken count c) c.bytes) k.1)
        | inr gt ↦ part (ground arith)
      ]
    where
      copied :
          length c.bytes ≤ count
          → (dest ++ take (taken count c) c.bytes) ++ take (count - taken count c) (contents cs)
            ≡ dest ++ take count (contents (c ∷ cs))
      copied le =
          append_assoc dest (take (taken count c) c.bytes)
            (take (count - taken count c) (contents cs))
          ∙ ap (λ t. dest ++ t)
              (ap₂ ◌++◌ (take-all (taken count c) c.bytes (omega arith))
                  (ap (λ n. take n (contents cs)) (omega arith))
                ∙ sym (take-past count c.bytes (contents cs) le))

      whole :
          length c.bytes ≤ count
          → remove_loop size
              (count - taken count c)
              cs
              (recycle size c p)
              (sub_size len (taken count c))
              (dest ++ take (taken count c) c.bytes)
            ≡ ok (
              (dest ++ take (taken count c) c.bytes) ++ take (count - taken count c) (contents cs),
              (drain_loop size
                  (count - taken count c)
                  cs
                  (recycle size c p)
                  (sub_size len (taken count c))
                  (drained + taken count c)).1,
            )
          → remove_loop size count (c ∷ cs) p len dest
            ≡ ok (
              dest ++ take count (contents (c ∷ cs)),
              (drain_loop size count (c ∷ cs) p len drained).1,
            )
      whole le rec =
          remove_loop_whole count c cs p len drained dest k.0.holds le
          ∙ rec
          ∙ ap₂ (λ d r. ok (d, r.1)) (copied le)
              (sym (drain_loop_whole count c cs p len drained le))

      part :
          count < length c.bytes
          → remove_loop size count (c ∷ cs) p len dest
            ≡ ok (
              dest ++ take count (contents (c ∷ cs)),
              (drain_loop size count (c ∷ cs) p len drained).1,
            )
      part lt =
          remove_loop_part count c cs p len drained dest k.0.holds lt
          ∙ ap (λ t. ok (dest ++ t, (drain_loop size count (c ∷ cs) p len drained).1))
              (ap (λ n. take n c.bytes) (omega arith)
                ∙ sym (take-in_front count c.bytes (contents cs) (omega arith)))

  -- `remove` gives the bytes in front of the queue and leaves the others; no assertion fails.
  pub remove-Queue :
      (count : ℕ) (m : Memchunks)
      → IsQueue size m
      → (m' : Memchunks) × (remove size count m ≡ ok (take count (contents m.chain), m'))
        × (contents m'.chain ≡ drop count (contents m.chain))
        × IsQueue size m'
  unfolding remove drain
  remove-Queue zero m q = (m, refl, refl, q)
  remove-Queue (suc count) m q =
      let (number, rest, right) = drain-Queue (suc count) m q in
      (
        (drain size (suc count) m).1,
        rw not_zero (remove_loop-drain_loop (suc count) m.chain m.pool m.len 0 [] q.chunks),
        rest,
        right,
      )
    where
      not_zero : (suc count == 0) ≡ false
      not_zero = ground arith
