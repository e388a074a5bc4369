-- ===== src/Memchunk/Queue.antt =====
-- The chunks as a queue of bytes.
use h2loadrunner.Base.{
  ℕ, zero, suc, ◌+◌, ◌-◌, ◌^◌, ◌≤◌, ◌<◌, ◌≡◌, ◌⊎◌, inl, inr, refl, sym, ap, ◌∙◌, min, List, [], ◌∷◌,
  ◌++◌, length, take, drop, arith, All, append_assoc, append-nil, length-append, length-take,
  length-drop, take-append-drop,
}
use h2loadrunner.Text.{Bytes}
use h2loadrunner.Memchunk.{
  Memchunk, Pool, Memchunks, add_size, reset_chunk, left, get, append_loop, append_at, append_chain,
  append,
}

-- The bytes of the chunks, the head's first.
abbrev pub contents : List Memchunk → Bytes
contents [] = []
contents (c ∷ cs) = c.bytes ++ contents cs

module _ (size : ℕ) where
  -- A chunk holds something, and no more than its buffer does.
  pub record IsChunk (c : Memchunk) : Type 0 where
    pub holds : 1 ≤ length c.bytes
    pub fits : c.pos + length c.bytes ≤ size

  -- Every chunk is right, and `len` is the number of bytes.
  pub record IsQueue (m : Memchunks) : Type 0 where
    pub chunks : All IsChunk m.chain
    pub counted : m.len ≡ length (contents m.chain)
    pub bounded : length (contents m.chain) < 2 ^ 64

module _ (size : ℕ) (positive : 1 ≤ size) where
  -- What a run of the loop makes of the tail and the bytes that it appends.
  record IsAppended (src before : Bytes) (len : ℕ) (r : List Memchunk × (Pool × ℕ)) : Type 0 where
    whole : contents r.0 ≡ before ++ src
    right : All (IsChunk size) r.0
    longer : r.1.1 ≡ len + length src

  List-cases : (xs : Bytes) → (xs ≡ []) ⊎ ((b : ℕ) × (rest : Bytes) × (xs ≡ b ∷ rest))
  List-cases [] = inl refl
  List-cases (b ∷ rest) = inr (b, rest, refl)

  free-cases :
      (cs : List Memchunk) → (cs ≡ []) ⊎ ((c : Memchunk) × (rest : List Memchunk) × (cs ≡ c ∷ rest))
  free-cases [] = inl refl
  free-cases (c ∷ rest) = inr (c, rest, refl)

  -- A chunk from the pool is empty, whether it is new or used again.
  pub get_fresh : (p : Pool) → (get size p).0 ≡ record { pos = 0; bytes = [] }
  unfolding get reset_chunk
  get_fresh p = elim (free-cases p.freelist) [ inl e ↦ rw e refl | inr (c, rest, e) ↦ rw e refl ]

  -- The fuel is enough: a round that writes nothing is the first one, where the tail is full.
  record IsReady (fuel : ℕ) (src : Bytes) (tail : Memchunk) (len : ℕ) : Type 0 where
    fuel_full : left size tail ≡ 0 → length src < fuel
    fuel_enough : length src ≤ fuel
    some_bytes : 1 ≤ length src
    fits : tail.pos + length tail.bytes ≤ size
    full : left size tail ≡ 0 → 1 ≤ length tail.bytes
    bound : len + length src < 2 ^ 64

  fresh-IsReady :
      (fuel : ℕ) (src : Bytes) (p : Pool) (len : ℕ)
      → length src ≤ fuel
      → 1 ≤ length src
      → len + length src < 2 ^ 64
      → IsReady fuel src (get size p).0 len
  fresh-IsReady fuel src p len f s b = rw (get_fresh p) (record {
    fuel_full = λ e. absurd (omega arith);
    fuel_enough = f;
    some_bytes = s;
    fits = omega arith;
    full = λ e. absurd (omega arith);
    bound = b;
  })

  -- What a round writes into the tail.
  abbrev written : Bytes → Memchunk → ℕ
  written src tail = min (length src) (left size tail)

  abbrev filled : Bytes → Memchunk → Memchunk
  filled src tail = record tail { bytes = tail.bytes ++ take (written src tail) src }

  append_loop_done :
      (fuel : ℕ) (src : Bytes) (tail : Memchunk) (p : Pool) (len : ℕ)
      → drop (written src tail) src ≡ []
      → append_loop size (suc fuel) src tail p len
        ≡ (filled src tail ∷ [], (p, add_size len (written src tail)))
  unfolding append_loop
  append_loop_done fuel src tail p len e = rw (e, append_loop)

  append_loop_more :
      (fuel : ℕ) (src : Bytes) (tail : Memchunk) (p : Pool) (len b : ℕ) (rest : Bytes)
      → drop (written src tail) src ≡ b ∷ rest
      → append_loop size (suc fuel) src tail p len ≡ (
          let q =
            append_loop size fuel
              (b ∷ rest)
              (get size p).0
              (get size p).1
              (add_size len (written src tail)) in
          (filled src tail ∷ q.0, q.1))
  unfolding append_loop
  append_loop_more fuel src tail p len b rest e = rw (e, append_loop)

  module _ (fuel : ℕ) (src : Bytes) (tail : Memchunk) (len : ℕ)
      (r : IsReady (suc fuel) src tail len) where
    filled-IsChunk : IsChunk size (filled src tail)
    filled-IsChunk = record {
      holds = ground (
        arith,
        length-append tail.bytes (take (written src tail) src),
        length-take (written src tail) src,
        r.full,
        r.some_bytes,
      );
      fits = omega (
        arith,
        length-append tail.bytes (take (written src tail) src),
        length-take (written src tail) src,
        r.fits,
      );
    }

    split : take (written src tail) src ++ drop (written src tail) src ≡ src
    split = take-append-drop (written src tail) src

    rest_length : length (drop (written src tail) src) ≡ length src - written src tail
    rest_length = length-drop (written src tail) src

    all_written : drop (written src tail) src ≡ [] → take (written src tail) src ≡ src
    all_written e =
        sym (append-nil (take (written src tail) src))
        ∙ ap (λ d. take (written src tail) src ++ d) (sym e)
        ∙ split

    done-IsAppended :
        (p : Pool)
        → drop (written src tail) src ≡ []
        → IsAppended src tail.bytes len (filled src tail ∷ [], (p, add_size len (written src tail)))
    done-IsAppended p e = record {
      whole = append-nil (filled src tail).bytes ∙ ap (λ t. tail.bytes ++ t) (all_written e);
      right = (filled-IsChunk, tt);
      longer = omega (arith, rest_length, ap length e, r.bound);
    }

    more-IsReady :
        (p : Pool) (b : ℕ) (rest : Bytes)
        → drop (written src tail) src ≡ b ∷ rest
        → IsReady fuel (b ∷ rest) (get size p).0 (add_size len (written src tail))
    more-IsReady p b rest e =
        fresh-IsReady fuel (b ∷ rest) p (add_size len (written src tail))
          (ground (arith, rest_length, ap length e, r.fuel_full, r.fuel_enough)) (omega arith)
          (omega (arith, rest_length, ap length e, r.bound))

    more-IsAppended :
        (p : Pool) (b : ℕ) (rest : Bytes) (q : List Memchunk × (Pool × ℕ))
        → drop (written src tail) src ≡ b ∷ rest
        → IsAppended (b ∷ rest) (get size p).0.bytes (add_size len (written src tail)) q
        → IsAppended src tail.bytes len (filled src tail ∷ q.0, q.1)
    more-IsAppended p b rest q e a = record {
      whole =
          ap (λ t. (filled src tail).bytes ++ t)
            (a.whole ∙ ap (λ c. c.bytes ++ (b ∷ rest)) (get_fresh p) ∙ sym e)
          ∙ append_assoc tail.bytes (take (written src tail) src) (drop (written src tail) src)
          ∙ ap (λ t. tail.bytes ++ t) split;
      right = (filled-IsChunk, a.right);
      longer = omega (arith, a.longer, rest_length, ap length e, r.bound);
    }

  append_loop-IsAppended :
      (fuel : ℕ) (src : Bytes) (tail : Memchunk) (p : Pool) (len : ℕ)
      → IsReady fuel src tail len
      → IsAppended src tail.bytes len (append_loop size fuel src tail p len)
  append_loop-IsAppended zero src tail p len r = absurd (omega (arith, r.fuel_enough, r.some_bytes))
  append_loop-IsAppended (suc fuel) src tail p len r =
      elim (List-cases (drop (written src tail) src)) [
        | inl e ↦
            rw (append_loop_done fuel src tail p len e) (done-IsAppended fuel src tail len r p e)
        | inr (b, rest, e) ↦ rw (append_loop_more fuel src tail p len b rest e) (
            more-IsAppended fuel src tail len r p b rest _ e (
              append_loop-IsAppended fuel (b ∷ rest) (get size p).0 (get size p).1
                (add_size len (written src tail)) (more-IsReady fuel src tail len r p b rest e)))
      ]

  -- The chunks in front of the tail are kept.
  append_at-IsAppended :
      (src : Bytes) (c : Memchunk) (cs : List Memchunk) (p : Pool) (len : ℕ)
      → 1 ≤ length src
      → All (IsChunk size) (c ∷ cs)
      → len + length src < 2 ^ 64
      → IsAppended src (contents (c ∷ cs)) len (append_at size src c cs p len)
  unfolding append_at
  append_at-IsAppended src c [] p len h k bound = rw (append-nil c.bytes) (
      append_loop-IsAppended (suc (length src)) src c p len (record {
        fuel_full = λ e. omega arith;
        fuel_enough = omega arith;
        some_bytes = h;
        fits = k.0.fits;
        full = λ e. k.0.holds;
        bound = bound;
      }))
  append_at-IsAppended src c (d ∷ ds) p len h k bound =
      let a = append_at-IsAppended src d ds p len h k.1 bound in
      record {
        whole = ap (λ t. c.bytes ++ t) a.whole ∙ sym (append_assoc c.bytes (contents (d ∷ ds)) src);
        right = (k.0, a.right);
        longer = a.longer;
      }

  append_chain-IsAppended :
      (src : Bytes) (cs : List Memchunk) (p : Pool) (len : ℕ)
      → 1 ≤ length src
      → All (IsChunk size) cs
      → len + length src < 2 ^ 64
      → IsAppended src (contents cs) len (append_chain size src cs p len)
  unfolding append_chain append_at
  append_chain-IsAppended src [] p len h k bound =
      let a =
        append_loop-IsAppended (suc (length src)) src (get size p).0 (get size p).1 len
          (fresh-IsReady (suc (length src)) src p len (omega arith) h bound) in
      record {
        whole = a.whole ∙ ap (λ c. c.bytes ++ src) (get_fresh p);
        right = a.right;
        longer = a.longer;
      }
  append_chain-IsAppended src (c ∷ cs) p len h k bound =
      append_at-IsAppended src c cs p len h k bound

  -- Appending puts the bytes at the end, and keeps the queue right.
  pub append-Queue :
      (src : Bytes) (m : Memchunks)
      → IsQueue size m
      → length (contents m.chain) + length src < 2 ^ 64
      → (contents (append size src m).chain ≡ contents m.chain ++ src)
        × IsQueue size (append size src m)
  unfolding append
  append-Queue [] m q bound = (sym (append-nil (contents m.chain)), q)
  append-Queue (b ∷ src) m q bound =
      let a =
        append_chain-IsAppended (b ∷ src) m.chain m.pool m.len (omega arith) q.chunks
          (omega (arith, q.counted, bound)) in
      (
        a.whole,
        record {
          chunks = a.right;
          counted = omega (
            arith,
            a.longer,
            q.counted,
            ap length a.whole,
            length-append (contents m.chain) (b ∷ src),
          );
          bounded =
              omega (arith, ap length a.whole, length-append (contents m.chain) (b ∷ src), bound);
        },
      )
