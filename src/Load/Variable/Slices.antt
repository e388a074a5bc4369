-- ===== src/Load/Variable/Slices.antt =====
-- The slices of the clients divide the range of a variable among them.
use h2loadrunner.Base.{
  subst, ◌↔◌, ltb→lt, ℕ, zero, suc, ◌+◌, ◌-◌, ◌*◌, ◌/◌, ◌%◌, ◌^◌, ◌≤◌, ◌<◌, ◌≡◌, inl, inr, sym, ap,
  ◌∙◌, ltb, leb, if◌then◌else◌, min, Option, none, some, arith, Bool-cases,
}
use h2loadrunner.Load.Variable.{add64, sub64, slice}

mul_step : (i n t : ℕ) → i < n → i * t + t ≤ n * t
mul_step i n t h = grind arith

div_mod : (d n : ℕ) → 0 < n → n * (d / n) + d % n ≡ d
div_mod d n h = grind arith

no_wrap :
    (start p t l i e : ℕ)
    → start + p + min i l + t + (if leb l i then 0 else 1) ≤ e
    → e < 2 ^ 64
    → (add64 (add64 start (p % 2 ^ 64)) (min i l) ≡ start + p + min i l)
      × (add64 (add64 (start + p + min i l) t) (if leb l i then 0 else 1)
          ≡ start + p + min i l + t + (if leb l i then 0 else 1))
no_wrap start p t l i e h k = ground arith

module _ (nclients range_start range_end : ℕ) where
  abbrev tokens : ℕ
  tokens = (range_end - range_start) / nclients

  abbrev left : ℕ
  left = (range_end - range_start) % nclients

  -- The first value of a client, and the end of the client before it.
  abbrev pub cut : ℕ → ℕ
  cut i = range_start + i * tokens + min i left

  module _ (some_clients : 0 < nclients) (ordered : range_start ≤ range_end)
      (small : range_end < 2 ^ 64) where
    all_tokens : nclients * tokens + left ≡ range_end - range_start
    all_tokens = div_mod (range_end - range_start) nclients some_clients

    left-lt : left < nclients
    left-lt = grind arith

    difference : sub64 range_end range_start ≡ range_end - range_start
    difference = omega arith

    pub cut_zero : cut 0 ≡ range_start
    cut_zero = omega arith

    pub cut_last : cut nclients ≡ range_end
    cut_last = omega (arith, all_tokens, left-lt)

    cut-suc : (i : ℕ) → cut (suc i) ≡ cut i + tokens + (if leb left i then 0 else 1)
    cut-suc i = ground (arith, suc_mul i tokens)
      where
        suc_mul : (i t : ℕ) → suc i * t ≡ i * t + t
        suc_mul i t = grind arith

    cut-le_end : (i : ℕ) → i < nclients → cut (suc i) ≤ range_end
    cut-le_end i h = ground (arith, cut-suc i, mul_step i nclients tokens h, all_tokens, left-lt)

    -- The client's slice lies between two cuts, where nothing wraps.
    pub slice-cut :
        (i : ℕ)
        → i < nclients
        → 0 < tokens
        → slice nclients i range_start range_end ≡ some (cut i, cut (suc i))
    unfolding slice
    slice-cut i h t =
        let bound : cut i + tokens + (if leb left i then 0 else 1) ≤ range_end =
          omega (arith, cut-suc i, cut-le_end i h) in
        rw difference (
          ground (
            arith,
            cut-suc i,
            no_wrap range_start (i * tokens) tokens left i range_end bound small,
          ))

    pub cut_mono : (i k : ℕ) → cut i ≤ cut (i + k)
    cut_mono i zero = let same : cut (i + 0) ≡ cut i = ap cut (omega arith) in omega (arith, same)
    cut_mono i (suc k) =
        let same : cut (i + suc k) ≡ cut (suc (i + k)) = ap cut (omega arith) in
        omega (arith, cut_mono i k, cut-suc (i + k), same)

    cut_mono_le : (i j : ℕ) → i ≤ j → cut i ≤ cut j
    cut_mono_le i j h =
        let same : cut (i + (j - i)) ≡ cut j = ap cut (omega arith) in
        omega (arith, cut_mono i (j - i), same)

    -- A value below a cut lies between two of the cuts before it.
    between :
        (v n : ℕ)
        → range_start ≤ v
        → v < cut n
        → (i : ℕ) × (i < n) × (cut i ≤ v) × (v < cut (suc i))
    between v zero h k = absurd (omega (arith, cut_zero))
    between v (suc n) h k = elim (Bool-cases (ltb v (cut n))) [
      | inl below ↦
          let (i, lt, at, end) = between v n h (ltb→lt v (cut n) below) in (i, omega arith, at, end)
      | inr above ↦ (n, omega arith, ground arith, k)
    ]

    -- Two slices that hold one value are the same slice.
    one_slice : (v i j : ℕ) → cut i ≤ v → v < cut (suc i) → cut j ≤ v → v < cut (suc j) → i ≡ j
    one_slice v i j a b c d = elim (Bool-cases (ltb i j)) [
      | inl below ↦ absurd (omega (arith, cut_mono_le (suc i) j (ltb→lt i j below)))
      | inr e ↦ elim (Bool-cases (ltb j i)) [
        | inl above ↦ absurd (omega (arith, cut_mono_le (suc j) i (ltb→lt j i above)))
        | inr f ↦ ground arith
      ]
    ]

enough_tokens : (n d : ℕ) → 0 < n → n ≤ d → 0 < d / n
enough_tokens n d h k = grind arith

-- A value lies between the ends of a slice, if there is one.
abbrev pub Within : Option (ℕ × ℕ) → ℕ → Type 0
Within none v = ⊥
Within (some (s, e)) v = (s ≤ v) × (v < e)

-- A value lies in the slice of a client.
abbrev pub InSlice : ℕ → ℕ → ℕ → ℕ → ℕ → Type 0
InSlice nclients range_start range_end i v = Within (slice nclients i range_start range_end) v

module _ (nclients range_start range_end : ℕ) (ordered : range_start ≤ range_end)
    (small : range_end < 2 ^ 64) (some_clients : 0 < nclients)
    (enough : nclients ≤ range_end - range_start) where
  abbrev cut_of : ℕ → ℕ
  cut_of = cut nclients range_start range_end

  the_slice :
      (i : ℕ)
      → i < nclients
      → slice nclients i range_start range_end ≡ some (cut_of i, cut_of (suc i))
  the_slice i h =
      slice-cut nclients range_start range_end some_clients ordered small i h
        (enough_tokens nclients (range_end - range_start) some_clients enough)

  in_cut :
      (i v : ℕ)
      → i < nclients
      → InSlice nclients range_start range_end i v
      → (cut_of i ≤ v) × (v < cut_of (suc i))
  in_cut i v h k = subst (λ o. Within o v) (the_slice i h) k

  -- A slice has a value.
  pub slice_nonempty :
      (i s e : ℕ) → i < nclients → slice nclients i range_start range_end ≡ some (s, e) → s < e
  slice_nonempty i s e h k =
      let t = enough_tokens nclients (range_end - range_start) some_clients enough in
      let same : some (cut_of i, cut_of (suc i)) ≡ some (s, e) = sym (the_slice i h) ∙ k in
      ground (arith, same, cut-suc nclients range_start range_end some_clients ordered small i, t)

  pub slice_bounded :
      (i s e : ℕ) → i < nclients → slice nclients i range_start range_end ≡ some (s, e) → e < 2 ^ 64
  slice_bounded i s e h k =
      let same : some (cut_of i, cut_of (suc i)) ≡ some (s, e) = sym (the_slice i h) ∙ k in
      ground (arith, same, cut-le_end nclients range_start range_end some_clients ordered small i h)

  -- One value is never in the slices of two clients.
  pub slice-apart :
      (i j v : ℕ)
      → i < nclients
      → j < nclients
      → InSlice nclients range_start range_end i v
      → InSlice nclients range_start range_end j v
      → i ≡ j
  slice-apart i j v h k a b =
      let (p, q) = in_cut i v h a in
      let (r, s) = in_cut j v k b in
      one_slice nclients range_start range_end some_clients ordered small v i j p q r s

  -- With at least as many values as clients, a value of the range lies in the slice of one and only one
  -- of the clients, and a slice holds values of the range alone.
  pub slice-divides :
      (v : ℕ)
      → ((range_start ≤ v) × (v < range_end)) ↔ (
          (i : ℕ) × (i < nclients)
          × InSlice nclients range_start range_end i v
          × ((j : ℕ) → j < nclients → InSlice nclients range_start range_end j v → i ≡ j))
  slice-divides v = (held, λ (i, h, k, u). inside i h k)
    where
      held :
          (range_start ≤ v) × (v < range_end)
          → (i : ℕ) × (i < nclients)
            × InSlice nclients range_start range_end i v
            × ((j : ℕ) → j < nclients → InSlice nclients range_start range_end j v → i ≡ j)
      held r =
          let (i, h, p, q) =
            between nclients range_start range_end some_clients ordered small v nclients r.0 (
              omega
                (arith, r.1, cut_last nclients range_start range_end some_clients ordered small)) in
          let k = subst (λ o. Within o v) (sym (the_slice i h)) (p, q) in
          (i, h, k, λ j hj kj. slice-apart i j v h hj k kj)

      inside :
          (i : ℕ)
          → i < nclients
          → InSlice nclients range_start range_end i v
          → (range_start ≤ v) × (v < range_end)
      inside i h k =
          let (p, q) = in_cut i v h k in
          (
            omega (
              arith,
              cut_zero nclients range_start range_end some_clients ordered small,
              cut_mono_le nclients range_start range_end some_clients ordered small 0 i
                  (omega arith),
            ),
            omega (arith, cut-le_end nclients range_start range_end some_clients ordered small i h),
          )
