-- ===== src/Mock/Json/Nth.antt =====
-- The N-th member, counted from the front or from the back.
use h2loadrunner.Base.{
  ℕ, zero, suc, ◌+◌, ◌≤◌, ◌<◌, ◌≡◌, ◌≢◌, refl, sym, ap, ◌∙◌, none, some, List, [], ◌∷◌, ◌++◌,
  reverse, arith, length, get_elem?, length-reverse,
}
use h2loadrunner.Text.Decimal.{pos, negsuc}
use h2loadrunner.Mock.Json.{nth_forward, nth_backward, first, get_nth}
use native.Mathlib.Decide.{dec_lt}
use mathlib.Core.List.{reverse-cons}

one_more : (k : ℕ) → 1 + k ≡ suc k
one_more k = omega arith

module _ {A : Type 0} where
  nth_forward-get_elem? :
      (ms : List A) (index k : ℕ) → nth_forward ms index (index + k) ≡ get_elem? ms k
  unfolding nth_forward
  nth_forward-get_elem? [] index k = refl
  nth_forward-get_elem? (m ∷ ms) index zero = ground arith
  nth_forward-get_elem? (m ∷ ms) index (suc k) =
      ground (arith, nth_forward-get_elem? ms (index + 1) k)

  -- Going down, the loop finds all but the first member, which is the last of the reversed list.
  nth_backward-get_elem? :
      (ms : List A) (index k : ℕ)
      → suc k < length ms
      → nth_backward ms index (index + k) ≡ get_elem? ms k
  unfolding nth_backward
  nth_backward-get_elem? [] index k h = absurd (omega arith)
  nth_backward-get_elem? (m ∷ []) index k h = absurd (omega arith)
  nth_backward-get_elem? (m ∷ m' ∷ ms) index zero h = ground arith
  nth_backward-get_elem? (m ∷ m' ∷ ms) index (suc k) h =
      ground (arith, nth_backward-get_elem? (m' ∷ ms) (index + 1) k)

  nth_backward_past :
      (ms : List A) (index k : ℕ) → length ms ≤ k → nth_backward ms index (index + k) ≡ none
  unfolding nth_backward
  nth_backward_past [] index k h = refl
  nth_backward_past (m ∷ []) index k h = refl
  nth_backward_past (m ∷ m' ∷ ms) index zero h = absurd (omega arith)
  nth_backward_past (m ∷ m' ∷ ms) index (suc k) h =
      ground (arith, nth_backward_past (m' ∷ ms) (index + 1) k)

  get_elem?_past : (ms : List A) (k : ℕ) → length ms ≤ k → get_elem? ms k ≡ none
  get_elem?_past [] k h = refl
  get_elem?_past (m ∷ ms) zero h = absurd (omega arith)
  get_elem?_past (m ∷ ms) (suc k) h = get_elem?_past ms k (omega arith)

  get_elem?-append_last : (ms : List A) (m : A) → get_elem? (ms ++ (m ∷ [])) (length ms) ≡ some m
  get_elem?-append_last [] m = refl
  get_elem?-append_last (x ∷ ms) m = get_elem?-append_last ms m

  first-reverse : (ms : List A) (k : ℕ) → length ms ≡ suc k → first ms ≡ get_elem? (reverse ms) k
  unfolding first
  first-reverse [] k h = absurd (omega arith)
  first-reverse (m ∷ ms) k h = sym (
      ap (λ l. get_elem? l k) (reverse-cons m ms)
      ∙ ap (get_elem? (reverse ms ++ (m ∷ []))) at_end
      ∙ get_elem?-append_last (reverse ms) m)
    where
      at_end : k ≡ length (reverse ms)
      at_end = omega (arith, length-reverse ms)

  backward_lem :
      (ms : List A) (k : ℕ)
      → length ms ≢ suc k
      → nth_backward (reverse ms) 1 (suc k) ≡ get_elem? (reverse ms) k
  backward_lem ms k h = elim (dec_lt (suc k) (length ms)) [
    | yes within ↦
        rw (one_more k) at
          (nth_backward-get_elem? (reverse ms) 1 k (omega (arith, length-reverse ms)))
    | no past ↦
        rw (one_more k) at (nth_backward_past (reverse ms) 1 k (omega (arith, length-reverse ms)))
        ∙ sym (get_elem?_past (reverse ms) k (omega (arith, length-reverse ms)))
  ]

  -- Member `k + 1` from the front is element `k`, member `-(k + 1)` is element `k` from the back,
  -- and there is no member 0; a number past the end on either side finds nothing.
  pub get_nth_lem :
      (ms : List A) (k : ℕ)
      → (get_nth ms (pos zero) ≡ none)
        × (get_nth ms (pos (suc k)) ≡ get_elem? ms k)
        × (get_nth ms (negsuc k) ≡ get_elem? (reverse ms) k)
  unfolding get_nth
  get_nth_lem ms k = (
    refl,
    rw (one_more k) at (nth_forward-get_elem? ms 1 k),
    ground (arith, first-reverse ms k, backward_lem ms k),
  )
