-- ===== src/Mock/Group/Shares.antt =====
-- Over all draws, the share of a response is its weight.
use h2loadrunner.Base.{
  ℕ, zero, suc, ◌+◌, ◌-◌, ◌^◌, ◌<◌, ◌≡◌, refl, ap, ap₂, ◌∙◌, ◌==◌, if◌then◌else◌, Bool, true, false,
  List, [], ◌∷◌, arith, or_else, get_elem?,
}
use h2loadrunner.Mock.Group.{total_weight, select_response, last_key}
use h2loadrunner.Mock.Group.Draw.{
  sum, owner, cumulated, select_response-owner, distribution_map-cumulated,
}

-- How many numbers below `n` pass the test.
abbrev pub count_below : ℕ → (ℕ → Bool) → ℕ
count_below zero p = 0
count_below (suc n) p = (if p n then 1 else 0) + count_below n p

-- The weight of the response at an index; a missing one has none.
abbrev pub weight_at : List ℕ → ℕ → ℕ
weight_at ws i = or_else (get_elem? ws i) 0

count_below-add :
    (n a : ℕ) (p : ℕ → Bool)
    → count_below (a + n) p ≡ count_below a p + count_below n (λ k. p (a + k))
count_below-add zero a p = ap (λ k. count_below k p) {y = a} (omega arith) ∙ omega arith
count_below-add (suc n) a p =
    ap (λ k. count_below k p) {y = suc (a + n)} (omega arith) ∙ omega (arith, count_below-add n a p)

pub count_below-congr :
    (n : ℕ) (p q : ℕ → Bool) → ((k : ℕ) → k < n → p k ≡ q k) → count_below n p ≡ count_below n q
count_below-congr zero p q h = refl
count_below-congr (suc n) p q h =
    ap₂ ◌+◌ (ap (λ (b : Bool). if b then 1 else 0) (h n (omega arith)))
      (count_below-congr n p q (λ k lt. h k (omega arith)))

count_below-true : (n : ℕ) → count_below n (λ _. true) ≡ n
count_below-true zero = refl
count_below-true (suc n) = omega (arith, count_below-true n)

count_below-false : (n : ℕ) → count_below n (λ _. false) ≡ 0
count_below-false zero = refl
count_below-false (suc n) = omega (arith, count_below-false n)

-- The first response owns the first stretch, and the others what follows.
owner-first : (w : ℕ) (ws : List ℕ) (i k : ℕ) → k < w → (owner (w ∷ ws) k == i) ≡ (0 == i)
unfolding owner
owner-first w ws i k h = ground arith

owner-rest : (w : ℕ) (ws : List ℕ) (k : ℕ) → owner (w ∷ ws) (w + k) ≡ suc (owner ws k)
unfolding owner
owner-rest w ws k = ground (arith, ap (owner ws) (past w k))
  where
    past : (w k : ℕ) → w + k - w ≡ k
    past w k = omega arith

pub count_below-owner :
    (ws : List ℕ) (i : ℕ) → count_below (sum ws) (λ r. owner ws r == i) ≡ weight_at ws i
count_below-owner [] i = refl
count_below-owner (w ∷ ws) zero =
    count_below-add (sum ws) w _
    ∙ ap₂ ◌+◌ (count_below-congr w _ (λ _. true) (owner-first w ws 0) ∙ count_below-true w) (
        count_below-congr (sum ws) _ (λ _. false) (λ k _. ground (arith, owner-rest w ws k))
        ∙ count_below-false (sum ws))
    ∙ omega arith
count_below-owner (w ∷ ws) (suc i) =
    count_below-add (sum ws) w _
    ∙ ap₂ ◌+◌
        (count_below-congr w _ (λ _. false) (λ k h. owner-first w ws (suc i) k h ∙ ground arith)
          ∙ count_below-false w)
        (count_below-congr (sum ws) _ (λ k. owner ws k == i)
            (λ k _. ground (arith, owner-rest w ws k))
          ∙ count_below-owner ws i)
    ∙ omega arith

pub last_key-cumulated :
    (ws : List ℕ) (k index total : ℕ)
    → last_key k (cumulated ws index total) ≡ (if sum ws == 0 then k else total + sum ws)
unfolding last_key cumulated
last_key-cumulated [] k index total = refl
last_key-cumulated (w ∷ ws) k index total = ground (
  arith,
  last_key-cumulated ws k (suc index) (total + w),
  last_key-cumulated ws (total + w) (suc index) (total + w),
)

-- The draws run over the sum of the weights, unless that is zero.
pub total_weight-sum : (ws : List ℕ) → 0 < sum ws → sum ws < 2 ^ 64 → total_weight ws ≡ sum ws
unfolding total_weight
total_weight-sum ws pos small =
    ap (last_key 1) (distribution_map-cumulated ws small)
    ∙ last_key-cumulated ws 1 0 0
    ∙ ground arith

-- Of the draws below `total_weight`, as many select a response as its weight says.
pub count_below-select_response :
    (ws : List ℕ) (i : ℕ)
    → 0 < sum ws
    → sum ws < 2 ^ 64
    → count_below (total_weight ws) (λ r. select_response ws r == i) ≡ weight_at ws i
count_below-select_response ws i pos small =
    ap (λ n. count_below n (λ r. select_response ws r == i)) (total_weight-sum ws pos small)
    ∙ count_below-congr (sum ws) _ (λ r. owner ws r == i)
        (λ r h. ap (λ (o : ℕ). o == i) (select_response-owner ws r small h))
    ∙ count_below-owner ws i
