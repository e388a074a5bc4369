-- ===== src/Load/Schedule/Shares.antt =====
-- Each scenario is chosen so often that its requests come as often as its weight says.
use h2loadrunner.Base.{
  ℕ, zero, suc, ◌+◌, ◌-◌, ◌*◌, ◌/◌, ◌%◌, ◌^◌, ◌==◌, ◌≤◌, ◌<◌, ◌≡◌, refl, sym, ap, ◌∙◌, ltb, leb,
  not, Bool, false, some, List, [], ◌∷◌, map, length, or_else, Outcome, ok, stop, arith, All,
  get_elem?,
}
use h2loadrunner.Mock.Group.{map_set, distribution_loop, last_key}
use h2loadrunner.Mock.Group.Draw.{
  sum, owner, cumulated, distribution_loop-cumulated, upper_bound-cumulated,
}
use h2loadrunner.Mock.Group.Shares.{
  count_below, count_below-congr, count_below-owner, last_key-cumulated, weight_at,
}
use h2loadrunner.Load.Schedule.{
  ScheduledScenario, share, schedule_loop, schedule_map, schedule_total, greatest_key,
  find_common_multiple, final_set, get_index_of_next_scenario_to_run,
}
use h2loadrunner.Load.Schedule.Multiple.{product, Divides, Divides-find_common_multiple}

-- What a scenario needs for its share to be exact: its requests divide the multiple, and the product of
-- its weight and the multiple does not wrap.
abbrev pub IsExact : ℕ → ScheduledScenario → Type 0
IsExact cm s = (0 < s.requests_size) × Divides s.requests_size cm × (s.weight * cm < 2 ^ 64)

exact_div : (n q s : ℕ) → 0 < s → n ≡ q * s → n / s * s ≡ n
exact_div n q s h e = grind arith

weigh : (w cm q s : ℕ) → cm ≡ q * s → w * cm ≡ w * q * s
weigh w cm q s e = grind arith

share_exact :
    (cm : ℕ) (s : ScheduledScenario) → IsExact cm s → share cm s * s.requests_size ≡ s.weight * cm
unfolding share
share_exact cm s (some_requests, (q, eq), small) =
    let whole : s.weight * cm % 2 ^ 64 ≡ s.weight * cm = omega arith in
    rw whole (
      exact_div (s.weight * cm) (s.weight * q) s.requests_size some_requests
        (weigh s.weight cm q s.requests_size eq))

share_zero :
    (cm : ℕ) (s : ScheduledScenario)
    → 0 < cm
    → IsExact cm s
    → (share cm s == 0) ≡ not (ltb 0 s.weight)
share_zero cm s h e = test (share cm s) s.requests_size s.weight cm h e.0 (share_exact cm s e)
  where
    test : (a r w cm : ℕ) → 0 < cm → 0 < r → a * r ≡ w * cm → (a == 0) ≡ not (ltb 0 w)
    test zero r zero cm h k e = refl
    test zero r (suc w) cm h k e = absurd (grind arith)
    test (suc a) r zero cm h k e = absurd (grind arith)
    test (suc a) r (suc w) cm h k e = ground arith

schedule_loop-distribution_loop :
    (cm : ℕ) (ss : List ScheduledScenario) (index total : ℕ) (m : List (ℕ × ℕ))
    → 0 < cm
    → All (IsExact cm) ss
    → schedule_loop cm ss index total m ≡ distribution_loop (map (share cm) ss) index total m
unfolding schedule_loop distribution_loop
schedule_loop-distribution_loop cm [] index total m h a = refl
schedule_loop-distribution_loop cm (s ∷ ss) index total m h a = ground (
  arith,
  share_zero cm s h a.0,
  schedule_loop-distribution_loop cm ss (suc index) ((total + share cm s) % 2 ^ 64)
      (map_set ((total + share cm s) % 2 ^ 64) index m) h a.1,
  schedule_loop-distribution_loop cm ss (suc index) total m h a.1,
)

greatest_key-last_key :
    (m : List (ℕ × ℕ)) (t : ℕ) → last_key 0 m ≡ t → 0 < t → greatest_key m ≡ ok t
unfolding greatest_key last_key
greatest_key-last_key [] t e h = absurd (omega arith)
greatest_key-last_key ((k, v) ∷ m) t e h = ap ok e

module _ (ss : List ScheduledScenario) where
  abbrev pub multiple : ℕ
  multiple = find_common_multiple (map (λ s. s.requests_size) ss)

  -- The shares add up to a total that the draw, an `int`, can reach, and is not 0.
  abbrev pub all_shares : List ℕ
  all_shares = map (share multiple) ss

  -- The scenario of an index is drawn.
  abbrev pub selects : ℕ → ℕ → Bool
  selects i r = elim (get_index_of_next_scenario_to_run ss r) [ ok k ↦ k == i | stop s ↦ false ]

  module _ (several : 2 ≤ length ss) (exact : All (IsExact multiple) ss) (not_zero : 0 < multiple)
      (drawn : 0 < sum all_shares) (small : sum all_shares < 2 ^ 31) where
    schedule_map-cumulated : schedule_map ss ≡ cumulated all_shares 0 0
    unfolding schedule_map
    schedule_map-cumulated =
        schedule_loop-distribution_loop multiple ss 0 0 [] not_zero exact
        ∙ distribution_loop-cumulated all_shares 0 0 [] tt (omega arith)

    pub schedule_total-sum : schedule_total ss ≡ ok (sum all_shares)
    unfolding schedule_total
    schedule_total-sum = rw schedule_map-cumulated (
        greatest_key-last_key (cumulated all_shares 0 0) (sum all_shares)
          (last_key-cumulated all_shares 0 0 0 ∙ ground arith) drawn)

    get_index-owner :
        (r : ℕ)
        → r < sum all_shares
        → get_index_of_next_scenario_to_run ss r ≡ ok (owner all_shares r)
    unfolding get_index_of_next_scenario_to_run
    get_index-owner r h =
        rw (more_than_one, schedule_total-sum, schedule_map-cumulated)
          (ap ok (
            ap (λ o. or_else o 0)
              (upper_bound-cumulated all_shares 0 0 r (omega arith) (omega arith))
            ∙ omega (arith, ap (owner all_shares) {x = r - 0} {y = r} (omega arith))))
      where
        more_than_one : leb (length ss) 1 ≡ false
        more_than_one = ground arith

    counted : (i : ℕ) → count_below (sum all_shares) (selects i) ≡ weight_at all_shares i
    counted i =
        count_below-congr (sum all_shares) (selects i) (λ r. owner all_shares r == i)
          (λ r h.
            ap (λ (o : Outcome ℕ). elim o as (λ _. Bool) [ ok k ↦ k == i | stop s ↦ false ])
              (get_index-owner r h))
        ∙ count_below-owner all_shares i

All-IsExact :
    (cm : ℕ) (ss : List ScheduledScenario)
    → All (λ s. 0 < s.requests_size) ss
    → All (λ s. s.weight * cm < 2 ^ 64) ss
    → All (λ v. Divides v cm) (map (λ s. s.requests_size) ss)
    → All (IsExact cm) ss
All-IsExact cm [] p b d = tt
All-IsExact cm (s ∷ ss) p b d = ((p.0, d.0, b.0), All-IsExact cm ss p.1 b.1 d.1)

positive_sizes :
    (ss : List ScheduledScenario)
    → All (λ s. 0 < s.requests_size) ss
    → All (λ v. 0 < v) (map (λ s. s.requests_size) ss)
positive_sizes [] p = tt
positive_sizes (s ∷ ss) p = (p.0, positive_sizes ss p.1)

ok-inj : (a b : ℕ) → ok a ≡ ok b → a ≡ b
ok-inj a b h = cc

some-inj : (t s : ScheduledScenario) → some t ≡ some s → t ≡ s
some-inj t s h = cc

share_at :
    (cm i : ℕ) (ss : List ScheduledScenario) (s : ScheduledScenario)
    → All (IsExact cm) ss
    → get_elem? ss i ≡ some s
    → weight_at (map (share cm) ss) i * s.requests_size ≡ s.weight * cm
share_at cm i [] s a e = absurd (ground arith)
share_at cm zero (t ∷ ss) s a e =
    let same : t ≡ s = some-inj t s e in
    ap (λ u. share cm t * u.requests_size) (sym same)
    ∙ share_exact cm t a.0
    ∙ ap (λ u. u.weight * cm) same
share_at cm (suc i) (t ∷ ss) s a e = share_at cm i ss s a.1 e

-- With two or more scenarios that all have requests, and numbers that fit, the draws below the total
-- that select a scenario, times its number of requests, are its weight times the common multiple: over
-- all scenarios the requests come in the proportion of the weights.
pub count_below-get_index :
    (ss : List ScheduledScenario) (i total : ℕ) (s : ScheduledScenario)
    → 2 ≤ length ss
    → All (λ t. 0 < t.requests_size) ss
    → product (final_set (map (λ t. t.requests_size) ss)) < 2 ^ 64
    → All (λ t. t.weight * multiple ss < 2 ^ 64) ss
    → 0 < sum (all_shares ss)
    → sum (all_shares ss) < 2 ^ 31
    → schedule_total ss ≡ ok total
    → get_elem? ss i ≡ some s
    → count_below total (selects ss i) * s.requests_size ≡ s.weight * multiple ss
count_below-get_index ss i total s several positive fits weights drawn small e at =
    ap (λ n. count_below n (selects ss i) * s.requests_size) same_total
    ∙ ap (λ c. c * s.requests_size) (counted ss several exact not_zero drawn small i)
    ∙ share_at (multiple ss) i ss s exact at
  where
    divided : (0 < multiple ss) × All (λ v. Divides v (multiple ss)) (map (λ t. t.requests_size) ss)
    divided =
        Divides-find_common_multiple (map (λ t. t.requests_size) ss) (positive_sizes ss positive)
          fits

    not_zero : 0 < multiple ss
    not_zero = divided.0

    exact : All (IsExact (multiple ss)) ss
    exact = All-IsExact (multiple ss) ss positive weights divided.1

    same_total : total ≡ sum (all_shares ss)
    same_total =
        ok-inj total (sum (all_shares ss))
          (sym e ∙ schedule_total-sum ss several exact not_zero drawn small)
