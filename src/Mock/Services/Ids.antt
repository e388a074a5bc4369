-- ===== src/Mock/Services/Ids.antt =====
-- After `build_match_rule_unique_id` two rules share an identifier exactly if `operator<` cannot tell
-- them apart.
use h2loadrunner.Base.{
  ◌≡◌, refl, sym, ◌∙◌, ◌↔◌, ◌⊎◌, inl, inr, true, List, [], ◌∷◌, ◌++◌, map, All, All-append,
  All-front, All-back, subst, IsStrictWeak,
}
use h2loadrunner.Base.Ordered.{
  set_insert_all-All, has_equiv, has_equiv-inserted, index_of, index_of_eq, equiv-index_of, equiv,
}
use h2loadrunner.Mock.Rule.{MatchRule, rule_lt}
use h2loadrunner.Mock.Rule.Order.{rule_lt-IsStrictWeak}
use h2loadrunner.Mock.Services.{
  H2ServerService, service_lt, all_rules, all_match_rules, assign, assign_rule,
  build_match_rule_unique_id,
}

-- The rule is an element of the list.
abbrev pub Among : List MatchRule → MatchRule → Type 0
Among [] r = ⊥
Among (x ∷ xs) r = (x ≡ r) ⊎ Among xs r

All-Among :
    (P : MatchRule → Type 0) (xs : List MatchRule) (r : MatchRule) → All P xs → Among xs r → P r
All-Among P [] r h m = absurd m
All-Among P (x ∷ xs) r h (inl e) = subst P e h.0
All-Among P (x ∷ xs) r h (inr m) = All-Among P xs r h.1 m

Among-front : (xs ys : List MatchRule) (r : MatchRule) → Among xs r → Among (xs ++ ys) r
Among-front [] ys r m = absurd m
Among-front (x ∷ xs) ys r (inl e) = inl e
Among-front (x ∷ xs) ys r (inr m) = inr (Among-front xs ys r m)

Among-back : (xs ys : List MatchRule) (r : MatchRule) → Among ys r → Among (xs ++ ys) r
Among-back [] ys r m = m
Among-back (x ∷ xs) ys r m = inr (Among-back xs ys r m)

All-of :
    (P : MatchRule → Type 0) (xs : List MatchRule) → ((r : MatchRule) → Among xs r → P r) → All P xs
All-of P [] h = tt
All-of P (x ∷ xs) h = (h x (inl refl), All-of P xs (λ r m. h r (inr m)))

-- Each rule of each service is among the rules of all.
pub all_rules-Among :
    (P : MatchRule → Type 0) (ss : List H2ServerService)
    → ((r : MatchRule) → Among (all_rules ss) r → P r)
    → All (λ (s : H2ServerService). All P s.request.match_rules) ss
all_rules-Among P [] h = tt
all_rules-Among P (s ∷ ss) h = (
  All-of P s.request.match_rules
      (λ r m. h r (Among-front s.request.match_rules (all_rules ss) r m)),
  all_rules-Among P ss (λ r m. h r (Among-back s.request.match_rules (all_rules ss) r m)),
)

-- A rule that has its position in the set of all rules.
IsAssigned : List MatchRule → MatchRule → Type 0
IsAssigned known r = (r.unique_id ≡ index_of rule_lt r known) × (has_equiv rule_lt r known ≡ true)

-- The order does not look at the identifier.
index_of-assign_rule :
    (known xs : List MatchRule) (r : MatchRule)
    → (index_of rule_lt (assign_rule known r) xs ≡ index_of rule_lt r xs)
      × (has_equiv rule_lt (assign_rule known r) xs ≡ has_equiv rule_lt r xs)
unfolding index_of has_equiv rule_lt
index_of-assign_rule known [] r = (refl, refl)
index_of-assign_rule known (x ∷ xs) r = let (p, q) = index_of-assign_rule known xs r in (rw p, rw q)

map-IsAssigned :
    (known xs : List MatchRule)
    → All (λ r. has_equiv rule_lt r known ≡ true) xs
    → All (IsAssigned known) (map (assign_rule known) xs)
unfolding IsAssigned
map-IsAssigned known [] h = tt
map-IsAssigned known (x ∷ xs) h =
    let (p, q) = index_of-assign_rule known known x in
    ((sym p, q ∙ h.0), map-IsAssigned known xs h.1)

abbrev EachRule : (MatchRule → Type 0) → H2ServerService → Type 0
EachRule P s = All P s.request.match_rules

map-assign-EachRule :
    (known : List MatchRule) (ss : List H2ServerService)
    → All (λ r. has_equiv rule_lt r known ≡ true) (all_rules ss)
    → All (EachRule (IsAssigned known)) (map (assign known) ss)
map-assign-EachRule known [] h = tt
map-assign-EachRule known (s ∷ ss) h = (
  map-IsAssigned known s.request.match_rules (All-front _ s.request.match_rules (all_rules ss) h),
  map-assign-EachRule known ss (All-back _ s.request.match_rules (all_rules ss) h),
)

all_rules-All :
    (P : MatchRule → Type 0) (ss : List H2ServerService)
    → All (EachRule P) ss
    → All P (all_rules ss)
all_rules-All P [] h = tt
all_rules-All P (s ∷ ss) h =
    All-append P s.request.match_rules (all_rules ss) h.0 (all_rules-All P ss h.1)

built_rules-IsAssigned :
    (ss : List H2ServerService)
    → All (IsAssigned (all_match_rules ss)) (all_rules (build_match_rule_unique_id ss))
unfolding build_match_rule_unique_id
built_rules-IsAssigned ss = all_rules-All (IsAssigned known) (build_match_rule_unique_id ss) (
    set_insert_all-All service_lt (EachRule (IsAssigned known)) (map (assign known) ss) []
      (map-assign-EachRule known ss
        (has_equiv-inserted rule_lt rule_lt-IsStrictWeak (all_rules ss) []))
      tt)
  where
    known : List MatchRule
    known = all_match_rules ss

-- In a server with its identifiers built, two rules share one exactly if they are equivalent under
-- `operator<`.
pub unique_id_iff :
    (ss : List H2ServerService) (r s : MatchRule)
    → Among (all_rules (build_match_rule_unique_id ss)) r
    → Among (all_rules (build_match_rule_unique_id ss)) s
    → (r.unique_id ≡ s.unique_id) ↔ (equiv rule_lt r s ≡ true)
unfolding IsAssigned
unique_id_iff ss r s m n = (
  λ e. index_of_eq rule_lt w r s known (of_r.1) (of_s.1) (sym of_r.0 ∙ e ∙ of_s.0),
  λ e. of_r.0 ∙ equiv-index_of rule_lt w r s known e ∙ sym of_s.0,
)
  where
    known : List MatchRule
    known = all_match_rules ss

    w : IsStrictWeak rule_lt
    w = rule_lt-IsStrictWeak

    of_r : IsAssigned known r
    of_r = All-Among (IsAssigned known) _ r (built_rules-IsAssigned ss) m

    of_s : IsAssigned known s
    of_s = All-Among (IsAssigned known) _ s (built_rules-IsAssigned ss) n
