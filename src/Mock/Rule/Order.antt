-- ===== src/Mock/Rule/Order.antt =====
-- `operator<` of the rules is a strict weak order, as `std::set` needs it, and what it cannot tell apart.
use mathlib.Core.Path.{fun_ext}
use h2loadrunner.Base.{
  ℕ, ◌+◌, ◌≡◌, ◌≢◌, refl, sym, ap, subst, Bool, true, false, not, List, [], ◌∷◌, ◌++◌, arith,
  append_assoc, IsStrictWeak, top_last, top_last-IsStrictWeak,
}
use h2loadrunner.Base.Ordered.{equiv, set_insert, set_insert_equiv, IsSorted}
use h2loadrunner.Text.{Bytes, is_empty, lt_bytes}
use h2loadrunner.Text.Order.{lt_bytes-IsStrictWeak}
use h2loadrunner.Mock.Rule.{MatchRule, MatchType, rule_lt, order_key, enum_value, is_equals_to}

has_header : MatchRule → Bool
has_header r = not (is_empty r.header_name)

exact : MatchRule → Bool
exact r = is_equals_to r.match_type

by_key : MatchRule → MatchRule → Bool
by_key a b = lt_bytes (order_key a) (order_key b)

by_key-IsStrictWeak : IsStrictWeak by_key
unfolding by_key
by_key-IsStrictWeak = record {
  irrefl = λ a. lt_bytes-IsStrictWeak.irrefl (order_key a);
  trans = λ a b c. lt_bytes-IsStrictWeak.trans (order_key a) (order_key b) (order_key c);
  co_trans = λ a b c. lt_bytes-IsStrictWeak.co_trans (order_key a) (order_key b) (order_key c);
}

-- The order is by three keys in turn: a header, an exact match, and the joined text.
rule_lt-top_last : (a b : MatchRule) → top_last has_header (top_last exact by_key) a b ≡ rule_lt a b
unfolding has_header exact by_key rule_lt
rule_lt-top_last a b = ground arith

-- `operator<` of `Match_Rule` is a strict weak order.
pub rule_lt-IsStrictWeak : IsStrictWeak rule_lt
rule_lt-IsStrictWeak = subst IsStrictWeak (fun_ext λ a. fun_ext λ b. rule_lt-top_last a b) (
    top_last-IsStrictWeak (top_last exact by_key)
      (top_last-IsStrictWeak by_key by_key-IsStrictWeak exact) has_header)

-- A rule on one header.
abbrev pub on_header : MatchType → Bytes → Bytes → ℕ → MatchRule
on_header t h o id = record {
  match_type = t;
  header_name = h;
  json_pointer = [];
  object = o;
  unique_id = id;
}

shifted_key :
    (t : MatchType) (h : Bytes) (c : ℕ) (o : Bytes) (i k : ℕ)
    → order_key (on_header t (h ++ (c ∷ [])) o i) ≡ order_key (on_header t h (c ∷ o) k)
shifted_key t h c o i k = ap (◌∷◌ (b'0' + enum_value t)) (append_assoc h (c ∷ []) o)

key_not_below :
    (a b : MatchRule) → order_key a ≡ order_key b → lt_bytes (order_key a) (order_key b) ≡ false
key_not_below a b e =
    subst (λ k. lt_bytes k (order_key b) ≡ false) (sym e)
      (lt_bytes-IsStrictWeak.irrefl (order_key b))

not_below_self :
    (a b : MatchRule)
    → is_empty a.header_name ≡ is_empty b.header_name
    → a.match_type ≡ b.match_type
    → order_key a ≡ order_key b
    → rule_lt a b ≡ false
unfolding rule_lt
not_below_self a b p q e = ground (arith, key_not_below a b e)

-- A byte that moves from the end of the header's name to the front of the object is not seen: the two
-- rules are equivalent, and a sorted set that holds the first, whatever else it holds, refuses the second.
pub rule_lt_collision :
    (t : MatchType) (h : Bytes) (c : ℕ) (o : Bytes) (i k : ℕ) (xs ys : List MatchRule)
    → h ≢ []
    → IsSorted rule_lt (xs ++ (on_header t (h ++ (c ∷ [])) o i ∷ ys))
    → let a = on_header t (h ++ (c ∷ [])) o i in
      let b = on_header t h (c ∷ o) k in
      (equiv rule_lt a b ≡ true) × (set_insert rule_lt b (xs ++ (a ∷ ys)) ≡ xs ++ (a ∷ ys))
rule_lt_collision t [] c o i k xs ys ne sorted = absurd (ne refl)
rule_lt_collision t (x ∷ h) c o i k xs ys ne sorted =
    let a = on_header t ((x ∷ h) ++ (c ∷ [])) o i in
    let b = on_header t (x ∷ h) (c ∷ o) k in
    let below = not_below_self a b refl refl (shifted_key t (x ∷ h) c o i k) in
    let above = not_below_self b a refl refl (sym (shifted_key t (x ∷ h) c o i k)) in
    (
      ground (arith, below, above),
      set_insert_equiv rule_lt rule_lt-IsStrictWeak a b xs ys below above sorted,
    )
