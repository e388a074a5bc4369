-- ===== src/Load/Client/Receive/Headers.antt =====
-- The headers of a response, looked up by their names.
use h2loadrunner.Base.{
  ℕ, suc, ◌≤◌, ◌==◌, ◌≡◌, if◌then◌else◌, refl, ap, ◌∙◌, Bool, true, false, Option, some, none, List,
  [], ◌∷◌, ◌++◌, arith, Bool-cases, inl, inr, drop, append_assoc, All, ok,
}
use h2loadrunner.Base.Maps.{map_find, map_find-map_assign, map_find-equiv}
use h2loadrunner.Base.Ordered.{equiv}
use h2loadrunner.Text.{Bytes, codes, eq_bytes}
use h2loadrunner.Text.Decimal.{to_string}
use h2loadrunner.Text.Tokenize.Splits.{join}
use h2loadrunner.Cookie.Jar.{RequestData, HeaderMap, ci_less}
use h2loadrunner.Cookie.Jar.Sent.{ci_less-IsStrictWeak}
use h2loadrunner.Load.Client.Receive.{skip_spaces, add_header}
use h2loadrunner.Load.Client.Receive.Answer.{collect, answered, on_response, on_response_lem}
use h2loadrunner.Load.Client.{Client, Stream, find_at}
use h2loadrunner.Load.Client.Changes.{find_at-change_at}

-- The values of the headers with a name, in any case, and what they make together.
unfoldable values_of : Bytes → List (Bytes × Bytes) → List Bytes
values_of name [] = []
values_of name ((n, v) ∷ hs) =
    let rest = values_of name hs in if equiv ci_less n name then skip_spaces v ∷ rest else rest

unfoldable continued : List Bytes → Option Bytes → Option Bytes
continued [] value = value
continued (v ∷ vs) none = continued vs (some v)
continued (v ∷ vs) (some u) = continued vs (some (u ++ (codes "; " ++ v)))

map_find-add_header :
    (name n v : Bytes) (m : HeaderMap)
    → map_find ci_less name (add_header n v m) ≡ (
        if equiv ci_less n name
        then continued (v ∷ []) (map_find ci_less name m)
        else map_find ci_less name m)
unfolding add_header continued
map_find-add_header name n v m =
    map_find-map_assign ci_less ci_less-IsStrictWeak name n _ m
    ∙ elim (Bool-cases (equiv ci_less n name)) [
      | inl same ↦
          rw (same, map_find-equiv ci_less ci_less-IsStrictWeak name n m same) (ground arith)
      | inr other ↦ rw other refl
    ]

continued-cons :
    (b : Bool) (v : Bytes) (vs : List Bytes) (o : Option Bytes)
    → continued vs (if b then continued (v ∷ []) o else o) ≡ continued (if b then v ∷ vs else vs) o
unfolding continued
continued-cons true v vs none = refl
continued-cons true v vs (some u) = refl
continued-cons false v vs o = refl

map_find-collect :
    (name : Bytes) (hs : List (Bytes × Bytes)) (m : HeaderMap)
    → map_find ci_less name (collect hs m) ≡ continued (values_of name hs) (map_find ci_less name m)
unfolding collect values_of continued
map_find-collect name [] m = refl
map_find-collect name ((n, v) ∷ hs) m =
    map_find-collect name hs (add_header n (skip_spaces v) m)
    ∙ ap (continued (values_of name hs)) (map_find-add_header name n (skip_spaces v) m)
    ∙ continued-cons (equiv ci_less n name) (skip_spaces v) (values_of name hs)
        (map_find ci_less name m)

-- The number of the spaces in front of a text.
abbrev pub leading_spaces : Bytes → ℕ
leading_spaces [] = 0
leading_spaces (c ∷ s) = if c == b' ' then suc (leading_spaces s) else 0

skip_spaces-leading : (s : Bytes) → skip_spaces s ≡ drop (leading_spaces s) s
unfolding skip_spaces
skip_spaces-leading [] = refl
skip_spaces-leading (c ∷ s) = elim (Bool-cases (c == b' ')) [
  | inl space ↦ rw space (skip_spaces-leading s)
  | inr other ↦ rw other refl
]

-- The values of the headers with a name, without the spaces in front of them.
abbrev pub stripped : Bytes → List (Bytes × Bytes) → List Bytes
stripped name [] = []
stripped name ((n, v) ∷ hs) =
    if equiv ci_less n name then drop (leading_spaces v) v ∷ stripped name hs else stripped name hs

values_of-stripped :
    (name : Bytes) (hs : List (Bytes × Bytes)) → values_of name hs ≡ stripped name hs
unfolding values_of
values_of-stripped name [] = refl
values_of-stripped name ((n, v) ∷ hs) = rw (values_of-stripped name hs, skip_spaces-leading v) refl

join_first :
    (u v : Bytes) (vs : List Bytes)
    → join (codes "; ") ((u ++ (codes "; " ++ v)) ∷ vs)
      ≡ u ++ (codes "; " ++ join (codes "; ") (v ∷ vs))
join_first u v [] = refl
join_first u v (w ∷ vs) =
    append_assoc u (codes "; " ++ v) (codes "; " ++ join (codes "; ") (w ∷ vs))

continued-join :
    (u : Bytes) (vs : List Bytes) → continued vs (some u) ≡ some (join (codes "; ") (u ∷ vs))
unfolding continued
continued-join u [] = refl
continued-join u (v ∷ vs) = continued-join (u ++ (codes "; " ++ v)) vs ∙ ap some (join_first u v vs)

-- All values with "; " between them, if there are any.
abbrev pub all_joined : List Bytes → Option Bytes
all_joined [] = none
all_joined (v ∷ vs) = some (join (codes "; ") (v ∷ vs))

continued-all_joined : (vs : List Bytes) → continued vs none ≡ all_joined vs
unfolding continued
continued-all_joined [] = refl
continued-all_joined (v ∷ vs) = continued-join v vs

-- A map has under each name, in any case, the values of all headers with it.
abbrev pub Gathers : List (Bytes × Bytes) → HeaderMap → Type 0
Gathers hs m = (name : Bytes) → map_find ci_less name m ≡ all_joined (stripped name hs)

-- A response whose headers arrive in one frame, as those of HTTP/2 do, with a status of at most three
-- digits, for a request that waits and a stream that is not yet judged, is handled without a stop, and the
-- request has one map of headers more. In it each name, in any case, has the values of all the headers with
-- that name, the status's pseudo header included, without the spaces in front of them, in their order, with
-- "; " between them; and nothing where no header has the name.
pub on_response-Gathers :
    (stream_id status : ℕ) (hs : List (Bytes × Bytes)) (ds : List Bytes) (c : Client) (s : Stream)
    (r : RequestData)
    → status ≤ 999
    → All (λ e. eq_bytes e.0 (codes ":status") ≡ false) hs
    → find_at stream_id c.streams ≡ some s
    → s.status_success ≡ none
    → find_at stream_id c.requests_awaiting_response ≡ some r
    → (c' : Client) × (r' : RequestData) × (m : HeaderMap) × (on_response stream_id status hs ds c
        ≡ ok c')
      × (find_at stream_id c'.requests_awaiting_response ≡ some r')
      × (r'.resp_headers ≡ r.resp_headers ++ (m ∷ []))
      × Gathers ((codes ":status", to_string status) ∷ hs) m
unfolding answered map_find
on_response-Gathers stream_id status hs ds c s r le a g u h =
    let all = (codes ":status", to_string status) ∷ hs in
    (
      _,
      answered status hs ds r,
      collect all [],
      on_response_lem stream_id status hs ds c s r le a g u h,
      find_at-change_at stream_id (answered status hs ds) c.requests_awaiting_response r h,
      refl,
      λ name.
          map_find-collect name all []
          ∙ ap (λ vs. continued vs none) (values_of-stripped name all)
          ∙ continued-all_joined (stripped name all),
    )
