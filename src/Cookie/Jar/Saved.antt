-- ===== src/Cookie/Jar/Saved.antt =====
-- The cookies that are kept: which ones, and under which names.
use h2loadrunner.Base.{
  ◌≡◌, refl, ◌∙◌, true, false, ◌&&◌, Option, none, some, List, [], ◌∷◌, ◌++◌, arith, IsStrictWeak,
  All, Bool-cases, inl, inr, if◌then◌else◌, Option-cases,
}
use h2loadrunner.Base.Ordered.{equiv}
use h2loadrunner.Base.Maps.{
  map_assign, map_find, map_find-map_assign, KeysSorted, map_assign-KeysSorted,
}
use h2loadrunner.Text.{Bytes, codes, lt_bytes, eq_bytes}
use h2loadrunner.Text.Order.{eq_bytes→eq, eq_bytes_refl, lt_bytes-IsStrictWeak}
use h2loadrunner.Cookie.{Cookie, parse_cookie_string, is_cookie_acceptable}
use h2loadrunner.Cookie.Jar.{
  greater, ci_less, Jar, HeaderMap, RequestData, save_cookies, save_loop, parse_and_save_cookies,
}

-- An entry stands under its cookie's own name, and is an accepted cookie.
pub record IsKept (e : Bytes × Cookie) : Type 0 where
  pub own_name : e.0 ≡ e.1.cookie_key
  pub acceptable : is_cookie_acceptable e.1 ≡ true

-- The jar is in the order of the map, and every entry is right.
pub record IsJar (jar : Jar) : Type 0 where
  pub sorted : KeysSorted greater jar
  pub kept : All IsKept jar

greater-IsStrictWeak : IsStrictWeak greater
greater-IsStrictWeak = record {
  irrefl = lt_bytes-IsStrictWeak.irrefl;
  trans = λ s t u h k. lt_bytes-IsStrictWeak.trans u t s k h;
  co_trans = λ s t u h k. lt_bytes-IsStrictWeak.co_trans u t s k h;
}

-- `operator<` on strings tells every two strings apart.
same-of-incomparable : (s t : Bytes) → lt_bytes s t ≡ false → lt_bytes t s ≡ false → s ≡ t
unfolding lt_bytes
same-of-incomparable [] [] h k = refl
same-of-incomparable [] (d ∷ t) h k = absurd (ground arith)
same-of-incomparable (c ∷ s) [] h k = absurd (ground arith)
same-of-incomparable (c ∷ s) (d ∷ t) h k = ground (arith, same-of-incomparable s t)

assign-All :
    (c : Cookie) (jar : Jar)
    → is_cookie_acceptable c ≡ true
    → All IsKept jar
    → All IsKept (map_assign greater c.cookie_key c jar)
unfolding map_assign
assign-All c [] h k = (record { own_name = refl; acceptable = h }, tt)
assign-All c ((j, d) ∷ jar) h k = elim (Bool-cases (lt_bytes j c.cookie_key)) [
  | inl above ↦ rw above (record { own_name = refl; acceptable = h }, k)
  | inr not_above ↦ rw not_above (elim (Bool-cases (lt_bytes c.cookie_key j)) [
    | inl below ↦ rw below (k.0, assign-All c jar h k.1)
    | inr not_below ↦ rw not_below (
      record { own_name = same-of-incomparable j c.cookie_key not_above not_below; acceptable = h },
      k.1,
    )
  ])
]

save_cookies-IsJar : (cs : List Cookie) (jar : Jar) → IsJar jar → IsJar (save_cookies cs jar)
unfolding save_cookies
save_cookies-IsJar [] jar j = j
save_cookies-IsJar (c ∷ cs) jar j = elim (Bool-cases (is_cookie_acceptable c)) [
  | inl e ↦ rw e (
      save_cookies-IsJar cs _ (record {
        sorted = map_assign-KeysSorted greater greater-IsStrictWeak c.cookie_key c jar j.sorted;
        kept = assign-All c jar e j.kept;
      }))
  | inr e ↦ rw e (save_cookies-IsJar cs jar j)
]

save_loop-IsJar :
    (authority schema : Bytes) (maps : List HeaderMap) (jar : Jar)
    → IsJar jar
    → IsJar (save_loop authority schema maps jar)
unfolding save_loop
save_loop-IsJar authority schema [] jar j = j
save_loop-IsJar authority schema (hs ∷ more) jar j =
    elim (Option-cases (map_find ci_less (codes "Set-Cookie") hs)) [
      | inl e ↦ rw e (save_loop-IsJar authority schema more jar j)
      | inr (text, e) ↦ rw e (
          save_loop-IsJar authority schema more _
            (save_cookies-IsJar (parse_cookie_string text authority schema) jar j))
    ]

-- Saving the cookies of a response keeps the jar in order, with accepted cookies alone, each under its
-- own name.
pub parse_and_save_cookies-IsJar :
    (r : RequestData) → IsJar r.saved_cookies → IsJar (parse_and_save_cookies r).saved_cookies
unfolding parse_and_save_cookies
parse_and_save_cookies-IsJar r j =
    save_loop-IsJar r.authority r.schema r.resp_headers r.saved_cookies j

-- All cookies of a response's Set-Cookie headers, in their order.
abbrev pub set_cookies : Bytes → Bytes → List HeaderMap → List Cookie
set_cookies authority schema [] = []
set_cookies authority schema (hs ∷ more) =
    elim (map_find ci_less (codes "Set-Cookie") hs) [
      | none ↦ []
      | some text ↦ parse_cookie_string text authority schema
    ]
    ++ set_cookies authority schema more

-- The last cookie of the name that is accepted.
abbrev pub last_accepted : Bytes → List Cookie → Option Cookie
last_accepted name [] = none
last_accepted name (c ∷ cs) = elim (last_accepted name cs) [
  | some d ↦ some d
  | none ↦ if is_cookie_acceptable c && eq_bytes c.cookie_key name then some c else none
]

abbrev pub or_jar : Option Cookie → Option Cookie → Option Cookie
or_jar none old = old
or_jar (some c) old = some c

equiv-eq_bytes : (s t : Bytes) → equiv greater s t ≡ eq_bytes s t
equiv-eq_bytes s t = elim (Bool-cases (eq_bytes s t)) [
  | inl e ↦ rw (eq_bytes→eq s t e, eq_bytes_refl t, lt_bytes-IsStrictWeak.irrefl t) refl
  | inr e ↦ ground (arith, e, equal s t, same-of-incomparable s t)
]
  where
    equal : (s t : Bytes) → s ≡ t → eq_bytes s t ≡ true
    equal s t h = rw h (eq_bytes_refl t)

find-save_cookies :
    (name : Bytes) (cs : List Cookie) (jar : Jar)
    → map_find greater name (save_cookies cs jar)
      ≡ or_jar (last_accepted name cs) (map_find greater name jar)
unfolding save_cookies
find-save_cookies name [] jar = refl
find-save_cookies name (c ∷ cs) jar =
    find-save_cookies name cs _
    ∙ ground (
      arith,
      map_find-map_assign greater greater-IsStrictWeak name c.cookie_key c jar,
      equiv-eq_bytes c.cookie_key name,
    )

last_accepted-append :
    (name : Bytes) (cs ds : List Cookie)
    → last_accepted name (cs ++ ds) ≡ or_jar (last_accepted name ds) (last_accepted name cs)
last_accepted-append name [] ds = ground arith
last_accepted-append name (c ∷ cs) ds = ground (arith, last_accepted-append name cs ds)

or_jar_assoc : (a b c : Option Cookie) → or_jar a (or_jar b c) ≡ or_jar (or_jar a b) c
or_jar_assoc none b c = refl
or_jar_assoc (some a) b c = refl

find-save_loop :
    (name authority schema : Bytes) (maps : List HeaderMap) (jar : Jar)
    → map_find greater name (save_loop authority schema maps jar)
      ≡ or_jar (last_accepted name (set_cookies authority schema maps)) (map_find greater name jar)
unfolding save_loop
find-save_loop name authority schema [] jar = refl
find-save_loop name authority schema (hs ∷ more) jar =
    find-save_loop name authority schema more _
    ∙ elim (Option-cases (map_find ci_less (codes "Set-Cookie") hs)) [
      | inl e ↦ rw e refl
      | inr (text, e) ↦
          rw
            (
              e,
              find-save_cookies name (parse_cookie_string text authority schema) jar,
              last_accepted-append name (parse_cookie_string text authority schema)
                  (set_cookies authority schema more),
            )
            (or_jar_assoc (last_accepted name (set_cookies authority schema more))
              (last_accepted name (parse_cookie_string text authority schema))
              (map_find greater name jar))
    ]

-- After a response, a name has the last accepted cookie of that name in its Set-Cookie headers, whatever
-- its domain, its path, its expiry date and its maximum age; with none, what it had before.
pub find-parse_and_save_cookies :
    (name : Bytes) (r : RequestData)
    → map_find greater name (parse_and_save_cookies r).saved_cookies
      ≡ or_jar
          (last_accepted name (set_cookies r.authority r.schema r.resp_headers))
          (map_find greater name r.saved_cookies)
unfolding parse_and_save_cookies
find-parse_and_save_cookies name r =
    find-save_loop name r.authority r.schema r.resp_headers r.saved_cookies
