-- ===== src/Cookie/Origin.antt =====
-- Every cookie that is parsed belongs to the origin of the response, whatever the text says.
use h2loadrunner.Base.{◌≡◌, refl, Bool, List, [], ◌∷◌, arith, All, All-append, Bool-cases, inl, inr}
use h2loadrunner.Text.{Bytes, codes, eq_bytes, inp_strlower}
use h2loadrunner.Text.Tokenize.{tokenize_string}
use h2loadrunner.Cookie.{
  Cookie, is_cookie_attribute, new_cookie, flag_attribute, value_attribute, update_back, parse_pair,
  parse_loop, parse_cookie_string,
}

module _ (authority : Bytes) (secure_origin : Bool) where
  -- The origin is the authority in lower case, and is known to be secure or not.
  pub record ComesFrom (c : Cookie) : Type 0 where
    pub from_origin : c.origin ≡ inp_strlower authority
    pub from_secure : c.secure_origin ≡ secure_origin

  flag_attribute-ComesFrom :
      (key : Bytes) (c : Cookie) → ComesFrom c → ComesFrom (flag_attribute key c)
  unfolding flag_attribute
  flag_attribute-ComesFrom key c h = ground arith

  value_attribute-ComesFrom :
      (key value : Bytes) (c : Cookie) → ComesFrom c → ComesFrom (value_attribute key value c)
  unfolding value_attribute
  value_attribute-ComesFrom key value c h = ground arith

  update_back-All :
      (f : Cookie → Cookie) (cs : List Cookie)
      → ((c : Cookie) → ComesFrom c → ComesFrom (f c))
      → All ComesFrom cs
      → All ComesFrom (update_back f cs)
  unfolding update_back
  update_back-All f [] h k = tt
  update_back-All f (c ∷ []) h k = (h c k.0, tt)
  update_back-All f (c ∷ d ∷ cs) h k = (k.0, update_back-All f (d ∷ cs) h k.1)

  parse_pair-All :
      (pair : List Bytes) (cs : List Cookie)
      → All ComesFrom cs
      → All ComesFrom (parse_pair authority secure_origin pair cs)
  unfolding parse_pair new_cookie
  parse_pair-All [] cs h = h
  parse_pair-All (key ∷ []) cs h = elim (Bool-cases (is_cookie_attribute key)) [
    | inl e ↦ rw e (update_back-All _ cs (flag_attribute-ComesFrom (inp_strlower key)) h)
    | inr e ↦ rw e h
  ]
  parse_pair-All (key ∷ value ∷ []) cs h = elim (Bool-cases (is_cookie_attribute key)) [
    | inl e ↦ rw e (update_back-All _ cs (value_attribute-ComesFrom (inp_strlower key) value) h)
    | inr e ↦
        rw e (All-append ComesFrom cs _ h (record { from_origin = refl; from_secure = refl }, tt))
  ]
  parse_pair-All (key ∷ value ∷ more ∷ rest) cs h = h

  parse_loop-All :
      (ts : List Bytes) (cs : List Cookie)
      → All ComesFrom cs
      → All ComesFrom (parse_loop authority secure_origin ts cs)
  unfolding parse_loop
  parse_loop-All [] cs h = h
  parse_loop-All (t ∷ ts) cs h =
      parse_loop-All ts _ (parse_pair-All (tokenize_string t (codes "=")) cs h)

-- Each parsed cookie has the origin of the response, in lower case, and counts as of a secure origin
-- exactly if the schema is https; no attribute of the text changes either.
pub parse_cookie_string-ComesFrom :
    (text authority schema : Bytes)
    → All
        (ComesFrom authority (eq_bytes schema (codes "https")))
        (parse_cookie_string text authority schema)
unfolding parse_cookie_string
parse_cookie_string-ComesFrom text authority schema =
    parse_loop-All authority (eq_bytes schema (codes "https")) (tokenize_string text (codes "; "))
      [] tt
