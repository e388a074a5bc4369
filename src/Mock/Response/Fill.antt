-- ===== src/Mock/Response/Fill.antt =====
-- The payload of a response is its template with every placeholder replaced.
use h2loadrunner.Base.{
  ℕ, suc, ◌≡◌, refl, sym, ap, ◌∙◌, List, [], ◌∷◌, ◌++◌, arith, length, append_assoc, append-nil,
  Outcome, ok, stop, ◌>>=◌, map_ok,
}
use h2loadrunner.Text.{Bytes}
use h2loadrunner.Text.Tokenize.{tokenize_string}
use h2loadrunner.Text.Tokenize.Splits.{join, join-tokenize_string}
use h2loadrunner.Mock.Json.{Json}
use h2loadrunner.Mock.Config.{SchemaResponseToReturn}
use h2loadrunner.Mock.Message.{H2ServerRequestMessage}
use h2loadrunner.Mock.Rule.{Regex}
use h2loadrunner.Mock.Argument.{Argument, Surroundings, get_value}
use h2loadrunner.Mock.Response.{
  H2ServerResponse, new_response, check_counts, produce, produce_payload,
}

-- The texts with the values between them.
abbrev pub fill : List Bytes → List Bytes → Bytes
fill [] vs = []
fill (t ∷ ts) [] = t ++ fill ts []
fill (t ∷ ts) (v ∷ vs) = t ++ (v ++ fill ts vs)

-- One value for each place.
abbrev pub replicate_for {ℓ} : {A : Type ℓ} → List A → Bytes → List Bytes
replicate_for [] d = []
replicate_for (a ∷ as') d = d ∷ replicate_for as' d

fill-join :
    (d : Bytes) (ts : List Bytes) (as' : List Argument)
    → length ts ≡ suc (length as')
    → fill ts (replicate_for as' d) ≡ join d ts
fill-join d [] as' h = absurd (ground arith)
fill-join d (t ∷ []) [] h = append-nil t
fill-join d (t ∷ []) (a ∷ as') h = absurd (ground arith)
fill-join d (t ∷ u ∷ ts) [] h = absurd (ground arith)
fill-join d (t ∷ u ∷ ts) (a ∷ as') h =
    ap (λ r. t ++ (d ++ r)) (fill-join d (u ∷ ts) as' (ground arith))

module _ (re : Regex) (env : Surroundings) {Value : Type 0} (j : Json Value) where
  -- The values of the arguments, in their order, each seeing the message that the last one left.
  pub values :
      List Argument
      → H2ServerRequestMessage Value
      → Outcome (List Bytes × H2ServerRequestMessage Value)
  values [] m = ok ([], m)
  values (a ∷ as') m =
      get_value re env j a m >>= λ (v, m'). map_ok (λ (vs, m''). (v ∷ vs, m'')) (values as' m')

  abbrev pub filled :
      Bytes
      → List Bytes
      → List Bytes × H2ServerRequestMessage Value
      → Bytes × H2ServerRequestMessage Value
  filled before ts (vs, m) = (before ++ fill ts vs, m)

  produce-nil :
      (ts : List Bytes) (m : H2ServerRequestMessage Value) (before : Bytes)
      → produce re env j ts [] m before ≡ ok (before ++ fill ts [], m)
  unfolding produce
  produce-nil [] m before = ap (λ s. ok (s, m)) (sym (append-nil before))
  produce-nil (t ∷ ts) m before =
      produce-nil ts m (before ++ t) ∙ ap (λ s. ok (s, m)) (append_assoc before t _)

  map_ok-filled :
      (x : Outcome (List Bytes × H2ServerRequestMessage Value)) (before t v : Bytes)
      (ts : List Bytes)
      → map_ok (filled ((before ++ t) ++ v) ts) x
        ≡ map_ok (filled before (t ∷ ts)) (map_ok (λ (vs, m). (v ∷ vs, m)) x)
  map_ok-filled (ok (vs, m)) before t v ts =
      ap (λ s. ok (s, m)) (append_assoc (before ++ t) v _ ∙ append_assoc before t _)
  map_ok-filled (stop s) before t v ts = refl

  produce-values :
      (ts : List Bytes) (as' : List Argument) (m : H2ServerRequestMessage Value) (before : Bytes)
      → length ts ≡ suc (length as')
      → produce re env j ts as' m before ≡ map_ok (filled before ts) (values as' m)
  unfolding produce values
  produce-values [] as' m before h = absurd (ground arith)
  produce-values (t ∷ ts) [] m before h = produce-nil (t ∷ ts) m before
  produce-values (t ∷ ts) (a ∷ as') m before h =
      step (get_value re env j a m)
        (λ v m'. produce-values ts as' m' ((before ++ t) ++ v) (ground arith))
    where
      step :
          (x : Outcome (Bytes × H2ServerRequestMessage Value))
          → ((v : Bytes) (m' : H2ServerRequestMessage Value)
              → produce re env j ts as' m' ((before ++ t) ++ v)
                ≡ map_ok (filled ((before ++ t) ++ v) ts) (values as' m'))
          → (x >>= λ (v, m'). produce re env j ts as' m' ((before ++ t) ++ v))
            ≡ map_ok
                (filled before (t ∷ ts))
                (x >>= λ (v, m'). map_ok (λ (vs, m''). (v ∷ vs, m'')) (values as' m'))
      step (ok (v, m')) ih = ih v m' ∙ map_ok-filled (values as' m') before t v ts
      step (stop s) ih = refl

  produce_payload-fill :
      (r : H2ServerResponse) (m : H2ServerRequestMessage Value)
      → length r.tokenized_payload ≡ suc (length r.payload_arguments)
      → produce_payload re env j r m
        ≡ map_ok (filled [] r.tokenized_payload) (values r.payload_arguments m)
  unfolding produce_payload
  produce_payload-fill r m h = produce-values r.tokenized_payload r.payload_arguments m [] h

-- What the constructor makes of the template of the payload.
record HasTemplate (resp : SchemaResponseToReturn) (r : H2ServerResponse) : Type 0 where
  tokens : r.tokenized_payload ≡ tokenize_string resp.payload.msg_payload resp.payload.placeholder
  counts : length r.tokenized_payload ≡ suc (length r.payload_arguments)

new_response-HasTemplate :
    (resp : SchemaResponseToReturn) (index : ℕ) (r : H2ServerResponse)
    → new_response resp index ≡ ok r
    → HasTemplate resp r
unfolding new_response check_counts
new_response-HasTemplate resp index r e = ground arith

module _ (re : Regex) (env : Surroundings) {Value : Type 0} (j : Json Value) where
  -- A response that was built fills the pieces of its template with the values of its arguments: the
  -- argument that ends the process ends it here too, and with the placeholder itself for every value
  -- the payload is the template.
  pub produce_payload-values :
      (resp : SchemaResponseToReturn) (index : ℕ) (r : H2ServerResponse)
      (m : H2ServerRequestMessage Value)
      → new_response resp index ≡ ok r
      → (produce_payload re env j r m
          ≡ map_ok (filled re env j [] r.tokenized_payload) (values re env j r.payload_arguments m))
        × (fill r.tokenized_payload (replicate_for r.payload_arguments resp.payload.placeholder)
            ≡ resp.payload.msg_payload)
  produce_payload-values resp index r m e =
      let t = new_response-HasTemplate resp index r e in
      (
        produce_payload-fill re env j r m t.counts,
        fill-join resp.payload.placeholder r.tokenized_payload r.payload_arguments t.counts
            ∙ ap (join resp.payload.placeholder) t.tokens
            ∙ join-tokenize_string resp.payload.msg_payload resp.payload.placeholder,
      )
