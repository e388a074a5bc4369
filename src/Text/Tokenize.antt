-- ===== src/Text/Tokenize.antt =====
-- `tokenize_string` of H2Server_Response.h: a string cut at every occurrence of a delimiter.
pub mod Splits
use h2loadrunner.Base.{
  ℕ, zero, suc, ◌+◌, ◌-◌, Option, none, some, List, [], ◌∷◌, ◌++◌, if◌then◌else◌, length, drop,
  or_else,
}
use h2loadrunner.Text.{Bytes, is_empty, substr, find_from}

-- The `while` loop from `start` on, with the tokens found so far. `none` means that the fuel ran out.
tokenize_loop : ℕ → Bytes → Bytes → ℕ → List Bytes → Option (List Bytes)
tokenize_loop zero source delimeter start ret_vec = none
tokenize_loop (suc fuel) source delimeter start ret_vec = elim (find_from source delimeter start) [
  | none ↦ some (ret_vec ++ (drop start source ∷ []))
  | some pos ↦
      tokenize_loop fuel source delimeter (pos + length delimeter)
        (ret_vec ++ (substr source start (pos - start) ∷ []))
]

-- Each round moves `start` by a byte at least, so the length and one more rounds are enough.
unfoldable pub tokenize_string : Bytes → Bytes → List Bytes
unfolding tokenize_loop find_from
tokenize_string source delimeter =
    if is_empty delimeter
    then source ∷ []
    else or_else (tokenize_loop (suc (length source)) source delimeter 0 []) []
