-- ===== src/Load/Template/Rows.antt =====
-- How many cells a row that is too short gets.
use h2loadrunner.Base.{
  arith, ℕ, zero, suc, ◌+◌, ◌-◌, ◌/◌, ◌≤◌, ◌≡◌, ap, ◌∙◌, List, [], ◌∷◌, ◌++◌, length, length-append,
}
use h2loadrunner.Text.{Bytes}
use h2loadrunner.Load.Template.{pad_loop, pad_row}

pad_loop-length :
    (fuel columns i : ℕ) (row : List Bytes)
    → columns ≤ length row + i + fuel
    → length (pad_loop fuel columns i row) ≡ length row + (suc (columns - length row) - i) / 2
unfolding pad_loop
pad_loop-length zero columns i row h = omega arith
pad_loop-length (suc fuel) columns i row h =
    let padded =
      pad_loop-length fuel columns (i + 1) (row ++ ([] ∷ []))
        (omega (arith, length-append row ([] ∷ []))) in
    ground (arith, length-append row ([] ∷ []))

-- A row gets half of the cells that it lacks, rounded up: with two or more missing it stays too short.
pub pad_row-length :
    (columns : ℕ) (row : List Bytes)
    → length (pad_row columns row) ≡ length row + suc (columns - length row) / 2
unfolding pad_row
pad_row-length columns row =
    pad_loop-length (columns - length row) columns 0 row (omega arith)
    ∙ ap (λ n. length row + n / 2) (omega arith)
