-- ===== src/Inspect/Shown.antt =====
-- The rows that a sample shows.
use poulpy_eth_pir_demo.Base.{
  ℕ, zero, suc, ◌+◌, ◌≡◌, refl, List, [], ◌∷◌, map, take, leb, ◌||◌, if◌then◌else◌, arith,
}
use poulpy_eth_pir_demo.Base.Table.{Table}
use poulpy_eth_pir_demo.Text.{Text}
use poulpy_eth_pir_demo.Tokens.{Address}
use poulpy_eth_pir_demo.Record.{Entry}
use poulpy_eth_pir_demo.Inspect.{print_row, sample_loop}

-- The rows with enough of either token.
abbrev pub holding : ℕ → Table Address Entry → Table Address Entry
holding floor [] = []
holding floor ((address, e) ∷ rest) =
    if leb floor e.usdt || leb floor e.usdc
    then (address, e) ∷ holding floor rest
    else holding floor rest

module _ (display : Address → Text) where
  abbrev pub print_rows : Table Address Entry → List Text
  print_rows rows = map (λ (row : Address × Entry). print_row display row.0 row.1) rows

  sample_loop-shown :
      (count floor shown more : ℕ) (rows : Table Address Entry)
      → shown + more ≡ count
      → sample_loop display count floor shown rows ≡ print_rows (take more (holding floor rows))
  unfolding sample_loop
  sample_loop-shown count floor shown zero [] h = refl
  sample_loop-shown count floor shown (suc more) [] h = refl
  sample_loop-shown count floor shown zero ((address, e) ∷ rows) h = ground arith
  sample_loop-shown count floor shown (suc more) ((address, e) ∷ rows) h = ground (
    arith,
    sample_loop-shown count floor shown (suc more) rows h,
    sample_loop-shown count floor (shown + 1) more rows (omega arith),
  )

  -- A sample shows the first rows, in the map's order and as many as asked for, of those with at
  -- least so much of one token.
  pub sample_loop-take :
      (count floor : ℕ) (rows : Table Address Entry)
      → sample_loop display count floor 0 rows ≡ print_rows (take count (holding floor rows))
  sample_loop-take count floor rows = sample_loop-shown count floor 0 count rows (omega arith)
