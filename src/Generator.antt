-- ===== src/Generator.antt =====
-- src/sealloc/generator.h: for each size class the generators of (Z_n, +), n the regions of a run.
-- A row is zero beyond the entries that are written out.
mod Rows
mod MoreRows
pub mod Table
use sealloc.Base.{ℕ, List, [], ◌∷◌, get_or}
use Rows.{row_0, row_1, row_2, row_3, row_4, row_5, row_6, row_7, row_8, row_9}
use MoreRows.{
  row_10, row_11, row_12, row_13, row_14, row_15, row_16, row_17, row_18, row_19, row_20, row_21,
  row_22, row_23, row_24, row_25, row_26, row_27, row_28, row_29, row_30, row_31,
}

unfoldable pub generators_small_lengths : List ℕ
generators_small_lengths =
    512 ∷ 256 ∷ 300 ∷ 128 ∷ 64 ∷ 64 ∷ 72 ∷ 64 ∷ 112 ∷ 32 ∷ 60 ∷ 64 ∷ 24 ∷ 72 ∷ 32 ∷ 32 ∷ 16 ∷ 24
    ∷ 52 ∷ 32 ∷ 16 ∷ 22 ∷ 20 ∷ 12 ∷ 16 ∷ 24 ∷ 36 ∷ 12 ∷ 24 ∷ 16 ∷ 20 ∷ 16 ∷ []

unfoldable pub generators_small : List (List ℕ)
generators_small =
    row_0 ∷ row_1 ∷ row_2 ∷ row_3 ∷ row_4 ∷ row_5 ∷ row_6 ∷ row_7 ∷ row_8 ∷ row_9 ∷ row_10 ∷ row_11
    ∷ row_12 ∷ row_13 ∷ row_14 ∷ row_15 ∷ row_16 ∷ row_17 ∷ row_18 ∷ row_19 ∷ row_20 ∷ row_21
    ∷ row_22 ∷ row_23 ∷ row_24 ∷ row_25 ∷ row_26 ∷ row_27 ∷ row_28 ∷ row_29 ∷ row_30 ∷ row_31 ∷ []

unfoldable pub generators_medium_lengths : List ℕ
generators_medium_lengths = 8 ∷ 4 ∷ 2 ∷ 1 ∷ []

unfoldable pub generators_medium : List (List ℕ)
generators_medium =
    (1 ∷ 3 ∷ 5 ∷ 7 ∷ 9 ∷ 11 ∷ 13 ∷ 15 ∷ []) ∷ (1 ∷ 3 ∷ 5 ∷ 7 ∷ []) ∷ (1 ∷ 3 ∷ []) ∷ (1 ∷ []) ∷ []

-- `table[row][column]`
unfoldable pub entry : List (List ℕ) → ℕ → ℕ → ℕ
entry table row column = get_or (get_or table row []) column 0
