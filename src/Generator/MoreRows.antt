-- ===== src/Generator/MoreRows.antt =====
-- The rows 10 to 31 of GENERATORS_SMALL in src/sealloc/generator.h, without the zero padding.
use sealloc.Base.{ℕ, List, [], ◌∷◌}

abbrev pub row_10 : List ℕ
row_10 =
    1 ∷ 2 ∷ 4 ∷ 5 ∷ 7 ∷ 8 ∷ 10 ∷ 11 ∷ 13 ∷ 14 ∷ 16 ∷ 17 ∷ 19 ∷ 20 ∷ 22 ∷ 23 ∷ 25 ∷ 26 ∷ 28 ∷ 29 ∷ 32
    ∷ 34 ∷ 35 ∷ 37 ∷ 38 ∷ 40 ∷ 41 ∷ 43 ∷ 44 ∷ 46 ∷ 47 ∷ 49 ∷ 50 ∷ 52 ∷ 53 ∷ 55 ∷ 56 ∷ 58 ∷ 59 ∷ 61
    ∷ 64 ∷ 65 ∷ 67 ∷ 68 ∷ 70 ∷ 71 ∷ 73 ∷ 74 ∷ 76 ∷ 77 ∷ 79 ∷ 80 ∷ 82 ∷ 83 ∷ 85 ∷ 86 ∷ 88 ∷ 89 ∷ 91
    ∷ 92 ∷ []

abbrev pub row_11 : List ℕ
row_11 =
    1 ∷ 2 ∷ 3 ∷ 4 ∷ 6 ∷ 7 ∷ 8 ∷ 9 ∷ 11 ∷ 12 ∷ 13 ∷ 14 ∷ 16 ∷ 18 ∷ 19 ∷ 21 ∷ 22 ∷ 23 ∷ 24 ∷ 26 ∷ 27
    ∷ 28 ∷ 29 ∷ 31 ∷ 32 ∷ 33 ∷ 36 ∷ 37 ∷ 38 ∷ 39 ∷ 41 ∷ 42 ∷ 43 ∷ 44 ∷ 46 ∷ 47 ∷ 48 ∷ 49 ∷ 52 ∷ 53
    ∷ 54 ∷ 56 ∷ 57 ∷ 58 ∷ 59 ∷ 61 ∷ 62 ∷ 63 ∷ 64 ∷ 66 ∷ 67 ∷ 69 ∷ 71 ∷ 72 ∷ 73 ∷ 74 ∷ 76 ∷ 77 ∷ 78
    ∷ 79 ∷ 81 ∷ 82 ∷ 83 ∷ 84 ∷ []

abbrev pub row_12 : List ℕ
row_12 =
    1 ∷ 5 ∷ 7 ∷ 11 ∷ 17 ∷ 19 ∷ 23 ∷ 25 ∷ 29 ∷ 31 ∷ 35 ∷ 37 ∷ 41 ∷ 43 ∷ 47 ∷ 49 ∷ 53 ∷ 55 ∷ 59 ∷ 61
    ∷ 67 ∷ 71 ∷ 73 ∷ 77 ∷ []

abbrev pub row_13 : List ℕ
row_13 =
    1 ∷ 2 ∷ 3 ∷ 4 ∷ 5 ∷ 6 ∷ 7 ∷ 8 ∷ 9 ∷ 10 ∷ 11 ∷ 12 ∷ 13 ∷ 14 ∷ 15 ∷ 16 ∷ 17 ∷ 18 ∷ 19 ∷ 20 ∷ 21
    ∷ 22 ∷ 23 ∷ 24 ∷ 25 ∷ 26 ∷ 27 ∷ 28 ∷ 29 ∷ 30 ∷ 31 ∷ 32 ∷ 33 ∷ 34 ∷ 35 ∷ 36 ∷ 37 ∷ 38 ∷ 39 ∷ 40
    ∷ 41 ∷ 42 ∷ 43 ∷ 44 ∷ 45 ∷ 46 ∷ 47 ∷ 48 ∷ 49 ∷ 50 ∷ 51 ∷ 52 ∷ 53 ∷ 54 ∷ 55 ∷ 56 ∷ 57 ∷ 58 ∷ 59
    ∷ 60 ∷ 61 ∷ 62 ∷ 63 ∷ 64 ∷ 65 ∷ 66 ∷ 67 ∷ 68 ∷ 69 ∷ 70 ∷ 71 ∷ 72 ∷ []

abbrev pub row_14 : List ℕ
row_14 =
    1 ∷ 3 ∷ 5 ∷ 7 ∷ 9 ∷ 11 ∷ 13 ∷ 15 ∷ 19 ∷ 21 ∷ 23 ∷ 25 ∷ 27 ∷ 29 ∷ 31 ∷ 33 ∷ 35 ∷ 37 ∷ 39 ∷ 41
    ∷ 43 ∷ 45 ∷ 47 ∷ 49 ∷ 53 ∷ 55 ∷ 57 ∷ 59 ∷ 61 ∷ 63 ∷ 65 ∷ 67 ∷ []

abbrev pub row_15 : List ℕ
row_15 =
    1 ∷ 3 ∷ 5 ∷ 7 ∷ 9 ∷ 11 ∷ 13 ∷ 15 ∷ 17 ∷ 19 ∷ 21 ∷ 23 ∷ 25 ∷ 27 ∷ 29 ∷ 31 ∷ 33 ∷ 35 ∷ 37 ∷ 39
    ∷ 41 ∷ 43 ∷ 45 ∷ 47 ∷ 49 ∷ 51 ∷ 53 ∷ 55 ∷ 57 ∷ 59 ∷ 61 ∷ 63 ∷ []

abbrev pub row_16 : List ℕ
row_16 = 1 ∷ 7 ∷ 11 ∷ 13 ∷ 17 ∷ 19 ∷ 23 ∷ 29 ∷ 31 ∷ 37 ∷ 41 ∷ 43 ∷ 47 ∷ 49 ∷ 53 ∷ 59 ∷ []

abbrev pub row_17 : List ℕ
row_17 =
    1 ∷ 3 ∷ 5 ∷ 9 ∷ 11 ∷ 13 ∷ 15 ∷ 17 ∷ 19 ∷ 23 ∷ 25 ∷ 27 ∷ 29 ∷ 31 ∷ 33 ∷ 37 ∷ 39 ∷ 41 ∷ 43 ∷ 45
    ∷ 47 ∷ 51 ∷ 53 ∷ 55 ∷ []

abbrev pub row_18 : List ℕ
row_18 =
    1 ∷ 2 ∷ 3 ∷ 4 ∷ 5 ∷ 6 ∷ 7 ∷ 8 ∷ 9 ∷ 10 ∷ 11 ∷ 12 ∷ 13 ∷ 14 ∷ 15 ∷ 16 ∷ 17 ∷ 18 ∷ 19 ∷ 20 ∷ 21
    ∷ 22 ∷ 23 ∷ 24 ∷ 25 ∷ 26 ∷ 27 ∷ 28 ∷ 29 ∷ 30 ∷ 31 ∷ 32 ∷ 33 ∷ 34 ∷ 35 ∷ 36 ∷ 37 ∷ 38 ∷ 39 ∷ 40
    ∷ 41 ∷ 42 ∷ 43 ∷ 44 ∷ 45 ∷ 46 ∷ 47 ∷ 48 ∷ 49 ∷ 50 ∷ 51 ∷ 52 ∷ []

abbrev pub row_19 : List ℕ
row_19 =
    1 ∷ 2 ∷ 4 ∷ 5 ∷ 7 ∷ 8 ∷ 10 ∷ 11 ∷ 13 ∷ 14 ∷ 16 ∷ 19 ∷ 20 ∷ 22 ∷ 23 ∷ 25 ∷ 26 ∷ 28 ∷ 29 ∷ 31 ∷ 32
    ∷ 35 ∷ 37 ∷ 38 ∷ 40 ∷ 41 ∷ 43 ∷ 44 ∷ 46 ∷ 47 ∷ 49 ∷ 50 ∷ []

abbrev pub row_20 : List ℕ
row_20 = 1 ∷ 5 ∷ 7 ∷ 11 ∷ 13 ∷ 17 ∷ 19 ∷ 23 ∷ 25 ∷ 29 ∷ 31 ∷ 35 ∷ 37 ∷ 41 ∷ 43 ∷ 47 ∷ []

abbrev pub row_21 : List ℕ
row_21 =
    1 ∷ 3 ∷ 5 ∷ 7 ∷ 9 ∷ 11 ∷ 13 ∷ 15 ∷ 17 ∷ 19 ∷ 21 ∷ 25 ∷ 27 ∷ 29 ∷ 31 ∷ 33 ∷ 35 ∷ 37 ∷ 39 ∷ 41
    ∷ 43 ∷ 45 ∷ []

abbrev pub row_22 : List ℕ
row_22 =
    1 ∷ 3 ∷ 5 ∷ 7 ∷ 9 ∷ 13 ∷ 15 ∷ 17 ∷ 19 ∷ 21 ∷ 23 ∷ 25 ∷ 27 ∷ 29 ∷ 31 ∷ 35 ∷ 37 ∷ 39 ∷ 41 ∷ 43
    ∷ []

abbrev pub row_23 : List ℕ
row_23 = 1 ∷ 5 ∷ 11 ∷ 13 ∷ 17 ∷ 19 ∷ 23 ∷ 25 ∷ 29 ∷ 31 ∷ 37 ∷ 41 ∷ []

abbrev pub row_24 : List ℕ
row_24 = 1 ∷ 3 ∷ 7 ∷ 9 ∷ 11 ∷ 13 ∷ 17 ∷ 19 ∷ 21 ∷ 23 ∷ 27 ∷ 29 ∷ 31 ∷ 33 ∷ 37 ∷ 39 ∷ []

abbrev pub row_25 : List ℕ
row_25 =
    1 ∷ 2 ∷ 4 ∷ 5 ∷ 7 ∷ 8 ∷ 10 ∷ 11 ∷ 14 ∷ 16 ∷ 17 ∷ 19 ∷ 20 ∷ 22 ∷ 23 ∷ 25 ∷ 28 ∷ 29 ∷ 31 ∷ 32 ∷ 34
    ∷ 35 ∷ 37 ∷ 38 ∷ []

abbrev pub row_26 : List ℕ
row_26 =
    1 ∷ 2 ∷ 3 ∷ 4 ∷ 5 ∷ 6 ∷ 7 ∷ 8 ∷ 9 ∷ 10 ∷ 11 ∷ 12 ∷ 13 ∷ 14 ∷ 15 ∷ 16 ∷ 17 ∷ 18 ∷ 19 ∷ 20 ∷ 21
    ∷ 22 ∷ 23 ∷ 24 ∷ 25 ∷ 26 ∷ 27 ∷ 28 ∷ 29 ∷ 30 ∷ 31 ∷ 32 ∷ 33 ∷ 34 ∷ 35 ∷ 36 ∷ []

abbrev pub row_27 : List ℕ
row_27 = 1 ∷ 5 ∷ 7 ∷ 11 ∷ 13 ∷ 17 ∷ 19 ∷ 23 ∷ 25 ∷ 29 ∷ 31 ∷ 35 ∷ []

abbrev pub row_28 : List ℕ
row_28 =
    1 ∷ 2 ∷ 3 ∷ 4 ∷ 6 ∷ 8 ∷ 9 ∷ 11 ∷ 12 ∷ 13 ∷ 16 ∷ 17 ∷ 18 ∷ 19 ∷ 22 ∷ 23 ∷ 24 ∷ 26 ∷ 27 ∷ 29 ∷ 31
    ∷ 32 ∷ 33 ∷ 34 ∷ []

abbrev pub row_29 : List ℕ
row_29 = 1 ∷ 3 ∷ 5 ∷ 7 ∷ 9 ∷ 11 ∷ 13 ∷ 15 ∷ 19 ∷ 21 ∷ 23 ∷ 25 ∷ 27 ∷ 29 ∷ 31 ∷ 33 ∷ []

abbrev pub row_30 : List ℕ
row_30 =
    1 ∷ 2 ∷ 4 ∷ 5 ∷ 7 ∷ 8 ∷ 10 ∷ 13 ∷ 14 ∷ 16 ∷ 17 ∷ 19 ∷ 20 ∷ 23 ∷ 25 ∷ 26 ∷ 28 ∷ 29 ∷ 31 ∷ 32 ∷ []

abbrev pub row_31 : List ℕ
row_31 = 1 ∷ 3 ∷ 5 ∷ 7 ∷ 9 ∷ 11 ∷ 13 ∷ 15 ∷ 17 ∷ 19 ∷ 21 ∷ 23 ∷ 25 ∷ 27 ∷ 29 ∷ 31 ∷ []
