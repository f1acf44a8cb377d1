-- ===== src/SizeClass.antt =====
-- src/sealloc/size_class.h and src/size_class.c: the size classes and the rounding to them.
pub mod Rounding
pub mod Classes
use sealloc.Base.{ℕ, ◌+◌, ◌-◌, ◌*◌, ◌/◌, ◌^◌, ◌%◌, ◌≡◌, refl, Bool, true, false, ◌&&◌, arith}
use sealloc.Base.{bit_and, bit_or, u32, u64, leb, ltb, ◌==◌, if◌then◌else◌}
use sealloc.Utils.{page_size, ctz, ceil_div}

abbrev pub small_size_max_region : ℕ
small_size_max_region = 512

abbrev pub medium_size_min_region : ℕ
medium_size_min_region = 1024

abbrev pub medium_size_max_region : ℕ
medium_size_max_region = 2 * page_size

abbrev pub large_size_min_region : ℕ
large_size_min_region = 4 * page_size

abbrev pub large_size_max_region : ℕ
large_size_max_region = 1048576

abbrev pub is_size_small : ℕ → Bool
is_size_small size = leb 1 size && leb size small_size_max_region

abbrev pub is_size_medium : ℕ → Bool
is_size_medium size = ltb small_size_max_region size && leb size medium_size_max_region

abbrev pub is_size_huge : ℕ → Bool
is_size_huge size = ltb large_size_max_region size

-- ALIGNUP_SMALL_SIZE, on 64 bits
unfoldable pub alignup_small_size : ℕ → ℕ
alignup_small_size n = bit_and (u64 (n + 15)) (2 ^ 64 - 16)

-- `unsigned` arithmetic: the subtraction of 1 wraps.
unfoldable pub size_to_idx_small : ℕ → ℕ
size_to_idx_small n = u32 (n / 16 + (2 ^ 32 - 1))

unfoldable pub npow2 : ℕ → ℕ
npow2 n =
    let a = u32 (n + (2 ^ 32 - 1)) in
    let b = bit_or a (a / 2 ^ 1) in
    let c = bit_or b (b / 2 ^ 2) in
    let d = bit_or c (c / 2 ^ 4) in
    let e = bit_or d (d / 2 ^ 8) in let f = bit_or e (e / 2 ^ 16) in u32 (f + 1)

unfoldable pub alignup_large_size : ℕ → ℕ
alignup_large_size n =
    let d = ceil_div n large_size_min_region in u32 (npow2 d * large_size_min_region)

unfoldable pub size_to_idx_large : ℕ → ℕ
size_to_idx_large n = ctz (n / large_size_min_region)

unfoldable pub alignup_medium_size : ℕ → ℕ
alignup_medium_size n =
    let d = ceil_div n medium_size_min_region in u32 (npow2 d * medium_size_min_region)

unfoldable pub size_to_idx_medium : ℕ → ℕ
size_to_idx_medium n = ctz (n / medium_size_min_region)

unfoldable pub is_size_aligned : ℕ → Bool
is_size_aligned size =
    if is_size_small size
    then alignup_small_size size == size
    else if is_size_medium size
    then alignup_medium_size size == size
    else alignup_large_size size == size

-- The rounding of src/sealloc.c, in sealloc_malloc and sealloc_realloc: a request that is not huge.
unfoldable pub aligned_size : ℕ → ℕ
aligned_size size =
    if is_size_small size
    then alignup_small_size size
    else if is_size_medium size
    then alignup_medium_size size
    else alignup_large_size size

abbrev pub no_small_size_classes : ℕ
no_small_size_classes = 32

abbrev pub no_medium_size_classes : ℕ
no_medium_size_classes = 4

abbrev pub no_large_size_classes : ℕ
no_large_size_classes = 7

-- The index into `arena->bins` that arena_get_bin_by_reg_size of src/arena.c computes.
unfoldable pub bin_index : ℕ → ℕ
bin_index reg_size =
    if is_size_small reg_size
    then size_to_idx_small reg_size
    else if is_size_medium reg_size
    then no_small_size_classes + size_to_idx_medium reg_size
    else no_small_size_classes + no_medium_size_classes + size_to_idx_large reg_size
