-- ===== src/Tests/Sizes.antt =====
-- Size classes, generator tables, bitmaps and the arithmetic helpers at concrete inputs.
use sealloc.Base.{ℕ, ◌+◌, ◌*◌, ◌/◌, ◌^◌, ◌≤◌, ◌<◌, ◌≡◌, refl, true, arith, Cells}
use sealloc.Bitmap.{
  get_bitmap_item, set_bitmap_item, get_tree_item, set_tree_item, get_byte, get-set_items,
}
use sealloc.Utils.{ctz, ctz_loop, ceil_div}
use sealloc.Random.{splitmix32}
use sealloc.SizeClass.{
  aligned_size, alignup_small_size, alignup_medium_size, alignup_large_size, is_size_aligned, npow2,
  bin_index, size_to_idx_large,
}
use sealloc.SizeClass.Classes.{aligned_size_lem, bin_index_unique}
use sealloc.Generator.{
  generators_small, generators_medium, generators_small_lengths, generators_medium_lengths, entry,
}
use sealloc.Generator.Table.{Generates, entry-Generates}

abbrev zeros : Cells ℕ
zeros i = 0

get-set_items_example :
    (get_bitmap_item (set_bitmap_item zeros 5 2) 6 ≡ 0)
    × (get_tree_item (set_tree_item zeros 6 2) 6 ≡ 2)
unfolding get_bitmap_item get_byte
get-set_items_example =
    get-set_items zeros 5 6 6 6 2 (omega arith) (omega arith) (omega arith) (omega arith)
      (omega arith)

ctz_48 : ctz 48 ≡ 5
unfolding ctz ctz_loop
ctz_48 = refl

aligned_size_lem_example :
    (700 ≤ aligned_size 700)
    × (is_size_aligned (aligned_size 700) ≡ true)
    × (aligned_size 700 ≤ 1024)
unfolding is_size_aligned alignup_medium_size npow2 ceil_div
aligned_size_lem_example = aligned_size_lem 700 1024 (omega arith) (omega arith) (omega arith) refl

aligned_size_700 : aligned_size 700 ≡ 1024
unfolding aligned_size alignup_medium_size npow2 ceil_div
aligned_size_700 = refl

bin_index_unique_example :
    (bin_index 32768 < 43) × (bin_index 32768 ≡ bin_index 48 → ◌≡◌ {A = ℕ} 32768 48)
unfolding is_size_aligned alignup_small_size alignup_large_size npow2 ceil_div
bin_index_unique_example =
    bin_index_unique 32768 48 (omega arith) (omega arith) refl (omega arith) (omega arith) refl

bin_index_32768 : bin_index 32768 ≡ 37
unfolding bin_index size_to_idx_large ctz ctz_loop
bin_index_32768 = refl

entry-Generates_example :
    Generates (entry generators_small 2 7) (16384 / (16 * (2 + 1)))
    × (entry generators_small 2 7 < 2 ^ 16)
    × Generates (entry generators_medium 1 3) (16384 / (1024 * 2 ^ 1))
    × (entry generators_medium 1 3 < 2 ^ 16)
unfolding generators_small_lengths generators_medium_lengths
entry-Generates_example =
    entry-Generates 2 7 1 3 (omega arith) (omega arith) (omega arith) (omega arith)

splitmix32_first : (splitmix32 (record { state32 = 0; state64 = 0 })).0 ≡ 0x64625032
unfolding splitmix32
splitmix32_first = refl
