-- ===== src/Run.antt =====
-- src/sealloc/run.h and src/run.c, as built without memory tagging.
-- `uint16_t` fields wrap at 2^16, `unsigned` at 2^32 and addresses at 2^64.
pub mod Orbit
pub mod Init
pub mod Invariant
pub mod Free
pub mod Trace
use sealloc.Base.{
  ℕ, zero, suc, ◌+◌, ◌-◌, ◌*◌, ◌/◌, ◌%◌, ◌^◌, Bool, true, false, not, Cells, fill, u16, u32, u64,
}
use sealloc.Base.{leb, ◌==◌, if◌then◌else◌, get_or}
use sealloc.Bitmap.{get_bitmap_item, set_bitmap_item}
use sealloc.Utils.{bits2bytes_ceil}
use sealloc.Random.{Rng, splitmix32}
use sealloc.SizeClass.{is_size_small, is_size_medium, size_to_idx_small, size_to_idx_medium}
use sealloc.Generator.{
  generators_small, generators_small_lengths, generators_medium, generators_medium_lengths, entry,
}
use sealloc.ContainerLl.{Entry, null}
use sealloc.Bin.{Bin}

-- bstate_t
abbrev pub state_free : ℕ
state_free = 0

abbrev pub state_alloc : ℕ
state_alloc = 1

abbrev pub state_alloc_free : ℕ
state_alloc_free = 2

pub record Run : Type 0 where
  pub entry : Entry
  pub navail : ℕ
  pub nfreed : ℕ
  pub gen : ℕ
  pub current_idx : ℕ
  pub reg_bitmap : Cells ℕ

abbrev pub size_max : ℕ
size_max = 2 ^ 64 - 1

-- "Choose a generator": a random entry of the row of the size class. A large run has one region.
unfoldable pub choose_generator : Bin → Rng → ℕ × Rng
choose_generator bin rng =
    if is_size_small bin.reg_size
    then (let gen_idx = size_to_idx_small bin.reg_size in
        let (z, rng') = splitmix32 rng in
        (entry generators_small gen_idx (z % get_or generators_small_lengths gen_idx 0), rng'))
    else if is_size_medium bin.reg_size
    then (let gen_idx = size_to_idx_medium bin.reg_size in
        let (z, rng') = splitmix32 rng in
        (entry generators_medium gen_idx (z % get_or generators_medium_lengths gen_idx 0), rng'))
    else (1, rng)

-- `run` is the memory of the new structure, whatever it holds.
unfoldable pub run_init : Run → Bin → ℕ → Rng → Run × Rng
run_init run bin heap rng =
    let (gen, rng1) = choose_generator bin rng in
    let (z, rng2) = splitmix32 rng1 in
    (
      record {
        entry = record { fd = null; bk = null; key = heap };
        navail = u16 (bin.reg_mask_size_bits / 2);
        nfreed = 0;
        gen = u16 gen;
        current_idx = u16 (z % (bin.reg_mask_size_bits / 2));
        reg_bitmap = fill run.reg_bitmap 0 (bits2bytes_ceil bin.reg_mask_size_bits) 0;
      },
      rng2,
    )

unfoldable pub run_allocate : Run → Bin → Run × ℕ
run_allocate run bin =
    let heap = run.entry.key in
    let elems = bin.reg_mask_size_bits / 2 in
    let idx = u16 ((run.gen + run.current_idx) % elems) in
    (
      record run {
        current_idx = idx;
        reg_bitmap = set_bitmap_item run.reg_bitmap idx state_alloc;
        navail = u16 (run.navail + (2 ^ 16 - 1));
      },
      u64 (heap + u32 (idx * bin.reg_size)),
    )

-- `rel_ptr`, the difference of two addresses as a number of 64 bits with a sign: its amount and whether it is
-- negative.
abbrev pub rel_amount : ℕ → ℕ → ℕ
rel_amount ptr key =
    let d = if leb key ptr then ptr - key else key - ptr in if leb d (2 ^ 63) then d else 2 ^ 64 - d

abbrev pub rel_negative : ℕ → ℕ → Bool
rel_negative ptr key = if leb key ptr then leb (2 ^ 63) (ptr - key) else leb (key - ptr) (2 ^ 63)

-- `rel_ptr / reg_size`, taken for a `size_t`, and `rel_ptr % reg_size != 0`.
unfoldable pub bitmap_idx : ℕ → ℕ → ℕ → ℕ
bitmap_idx ptr key reg_size =
    if rel_negative ptr key
    then u64 (2 ^ 64 - rel_amount ptr key / reg_size)
    else rel_amount ptr key / reg_size

unfoldable pub is_unaligned : ℕ → ℕ → ℕ → Bool
is_unaligned ptr key reg_size = not (rel_amount ptr key % reg_size == 0)

unfoldable pub run_validate_ptr : Run → Bin → ℕ → ℕ
run_validate_ptr run bin ptr =
    let idx = bitmap_idx ptr run.entry.key bin.reg_size in
    if is_unaligned ptr run.entry.key bin.reg_size
    then size_max
    else if not (get_bitmap_item run.reg_bitmap idx == state_alloc)
    then size_max
    else idx

unfoldable pub run_deallocate : Run → Bin → ℕ → Run × Bool
run_deallocate run bin ptr =
    let idx = run_validate_ptr run bin ptr in
    if idx == size_max then (run, false) else (
      record run {
        reg_bitmap = set_bitmap_item run.reg_bitmap idx state_alloc_free;
        nfreed = u16 (run.nfreed + 1);
      },
      true,
    )

abbrev pub run_is_depleted : Run → Bool
run_is_depleted run = run.navail == 0

abbrev pub run_is_freeable : Run → Bin → Bool
run_is_freeable run bin = run.nfreed == bin.reg_mask_size_bits / 2
