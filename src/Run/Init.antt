-- ===== src/Run/Init.antt =====
-- A fresh run of a freshly initialised bin, in every size class.
use sealloc.Base.{
  ℕ, zero, suc, ◌+◌, ◌*◌, ◌/◌, ◌%◌, ◌^◌, ◌≤◌, ◌<◌, ◌≡◌, refl, ◌≢◌, Bool, true, false, arith, sym,
}
use sealloc.Base.{Cells, fill, ltb, leb, ◌&&◌, ◌==◌, u16, get_or, all_below, all_below_sound}
use mathlib.Core.Bool.{not}
use native.Mathlib.Nat.{mod-eq_of_lt, mod-lt}
use sealloc.Utils.{ctz, ctz_loop, bits2bytes_ceil, bits2bytes_ceil_lem}
use sealloc.Random.{Rng, splitmix32}
use sealloc.SizeClass.{
  is_size_small, is_size_medium, is_size_aligned, size_to_idx_small, size_to_idx_medium,
}
use sealloc.SizeClass.Classes.{Class, small, medium, large, Class-of_aligned}
use sealloc.Generator.{generators_small_lengths, generators_medium_lengths}
use sealloc.Generator.Table.{
  Generates, small-Generates, medium-Generates, small_lengths_pos, medium_lengths_pos,
}
use sealloc.Bitmap.{get_bitmap_item-zero}
use sealloc.ContainerLl.{null}
use sealloc.Bin.{Bin, bin_init}
use sealloc.Run.{Run, state_free, state_alloc_free, choose_generator, run_init}
use sealloc.Run.Orbit.{place, place-lt, place-zero}
use sealloc.Run.Invariant.{regions, slot, count, IsBin, IsRun}

abbrev blank : Bin
blank = record {
  run_list_inactive = 0;
  run_list_active = 0;
  run_list_active_cnt = 0;
  avail_regs = 0;
  reg_size = 0;
  run_size_pages = 0;
  reg_mask_size_bits = 0;
}

-- The number of regions that `bin_init` finds for a region size, and that they fit a run.
sized : ℕ → ℕ → Bool
sized n r =
    (regions (bin_init blank n) == r)
    && ltb 0 n
    && leb 1 r
    && leb r 1024
    && leb (r * n) 1048576
    && ((bin_init blank n).reg_mask_size_bits == 2 * r)

small_row : ℕ → Bool
small_row k =
    let n = 16 * (k + 1) in sized n (16384 / n) && is_size_small n && (size_to_idx_small n == k)

small_table : all_below 32 small_row ≡ true
unfolding all_below small_row sized bin_init size_to_idx_small
small_table = refl

medium_row : ℕ → Bool
medium_row k =
    let n = 1024 * 2 ^ k in
    sized n (16384 / n) && not (is_size_small n) && is_size_medium n && (size_to_idx_medium n == k)

medium_table : all_below 4 medium_row ≡ true
unfolding all_below medium_row sized bin_init size_to_idx_medium ctz ctz_loop
medium_table = refl

large_row : ℕ → Bool
large_row k = let n = 16384 * 2 ^ k in sized n 1 && not (is_size_small n) && not (is_size_medium n)

large_table : all_below 7 large_row ≡ true
unfolding all_below large_row sized bin_init
large_table = refl

-- What a fresh run needs of its bin.
record Suits (bin : Bin) : Type 0 where
  is_bin : IsBin bin
  bits : bin.reg_mask_size_bits ≡ 2 * regions bin
  generates : (rng : Rng) → Generates (u16 (choose_generator bin rng).0) (regions bin)

sized-IsBin :
    (bin : Bin) (n r : ℕ)
    → sized n r ≡ true
    → IsBin (bin_init bin n)
      × (regions (bin_init bin n) ≡ r)
      × ((bin_init bin n).reg_mask_size_bits ≡ 2 * r)
unfolding sized bin_init
sized-IsBin bin n r e = ground arith

module _ (bin : Bin) (rng : Rng) where
  choose_small :
      (k : ℕ)
      → k < 32
      → is_size_small bin.reg_size ≡ true
      → size_to_idx_small bin.reg_size ≡ k
      → Generates (u16 (choose_generator bin rng).0) (16384 / (16 * (k + 1)))
  unfolding choose_generator
  choose_small k h s e =
      let z = (splitmix32 rng).0 in
      let len = get_or generators_small_lengths k 0 in
      let (g, lt) = small-Generates k (z % len) h (omega (arith, small_lengths_pos k h)) in
      rw (s, e, mod-eq_of_lt lt) g

  choose_medium :
      (k : ℕ)
      → k < 4
      → is_size_small bin.reg_size ≡ false
      → is_size_medium bin.reg_size ≡ true
      → size_to_idx_medium bin.reg_size ≡ k
      → Generates (u16 (choose_generator bin rng).0) (16384 / (1024 * 2 ^ k))
  unfolding choose_generator
  choose_medium k h s m e =
      let z = (splitmix32 rng).0 in
      let len = get_or generators_medium_lengths k 0 in
      let (g, lt) = medium-Generates k (z % len) h (omega (arith, medium_lengths_pos k h)) in
      rw (s, m, e, mod-eq_of_lt lt) g

  choose_large :
      is_size_small bin.reg_size ≡ false
      → is_size_medium bin.reg_size ≡ false
      → Generates (u16 (choose_generator bin rng).0) 1
  unfolding choose_generator
  choose_large s m =
      rw (s, m) (record { pos = omega arith; no_cycle = λ d p h. absurd (omega arith) })

reg_size-init : (bin : Bin) (n : ℕ) → (bin_init bin n).reg_size ≡ n
unfolding bin_init
reg_size-init bin n = refl

Suits-init :
    (bin : Bin) (n r : ℕ)
    → sized n r ≡ true
    → ((rng : Rng) → Generates (u16 (choose_generator (bin_init bin n) rng).0) r)
    → Suits (bin_init bin n)
Suits-init bin n r s gen =
    let (b, e, bits) = sized-IsBin bin n r s in
    record { is_bin = b; bits = omega (arith, e, bits); generates = λ rng. rw e (gen rng) }

-- Every size class has a bin whose runs can be set up.
Class-Suits : (bin : Bin) (n : ℕ) → Class n → Suits (bin_init bin n)
unfolding small_row medium_row large_row
Class-Suits bin n (small k h e) =
    let row = all_below_sound 32 small_row k small_table h in
    let m = 16 * (k + 1) in
    rw e (
      Suits-init bin m (16384 / m) (ground arith) (λ rng.
        choose_small (bin_init bin m) rng k h (rw reg_size-init (ground arith))
          (rw reg_size-init (ground arith))))
Class-Suits bin n (medium k h e) =
    let row = all_below_sound 4 medium_row k medium_table h in
    let m = 1024 * 2 ^ k in
    rw e (
      Suits-init bin m (16384 / m) (ground arith) (λ rng.
        choose_medium (bin_init bin m) rng k h (rw reg_size-init (ground arith))
          (rw reg_size-init (ground arith)) (rw reg_size-init (ground arith))))
Class-Suits bin n (large k h e) =
    let row = all_below_sound 7 large_row k large_table h in
    let m = 16384 * 2 ^ k in
    rw e (
      Suits-init bin m 1 (ground arith) (λ rng.
        choose_large (bin_init bin m) rng (rw reg_size-init (ground arith))
          (rw reg_size-init (ground arith))))

-- A byte-wise cleared bitmap has every region free.
fill_free :
    (mem : Cells ℕ) (n j : ℕ)
    → n ≤ 1024
    → j < n
    → fill mem 0 (bits2bytes_ceil (2 * n)) 0 (j / 4) ≡ 0
unfolding fill
fill_free mem n j h lt = ground (arith, bits2bytes_ceil_lem (2 * n))

count-none : (n s : ℕ) (run : Run) → ((j : ℕ) → j < n → slot run j ≢ s) → count n s run ≡ 0
unfolding count
count-none zero s run h = refl
count-none (suc n) s run h = ground (arith, h n, count-none n s run (λ j lt. h j (omega arith)))

module _ (bin : Bin) (s : Suits bin) (run : Run) (heap : ℕ) (rng : Rng) where
  abbrev made : Run
  made = (run_init run bin heap rng).0

  made-slot : (j : ℕ) → j < regions bin → slot made j ≡ state_free
  unfolding run_init
  made-slot j lt =
      get_bitmap_item-zero _ j
        (rw s.bits (fill_free run.reg_bitmap (regions bin) j s.is_bin.regions_le lt))

  made_idx-lt : made.current_idx < regions bin
  unfolding run_init
  made_idx-lt =
      let z = (splitmix32 (choose_generator bin rng).1).0 in
      omega (arith, mod-lt z s.is_bin.regions_pos, s.is_bin.regions_le)

  made_idx : made.current_idx ≡ place (regions bin) made.gen made.current_idx 0
  made_idx = sym (place-zero (regions bin) made.gen made.current_idx made_idx-lt)

  made_navail : made.navail ≡ regions bin
  unfolding run_init
  made_navail = omega (arith, s.is_bin.regions_le)

  made_entry : made.entry ≡ record { fd = null; bk = null; key = heap }
  unfolding run_init
  made_entry = refl

  made-IsRun : heap + regions bin * bin.reg_size ≤ 2 ^ 64 → IsRun bin made
  unfolding run_init
  made-IsRun fits = record {
    start = made.current_idx;
    used = 0;
    generates = s.generates rng;
    idx = made_idx;
    avail = omega (arith, s.is_bin.regions_le);
    visited = λ i p h. absurd (omega arith);
    fresh = λ i p h.
        made-slot _ (place-lt (regions bin) made.gen made.current_idx i s.is_bin.regions_pos);
    freed =
        sym
          (count-none (regions bin) state_alloc_free made (λ j lt. ground (arith, made-slot j lt)));
    fits = fits;
  }

-- Initialising the bin of a size class and then a run of it gives a run with every region free, none
-- freed, and a generator of its group: for every aligned size up to 1 MiB, whatever the memory of the
-- two structures held, and for every state of the random generator.
pub run_init-IsRun :
    (bin : Bin) (run : Run) (reg_size heap : ℕ) (rng : Rng)
    → 0 < reg_size
    → reg_size ≤ 1048576
    → is_size_aligned reg_size ≡ true
    → heap + 1048576 ≤ 2 ^ 64
    → let bin' = bin_init bin reg_size in
      let run' = (run_init run bin' heap rng).0 in
      IsBin bin'
      × IsRun bin' run'
      × (run'.navail ≡ regions bin')
      × (run'.entry ≡ record { fd = null; bk = null; key = heap })
      × ((j : ℕ) → j < regions bin' → slot run' j ≡ state_free)
run_init-IsRun bin run n heap rng p h a fits =
    let s = Class-Suits bin n (Class-of_aligned n p h a) in
    (
      s.is_bin,
      made-IsRun (bin_init bin n) s run heap rng (omega (arith, s.is_bin.bytes_le)),
      made_navail (bin_init bin n) s run heap rng,
      made_entry (bin_init bin n) s run heap rng,
      made-slot (bin_init bin n) s run heap rng,
    )
