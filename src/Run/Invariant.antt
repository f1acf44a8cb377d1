-- ===== src/Run/Invariant.antt =====
-- What holds of a run at all times, and that `run_init` and `run_allocate` keep it.
use sealloc.Base.{
  ℕ, zero, suc, ◌+◌, ◌-◌, ◌*◌, ◌/◌, ◌%◌, ◌^◌, ◌≤◌, ◌<◌, ◌≡◌, refl, ◌≢◌, arith, sym, ◌∙◌, ap,
}
use sealloc.Base.{◌==◌, if◌then◌else◌, u16, eq-cases}
use sealloc.Bitmap.{get_bitmap_item, get-set_bitmap_item}
use sealloc.Generator.Table.{Generates}
use sealloc.Bin.{Bin}
use sealloc.Run.{Run, state_free, state_alloc, state_alloc_free, run_allocate}
use sealloc.Run.Orbit.{place, place-lt, place-distinct, place-suc}

-- The number of regions of a run of the bin.
abbrev pub regions : Bin → ℕ
regions bin = bin.reg_mask_size_bits / 2

abbrev pub slot : Run → ℕ → ℕ
slot run j = get_bitmap_item run.reg_bitmap j

-- How many of the first `n` regions are in state `s`.
unfoldable pub count : ℕ → ℕ → Run → ℕ
count zero s run = 0
count (suc n) s run = (if slot run n == s then 1 else 0) + count n s run

-- A bin after `bin_init`: its regions fit a run of at most 1 MiB, and a `uint16_t`.
pub record IsBin (bin : Bin) : Type 0 where
  pub reg_size_pos : 0 < bin.reg_size
  pub regions_pos : 0 < regions bin
  pub regions_le : regions bin ≤ 1024
  pub bytes_le : regions bin * bin.reg_size ≤ 1048576

-- `used` regions have been handed out since `start`, in the order of the generator's walk: those
-- are not free any more, the rest still is, and `nfreed` counts the ones that came back.
pub record IsRun (bin : Bin) (run : Run) : Type 0 where
  pub start : ℕ
  pub used : ℕ
  pub generates : Generates run.gen (regions bin)
  pub idx : run.current_idx ≡ place (regions bin) run.gen start used
  pub avail : run.navail + used ≡ regions bin
  pub visited :
      (i : ℕ) → 0 < i → i ≤ used → slot run (place (regions bin) run.gen start i) ≢ state_free
  pub fresh :
      (i : ℕ)
      → used < i
      → i ≤ regions bin
      → slot run (place (regions bin) run.gen start i) ≡ state_free
  pub freed : run.nfreed ≡ count (regions bin) state_alloc_free run
  pub fits : run.entry.key + regions bin * bin.reg_size ≤ 2 ^ 64

-- Regions outside the ones counted do not matter; a change of one region moves the count by it.
pub count-same :
    (n s : ℕ) (run run' : Run)
    → ((j : ℕ) → j < n → (slot run' j == s) ≡ (slot run j == s))
    → count n s run' ≡ count n s run
unfolding count
count-same zero s run run' h = refl
count-same (suc n) s run run' h =
    ground (arith, h n, count-same n s run run' (λ j lt. h j (omega arith)))

-- A region lies within the run.
pub region_bounds :
    (bin : Bin)
    → IsBin bin
    → (j : ℕ) → j < regions bin
    → (j * bin.reg_size + bin.reg_size ≤ regions bin * bin.reg_size) × (j * bin.reg_size < 2 ^ 32)
region_bounds bin b j h =
    let m = row j (regions bin) bin.reg_size h in (m, omega (arith, m, b.bytes_le))
  where
    row : (x y k : ℕ) → x < y → x * k + k ≤ y * k
    row x y k lt = grind arith

module _ (bin : Bin) (b : IsBin bin) (run : Run) (v : IsRun bin run) (more : 0 < run.navail) where
  abbrev next : ℕ
  next = place (regions bin) run.gen v.start (v.used + 1)

  abbrev after : Run
  after = (run_allocate run bin).0

  after_idx : after.current_idx ≡ next
  unfolding run_allocate
  after_idx = omega (
    arith,
    v.idx,
    ap (λ (t : ℕ). (run.gen + t) % regions bin) v.idx,
    place-suc (regions bin) run.gen v.start v.used b.regions_pos,
    place-lt (regions bin) run.gen v.start (v.used + 1) b.regions_pos,
    b.regions_le,
  )

  next-lt : next < regions bin
  next-lt = place-lt (regions bin) run.gen v.start (v.used + 1) b.regions_pos

  -- The assertion of `run_allocate`: the region was free.
  next_free : slot run next ≡ state_free
  next_free = v.fresh (v.used + 1) (omega arith) (omega (arith, v.avail))

  after-slot : (j : ℕ) → slot after j ≡ (if j == next then state_alloc else slot run j)
  unfolding run_allocate
  after-slot j = rw (← after_idx) (
      get-set_bitmap_item run.reg_bitmap (run_allocate run bin).0.current_idx state_alloc j
        (omega arith))

  after_navail : after.navail ≡ run.navail - 1
  unfolding run_allocate
  after_navail = omega (arith, v.avail, b.regions_le)

  after_gen : after.gen ≡ run.gen
  unfolding run_allocate
  after_gen = refl

  after_key : after.entry ≡ run.entry
  unfolding run_allocate
  after_key = refl

  after_nfreed : after.nfreed ≡ run.nfreed
  unfolding run_allocate
  after_nfreed = refl

  -- The pointer is the address of the region, inside the run's heap.
  after_ptr : (run_allocate run bin).1 ≡ run.entry.key + next * bin.reg_size
  unfolding run_allocate
  after_ptr =
      let e : u16 ((run.gen + run.current_idx) % (bin.reg_mask_size_bits / 2)) ≡ next = after_idx in
      rw e (omega (arith, region_bounds bin b next next-lt, v.fits))

  after-IsRun : IsRun bin after
  after-IsRun = record {
    start = v.start;
    used = v.used + 1;
    generates = rw after_gen v.generates;
    idx = rw after_gen after_idx;
    avail = omega (arith, after_navail, v.avail);
    visited =
        λ i p h. rw (after_gen, after-slot) (ground (arith, v.visited i, eq-cases i (v.used + 1)));
    fresh = λ i h k.
        rw (after_gen, after-slot)
          (ground (
            arith,
            v.fresh i,
            place-distinct (regions bin) run.gen v.start (v.used + 1) i v.generates h (omega arith),
          ));
    freed =
        after_nfreed
        ∙ v.freed
        ∙ sym (
            count-same (regions bin) state_alloc_free run after
              (λ j h. ground (arith, after-slot j, next_free)));
    fits = rw after_key v.fits;
  }

-- While regions are left, `run_allocate` hands out one that was free: its address lies in the run,
-- it is marked as allocated, no other region changes, one fewer is left, and the invariant holds.
pub run_allocate_lem :
    (bin : Bin) (run : Run)
    → IsBin bin
    → IsRun bin run
    → 0 < run.navail
    → let (run', ptr) = run_allocate run bin in
      IsRun bin run'
      × (run'.navail + 1 ≡ run.navail)
      × (run'.entry ≡ run.entry)
      × ((j : ℕ) × (j < regions bin)
          × (slot run j ≡ state_free)
          × (ptr ≡ run.entry.key + j * bin.reg_size)
          × ((k : ℕ) → slot run' k ≡ (if k == j then state_alloc else slot run k)))
run_allocate_lem bin run b v more = (
  after-IsRun bin b run v more,
  omega (arith, after_navail bin b run v more),
  after_key bin b run v more,
  (
    next bin b run v more,
    next-lt bin b run v more,
    next_free bin b run v more,
    after_ptr bin b run v more,
    after-slot bin b run v more,
  ),
)
