-- ===== src/Run/Free.antt =====
-- `run_deallocate`: which pointers it accepts, what it changes, and when a run is freeable.
use sealloc.Base.{
  ℕ, zero, suc, ◌+◌, ◌-◌, ◌*◌, ◌/◌, ◌%◌, ◌^◌, ◌≤◌, ◌<◌, ◌≡◌, refl, ◌≢◌, ◌↔◌, true, false, arith,
  ◌∙◌, ap,
}
use sealloc.Base.{leb, ◌==◌, if◌then◌else◌, u16, eq-cases, inl, inr}
use native.Mathlib.Nat.{mul-div_cancel, mul-mod_left, mul-le-mul_right, div-add-mod'}
use mathlib.Core.Bool.{not}
use sealloc.Bitmap.{set_bitmap_item, get-set_bitmap_item}
use sealloc.Bin.{Bin}
use sealloc.Run.{
  Run, state_alloc, state_alloc_free, size_max, rel_amount, rel_negative, bitmap_idx, is_unaligned,
  run_validate_ptr, run_deallocate, run_is_freeable, run_is_depleted,
}
use sealloc.Run.Orbit.{place, place-lt}
use sealloc.Run.Invariant.{regions, slot, count, IsBin, IsRun}

-- A pointer into the heap of a run.
abbrev pub InRun : Bin → Run → ℕ → Type 0
InRun bin run ptr = (run.entry.key ≤ ptr) × (ptr < run.entry.key + regions bin * bin.reg_size)

-- The address of the region `j`.
abbrev pub address : Bin → Run → ℕ → ℕ
address bin run j = run.entry.key + j * bin.reg_size

pub quotient-lt : (x n s : ℕ) → 0 < s → x < n * s → x / s < n
quotient-lt x n s p h = grind arith

amount_above : (ptr key : ℕ) → key ≤ ptr → ptr - key < 2 ^ 63 → rel_amount ptr key ≡ ptr - key
amount_above ptr key h small = ground arith

not_negative : (ptr key : ℕ) → key ≤ ptr → ptr - key < 2 ^ 63 → rel_negative ptr key ≡ false
not_negative ptr key h small = ground arith

bitmap_idx_above :
    (ptr key s : ℕ) → key ≤ ptr → ptr - key < 2 ^ 63 → bitmap_idx ptr key s ≡ (ptr - key) / s
unfolding bitmap_idx
bitmap_idx_above ptr key s h small =
    let a = amount_above ptr key h small in let n = not_negative ptr key h small in rw (n, a) refl

is_unaligned_above :
    (ptr key s : ℕ)
    → key ≤ ptr
    → ptr - key < 2 ^ 63
    → is_unaligned ptr key s ≡ not ((ptr - key) % s == 0)
unfolding is_unaligned
is_unaligned_above ptr key s h small = let a = amount_above ptr key h small in rw a refl

module _ (bin : Bin) (run : Run) (b : IsBin bin) where
  -- The validation, for a pointer into the run: its region's index if it is the start of an allocated
  -- region, and SIZE_MAX otherwise.
  pub run_validate_ptr-allocated :
      (j : ℕ)
      → j < regions bin
      → slot run j ≡ state_alloc
      → run_validate_ptr run bin (address bin run j) ≡ j
  unfolding run_validate_ptr
  run_validate_ptr-allocated j h a =
      let off : address bin run j - run.entry.key ≡ j * bin.reg_size = omega arith in
      let inside : j * bin.reg_size ≤ regions bin * bin.reg_size =
        mul-le-mul_right bin.reg_size (omega arith) in
      let small : address bin run j - run.entry.key < 2 ^ 63 = omega (arith, b.bytes_le) in
      let e : bitmap_idx (address bin run j) run.entry.key bin.reg_size ≡ j =
        bitmap_idx_above (address bin run j) run.entry.key bin.reg_size (omega arith) small
        ∙ ap (λ (t : ℕ). t / bin.reg_size) off
        ∙ mul-div_cancel j b.reg_size_pos in
      let f : is_unaligned (address bin run j) run.entry.key bin.reg_size ≡ false =
        is_unaligned_above (address bin run j) run.entry.key bin.reg_size (omega arith) small
        ∙ ap (λ (t : ℕ). not (t % bin.reg_size == 0)) off
        ∙ ap (λ (t : ℕ). not (t == 0)) (mul-mod_left j bin.reg_size) in
      rw (f, e) (ground arith)

  pub run_validate_ptr-refused :
      (ptr : ℕ)
      → InRun bin run ptr
      → ((j : ℕ) → j < regions bin → ptr ≡ address bin run j → slot run j ≢ state_alloc)
      → run_validate_ptr run bin ptr ≡ size_max
  unfolding run_validate_ptr
  run_validate_ptr-refused ptr i no_region =
      let off = ptr - run.entry.key in
      let j = off / bin.reg_size in
      let lt : j < regions bin =
        quotient-lt off (regions bin) bin.reg_size b.reg_size_pos (omega arith) in
      let small : off < 2 ^ 63 = omega (arith, b.bytes_le, i.0, i.1) in
      let e = bitmap_idx_above ptr run.entry.key bin.reg_size i.0 small in
      let f = is_unaligned_above ptr run.entry.key bin.reg_size i.0 small in
      let split = div-add-mod' off bin.reg_size in rw (f, e) (ground (arith, no_region j lt, split))

count-le : (n s : ℕ) (run : Run) → count n s run ≤ n
unfolding count
count-le zero s run = omega arith
count-le (suc n) s run = ground (arith, count-le n s run)

-- A region that changes into the state `s` is counted once more.
count-into :
    (n s j : ℕ) (run run' : Run)
    → slot run j ≢ s
    → ((k : ℕ) → slot run' k ≡ (if k == j then s else slot run k))
    → count n s run' ≡ count n s run + (if leb (j + 1) n then 1 else 0)
unfolding count
count-into zero s j run run' ne h = ground arith
count-into (suc n) s j run run' ne h = ground (arith, h n, count-into n s j run run' ne h)

-- If all the regions counted are in the state, the count is full, and the other way round.
count_full : (n s : ℕ) (run : Run) → (count n s run ≡ n) ↔ ((j : ℕ) → j < n → slot run j ≡ s)
unfolding count
count_full zero s run = (λ e j h. absurd (omega arith), λ h. refl)
count_full (suc n) s run =
    let ih = count_full n s run in
    (
      λ e j h. elim (eq-cases j n) [
        | inl q ↦ rw q (ground (arith, count-le n s run))
        | inr q ↦ ih.0 (ground (arith, count-le n s run)) j (omega arith)
      ],
      λ h. let full : count n s run ≡ n = ih.1 (λ j lt. h j (omega arith)) in ground (arith, h n),
    )

module _ (bin : Bin) (run : Run) (b : IsBin bin) (v : IsRun bin run) where
  module _ (j : ℕ) (h : j < regions bin) (a : slot run j ≡ state_alloc) where
    abbrev freed_run : Run
    freed_run = record run {
      reg_bitmap = set_bitmap_item run.reg_bitmap j state_alloc_free;
      nfreed = u16 (run.nfreed + 1);
    }

    small : (j == size_max) ≡ false
    small = ground (arith, b.regions_le)

    pub accepted : run_deallocate run bin (address bin run j) ≡ (freed_run, true)
    unfolding run_deallocate
    accepted = rw (run_validate_ptr-allocated bin run b j h a, small)

    freed_slot : (k : ℕ) → slot freed_run k ≡ (if k == j then state_alloc_free else slot run k)
    freed_slot k = get-set_bitmap_item run.reg_bitmap j state_alloc_free k (omega arith)

    freed_count : freed_run.nfreed ≡ run.nfreed + 1
    freed_count = omega (arith, v.freed, count-le (regions bin) state_alloc_free run, b.regions_le)

    freed-IsRun : IsRun bin freed_run
    freed-IsRun = record {
      start = v.start;
      used = v.used;
      generates = v.generates;
      idx = v.idx;
      avail = v.avail;
      visited = λ i p k. rw freed_slot (ground (arith, v.visited i));
      fresh = λ i k l. rw freed_slot (ground (arith, v.fresh i));
      freed = ground (
        arith,
        freed_count,
        v.freed,
        count-into (regions bin) state_alloc_free j run freed_run (ground arith) freed_slot,
      );
      fits = v.fits;
    }

-- A pointer to the start of an allocated region is accepted: the region is marked as freed and no other
-- region changes, the count of freed regions goes up by one, the count of those that are left, the place in the
-- order of the regions, its generator and the entry are as before, and the invariant holds.
pub run_deallocate_accepts :
    (bin : Bin) (run : Run) (j : ℕ)
    → IsBin bin
    → IsRun bin run
    → j < regions bin
    → slot run j ≡ state_alloc
    → let (run', done) = run_deallocate run bin (address bin run j) in
      (done ≡ true)
      × IsRun bin run'
      × (run'.nfreed ≡ run.nfreed + 1)
      × (run'.navail ≡ run.navail)
      × (run'.entry ≡ run.entry)
      × ((k : ℕ) → slot run' k ≡ (if k == j then state_alloc_free else slot run k))
      × (run'.gen ≡ run.gen)
      × (run'.current_idx ≡ run.current_idx)
run_deallocate_accepts bin run j b v h a = rw (accepted bin run b v j h a) (
  refl,
  freed-IsRun bin run b v j h a,
  freed_count bin run b v j h a,
  refl,
  refl,
  freed_slot bin run b v j h a,
  refl,
  refl,
)

-- Any other pointer into the run is refused and changes nothing: one inside a region, and one to a
-- region that was never handed out or is freed already.
pub run_deallocate_refuses :
    (bin : Bin) (run : Run) (ptr : ℕ)
    → IsBin bin
    → InRun bin run ptr
    → ((j : ℕ) → j < regions bin → ptr ≡ address bin run j → slot run j ≢ state_alloc)
    → run_deallocate run bin ptr ≡ (run, false)
unfolding run_deallocate
run_deallocate_refuses bin run ptr b i no_region =
    rw (run_validate_ptr-refused bin run b ptr i no_region)

-- A run is freeable exactly when every region was handed out and came back; then it is depleted.
pub run_is_freeable_iff :
    (bin : Bin) (run : Run)
    → IsBin bin
    → IsRun bin run
    → ((run_is_freeable run bin ≡ true)
        ↔ ((j : ℕ) → j < regions bin → slot run j ≡ state_alloc_free))
      × (run_is_freeable run bin ≡ true → run_is_depleted run ≡ true)
run_is_freeable_iff bin run b v =
    let full = count_full (regions bin) state_alloc_free run in
    let freeable : (run_is_freeable run bin ≡ true)
        ↔ ((j : ℕ) → j < regions bin → slot run j ≡ state_alloc_free) =
      (λ e. full.0 (ground (arith, v.freed)), λ all. ground (arith, v.freed, full.1 all)) in
    (freeable, λ e. depleted (freeable.0 e))
  where
    depleted :
        ((j : ℕ) → j < regions bin → slot run j ≡ state_alloc_free) → run_is_depleted run ≡ true
    depleted all = ground (
      arith,
      v.avail,
      v.fresh (v.used + 1),
      all (place (regions bin) run.gen v.start (v.used + 1))
          (place-lt (regions bin) run.gen v.start (v.used + 1) b.regions_pos),
    )
