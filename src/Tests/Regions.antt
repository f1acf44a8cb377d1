-- ===== src/Tests/Regions.antt =====
-- A run of four regions of 4 KiB at address 65536.
use sealloc.Base.{
  ℕ, ◌+◌, ◌*◌, ◌<◌, ◌≡◌, refl, ◌≢◌, ◌↔◌, true, false, arith, ◌==◌, ==_self, if◌then◌else◌, ◌∙◌,
}
use sealloc.Utils.{ceil_div}
use sealloc.Random.{Rng}
use sealloc.SizeClass.{is_size_aligned, alignup_medium_size, npow2}
use sealloc.ContainerLl.{null}
use sealloc.Bin.{Bin, bin_init}
use sealloc.Run.{
  Run, state_free, state_alloc, state_alloc_free, run_init, run_allocate, run_deallocate,
  run_is_freeable, run_is_depleted,
}
use sealloc.Run.Init.{run_init-IsRun}
use sealloc.Run.Invariant.{IsBin, IsRun, regions, slot, region_bounds, run_allocate_lem}
use sealloc.Run.Free.{
  address, InRun, run_deallocate_accepts, run_deallocate_refuses, run_is_freeable_iff,
}
use sealloc.Run.Trace.{here, next, frees, allocate_once, double_free_refused}

abbrev pub blank : Bin
blank = record {
  run_list_inactive = 0;
  run_list_active = 0;
  run_list_active_cnt = 0;
  avail_regs = 0;
  reg_size = 0;
  run_size_pages = 0;
  reg_mask_size_bits = 0;
}

-- Memory that was used before.
abbrev pub raw : Run
raw = record {
  entry = record { fd = 7; bk = 7; key = 7 };
  navail = 7;
  nfreed = 7;
  gen = 7;
  current_idx = 7;
  reg_bitmap = λ _. 255;
}

abbrev pub rng : Rng
rng = record { state32 = 12; state64 = 12 }

abbrev pub bin : Bin
bin = bin_init blank 4096

abbrev pub run : Run
run = (run_init raw bin 65536 rng).0

run_init-IsRun_example :
    IsBin bin
    × IsRun bin run
    × (run.navail ≡ regions bin)
    × (run.entry ≡ record { fd = null; bk = null; key = 65536 })
    × ((j : ℕ) → j < regions bin → slot run j ≡ state_free)
unfolding is_size_aligned alignup_medium_size npow2 ceil_div
run_init-IsRun_example =
    run_init-IsRun blank raw 4096 65536 rng (omega arith) (omega arith) refl (omega arith)

fresh_facts :
    IsBin bin
    × IsRun bin run
    × (run.navail ≡ regions bin)
    × (run.entry ≡ record { fd = null; bk = null; key = 65536 })
    × ((j : ℕ) → j < regions bin → slot run j ≡ state_free)
unfolding is_size_aligned alignup_medium_size npow2 ceil_div
fresh_facts = run_init-IsRun blank raw 4096 65536 rng (omega arith) (omega arith) refl (omega arith)

pub bin-IsBin : IsBin bin
bin-IsBin = fresh_facts.0

pub run-IsRun : IsRun bin run
run-IsRun = fresh_facts.1

pub run_has_regions : 0 < run.navail
run_has_regions = omega (arith, fresh_facts.2, bin-IsBin.regions_pos)

run_allocate_lem_example :
    let (run', ptr) = run_allocate run bin in
    IsRun bin run'
    × (run'.navail + 1 ≡ run.navail)
    × (run'.entry ≡ run.entry)
    × ((j : ℕ) × (j < regions bin)
        × (slot run j ≡ state_free)
        × (ptr ≡ run.entry.key + j * bin.reg_size)
        × ((k : ℕ) → slot run' k ≡ (if k == j then state_alloc else slot run k)))
run_allocate_lem_example = run_allocate_lem bin run bin-IsBin run-IsRun run_has_regions

pub taken_facts :
    let (run', ptr) = run_allocate run bin in
    IsRun bin run'
    × (run'.navail + 1 ≡ run.navail)
    × (run'.entry ≡ run.entry)
    × ((j : ℕ) × (j < regions bin)
        × (slot run j ≡ state_free)
        × (ptr ≡ run.entry.key + j * bin.reg_size)
        × ((k : ℕ) → slot run' k ≡ (if k == j then state_alloc else slot run k)))
taken_facts = run_allocate_lem bin run bin-IsBin run-IsRun run_has_regions

-- After one allocation.
abbrev pub taken : Run
taken = (run_allocate run bin).0

pub taken-IsRun : IsRun bin taken
taken-IsRun = taken_facts.0

abbrev pub j0 : ℕ
j0 = taken_facts.3.0

pub taken_slot : slot taken j0 ≡ state_alloc
taken_slot = taken_facts.3.4 j0 ∙ rw (==_self j0)

run_deallocate_accepts_example :
    let (run', done) = run_deallocate taken bin (address bin taken j0) in
    (done ≡ true)
    × IsRun bin run'
    × (run'.nfreed ≡ taken.nfreed + 1)
    × (run'.navail ≡ taken.navail)
    × (run'.entry ≡ taken.entry)
    × ((k : ℕ) → slot run' k ≡ (if k == j0 then state_alloc_free else slot taken k))
    × (run'.gen ≡ taken.gen)
    × (run'.current_idx ≡ taken.current_idx)
run_deallocate_accepts_example =
    run_deallocate_accepts bin taken j0 bin-IsBin taken-IsRun taken_facts.3.1 taken_slot

returned_facts :
    let (run', done) = run_deallocate taken bin (address bin taken j0) in
    (done ≡ true)
    × IsRun bin run'
    × (run'.nfreed ≡ taken.nfreed + 1)
    × (run'.navail ≡ taken.navail)
    × (run'.entry ≡ taken.entry)
    × ((k : ℕ) → slot run' k ≡ (if k == j0 then state_alloc_free else slot taken k))
    × (run'.gen ≡ taken.gen)
    × (run'.current_idx ≡ taken.current_idx)
returned_facts =
    run_deallocate_accepts bin taken j0 bin-IsBin taken-IsRun taken_facts.3.1 taken_slot

-- A pointer into the middle of a region, of a run that has handed out nothing.
middle-InRun : InRun bin run 65540
unfolding run_init bin_init
middle-InRun = (omega arith, omega arith)

run_deallocate_refuses_example : run_deallocate run bin 65540 ≡ (run, false)
run_deallocate_refuses_example =
    run_deallocate_refuses bin run 65540 bin-IsBin middle-InRun
      (λ j lt e. ground (arith, fresh_facts.4 j))

run_is_freeable_iff_example :
    ((run_is_freeable run bin ≡ true) ↔ ((j : ℕ) → j < regions bin → slot run j ≡ state_alloc_free))
    × (run_is_freeable run bin ≡ true → run_is_depleted run ≡ true)
run_is_freeable_iff_example = run_is_freeable_iff bin run bin-IsBin run-IsRun

more_left : 0 < taken.navail
unfolding run_allocate run_init bin_init
more_left = omega (arith, taken_facts.1, fresh_facts.2)

-- Freed at once, and allocated from again.
abbrev returned : Run
returned = (run_deallocate taken bin (address bin taken j0)).0

ptr-InRun : InRun bin taken (address bin taken j0)
ptr-InRun = (
  omega arith,
  omega (arith, region_bounds bin bin-IsBin j0 taken_facts.3.1, bin-IsBin.reg_size_pos),
)

allocate_once_example : (run_allocate returned bin).1 ≢ (run_allocate run bin).1
allocate_once_example =
    allocate_once bin run returned bin-IsBin run-IsRun run_has_regions
      (next here (frees (address bin taken j0) ptr-InRun refl))
      (omega (arith, more_left, returned_facts.3))

double_free_refused_example : run_deallocate returned bin (address bin taken j0) ≡ (returned, false)
double_free_refused_example =
    double_free_refused bin taken returned (address bin taken j0) bin-IsBin taken-IsRun ptr-InRun
      returned_facts.0 here
