-- ===== src/Tests/Bins.antt =====
-- A bin with one active run at address 16, and a run at 32 to add to it.
use sealloc.Base.{
  ℕ, ◌+◌, ◌-◌, ◌*◌, ◌<◌, ◌≡◌, refl, [], ◌∷◌, true, arith, store, has, some, ◌==◌, if◌then◌else◌,
}
use sealloc.ContainerLl.{ll_add, set_fd, set_bk}
use sealloc.ContainerLl.Seg.{erase}
use sealloc.ContainerLl.Ops.{find}
use sealloc.Bin.{Bin, bin_init}
use sealloc.Run.{run_init, state_free}
use sealloc.Run.Invariant.{IsBin, IsRun, regions, slot}
use sealloc.Bin.Runs.{
  Store, entries, picked, bin_add_run, bin_delete_run, bin_get_run_for_allocation,
  bin_get_run_by_addr, allocate_from_run,
}
use sealloc.Bin.Runs.Holds.{
  Holds, total, bin_add_run-Holds, bin_delete_run-Holds, bin_get_run_by_addr-find,
}
use sealloc.Bin.Runs.Choose.{one_taken, bin_get_run_for_allocation-picked, allocate_from_run-Holds}
use sealloc.Tests.Regions.{bin, run, rng, bin-IsBin, run-IsRun}

abbrev runs : Store
runs = store (λ _. run) 32 run

-- No run yet.
empty-Holds : Holds bin runs [] []
unfolding bin_init total
empty-Holds = record {
  active = refl;
  inactive = refl;
  apart = λ a h. cc;
  cnt = refl;
  avail = refl;
  working = λ a h. cc;
}

bin_add_run-Holds_example : let (bin', s') = bin_add_run bin 32 runs in Holds bin' s' (32 ∷ []) []
unfolding total store run_init bin_init
bin_add_run-Holds_example =
    bin_add_run-Holds bin runs 32 [] [] empty-Holds (omega arith) refl refl (omega arith)
      (omega arith) (omega arith)

added : let (bin', s') = bin_add_run bin 32 runs in Holds bin' s' (32 ∷ []) []
unfolding total store run_init bin_init
added =
    bin_add_run-Holds bin runs 32 [] [] empty-Holds (omega arith) refl refl (omega arith)
      (omega arith) (omega arith)

abbrev bin1 : Bin
bin1 = (bin_add_run bin 32 runs).0

abbrev runs1 : Store
runs1 = (bin_add_run bin 32 runs).1

bin_get_run_by_addr-find_example :
    bin_get_run_by_addr bin1 65536 runs1 ≡ some (find 65536 (entries runs1) (32 ∷ []))
bin_get_run_by_addr-find_example =
    bin_get_run_by_addr-find bin1 runs1 65536 (32 ∷ []) [] added (omega arith) (omega arith)

bin_get_run_for_allocation-picked_example :
    let (p, bin', rng') = bin_get_run_for_allocation bin1 runs1 rng in
    (a : ℕ) × (p ≡ picked a)
    × (has a (32 ∷ []) ≡ true)
    × (0 < (runs1 a).navail)
    × (bin' ≡ record bin1 { avail_regs = bin1.avail_regs - 1 })
unfolding total bin_add_run store run_init bin_init
bin_get_run_for_allocation-picked_example =
    bin_get_run_for_allocation-picked bin1 runs1 rng (32 ∷ []) [] added (omega arith) (omega arith)
      (omega arith)

bin1-IsBin : IsBin bin1
unfolding bin_add_run
bin1-IsBin = record {
  reg_size_pos = bin-IsBin.reg_size_pos;
  regions_pos = bin-IsBin.regions_pos;
  regions_le = bin-IsBin.regions_le;
  bytes_le = bin-IsBin.bytes_le;
}

run1-IsRun : IsRun bin1 (runs1 32)
unfolding bin_add_run store ll_add set_fd set_bk run_init bin_init
run1-IsRun = record {
  start = run-IsRun.start;
  used = run-IsRun.used;
  generates = run-IsRun.generates;
  idx = run-IsRun.idx;
  avail = run-IsRun.avail;
  visited = run-IsRun.visited;
  fresh = run-IsRun.fresh;
  freed = run-IsRun.freed;
  fits = run-IsRun.fits;
}

allocate_from_run-Holds_example :
    let (bin', s', ptr) = allocate_from_run (one_taken bin1) 32 runs1 in
    let last = (runs1 32).navail == 1 in
    Holds bin' s' (if last then [] else 32 ∷ []) (if last then 32 ∷ [] else [])
    × ((j : ℕ) × (j < regions bin1)
        × (slot (runs1 32) j ≡ state_free)
        × (ptr ≡ (runs1 32).entry.key + j * bin1.reg_size))
unfolding erase
allocate_from_run-Holds_example =
    allocate_from_run-Holds bin1 runs1 32 (32 ∷ []) [] added refl bin1-IsBin run1-IsRun
      (omega arith)

-- The run at 32 has been retired.
abbrev idle : Bin
idle = record bin { run_list_inactive = 32 }

idle-Holds : Holds idle runs [] (32 ∷ [])
unfolding bin_init total store run_init
idle-Holds = record {
  active = refl;
  inactive = (refl, omega arith, refl, refl, refl);
  apart = λ a h. cc;
  cnt = refl;
  avail = refl;
  working = λ a h. cc;
}

bin_delete_run-Holds_example : let (bin', s') = bin_delete_run idle 32 runs in Holds bin' s' [] []
unfolding erase
bin_delete_run-Holds_example = bin_delete_run-Holds idle runs 32 [] (32 ∷ []) idle-Holds refl
