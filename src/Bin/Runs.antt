-- ===== src/Bin/Runs.antt =====
-- src/bin.c: the runs of a bin. A run lies at an address with its `entry` first, so that CONTAINER_OF
-- gives the run's address for the entry's; the list operations work on the entries of the runs.
pub mod Holds
pub mod Choose
use sealloc.Base.{
  ℕ, zero, suc, ◌+◌, ◌-◌, ◌%◌, ◌^◌, Option, none, some, Cells, store, u32, ◌==◌, if◌then◌else◌,
}
use sealloc.Random.{Rng, splitmix32}
use sealloc.ContainerLl.{Entry, null, ll_add, ll_del, ll_find, list_fuel}
use sealloc.Bin.{Bin}
use sealloc.Run.{Run, run_allocate, run_is_depleted}

abbrev pub Store : Type 0
Store = Cells Run

abbrev pub entries : Store → Cells Entry
entries s = λ p. (s p).entry

-- The runs with new entries.
abbrev pub with_entries : Store → Cells Entry → Store
with_entries s m = λ p. record (s p) { entry = m p }

unfoldable pub bin_add_run : Bin → ℕ → Store → Bin × Store
bin_add_run bin run s =
    let (head, m) = ll_add bin.run_list_active run (entries s) in
    (
      record bin {
        avail_regs = u32 (bin.avail_regs + (s run).navail);
        run_list_active_cnt = u32 (bin.run_list_active_cnt + 1);
        run_list_active = head;
      },
      with_entries s m,
    )

unfoldable pub bin_delete_run : Bin → ℕ → Store → Bin × Store
bin_delete_run bin run s =
    let (head, m) = ll_del bin.run_list_inactive run (entries s) in
    (record bin { run_list_inactive = head }, with_entries s m)

-- The outcome of the walk to a random run: `too_short` is the call of se_error, which aborts.
pub data Pick : Type 0 where
  picked : ℕ → Pick
  too_short : Pick
  out_of_fuel : Pick

unfoldable pub pick_loop : ℕ → ℕ → ℕ → Store → Pick
pick_loop zero entry run_idx s = out_of_fuel
pick_loop (suc fuel) entry run_idx s =
    let rest = pick_loop fuel (s entry).entry.fd (run_idx - 1) s in
    if entry == null then too_short else if run_idx == 0 then picked entry else rest

-- The bin is updated when a run is found.
unfoldable pub bin_get_run_for_allocation : Bin → Store → Rng → Pick × Bin × Rng
bin_get_run_for_allocation bin s rng =
    let (z, rng') = splitmix32 rng in
    let p = pick_loop list_fuel bin.run_list_active (z % bin.run_list_active_cnt) s in
    (
      p,
      elim p [
        | picked _ ↦ record bin { avail_regs = u32 (bin.avail_regs + (2 ^ 32 - 1)) }
        | _ ↦ bin
      ],
      rng',
    )

unfoldable pub bin_retire_run : Bin → ℕ → Store → Bin × Store
bin_retire_run bin run s =
    let (active, m) = ll_del bin.run_list_active run (entries s) in
    let (inactive, m') = ll_add bin.run_list_inactive run m in
    (
      record bin {
        run_list_active = active;
        run_list_inactive = inactive;
        run_list_active_cnt = u32 (bin.run_list_active_cnt + (2 ^ 32 - 1));
      },
      with_entries s m',
    )

unfoldable pub bin_get_run_by_addr : Bin → ℕ → Store → Option ℕ
bin_get_run_by_addr bin run_ptr s = elim (ll_find bin.run_list_active run_ptr (entries s)) [
  | none ↦ none
  | some run ↦ if run == null then ll_find bin.run_list_inactive run_ptr (entries s) else some run
]

-- The end of sealloc_allocate_with_bin in src/sealloc.c, once the bin has regions enough: choose a run,
-- allocate from it, and retire it when that was its last region.
unfoldable pub allocate_from_run : Bin → ℕ → Store → Bin × Store × ℕ
allocate_from_run bin run s =
    let (run', ptr) = run_allocate (s run) bin in
    let s' = store s run run' in
    if run_is_depleted run'
    then (let (bin', s'') = bin_retire_run bin run s' in (bin', s'', ptr))
    else (bin, s', ptr)
