-- ===== src/Sealloc.antt =====
-- src/sealloc.c: the functions behind malloc, free, realloc and calloc.
pub mod Free
pub mod Realloc
pub mod Calloc
pub mod Locate
pub mod FirstRun
pub mod Refuses
pub mod Located
pub mod DoubleFree
pub mod ReallocZero
use sealloc.Base.{
  ℕ, zero, suc, ◌+◌, ◌*◌, Bool, true, false, ◌||◌, Option, none, some, Cells, store, u64, ltb, ◌==◌,
  if◌then◌else◌,
}
use sealloc.Utils.{page_size, alignup_page}
use sealloc.SizeClass.{is_size_huge, aligned_size}
use sealloc.ContainerLl.{null, list_fuel}
use sealloc.Bin.{Bin, bin_minimum_regions}
use sealloc.Bin.Runs
use sealloc.Bin.Runs.{
  picked, too_short, bin_get_run_for_allocation, allocate_from_run, bin_delete_run,
  bin_get_run_by_addr,
}
use sealloc.Run.{Run, size_max, run_validate_ptr, run_deallocate, run_is_freeable}
use sealloc.Chunk.{Chunk}
use sealloc.Chunk.Deallocate.{Range, RunInfo, chunk_get_run_ptr, chunk_deallocate_run}
use sealloc.World.{
  Arena, World, Outcome, done, aborts, out_of_fuel, M, pure, ◌>>=◌, ◌>>◌, panic, gets, modify,
  modify_arena, set_run, or_fuel, or_abort, when, memcpy, memset,
}
use sealloc.Arena.Metadata.{arena_internal_free}
use sealloc.Arena.Runs.{
  arena_allocate_run, arena_deallocate_chunk, arena_get_chunk_from_ptr, arena_supply_runs, add_run,
}
use sealloc.Arena.Bins.{arena_get_bin_by_reg_size}
use sealloc.Arena.Huge.{
  unmap, arena_find_huge_mapping, arena_allocate_huge_mapping, arena_reallocate_huge_mapping,
  arena_deallocate_huge_mapping,
}

-- "Check if there is enough regions to choose from": false is the return of NULL.
unfoldable pub top_up : ℕ → M Bool
top_up i = gets (λ w. w.arena.bins i) >>= λ bin.
    if ltb bin.avail_regs bin_minimum_regions
    then (arena_allocate_run bin >>= λ run. elim run [
      | zero ↦ pure false
      | suc r ↦ add_run i (suc r) >> pure true
    ])
    else pure true

-- bin_get_run_for_allocation on the bin of an index.
unfoldable pub choose_run : ℕ → M ℕ
choose_run i w =
    let (p, bin, rng) = bin_get_run_for_allocation (w.arena.bins i) w.runs w.rng in
    elim p [
      | picked run ↦
          done run
            (record w { arena = record w.arena { bins = store w.arena.bins i bin }; rng = rng })
      | too_short ↦ aborts
      | Runs.Pick.out_of_fuel ↦ out_of_fuel
    ]

unfoldable pub allocate_region : ℕ → ℕ → M ℕ
allocate_region i run w =
    let (bin, s, ptr) = allocate_from_run (w.arena.bins i) run w.runs in
    done ptr (record w { arena = record w.arena { bins = store w.arena.bins i bin }; runs = s })

unfoldable pub sealloc_allocate_with_bin : ℕ → M ℕ
sealloc_allocate_with_bin i = top_up i >>= λ enough. elim enough [
  | true ↦ choose_run i >>= λ run. allocate_region i run
  | false ↦ pure null
]

-- The bin of a size, with runs in it: false is the return of NULL.
unfoldable pub ready_bin : ℕ → M (ℕ × Bool)
ready_bin size = arena_get_bin_by_reg_size size >>= λ i. gets (λ w. w.arena.bins i) >>= λ bin.
    if bin.avail_regs == 0
    then (arena_supply_runs i >>= λ supplied. pure (i, supplied))
    else pure (i, true)

-- A region of a size that is not huge.
unfoldable pub allocate_regular : ℕ → M ℕ
allocate_regular size =
    ready_bin (aligned_size size) >>= λ r. if r.1 then sealloc_allocate_with_bin r.0 else pure null

unfoldable pub allocate_huge : ℕ → M ℕ
allocate_huge len = arena_allocate_huge_mapping len >>= λ huge. gets λ w. (w.huges huge).entry.key

-- SMALL_SIZE_MIN_REGION
abbrev pub small_size_min_region : ℕ
small_size_min_region = 16

unfoldable pub sealloc_malloc : ℕ → M ℕ
sealloc_malloc requested =
    let size = if requested == 0 then small_size_min_region else requested in
    if is_size_huge size then allocate_huge (alignup_page size) else allocate_regular size

-- metadata_t, with the structures that it says are there: a chunk, a run and a bin, or a huge mapping.
pub data Metadata : Type 0 where
  invalid : Metadata
  regular : ℕ → ℕ → ℕ → Metadata
  huge : ℕ → Metadata

-- The chunk and the run of an address; `none` is out of fuel, and a chunk of `null` is none.
unfoldable pub locate_loop : ℕ → Arena → Cells Chunk → ℕ → ℕ → Option (ℕ × RunInfo)
locate_loop zero arena cs ptr chunk = none
locate_loop (suc fuel) arena cs ptr chunk =
    let info = chunk_get_run_ptr (cs chunk) ptr in
    let rest = elim (arena_get_chunk_from_ptr arena cs ptr chunk) as (λ _. Option (ℕ × RunInfo)) [
      | none ↦ none
      | some next ↦ locate_loop fuel arena cs ptr next
    ] in
    if (chunk == null) || ltb 0 info.run_ptr then some (chunk, info) else rest

unfoldable pub locate_chunk : ℕ → M (ℕ × RunInfo)
locate_chunk ptr w =
    or_fuel
      (elim (arena_get_chunk_from_ptr w.arena w.chunks ptr null) [
        | none ↦ none
        | some chunk ↦ locate_loop list_fuel w.arena w.chunks ptr chunk
      ])
      w

-- The run may be `null` when the bin has no run of that address.
unfoldable pub locate_metadata_for_ptr : ℕ → M Metadata
locate_metadata_for_ptr ptr = locate_chunk ptr >>= λ (r : ℕ × RunInfo). elim r.0 [
  | zero ↦ arena_find_huge_mapping ptr >>= λ h. elim h [
    | zero ↦ pure invalid
    | suc a ↦ pure (huge (suc a))
  ]
  | suc c ↦
      let size = if ltb 0 r.1.reg_size then r.1.reg_size else r.1.run_size in
      arena_get_bin_by_reg_size size >>= λ i.
      (λ w. or_fuel (bin_get_run_by_addr (w.arena.bins i) r.1.run_ptr w.runs) w) >>= λ run.
      pure (regular (suc c) run i)
]
