-- ===== src/Sealloc/Free.antt =====
-- sealloc_free in src/sealloc.c.
use sealloc.Base.{ℕ, zero, suc, Bool, none, some, store, if◌then◌else◌}
use sealloc.Bin.Runs.{bin_delete_run}
use sealloc.Run.{run_deallocate, run_is_freeable}
use sealloc.Chunk.Deallocate.{chunk_deallocate_run}
use sealloc.World.{done, aborts, M, pure, ◌>>=◌, ◌>>◌, panic, gets, modify, not_null, when}
use sealloc.Arena.Metadata.{arena_internal_free}
use sealloc.Arena.Runs.{arena_deallocate_chunk}
use sealloc.Arena.Huge.{unmap, arena_deallocate_huge_mapping}
use sealloc.Sealloc.{Metadata, invalid, regular, huge, locate_metadata_for_ptr}

-- chunk_deallocate_run with the call of platform_unmap in it.
unfoldable pub release_run : ℕ → ℕ → M Bool
release_run chunk run_ptr w = elim (chunk_deallocate_run (w.chunks chunk) run_ptr) [
  | none ↦ aborts
  | some (full, range, c) ↦
      (unmap range.start range.size >> pure full) (record w { chunks = store w.chunks chunk c })
]

-- run_deallocate: a pointer that is no allocated region aborts.
unfoldable pub deallocate_region : ℕ → ℕ → ℕ → M (Unit {0})
deallocate_region i run ptr w =
    let (r, ok) = run_deallocate (w.runs run) (w.arena.bins i) ptr in
    if ok then done tt (record w { runs = store w.runs run r }) else aborts

-- A run whose regions are all freed is given back.
unfoldable pub delete_run : ℕ → ℕ → ℕ → M (Unit {0})
delete_run chunk i run = do
  modify λ w.
      let (bin, s) = bin_delete_run (w.arena.bins i) run w.runs in
      record w { arena = record w.arena { bins = store w.arena.bins i bin }; runs = s }
  run_ptr ← gets λ w. (w.runs run).entry.key
  full ← release_run chunk run_ptr
  when full (arena_deallocate_chunk chunk)
  arena_internal_free run

unfoldable pub sealloc_free_with_metadata : ℕ → ℕ → ℕ → ℕ → M (Unit {0})
sealloc_free_with_metadata chunk i run ptr = do
  not_null run
  deallocate_region i run ptr
  freeable ← gets λ w. run_is_freeable (w.runs run) (w.arena.bins i)
  when freeable (delete_run chunk i run)

unfoldable pub free_located : ℕ → Metadata → M (Unit {0})
free_located ptr invalid = panic
free_located ptr (huge h) = arena_deallocate_huge_mapping h
free_located ptr (regular chunk run i) = sealloc_free_with_metadata chunk i run ptr

unfoldable pub sealloc_free : ℕ → M (Unit {0})
sealloc_free ptr = elim ptr [
  | zero ↦ pure tt
  | suc p ↦ locate_metadata_for_ptr (suc p) >>= λ meta. free_located (suc p) meta
]
