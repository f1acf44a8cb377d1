-- ===== src/Sealloc/Refuses.antt =====
-- sealloc_free and sealloc_realloc of src/sealloc.c on a pointer that belongs to nothing, and on one into
-- a run that is no allocated region.
use sealloc.Base.{ℕ, zero, suc, ◌<◌, ◌^◌, ◌≡◌, ◌≢◌, refl, ◌∙◌, List, length}
use sealloc.ContainerLl.{null, list_fuel}
use sealloc.ContainerLl.Seg.{IsList}
use sealloc.ContainerLl.Ops.{find, ll_find-find}
use sealloc.Run.{state_alloc}
use sealloc.Run.Invariant.{regions, slot, IsBin}
use sealloc.Run.Free.{InRun, address, run_validate_ptr-refused, run_deallocate_refuses}
use sealloc.World.{World, done, aborts, bind-done, bind-aborts}
use sealloc.Arena.Runs.{chunk_entries}
use sealloc.Arena.Chunks.{Mapped}
use sealloc.Arena.Huge.{huge_entries, arena_find_huge_mapping}
use sealloc.Sealloc.{invalid, regular, locate_chunk, locate_metadata_for_ptr}
use sealloc.Sealloc.Locate.{owner, locate_chunk-owner}
use sealloc.Sealloc.Free.{deallocate_region, sealloc_free_with_metadata, free_located, sealloc_free}
use sealloc.Sealloc.Realloc.{check_region, realloc_located, sealloc_realloc}

find_huge-null :
    (ptr : ℕ) (w : World) (hs : List ℕ)
    → IsList (huge_entries w.huges) w.arena.huge_alloc_list hs
    → length hs < list_fuel
    → find ptr (huge_entries w.huges) hs ≡ null
    → arena_find_huge_mapping ptr w ≡ done null w
unfolding arena_find_huge_mapping
find_huge-null ptr w hs s lt none_found =
    rw
      (
        ll_find-find w.arena.huge_alloc_list ptr (huge_entries w.huges) hs s lt,
        arena_find_huge_mapping,
        none_found,
      )
      refl

locate_metadata-invalid :
    (ptr : ℕ) (w : World) (xs hs : List ℕ)
    → IsList (chunk_entries w.chunks) w.arena.chunk_list xs
    → length xs < list_fuel
    → Mapped w.chunks xs
    → ptr < 2 ^ 63
    → IsList (huge_entries w.huges) w.arena.huge_alloc_list hs
    → length hs < list_fuel
    → owner ptr w.chunks xs ≡ null
    → find ptr (huge_entries w.huges) hs ≡ null
    → locate_metadata_for_ptr ptr w ≡ done invalid w
unfolding locate_metadata_for_ptr
locate_metadata-invalid ptr w xs hs s lt m u s' lt' no_owner no_huge =
    let q = locate_chunk-owner ptr w xs s lt m u in
    let f = find_huge-null ptr w hs s' lt' no_huge in
    bind-done (locate_chunk ptr) _ q ∙ (rw no_owner (bind-done (arena_find_huge_mapping ptr) _ f))

-- On a well-formed list of chunks whose heaps are user space and a well-formed list of huge mappings,
-- a pointer below 2^63 other than null for which chunk_get_run_ptr gives a run of no chunk, and which is the
-- start of no huge mapping, makes sealloc_free and sealloc_realloc abort.
pub foreign_pointer-aborts :
    (ptr new_size : ℕ) (w : World) (xs hs : List ℕ)
    → ptr ≢ null
    → IsList (chunk_entries w.chunks) w.arena.chunk_list xs
    → length xs < list_fuel
    → Mapped w.chunks xs
    → ptr < 2 ^ 63
    → IsList (huge_entries w.huges) w.arena.huge_alloc_list hs
    → length hs < list_fuel
    → owner ptr w.chunks xs ≡ null
    → find ptr (huge_entries w.huges) hs ≡ null
    → (sealloc_free ptr w ≡ aborts) × (sealloc_realloc ptr new_size w ≡ aborts)
unfolding sealloc_free sealloc_realloc free_located realloc_located
foreign_pointer-aborts zero n w xs hs ne s lt m u s' lt' o h = absurd (ne refl)
foreign_pointer-aborts (suc p) n w xs hs ne s lt m u s' lt' o h =
    let q = locate_metadata-invalid (suc p) w xs hs s lt m u s' lt' o h in
    (
      bind-done (locate_metadata_for_ptr (suc p)) _ q,
      bind-done (locate_metadata_for_ptr (suc p)) _ q,
    )

module _ (ptr run i : ℕ) (w : World) (b : IsBin (w.arena.bins i))
    (r : InRun (w.arena.bins i) (w.runs run) ptr)
    (none_here : (j : ℕ)
      → j < regions (w.arena.bins i)
      → ptr ≡ address (w.arena.bins i) (w.runs run) j
      → slot (w.runs run) j ≢ state_alloc) where
  deallocate_region-aborts : deallocate_region i run ptr w ≡ aborts
  unfolding deallocate_region
  deallocate_region-aborts =
      rw (run_deallocate_refuses (w.arena.bins i) (w.runs run) ptr b r none_here) refl

  check_region-aborts : check_region i run ptr w ≡ aborts
  unfolding check_region
  check_region-aborts =
      rw (run_validate_ptr-refused (w.arena.bins i) (w.runs run) b ptr r none_here) refl

-- A pointer that locate_metadata_for_ptr finds in a run, but at which no allocated region starts, makes
-- free and realloc abort.
pub unallocated_region-aborts :
    (ptr new_size chunk run i : ℕ) (w w1 : World)
    → ptr ≢ null
    → locate_metadata_for_ptr ptr w ≡ done (regular chunk run i) w1
    → IsBin (w1.arena.bins i)
    → InRun (w1.arena.bins i) (w1.runs run) ptr
    → ((j : ℕ)
        → j < regions (w1.arena.bins i)
        → ptr ≡ address (w1.arena.bins i) (w1.runs run) j
        → slot (w1.runs run) j ≢ state_alloc)
    → (sealloc_free ptr w ≡ aborts) × (sealloc_realloc ptr new_size w ≡ aborts)
unfolding sealloc_free sealloc_realloc free_located realloc_located sealloc_free_with_metadata
unallocated_region-aborts zero n chunk run i w w1 ne q b r h = absurd (ne refl)
unallocated_region-aborts (suc p) n chunk zero i w w1 ne q b r h = (
  bind-done (locate_metadata_for_ptr (suc p)) _ q,
  bind-done (locate_metadata_for_ptr (suc p)) _ q,
)
unallocated_region-aborts (suc p) n chunk (suc k) i w w1 ne q b r h = (
  bind-done (locate_metadata_for_ptr (suc p)) _ q
      ∙ bind-aborts (deallocate_region i (suc k) (suc p)) _
          (deallocate_region-aborts (suc p) (suc k) i w1 b r h),
  bind-done (locate_metadata_for_ptr (suc p)) _ q
      ∙ bind-aborts (check_region i (suc k) (suc p)) _
          (check_region-aborts (suc p) (suc k) i w1 b r h),
)
