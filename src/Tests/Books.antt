-- ===== src/Tests/Books.antt =====
-- A world with one chunk at 100, whose heap starts at 65536. Its first leaf is the run at 200, of four
-- regions of 4 KiB, of which one is allocated. There is one huge mapping, at 300.
use sealloc.Base.{
  ℕ, ◌*◌, ◌≡◌, ◌≢◌, refl, ◌⊎◌, [], ◌∷◌, store, fill, u64, arith, Cells, if◌then◌else◌, ◌==◌,
}
use sealloc.ContainerLl.{null, ll_find, find_loop}
use sealloc.ContainerLl.Seg.{IsList}
use sealloc.ContainerLl.Ops.{find}
use sealloc.Bin.{Bin, bin_init}
use sealloc.Bin.Runs.{bin_get_run_by_addr, bin_get_run_for_allocation, pick_loop, allocate_from_run}
use sealloc.SizeClass.{aligned_size, alignup_medium_size, npow2, bin_index, size_to_idx_medium}
use sealloc.Utils.{ctz, ctz_loop, ceil_div, bits2bytes_ceil, alignup_8}
use sealloc.Run.{choose_generator, run_init, run_allocate, Run, state_alloc, state_alloc_free}
use sealloc.Run.Invariant.{IsBin, IsRun, slot}
use sealloc.Bitmap.{get_tree_item, get_byte, before, get_bitmap_item, set_bitmap_item, set_byte}
use sealloc.Chunk.{Chunk, node_used}
use sealloc.Chunk.Deallocate.{RunInfo, chunk_get_run_ptr, climb, run_info}
use sealloc.World.{World, HugeChunk, Outcome, done, aborts, out_of_fuel}
use sealloc.Arena.{zero_bin}
use sealloc.Arena.Runs.{chunk_entries}
use sealloc.Arena.Chunks.{Mapped}
use sealloc.Sealloc.Locate.{owner}
use sealloc.Sealloc.FirstRun.{FirstRun, locate_chunk-FirstRun}
use sealloc.Sealloc.Located.{Located, locate-Located}
use sealloc.Sealloc.DoubleFree.{Counted, double_free-aborts}
use sealloc.Sealloc.{
  sealloc_malloc, allocate_regular, ready_bin, sealloc_allocate_with_bin, top_up, choose_run,
  allocate_region, locate_chunk,
}
use sealloc.Sealloc.Refuses.{foreign_pointer-aborts}
use sealloc.Arena.Bins.{arena_get_bin_by_reg_size}
use sealloc.Generator.{entry, generators_medium, generators_medium_lengths}
use sealloc.Random.{splitmix32, splitmix64}
use sealloc.Sealloc.Free.{sealloc_free}
use sealloc.Sealloc.Realloc.{sealloc_realloc, sealloc_calloc}
use sealloc.Sealloc.Calloc.{Clears, sealloc_calloc_lem}
use sealloc.Sealloc.ReallocZero.{sealloc_realloc_zero-aborts}
use sealloc.Tests.Regions.{bin, taken, run, bin-IsBin, taken-IsRun}
use sealloc.Tests.Worlds.{fresh, empty_arena}

abbrev chunk : Chunk
chunk = record (fresh.chunks 0) {
  entry = record { fd = 0; bk = 0; key = 65_536 };
  reg_size_small_medium = λ i. 4096;
  buddy_tree = λ w. if w == 511 then 64 * node_used else 0;
}

abbrev bin1 : Bin
bin1 = record bin { run_list_active = 200; run_list_active_cnt = 1; avail_regs = 3 }

abbrev mapping : HugeChunk
mapping = record { entry = record { fd = 0; bk = 0; key = 0x5000_0000 }; len = 0x20_0000 }

abbrev books : World
books = record fresh {
  arena = record empty_arena {
    chunk_list = 100;
    huge_alloc_list = 300;
    bins = λ i. if i == 34 then bin1 else zero_bin;
  };
  chunks = λ p. chunk;
  runs = λ p. if p == 200 then taken else run;
  huges = λ p. mapping;
}

books_chunks : IsList (chunk_entries books.chunks) 100 (100 ∷ [])
books_chunks = (refl, omega arith, refl, refl, refl)

books-Mapped : Mapped books.chunks (100 ∷ [])
unfolding Mapped
books-Mapped = (omega arith, tt)

books_owner : owner 65_536 books.chunks (100 ∷ []) ≡ 100
unfolding owner chunk_get_run_ptr climb run_info get_tree_item get_byte before
books_owner = refl

taken_entry : taken.entry ≡ record { fd = 0; bk = 0; key = 65_536 }
unfolding run_allocate run_init
taken_entry = refl

books-Located : Located books (100 ∷ []) 65_536 100 200 34
unfolding chunk_get_run_ptr climb run_info get_tree_item get_byte before bin_index
    size_to_idx_medium ctz ctz_loop bin_get_run_by_addr ll_find find_loop run_allocate run_init
    bin_init
books-Located = record {
  chunks = books_chunks;
  few = omega arith;
  mapped = books-Mapped;
  user = omega arith;
  owned = books_owner;
  chunk_there = omega arith;
  index = refl;
  in_bin = refl;
  initialised = omega arith;
}

locate_chunk-FirstRun_example :
    (c : ℕ) × (i : RunInfo) × (locate_chunk 65_536 books ≡ done (c, i) books)
    × FirstRun books.chunks 65_536 (100 ∷ []) c i
locate_chunk-FirstRun_example =
    locate_chunk-FirstRun 65_536 books (100 ∷ []) books_chunks (omega arith) books-Mapped
      (omega arith)

-- The second leaf of the chunk is no run.
foreign_pointer-aborts_example :
    (sealloc_free 81_920 books ≡ aborts) × (sealloc_realloc 81_920 10 books ≡ aborts)
unfolding owner chunk_get_run_ptr climb run_info get_tree_item get_byte before find
foreign_pointer-aborts_example =
    foreign_pointer-aborts 81_920 10 books (100 ∷ []) (300 ∷ []) (omega arith) books_chunks
      (omega arith) books-Mapped (omega arith) (refl, omega arith, refl, refl, refl) (omega arith)
      refl refl

bin1-IsBin : IsBin bin1
bin1-IsBin = record {
  reg_size_pos = bin-IsBin.reg_size_pos;
  regions_pos = bin-IsBin.regions_pos;
  regions_le = bin-IsBin.regions_le;
  bytes_le = bin-IsBin.bytes_le;
}

taken1-IsRun : IsRun bin1 taken
taken1-IsRun = record {
  start = taken-IsRun.start;
  used = taken-IsRun.used;
  generates = taken-IsRun.generates;
  idx = taken-IsRun.idx;
  avail = taken-IsRun.avail;
  visited = taken-IsRun.visited;
  fresh = taken-IsRun.fresh;
  freed = taken-IsRun.freed;
  fits = taken-IsRun.fits;
}

taken_slot_zero : slot taken 0 ≡ state_alloc
unfolding get_bitmap_item set_bitmap_item set_byte get_byte store fill run_allocate run_init
    bin_init choose_generator splitmix32 splitmix64 entry generators_medium size_to_idx_medium ctz
    ctz_loop generators_medium_lengths bits2bytes_ceil alignup_8
taken_slot_zero = refl

double_free-aborts_example :
    (s : Cells Run) × (sealloc_free 65_536 books ≡ done tt (record books { runs = s }))
    × ((k : ℕ) → slot (s 200) k ≡ (if k == 0 then state_alloc_free else slot taken k))
    × Counted taken (s 200)
    × ((p : ℕ) → p ≢ 200 → s p ≡ books.runs p)
    × (sealloc_free 65_536 (record books { runs = s }) ≡ aborts)
    × (sealloc_realloc 65_536 10 (record books { runs = s }) ≡ aborts)
unfolding run_allocate run_init bin_init
double_free-aborts_example =
    double_free-aborts books (100 ∷ []) 65_536 100 200 34 0 10 books-Located (omega arith)
      (omega arith) bin1-IsBin taken1-IsRun (omega arith) taken_slot_zero refl (omega arith)

-- The bin has regions enough, so that an allocation takes one from its run.
abbrev ample : World
ample = record books {
  arena = record books.arena {
    bins = λ i. if i == 34 then (record bin1 { avail_regs = 300 }) else zero_bin;
  };
}

abbrev state_after : {A : Type 0} → Outcome A → World
state_after (done a w) = w
state_after aborts = ample
state_after out_of_fuel = ample

abbrev after_malloc : World
after_malloc = state_after (sealloc_malloc 4096 ample)

malloc_works : sealloc_malloc (u64 (2 * 2048)) ample ≡ done 69_632 after_malloc
unfolding sealloc_malloc allocate_regular aligned_size alignup_medium_size npow2 ceil_div ready_bin
    arena_get_bin_by_reg_size bin_index size_to_idx_medium ctz ctz_loop sealloc_allocate_with_bin
    top_up choose_run bin_get_run_for_allocation pick_loop allocate_region allocate_from_run
    run_allocate run_init bin_init choose_generator splitmix32 splitmix64 store entry
    generators_medium generators_medium_lengths
malloc_works = refl

sealloc_calloc_lem_example :
    (((◌≡◌ {A = ℕ} 2 0) ⊎ (◌≡◌ {A = ℕ} 2048 0)) × (sealloc_calloc 2 2048 ample ≡ done null ample))
    ⊎ ((◌≢◌ {A = ℕ} 2 0)
        × (◌≢◌ {A = ℕ} 2048 0)
        × Clears
            (u64 (2 * 2048))
            (sealloc_malloc (u64 (2 * 2048)) ample)
            (sealloc_calloc 2 2048 ample))
sealloc_calloc_lem_example = sealloc_calloc_lem 2 2048 ample

sealloc_realloc_zero-aborts_example : sealloc_realloc 65_536 0 books ≡ aborts
sealloc_realloc_zero-aborts_example =
    sealloc_realloc_zero-aborts 65_536 100 200 34 books books (omega arith)
      (locate-Located books (100 ∷ []) 65_536 100 200 34 books-Located) refl
