-- ===== src/Tests/Jumps.antt =====
-- Runs of a new chunk at address 1048576, allocated and released.
use sealloc.Base.{
  ℕ, ◌+◌, ◌-◌, ◌^◌, ◌≤◌, ◌<◌, ◌≡◌, refl, arith, Bool, true, false, store, fill, Option, none, some,
  ◌⊎◌,
}
use sealloc.Random.{Rng, splitmix32}
use sealloc.Utils.{ctz, ctz_loop}
use sealloc.ContainerLl.{null}
use sealloc.Chunk.{
  Chunk, chunk_size_bytes, sub32, set_jt_item_next, set_jt_item_prev, incr_jt_item_next,
  incr_jt_item_prev, init_levels, chunk_init, get_jt_item,
}
use sealloc.Chunk.Allocate.{
  chunk_allocate_with_node, chunk_allocate_run, choose_node, try_loop, walk_loop, size2idx, up_loop,
  unlink_node, link_neighbours, clear_node, take_node, take_leaf, take_subtree, down_loop,
  skip_level, purge_loop,
}
use sealloc.Chunk.Deallocate
use sealloc.Chunk.Deallocate.{Range, chunk_deallocate_run, chunk_get_run_ptr, leaf_of, climb}
use sealloc.Bitmap.{
  get_tree_item, set_tree_item, get_byte, set_byte, get_bitmap_item, set_bitmap_item, before,
}
use sealloc.Chunk.Jumps.Take.{FreeNodes}
use sealloc.Chunk.Jumps.Runs.{run_bytes, GivenRun, chunk_allocate_run-FreeNodes}
use sealloc.Chunk.Jumps.Fresh.{all_but_root, chunk_init-FreeNodes}
use sealloc.Chunk.Jumps.Calls.{here, next, allocate, deallocate}
use sealloc.Chunk.Jumps.Trace.{runs_never_overlap}
use sealloc.Chunk.Jumps.Stays.{run_stays_found}
use sealloc.Chunk.Lookup.{InChunk}
use sealloc.Tests.Chunks.{raw_chunk, rng}

new_chunk : Chunk
new_chunk = chunk_init raw_chunk 1_048_576

new_fits : (chunk_init raw_chunk 1_048_576).entry.key + chunk_size_bytes < 2 ^ 64
unfolding chunk_init init_levels
new_fits = omega arith

-- The parts of a result.
abbrev Given : Type 0
Given = Option (ℕ × Chunk × Rng)

has_run : Given → Bool
has_run none = false
has_run (some (ptr, c, r)) = true

ptr_of : Given → ℕ
ptr_of none = 0
ptr_of (some (ptr, c, r)) = ptr

chunk_of : Given → Chunk
chunk_of none = raw_chunk
chunk_of (some (ptr, c, r)) = c

rng_of : Given → Rng
rng_of none = rng
rng_of (some (ptr, c, r)) = r

parts : (o : Given) → has_run o ≡ true → o ≡ some (ptr_of o, chunk_of o, rng_of o)
unfolding has_run ptr_of chunk_of rng_of
parts none h = absurd (let f = h in cc)
parts (some (ptr, c, r)) h = refl

-- A run of one leaf, and then one of half the chunk.
leaf : Given
leaf = chunk_allocate_run new_chunk (run_bytes 0) 1024 rng

leaf_given : has_run leaf ≡ true
unfolding leaf has_run new_chunk chunk_init init_levels store fill chunk_allocate_run choose_node
    try_loop walk_loop size2idx ctz ctz_loop sub32 chunk_allocate_with_node up_loop unlink_node
    link_neighbours clear_node take_node take_leaf take_subtree down_loop skip_level purge_loop
    get_jt_item set_jt_item_next set_jt_item_prev incr_jt_item_next incr_jt_item_prev splitmix32
leaf_given = refl

abbrev leaf_address : ℕ
leaf_address = 4_194_304

leaf_ptr : ptr_of leaf ≡ leaf_address
unfolding leaf ptr_of new_chunk chunk_init init_levels store fill chunk_allocate_run choose_node
    try_loop walk_loop size2idx ctz ctz_loop sub32 chunk_allocate_with_node up_loop unlink_node
    link_neighbours clear_node take_node take_leaf take_subtree down_loop skip_level purge_loop
    get_jt_item set_jt_item_next set_jt_item_prev incr_jt_item_next incr_jt_item_prev splitmix32
leaf_ptr = refl

was_released : Option (Bool × Range × Chunk) → Bool
was_released none = false
was_released (some (full, range, c)) = true

chunk_after : Option (Bool × Range × Chunk) → Chunk
chunk_after none = raw_chunk
chunk_after (some (full, range, c)) = c

full_after : Option (Bool × Range × Chunk) → Bool
full_after none = false
full_after (some (full, range, c)) = full

range_after : Option (Bool × Range × Chunk) → Range
range_after none = record { start = 0; size = 0 }
range_after (some (full, range, c)) = range

release_parts :
    (o : Option (Bool × Range × Chunk))
    → was_released o ≡ true
    → o ≡ some (full_after o, range_after o, chunk_after o)
unfolding was_released full_after range_after chunk_after
release_parts none h = absurd (let f = h in cc)
release_parts (some (full, range, c)) h = refl

release : Option (Bool × Range × Chunk)
release = chunk_deallocate_run (chunk_of leaf) leaf_address

release_done : was_released release ≡ true
unfolding release leaf chunk_of was_released chunk_deallocate_run leaf_of climb Deallocate.release
    get_tree_item set_tree_item get_byte set_byte get_bitmap_item set_bitmap_item before new_chunk
    chunk_init init_levels store fill chunk_allocate_run choose_node try_loop walk_loop size2idx ctz
    ctz_loop sub32 chunk_allocate_with_node up_loop unlink_node link_neighbours clear_node take_node
    take_leaf take_subtree down_loop skip_level purge_loop get_jt_item set_jt_item_next
    set_jt_item_prev incr_jt_item_next incr_jt_item_prev splitmix32
release_done = refl

-- Half of the chunk, after the release.
half : Given
half = chunk_allocate_run (chunk_after release) (run_bytes 10) 0 rng

half_given : has_run half ≡ true
unfolding half release leaf chunk_of chunk_after has_run chunk_deallocate_run leaf_of climb
    Deallocate.release get_tree_item set_tree_item get_byte set_byte get_bitmap_item set_bitmap_item
    before new_chunk chunk_init init_levels store fill chunk_allocate_run choose_node try_loop
    walk_loop size2idx ctz ctz_loop sub32 chunk_allocate_with_node up_loop unlink_node
    link_neighbours clear_node take_node take_leaf take_subtree down_loop skip_level purge_loop
    get_jt_item set_jt_item_next set_jt_item_prev incr_jt_item_next incr_jt_item_prev splitmix32
half_given = refl

half_ptr : ptr_of half ≡ 17_825_792
unfolding half release leaf chunk_of chunk_after ptr_of chunk_deallocate_run leaf_of climb
    Deallocate.release get_tree_item set_tree_item get_byte set_byte get_bitmap_item set_bitmap_item
    before new_chunk chunk_init init_levels store fill chunk_allocate_run choose_node try_loop
    walk_loop size2idx ctz ctz_loop sub32 chunk_allocate_with_node up_loop unlink_node
    link_neighbours clear_node take_node take_leaf take_subtree down_loop skip_level purge_loop
    get_jt_item set_jt_item_next set_jt_item_prev incr_jt_item_next incr_jt_item_prev splitmix32
half_ptr = refl

-- The leaf is allocated and released, and then half of the chunk is allocated.
runs_never_overlap_example :
    ((1_048_576 ≤ ptr_of leaf) × (ptr_of leaf + run_bytes 0 ≤ 1_048_576 + chunk_size_bytes))
    × ((1_048_576 ≤ ptr_of half) × (ptr_of half + run_bytes 10 ≤ 1_048_576 + chunk_size_bytes))
    × ((ptr_of leaf + run_bytes 0 ≤ ptr_of half) ⊎ (ptr_of half + run_bytes 10 ≤ ptr_of leaf))
unfolding new_chunk leaf half release
runs_never_overlap_example =
    runs_never_overlap raw_chunk 1_048_576 new_chunk (chunk_of leaf) (chunk_after release)
      (chunk_of half) 0 10 1024 0 rng (rng_of leaf) rng (rng_of half) (ptr_of leaf) (ptr_of half)
      (omega arith) (omega arith) (omega arith) here (parts leaf leaf_given)
      (λ e. omega (arith, leaf_ptr))
      (next here (
        deallocate leaf_address (full_after release) (range_after release)
          (release_parts release release_done)))
      (parts half half_given) (λ e. omega (arith, half_ptr))

chunk_init-FreeNodes_example : FreeNodes all_but_root (chunk_init raw_chunk 1_048_576)
chunk_init-FreeNodes_example = chunk_init-FreeNodes raw_chunk 1_048_576

chunk_allocate_run-FreeNodes_example :
    ((new_chunk.avail_nodes_count (11 - 3) ≡ 0)
      × (chunk_allocate_run new_chunk (run_bytes 3) 1024 rng ≡ some (null, new_chunk, rng)))
    ⊎ ((ptr : ℕ) × (c' : Chunk) × (rng' : Rng) × (chunk_allocate_run new_chunk
            (run_bytes 3)
            1024
            rng
          ≡ some (ptr, c', rng'))
        × GivenRun all_but_root new_chunk 3 ptr c')
unfolding new_chunk
chunk_allocate_run-FreeNodes_example =
    chunk_allocate_run-FreeNodes all_but_root (chunk_init raw_chunk 1_048_576) 3 1024 rng
      (chunk_init-FreeNodes raw_chunk 1_048_576) (omega arith) new_fits

-- Half of the chunk beside the leaf, and its release.
beside : Given
beside = chunk_allocate_run (chunk_of leaf) (run_bytes 10) 0 rng

beside_given : has_run beside ≡ true
unfolding beside leaf chunk_of has_run new_chunk chunk_init init_levels store fill
    chunk_allocate_run choose_node try_loop walk_loop size2idx ctz ctz_loop sub32
    chunk_allocate_with_node up_loop unlink_node link_neighbours clear_node take_node take_leaf
    take_subtree down_loop skip_level purge_loop get_jt_item set_jt_item_next set_jt_item_prev
    incr_jt_item_next incr_jt_item_prev splitmix32
beside_given = refl

beside_gone : Option (Bool × Range × Chunk)
beside_gone = chunk_deallocate_run (chunk_of beside) 17_825_792

beside_released : was_released beside_gone ≡ true
unfolding beside_gone beside leaf chunk_of was_released chunk_deallocate_run leaf_of climb
    Deallocate.release get_tree_item set_tree_item get_byte set_byte get_bitmap_item set_bitmap_item
    before new_chunk chunk_init init_levels store fill chunk_allocate_run choose_node try_loop
    walk_loop size2idx ctz ctz_loop sub32 chunk_allocate_with_node up_loop unlink_node
    link_neighbours clear_node take_node take_leaf take_subtree down_loop skip_level purge_loop
    get_jt_item set_jt_item_next set_jt_item_prev incr_jt_item_next incr_jt_item_prev splitmix32
beside_released = refl

beside_key : (chunk_of beside).entry.key ≡ 1_048_576
unfolding beside leaf chunk_of new_chunk chunk_init init_levels store fill chunk_allocate_run
    choose_node try_loop walk_loop size2idx ctz ctz_loop sub32 chunk_allocate_with_node up_loop
    unlink_node link_neighbours clear_node take_node take_leaf take_subtree down_loop skip_level
    purge_loop get_jt_item set_jt_item_next set_jt_item_prev incr_jt_item_next incr_jt_item_prev
    splitmix32
beside_key = refl

beside_in : InChunk (chunk_of beside) 17_825_792
beside_in = record {
  fits = omega (arith, beside_key);
  from = omega (arith, beside_key);
  to = omega (arith, beside_key);
}

-- The leaf is found after half of the chunk was allocated and released.
run_stays_found_example :
    ((chunk_get_run_ptr (chunk_after beside_gone) (ptr_of leaf)).run_ptr ≡ ptr_of leaf)
    × ((chunk_get_run_ptr (chunk_after beside_gone) (ptr_of leaf)).run_size ≡ run_bytes 0)
unfolding new_chunk leaf beside beside_gone
run_stays_found_example =
    run_stays_found raw_chunk 1_048_576 new_chunk (chunk_of leaf) (chunk_after beside_gone) 0 1024
      rng (rng_of leaf) (ptr_of leaf) (omega arith) (omega arith) here tt (parts leaf leaf_given)
      (λ e. omega (arith, leaf_ptr))
      (next
        (next here (
          allocate 10 0 rng (ptr_of beside) (rng_of beside) (omega arith)
            (parts beside beside_given)))
        (deallocate 17_825_792 (full_after beside_gone) (range_after beside_gone)
          (release_parts beside_gone beside_released)))
      ((tt, tt), beside_in) ((tt, tt), λ e. omega (arith, leaf_ptr))
