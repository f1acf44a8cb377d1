-- ===== src/Chunk/Deallocate.antt =====
-- The release of runs and the lookup of runs in src/chunk.c.
-- `platform_unmap` is not in the state: what it is asked to unmap is in the result. Its failure is a call
-- of se_error, which aborts.
use sealloc.Base.{
  ℕ, zero, suc, ◌+◌, ◌-◌, ◌*◌, ◌/◌, ◌^◌, Bool, ◌||◌, Option, none, some, Cells, u32, u64, ltb, leb,
  ◌==◌, if◌then◌else◌,
}
use sealloc.Chunk.{
  Chunk, chunk_size_bytes, chunk_buddy_tree_depth, chunk_least_region_size_bytes, is_right_child,
  node_used, node_depleted, node_unmapped, reg_mark_bad_value, get_buddy_tree_item,
  set_buddy_tree_item,
}

-- search_state_t
pub data SearchState : Type 0 where
  down : SearchState
  up_left : SearchState
  up_right : SearchState

pub record BuddyCtx : Type 0 where
  pub idx : ℕ
  pub cur_size : ℕ
  pub depth_to_leaf : ℕ
  pub ptr : ℕ
  pub state : SearchState

unfoldable pub buddy_state_go_up : BuddyCtx → BuddyCtx
buddy_state_go_up ctx = record {
  state = if is_right_child ctx.idx then up_right else up_left;
  ptr = if is_right_child ctx.idx then u64 (ctx.ptr + (2 ^ 64 - ctx.cur_size)) else ctx.ptr;
  idx = ctx.idx / 2;
  cur_size = u32 (ctx.cur_size * 2);
  depth_to_leaf = u32 (ctx.depth_to_leaf + 1);
}

unfoldable pub buddy_state_go_right : BuddyCtx → BuddyCtx
buddy_state_go_right ctx = record {
  cur_size = ctx.cur_size / 2;
  ptr = u64 (ctx.ptr + ctx.cur_size / 2);
  state = down;
  idx = u32 (ctx.idx * 2 + 1);
  depth_to_leaf = u32 (ctx.depth_to_leaf + (2 ^ 32 - 1));
}

unfoldable pub buddy_state_go_left : BuddyCtx → BuddyCtx
buddy_state_go_left ctx = record ctx {
  idx = u32 (ctx.idx * 2);
  cur_size = ctx.cur_size / 2;
  depth_to_leaf = u32 (ctx.depth_to_leaf + (2 ^ 32 - 1));
}

-- The other child of the parent.
abbrev pub neigh_idx : ℕ → ℕ
neigh_idx idx = if is_right_child idx then idx - 1 else u32 (idx + 1)

-- The loop of coalesce_unmapped_nodes and of coalesce_depleted_nodes: while the neighbour is in the
-- state, so becomes the parent. An index has 32 bits, and each round halves it.
unfoldable pub coalesce_loop : ℕ → ℕ → BuddyCtx → Cells ℕ → BuddyCtx × Cells ℕ
coalesce_loop zero node_state ctx tree = (ctx, tree)
coalesce_loop (suc fuel) node_state ctx tree =
    let rest =
      coalesce_loop fuel node_state (buddy_state_go_up ctx)
        (set_buddy_tree_item tree (ctx.idx / 2) node_state) in
    if ltb 1 ctx.idx
    then (if get_buddy_tree_item tree (neigh_idx ctx.idx) == node_state then rest else (ctx, tree))
    else (ctx, tree)

unfoldable pub coalesce_unmapped_nodes : BuddyCtx → Cells ℕ → BuddyCtx × Cells ℕ
coalesce_unmapped_nodes ctx tree = coalesce_loop 32 node_unmapped ctx tree

-- What is unmapped: an address and a size.
pub record Range : Type 0 where
  pub start : ℕ
  pub size : ℕ

unfoldable pub coalesce_depleted_nodes : BuddyCtx → Cells ℕ → Range × BuddyCtx × Cells ℕ
coalesce_depleted_nodes ctx tree =
    let (ctx', tree') = coalesce_loop 32 node_depleted ctx tree in
    let (ctx'', tree'') =
      coalesce_unmapped_nodes ctx' (set_buddy_tree_item tree' ctx'.idx node_unmapped) in
    (record { start = ctx'.ptr; size = ctx'.cur_size }, ctx'', tree'')

-- How the climb from a leaf to the node of a run ends. `no_run` stands for the calls of se_error in
-- chunk_deallocate_run, and for the early returns in chunk_get_run_ptr.
pub data Climb : Type 0 where
  found : ℕ → ℕ → Climb
  no_run : Climb
  out_of_fuel : Climb

-- Both loops over `node != NODE_USED`, with the levels climbed: `depth_to_leaf` counts them, and
-- `cur_size` is doubled at each. A climb has at most twelve levels.
unfoldable pub climb : ℕ → ℕ → ℕ → Cells ℕ → Climb
climb zero idx depth tree = out_of_fuel
climb (suc fuel) idx depth tree =
    let node = get_buddy_tree_item tree idx in
    let rest = climb fuel (idx / 2) (depth + 1) tree in
    if node == node_used
    then found idx depth
    else if (idx == 1) || is_right_child idx
    then no_run
    else if (node == node_depleted) || (node == node_unmapped)
    then no_run
    else rest

-- The leaf of an address.
unfoldable pub leaf_of : ℕ → Chunk → ℕ
leaf_of ptr chunk =
    u32 (2048 + u32 (u64 (ptr + (2 ^ 64 - chunk.entry.key)) / chunk_least_region_size_bytes))

-- From the node of the run on. `none` where se_error aborts. A leaf of the chunk has fuel enough.
unfoldable pub release : Chunk → ℕ → Climb → Option (Bool × Range × Chunk)
release chunk run_ptr (found idx depth) =
    let (range, ctx, tree) =
      coalesce_depleted_nodes
        (record {
          idx = idx;
          cur_size = u32 (chunk_least_region_size_bytes * 2 ^ depth);
          depth_to_leaf = depth;
          ptr = run_ptr;
          state = down;
        })
        (set_buddy_tree_item chunk.buddy_tree idx node_depleted) in
    some (ctx.idx == 1, range, record chunk { buddy_tree = tree })
release chunk run_ptr no_run = none
release chunk run_ptr out_of_fuel = none

unfoldable pub chunk_deallocate_run : Chunk → ℕ → Option (Bool × Range × Chunk)
chunk_deallocate_run chunk run_ptr =
    release chunk run_ptr
      (climb (chunk_buddy_tree_depth + 1) (leaf_of run_ptr chunk) 0 chunk.buddy_tree)

-- What chunk_get_run_ptr writes to its results; a result it leaves alone is 0.
pub record RunInfo : Type 0 where
  pub run_ptr : ℕ
  pub run_size : ℕ
  pub reg_size : ℕ

abbrev pub no_info : RunInfo
no_info = record { run_ptr = 0; run_size = 0; reg_size = 0 }

unfoldable pub run_info : Chunk → ℕ → Climb → RunInfo
run_info chunk block_offset (found idx depth) =
    let reg = chunk.reg_size_small_medium block_offset in
    record {
      run_ptr = u64 (chunk.entry.key + block_offset * chunk_least_region_size_bytes);
      run_size = u32 (chunk_least_region_size_bytes * 2 ^ depth);
      reg_size = if depth == 0 then (if reg == reg_mark_bad_value then 0 else reg) else 0;
    }
run_info chunk block_offset no_run = no_info
run_info chunk block_offset out_of_fuel = no_info

unfoldable pub chunk_get_run_ptr : Chunk → ℕ → RunInfo
chunk_get_run_ptr chunk ptr =
    let chunk_ptr = chunk.entry.key in
    let block_offset = (ptr - chunk_ptr) / chunk_least_region_size_bytes in
    if ltb ptr chunk_ptr || leb (u64 (chunk_ptr + chunk_size_bytes)) ptr
    then no_info
    else run_info chunk block_offset
        (climb (chunk_buddy_tree_depth + 1) (u32 (2048 + block_offset)) 0 chunk.buddy_tree)

abbrev pub chunk_is_unmapped : Chunk → Bool
chunk_is_unmapped chunk = get_buddy_tree_item chunk.buddy_tree 1 == node_unmapped

abbrev pub chunk_is_full : Chunk → Bool
chunk_is_full chunk = chunk.avail_nodes_count chunk_buddy_tree_depth == 0
