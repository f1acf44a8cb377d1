-- ===== src/InternalAllocator.antt =====
-- src/internal_allocator.c and src/sealloc/internal_allocator.h: metadata is cut from a block of 8 MiB
-- by a buddy tree of 19 levels, whose node 1 is the root and whose nodes from 2^18 on are the leaves.
-- An index is a `size_t` below 2^19, so that its arithmetic does not wrap.
pub mod Search
pub mod Free
pub mod Under
pub mod Descent
pub mod Levels
pub mod Walk
pub mod Rounds
pub mod Room
pub mod Exhaustive
pub mod Allocates
use sealloc.Base.{
  ℕ, zero, suc, ◌+◌, ◌-◌, ◌*◌, ◌/◌, ◌%◌, ◌^◌, Bool, true, false, not, ◌&&◌, ◌||◌, Cells, store, u64,
  ltb, leb, ◌==◌, if◌then◌else◌,
}
use sealloc.Bitmap.{get_tree_item, set_tree_item}
use sealloc.ContainerLl.{Entry, null}

abbrev pub internal_alloc_chunk_size_bytes : ℕ
internal_alloc_chunk_size_bytes = 8_388_608

abbrev pub internal_alloc_least_region_size_bytes : ℕ
internal_alloc_least_region_size_bytes = 32

abbrev pub internal_alloc_no_nodes : ℕ
internal_alloc_no_nodes = 524_287

-- IS_LEAF
abbrev pub is_leaf : ℕ → Bool
is_leaf idx = leb 262_144 idx

abbrev pub is_right_child : ℕ → Bool
is_right_child idx = idx % 2 == 1

-- ia_node_t
abbrev pub node_full : ℕ
node_full = 0

abbrev pub node_split : ℕ
node_split = 1

abbrev pub node_used : ℕ
node_used = 2

abbrev pub node_free : ℕ
node_free = 3

-- `memory` is the address of the block.
pub record IntAlloc : Type 0 where
  pub entry : Entry
  pub free_mem : ℕ
  pub buddy_tree : Cells ℕ
  pub memory : ℕ

-- `ia` is the address of the structure, in a fresh mapping.
pub internal_allocator_init : ℕ → IntAlloc → IntAlloc
internal_allocator_init ia root = record root {
  entry = record { fd = null; bk = null; key = ia };
  buddy_tree = store root.buddy_tree 0 node_free;
  free_mem = internal_alloc_chunk_size_bytes;
}

-- The other child of the parent.
abbrev pub neigh_idx : ℕ → ℕ
neigh_idx idx = if is_right_child idx then idx - 1 else idx + 1

-- The loops up the tree halve an index of 64 bits, which takes at most 64 rounds.
unfoldable pub mark_nodes_split_loop : ℕ → Cells ℕ → ℕ → Cells ℕ
mark_nodes_split_loop zero mem idx = mem
mark_nodes_split_loop (suc fuel) mem idx =
    let rest = mark_nodes_split_loop fuel (set_tree_item mem idx node_split) (idx / 2) in
    if ltb 0 idx then (if get_tree_item mem idx == node_full then rest else mem) else mem

unfoldable pub mark_nodes_split : Cells ℕ → ℕ → Cells ℕ
mark_nodes_split mem idx = mark_nodes_split_loop 64 mem idx

unfoldable pub coalesce_free_nodes_loop : ℕ → Cells ℕ → ℕ → Cells ℕ
coalesce_free_nodes_loop zero mem idx = mem
coalesce_free_nodes_loop (suc fuel) mem idx =
    let rest = coalesce_free_nodes_loop fuel (set_tree_item mem (idx / 2) node_free) (idx / 2) in
    if ltb 1 idx
    then (if get_tree_item mem (neigh_idx idx) == node_free
        then rest
        else mark_nodes_split mem (idx / 2))
    else mem

unfoldable pub coalesce_free_nodes : Cells ℕ → ℕ → Cells ℕ
coalesce_free_nodes mem idx = coalesce_free_nodes_loop 64 mem idx

unfoldable pub coalesce_full_nodes_loop : ℕ → Cells ℕ → ℕ → Cells ℕ
coalesce_full_nodes_loop zero mem idx = mem
coalesce_full_nodes_loop (suc fuel) mem idx =
    let rest = coalesce_full_nodes_loop fuel (set_tree_item mem (idx / 2) node_full) (idx / 2) in
    let state = get_tree_item mem (neigh_idx idx) in
    if ltb 1 idx then (if (state == node_full) || (state == node_used) then rest else mem) else mem

unfoldable pub coalesce_full_nodes : Cells ℕ → ℕ → Cells ℕ
coalesce_full_nodes mem idx = coalesce_full_nodes_loop 64 mem idx
