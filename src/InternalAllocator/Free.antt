-- ===== src/InternalAllocator/Free.antt =====
-- internal_free in src/internal_allocator.c.
use sealloc.Base.{
  ℕ, zero, suc, ◌+◌, ◌*◌, ◌/◌, ◌&&◌, Option, none, some, Cells, u64, leb, ◌==◌, if◌then◌else◌,
}
use sealloc.Bitmap.{get_tree_item, set_tree_item}
use sealloc.InternalAllocator.{
  IntAlloc, internal_alloc_chunk_size_bytes, is_leaf, node_used, node_free, coalesce_free_nodes,
}

-- The way down to the node of an address: the node and its size, or "No chunk found", which aborts.
-- Nineteen levels are at most nineteen rounds.
pub data Descent : Type 0 where
  found : ℕ → ℕ → Descent
  no_chunk : Descent
  out_of_fuel : Descent

unfoldable pub find_loop : ℕ → ℕ → ℕ → ℕ → ℕ → Cells ℕ → Descent
find_loop zero idx cur_size ptr_cur ptr_dest tree = out_of_fuel
find_loop (suc fuel) idx cur_size ptr_cur ptr_dest tree =
    let half = cur_size / 2 in
    let left = find_loop fuel (u64 (idx * 2)) half ptr_cur ptr_dest tree in
    let right = find_loop fuel (u64 (idx * 2 + 1)) half (u64 (ptr_cur + half)) ptr_dest tree in
    if (ptr_cur == ptr_dest) && (get_tree_item tree idx == node_used)
    then found idx cur_size
    else if is_leaf idx
    then no_chunk
    else if leb (u64 (ptr_cur + half)) ptr_dest
    then right
    else left

-- From the node on. `none` where se_error aborts. A descent from the root has fuel enough.
unfoldable pub free_node : IntAlloc → Descent → Option IntAlloc
free_node root (found idx cur_size) = some (record root {
  buddy_tree = coalesce_free_nodes (set_tree_item root.buddy_tree idx node_free) idx;
  free_mem = u64 (root.free_mem + cur_size);
})
free_node root no_chunk = none
free_node root out_of_fuel = none

unfoldable pub internal_free : IntAlloc → ℕ → Option IntAlloc
internal_free root ptr =
    free_node root (find_loop 19 1 internal_alloc_chunk_size_bytes root.memory ptr root.buddy_tree)
