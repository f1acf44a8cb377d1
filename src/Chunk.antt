-- ===== src/Chunk.antt =====
-- src/sealloc/chunk.h and the data of src/chunk.c: a 32 MiB mapping cut into runs by a buddy tree
-- of 12 levels, whose node 1 is the root and whose nodes 2048 .. 4095 are the leaves.
-- `jump_tree` links the free nodes of each level: a node holds the distances to the previous and
-- the next free node, and 0 where there is none.
pub mod Allocate
pub mod Deallocate
pub mod Climb
pub mod Lookup
pub mod Coalesce
pub mod Release
pub mod Links
pub mod Take
pub mod RoundTrip
pub mod Fresh
pub mod Jumps
use sealloc.Base.{
  ℕ, zero, suc, ◌+◌, ◌-◌, ◌*◌, ◌/◌, ◌%◌, ◌^◌, Bool, Cells, store, fill, u16, u32, leb, ◌==◌,
}
use sealloc.Bitmap.{get_tree_item, set_tree_item}
use sealloc.ContainerLl.{Entry, null}

abbrev pub chunk_size_bytes : ℕ
chunk_size_bytes = 33_554_432

abbrev pub chunk_least_region_size_bytes : ℕ
chunk_least_region_size_bytes = 4096 * 4

abbrev pub chunk_no_nodes_last_layer : ℕ
chunk_no_nodes_last_layer = 2048

abbrev pub chunk_no_nodes : ℕ
chunk_no_nodes = 4095

abbrev pub chunk_buddy_tree_depth : ℕ
chunk_buddy_tree_depth = 11

abbrev pub chunk_buddy_tree_size_bytes : ℕ
chunk_buddy_tree_size_bytes = 1024

abbrev pub reg_mark_bad_value : ℕ
reg_mark_bad_value = 65_535

-- chunk_node_t
abbrev pub node_free : ℕ
node_free = 0

abbrev pub node_used : ℕ
node_used = 1

abbrev pub node_depleted : ℕ
node_depleted = 2

abbrev pub node_unmapped : ℕ
node_unmapped = 3

pub record JumpNode : Type 0 where
  pub prev : ℕ
  pub next : ℕ

pub record Chunk : Type 0 where
  pub entry : Entry
  pub avail_nodes_count : Cells ℕ
  pub reg_size_small_medium : Cells ℕ
  pub jump_tree_first_index : Cells ℕ
  pub jump_tree : Cells JumpNode
  pub buddy_tree : Cells ℕ

-- IS_LEAF
abbrev pub is_leaf : ℕ → Bool
is_leaf idx = leb 2048 idx

abbrev pub is_right_child : ℕ → Bool
is_right_child idx = idx % 2 == 1

-- `a - b` on `unsigned`
unfoldable pub sub32 : ℕ → ℕ → ℕ
sub32 a b = u32 (a + (2 ^ 32 - b))

unfoldable pub get_jt_item : Cells JumpNode → ℕ → JumpNode
get_jt_item mem idx = mem (sub32 idx 1)

unfoldable pub set_jt_item_next : Cells JumpNode → ℕ → ℕ → Cells JumpNode
set_jt_item_next mem idx val = store mem (sub32 idx 1) (record (mem (sub32 idx 1)) { next = val })

unfoldable pub set_jt_item_prev : Cells JumpNode → ℕ → ℕ → Cells JumpNode
set_jt_item_prev mem idx val = store mem (sub32 idx 1) (record (mem (sub32 idx 1)) { prev = val })

unfoldable pub incr_jt_item_next : Cells JumpNode → ℕ → ℕ → Cells JumpNode
incr_jt_item_next mem idx val =
    store mem (sub32 idx 1)
      (record (mem (sub32 idx 1)) { next = u16 ((mem (sub32 idx 1)).next + val) })

unfoldable pub incr_jt_item_prev : Cells JumpNode → ℕ → ℕ → Cells JumpNode
incr_jt_item_prev mem idx val =
    store mem (sub32 idx 1)
      (record (mem (sub32 idx 1)) { prev = u16 ((mem (sub32 idx 1)).prev + val) })

abbrev pub get_buddy_tree_item : Cells ℕ → ℕ → ℕ
get_buddy_tree_item = get_tree_item

abbrev pub set_buddy_tree_item : Cells ℕ → ℕ → ℕ → Cells ℕ
set_buddy_tree_item = set_tree_item

-- The levels from `i` on, where `l` is the first node of the level `i`.
unfoldable pub init_levels : ℕ → ℕ → ℕ → Chunk → Chunk
init_levels zero i l c = c
init_levels (suc n) i l c = init_levels n (i + 1) (u16 (l * 2)) (record c {
  jump_tree_first_index = store c.jump_tree_first_index i l;
  jump_tree = set_jt_item_next (set_jt_item_prev c.jump_tree l 0) (2 * l - 1) 0;
  avail_nodes_count = store c.avail_nodes_count i l;
})

-- `chunk` is the memory of the new structure. `memset` with 65535 sets every byte to 255.
unfoldable pub chunk_init : Chunk → ℕ → Chunk
chunk_init chunk heap =
    let c = init_levels (chunk_buddy_tree_depth + 1) 0 1 (record {
      entry = record { fd = null; bk = null; key = heap };
      avail_nodes_count = chunk.avail_nodes_count;
      reg_size_small_medium =
          fill chunk.reg_size_small_medium 0 chunk_no_nodes_last_layer reg_mark_bad_value;
      jump_tree_first_index = chunk.jump_tree_first_index;
      jump_tree = fill chunk.jump_tree 0 chunk_no_nodes (record { prev = 1; next = 1 });
      buddy_tree =
          fill (set_buddy_tree_item chunk.buddy_tree 1 node_free) 0 chunk_buddy_tree_size_bytes 0;
    }) in
    record c {
      avail_nodes_count = store c.avail_nodes_count 0 0;
      jump_tree_first_index = store c.jump_tree_first_index 0 0;
    }
