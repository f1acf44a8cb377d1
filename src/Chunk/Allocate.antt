-- ===== src/Chunk/Allocate.antt =====
-- The allocation of runs in src/chunk.c.
use sealloc.Base.{
  ℕ, zero, suc, ◌+◌, ◌-◌, ◌*◌, ◌/◌, ◌%◌, ◌^◌, not, ◌&&◌, ◌||◌, Option, none, some, Cells, store,
  fill, u16, u32, u64, ltb, ◌==◌, if◌then◌else◌,
}
use sealloc.Utils.{ctz}
use sealloc.Random.{Rng, splitmix32}
use sealloc.ContainerLl.{null}
use sealloc.Chunk.{
  JumpNode, Chunk, chunk_buddy_tree_depth, chunk_least_region_size_bytes, is_leaf, node_used, sub32,
  get_jt_item, set_jt_item_next, set_jt_item_prev, incr_jt_item_next, incr_jt_item_prev,
  set_buddy_tree_item,
}

-- The neighbours of a free node on its level are linked with each other.
unfoldable pub link_neighbours : JumpNode → ℕ → ℕ → Chunk → Chunk
link_neighbours node idx level c =
    let next_idx = u32 (idx + node.next) in
    let prev_idx = sub32 idx node.prev in
    if node.next == 0
    then record c { jump_tree = set_jt_item_next c.jump_tree prev_idx 0 }
    else if node.prev == 0
    then record c {
      jump_tree_first_index = store c.jump_tree_first_index level next_idx;
      jump_tree = set_jt_item_prev c.jump_tree next_idx 0;
    }
    else record c {
      jump_tree =
          incr_jt_item_prev (incr_jt_item_next c.jump_tree prev_idx node.next) next_idx node.prev;
    }

-- "Clear pointers in current node", "Update available nodes count"
unfoldable pub clear_node : ℕ → ℕ → Chunk → Chunk
clear_node idx level c =
    let avail = u16 (c.avail_nodes_count level + (2 ^ 16 - 1)) in
    record c {
      jump_tree = set_jt_item_prev (set_jt_item_next c.jump_tree idx 0) idx 0;
      avail_nodes_count = store c.avail_nodes_count level avail;
      jump_tree_first_index =
          (if avail == 0 then store c.jump_tree_first_index level 0 else c.jump_tree_first_index);
    }

-- Takes a free node out of the links of its level.
unfoldable pub unlink_node : JumpNode → ℕ → ℕ → Chunk → Chunk
unlink_node node idx level c = clear_node idx level (link_neighbours node idx level c)

-- "Update up the tree". `none` is out of fuel.
unfoldable pub up_loop : ℕ → JumpNode → ℕ → ℕ → Chunk → Option Chunk
up_loop zero node idx level c = none
up_loop (suc fuel) node idx level c =
    let c' = unlink_node node idx level c in
    let rest = up_loop fuel (get_jt_item c'.jump_tree (idx / 2)) (idx / 2) (sub32 level 1) c' in
    if (not (node.next == 0) || not (node.prev == 0)) || (c.jump_tree_first_index level == idx)
    then rest
    else some c

-- The nodes `left` .. `right` of a level, `span` of them, leave the links of the level.
unfoldable pub skip_level : ℕ → ℕ → ℕ → ℕ → Chunk → Chunk
skip_level level left right span c =
    let node_left = get_jt_item c.jump_tree left in
    let node_right = get_jt_item c.jump_tree right in
    let after = u32 (right + node_right.next) in
    let ahead = sub32 left node_left.prev in
    let c1 =
      if (node_left.prev == 0) && (node_right.next == 0)
      then record c { jump_tree_first_index = store c.jump_tree_first_index level 0 }
      else if node_left.prev == 0
      then record c {
        jump_tree_first_index = store c.jump_tree_first_index level after;
        jump_tree = set_jt_item_prev c.jump_tree after 0;
      }
      else if node_right.next == 0
      then record c { jump_tree = set_jt_item_next c.jump_tree ahead 0 }
      else record c {
        jump_tree =
            incr_jt_item_prev
              (incr_jt_item_next c.jump_tree ahead (u16 (span - 1 + node_right.next))) after
              (u16 (span - 1 + node_left.prev));
      } in
    record c1 {
      avail_nodes_count =
          store c1.avail_nodes_count level (u16 (c1.avail_nodes_count level + (2 ^ 32 - span)));
    }

-- The levels below a node, the first argument of them.
unfoldable pub down_loop : ℕ → ℕ → ℕ → ℕ → ℕ → Chunk → Chunk
down_loop zero level left right span c = c
down_loop (suc n) level left right span c =
    down_loop n (level + 1) (u32 (left * 2)) (u32 (right * 2 + 1)) (u32 (span * 2))
      (skip_level level left right span c)

-- "Purging subtree"
unfoldable pub purge_loop : ℕ → ℕ → ℕ → Cells JumpNode → Cells JumpNode
purge_loop zero start span mem = mem
purge_loop (suc n) start span mem =
    purge_loop n (u32 (start * 2)) (u32 (span * 2))
      (fill mem (sub32 start 1) span (record { prev = 0; next = 0 }))

-- The part for a leaf: the run is one leaf, and its region size is kept beside the tree.
unfoldable pub take_leaf : ℕ → ℕ → ℕ → Chunk → ℕ × Chunk
take_leaf idx level reg_size c =
    let base_level_idx = 2 ^ level in
    (
      u64 (c.entry.key + u32 (sub32 idx base_level_idx * chunk_least_region_size_bytes)),
      record c {
        reg_size_small_medium =
            (if reg_size == chunk_least_region_size_bytes
              then c.reg_size_small_medium
              else store c.reg_size_small_medium (sub32 idx base_level_idx) (u16 reg_size));
        buddy_tree = set_buddy_tree_item c.buddy_tree idx node_used;
      },
    )

-- The part for an inner node: nothing below it stays free.
unfoldable pub take_subtree : ℕ → ℕ → Chunk → ℕ × Chunk
take_subtree idx level c =
    let below = chunk_buddy_tree_depth - level in
    let c1 = down_loop below (level + 1) (u32 (idx * 2)) (u32 (idx * 2 + 1)) 2 c in
    let offset = sub32 (u32 (idx * 2 ^ below)) 2048 in
    (
      u64 (c1.entry.key + u32 (offset * chunk_least_region_size_bytes)),
      record c1 {
        jump_tree = purge_loop below (u32 (idx * 2)) 2 c1.jump_tree;
        buddy_tree = set_buddy_tree_item c1.buddy_tree idx node_used;
      },
    )

-- What follows the update up the tree.
unfoldable pub take_node : ℕ → ℕ → ℕ → Option Chunk → Option (ℕ × Chunk)
take_node idx level reg_size none = none
take_node idx level reg_size (some c) =
    some (if is_leaf idx then take_leaf idx level reg_size c else take_subtree idx level c)

-- Twelve levels are at most twelve rounds.
unfoldable pub chunk_allocate_with_node : Chunk → JumpNode → ℕ → ℕ → ℕ → Option (ℕ × Chunk)
chunk_allocate_with_node chunk node idx level reg_size =
    take_node idx level reg_size (up_loop (chunk_buddy_tree_depth + 1) node idx level chunk)

abbrev pub random_lookup_treshold_percentage : ℕ
random_lookup_treshold_percentage = 25

abbrev pub random_lookup_tries : ℕ
random_lookup_tries = 4

-- Tries to hit a free node of the level: the node's index and what it holds.
unfoldable pub try_loop : ℕ → ℕ → Chunk → Rng → Option ℕ × Rng
try_loop zero all_nodes c rng = (none, rng)
try_loop (suc tries) all_nodes c rng =
    let (z, rng') = splitmix32 rng in
    let idx = u32 (all_nodes + z % all_nodes) in
    let node = get_jt_item c.jump_tree idx in
    let rest = try_loop tries all_nodes c rng' in
    if not (node.prev == 0) || not (node.next == 0) then (some idx, rng') else rest

-- Follows the links from the first free node of the level.
unfoldable pub walk_loop : ℕ → ℕ → Chunk → ℕ
walk_loop zero idx c = idx
walk_loop (suc rand_idx) idx c =
    walk_loop rand_idx (u32 (idx + (get_jt_item c.jump_tree idx).next)) c

unfoldable pub choose_node : Chunk → ℕ → Rng → ℕ × Rng
choose_node chunk level rng =
    let avail_nodes = chunk.avail_nodes_count level in
    let all_nodes = 2 ^ level in
    let (hit, rng1) =
      if ltb random_lookup_treshold_percentage (avail_nodes * 100 / all_nodes)
      then try_loop random_lookup_tries all_nodes chunk rng
      else (none, rng) in
    let (z, rng2) = splitmix32 rng1 in
    elim hit [
      | some idx ↦ (idx, rng1)
      | none ↦ (walk_loop (z % avail_nodes) (chunk.jump_tree_first_index level) chunk, rng2)
    ]

unfoldable pub size2idx : ℕ → ℕ
size2idx run_size = ctz (run_size / chunk_least_region_size_bytes)

-- `null` when the level has no free node; `none` is out of fuel.
unfoldable pub chunk_allocate_run : Chunk → ℕ → ℕ → Rng → Option (ℕ × Chunk × Rng)
chunk_allocate_run chunk run_size reg_size rng =
    let level = sub32 chunk_buddy_tree_depth (size2idx run_size) in
    let (idx, rng') = choose_node chunk level rng in
    if chunk.avail_nodes_count level == 0
    then some (null, chunk, rng)
    else elim (chunk_allocate_with_node chunk (get_jt_item chunk.jump_tree idx) idx level
        reg_size) [ none ↦ none | some (ptr, c) ↦ some (ptr, c, rng') ]
