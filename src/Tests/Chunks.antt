-- ===== src/Tests/Chunks.antt =====
-- A chunk at address 1048576, whose nodes other than the root are linked to their right neighbours.
use sealloc.Base.{
  ℕ, store, fill, Option, none, ◌+◌, ◌-◌, ◌*◌, ◌^◌, ◌<◌, ◌≡◌, refl, Cells, arith, Bool, some, ◌⊎◌,
  ◌==◌, if◌then◌else◌,
}
use sealloc.Bitmap.{get_tree_item-zero}
use sealloc.Random.{Rng, splitmix32}
use sealloc.Utils.{ctz, ctz_loop}
use sealloc.ContainerLl.{null}
use sealloc.Chunk.{
  Chunk, sub32, set_jt_item_next, set_jt_item_prev, incr_jt_item_next, incr_jt_item_prev,
  init_levels, chunk_init, get_buddy_tree_item, set_buddy_tree_item, node_used, get_jt_item,
}
use sealloc.Chunk.Allocate.{
  chunk_allocate_with_node, chunk_allocate_run, choose_node, try_loop, walk_loop, size2idx, up_loop,
  unlink_node, link_neighbours, clear_node, take_node, take_leaf, take_subtree, down_loop,
  skip_level, purge_loop,
}
use sealloc.Chunk.Deallocate.{chunk_get_run_ptr, chunk_deallocate_run, no_info}
use sealloc.Chunk.Climb.{RunAt}
use sealloc.Chunk.Lookup.{InChunk, block, info, chunk_get_run_ptr_lem}
use sealloc.Chunk.Links.{Linked}
use sealloc.Chunk.Coalesce.{ClosedBut, set_same}
use sealloc.Chunk.Release.{IsTree, Released, chunk_deallocate_run_lem}
use sealloc.Chunk.RoundTrip.{
  FreeAt, used-IsTree, used_root, allocated_is_found, allocated_is_given_back,
}

abbrev pub linked_chunk : Chunk
linked_chunk = record {
  entry = record { fd = null; bk = null; key = 1_048_576 };
  avail_nodes_count = λ l. if l == 0 then 0 else 2 ^ l;
  reg_size_small_medium = λ _. 65_535;
  jump_tree_first_index = λ l. if l == 0 then 0 else 2 ^ l;
  jump_tree = λ g. if g == 0 then record { prev = 0; next = 0 } else record { prev = 0; next = 1 };
  buddy_tree = λ _. 0;
}

linked_chunk-Linked : (level : ℕ) → Linked level linked_chunk
linked_chunk-Linked level = record {
  back = λ l g _ p _. ground arith;
  short = λ g _. ground arith;
  root = (refl, refl);
  first_root = refl;
}

free_tree : (j : ℕ) → get_buddy_tree_item linked_chunk.buddy_tree j ≡ 0
free_tree j = get_tree_item-zero (λ _. 0) j (λ _. refl)

linked_chunk-IsTree : IsTree linked_chunk.buddy_tree
unfolding ClosedBut
linked_chunk-IsTree = record {
  no_depleted = λ j _ _ e. (let z = free_tree j in absurd (omega arith));
  closed = λ j _ _ _ l _. (let z = free_tree (j * 2) in absurd (omega arith));
}

-- The level of the leaves.
abbrev last_level : ℕ
last_level = 11

allocated_is_found_example :
    (ptr : ℕ) × (chunk' : Chunk) × (chunk_allocate_with_node linked_chunk
        (get_jt_item linked_chunk.jump_tree 2050)
        2050
        11
        1024
      ≡ some (ptr, chunk'))
    × ((chunk_get_run_ptr chunk' ptr).run_ptr ≡ ptr)
    × ((chunk_get_run_ptr chunk' ptr).run_size ≡ 16_384 * 2 ^ (11 - 11))
    × (last_level ≡ 11 → 1024 < 16_384 → (chunk_get_run_ptr chunk' ptr).reg_size ≡ 1024)
unfolding FreeAt
allocated_is_found_example =
    allocated_is_found linked_chunk 2050 last_level 1024 (linked_chunk-Linked 11) (omega arith)
      (omega arith) (omega arith) (omega arith) (λ j _. free_tree (2050 * 2 ^ j))

allocated_is_given_back_example :
    (ptr : ℕ) × (chunk' : Chunk) × (full : Bool) × (tree : Cells ℕ) × (chunk_allocate_with_node
        linked_chunk
        (get_jt_item linked_chunk.jump_tree 5)
        5
        2
        1024
      ≡ some (ptr, chunk'))
    × (chunk_deallocate_run chunk' ptr
        ≡ some (
          full,
          record { start = ptr; size = 16_384 * 2 ^ (11 - 2) },
          record chunk' { buddy_tree = tree },
        ))
    × Released 5 chunk'.buddy_tree full tree
unfolding FreeAt
allocated_is_given_back_example =
    allocated_is_given_back linked_chunk 5 2 1024 (linked_chunk-Linked 2) (omega arith)
      (omega arith) (omega arith) (omega arith) (λ j _. free_tree (5 * 2 ^ j)) linked_chunk-IsTree
      (λ e. (let z = free_tree 1 in absurd (omega arith)))

in_chunk : InChunk linked_chunk 1_081_345
in_chunk = record { fits = omega arith; from = omega arith; to = omega arith }

chunk_get_run_ptr_lem_example :
    ((n : ℕ) × (k : ℕ) × (2048 + block linked_chunk 1_081_345 ≡ n * 2 ^ k)
      × RunAt linked_chunk.buddy_tree n k
      × (chunk_get_run_ptr linked_chunk 1_081_345
          ≡ info linked_chunk (block linked_chunk 1_081_345) k))
    ⊎ (((n k : ℕ)
          → 0 < n
          → 2048 + block linked_chunk 1_081_345 ≡ n * 2 ^ k
          → ¬ RunAt linked_chunk.buddy_tree n k)
        × (chunk_get_run_ptr linked_chunk 1_081_345 ≡ no_info))
chunk_get_run_ptr_lem_example = chunk_get_run_ptr_lem linked_chunk 1_081_345 in_chunk

-- The same chunk with the leaf 2050 used.
abbrev used_chunk : Chunk
used_chunk = record linked_chunk {
  buddy_tree = set_buddy_tree_item linked_chunk.buddy_tree 2050 node_used;
}

chunk_deallocate_run_lem_example :
    (full : Bool) × (tree : Cells ℕ) × (chunk_deallocate_run used_chunk 1_081_344
      ≡ some (
        full,
        record { start = 1_081_344; size = 16_384 * 2 ^ 0 },
        record used_chunk { buddy_tree = tree },
      ))
    × Released 2050 used_chunk.buddy_tree full tree
unfolding block
chunk_deallocate_run_lem_example =
    chunk_deallocate_run_lem used_chunk 1_081_344 2050 0
      (record { fits = omega arith; from = omega arith; to = omega arith }) (omega arith)
      (omega arith)
      (record {
        used =
            set_same linked_chunk.buddy_tree 2050 node_used (omega arith) (omega arith)
              (omega arith);
        below = λ j h. absurd (omega arith);
      })
      (used-IsTree linked_chunk.buddy_tree 2050 (omega arith) (omega arith) (free_tree 2050)
        linked_chunk-IsTree)
      (used_root linked_chunk.buddy_tree 2050 (omega arith) (omega arith)
        (λ e. (let z = free_tree 1 in absurd (omega arith))))

-- A whole run of the functions: half of a new chunk is allocated; one half is left, and no whole.
abbrev pub raw_chunk : Chunk
raw_chunk = record linked_chunk { buddy_tree = λ _. 255; reg_size_small_medium = λ _. 7 }

abbrev pub rng : Rng
rng = record { state32 = 12; state64 = 12 }

new_chunk-avail : (chunk_init raw_chunk 1_048_576).avail_nodes_count 11 ≡ 2048
unfolding chunk_init init_levels store
new_chunk-avail = refl

new_chunk-first : (chunk_init raw_chunk 1_048_576).jump_tree_first_index 3 ≡ 8
unfolding chunk_init init_levels store
new_chunk-first = refl

-- What the call returns, and how many nodes of the levels 1 and 11 are left.
abbrev outcome : Option (ℕ × Chunk × Rng) → Option (ℕ × ℕ × ℕ)
outcome none = none
outcome (some (ptr, c, r)) = some (ptr, c.avail_nodes_count 1, c.avail_nodes_count 11)

new_chunk-half :
    outcome (chunk_allocate_run (chunk_init raw_chunk 1_048_576) 16_777_216 0 rng)
    ≡ some (1_048_576, 1, 1024)
unfolding chunk_init init_levels store fill chunk_allocate_run choose_node try_loop walk_loop
    size2idx ctz ctz_loop sub32 chunk_allocate_with_node up_loop unlink_node link_neighbours
    clear_node take_node take_leaf take_subtree down_loop skip_level purge_loop get_jt_item
    set_jt_item_next set_jt_item_prev incr_jt_item_next incr_jt_item_prev splitmix32
new_chunk-half = refl
