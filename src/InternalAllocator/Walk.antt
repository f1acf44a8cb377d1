-- ===== src/InternalAllocator/Walk.antt =====
-- The walk of internal_alloc in src/internal_allocator.c: a measure that falls with every round, and what
-- the walk may end with.
use sealloc.Base.{
  ℕ, suc, ◌+◌, ◌*◌, ◌/◌, ◌^◌, ◌≤◌, ◌<◌, ◌≡◌, ◌≢◌, ◌⊎◌, inl, inr, Bool-cases, Cells, arith,
}
use native.Mathlib.Nat.{pow-suc}
use sealloc.Bitmap.{get_tree_item, set_tree_item}
use sealloc.InternalAllocator.{
  is_right_child, node_split, node_used, node_free, coalesce_full_nodes,
}
use sealloc.InternalAllocator.Search.{
  TraverseState, down, up_left, up_right, Search, go_up, split, Result, allocated, ended, failed,
}
use sealloc.InternalAllocator.Levels.{At, At-span, At-up_left, At-up_right}

-- The trees that come of splitting free nodes.
pub data Splits (tree : Cells ℕ) : Cells ℕ → Type 0 where
  same : Splits tree tree
  then_split :
      (tree' : Cells ℕ) (idx : ℕ)
      → Splits tree tree'
      → get_tree_item tree' idx ≡ node_free
      → Splits tree (split tree' idx)

-- What the walk for a block of a size may end with: a node that was free, the least above the
-- leaves that is large enough; nothing; or a leaf that is neither free nor used.
pub data Found (memory size : ℕ) (tree : Cells ℕ) : Result → Type 0 where
  block :
      (tree' : Cells ℕ) (m d idx ptr : ℕ)
      → Splits tree tree'
      → get_tree_item tree' idx ≡ node_free
      → At memory m d idx (32 * 2 ^ m) ptr
      → size ≤ 32 * 2 ^ m
      → (m ≡ 0) ⊎ (16 * 2 ^ m < size)
      → Found memory size tree
          (allocated ptr (32 * 2 ^ m) (coalesce_full_nodes (set_tree_item tree' idx node_used) idx))
  nothing : (tree' : Cells ℕ) → Splits tree tree' → Found memory size tree (ended tree')
  bad_leaf :
      (tree' : Cells ℕ) (idx : ℕ)
      → Splits tree tree'
      → 2 ^ 18 ≤ idx
      → idx < 2 ^ 19
      → get_tree_item tree' idx ≢ node_free
      → get_tree_item tree' idx ≢ node_used
      → Found memory size tree failed

-- A search with its variables in a row.
abbrev pub at_node : ℕ → ℕ → ℕ → TraverseState → Cells ℕ → Search
at_node idx cur ptr state tree = record {
  idx = idx;
  cur_size = cur;
  ptr = ptr;
  state = state;
  tree = tree;
}

-- The states of the walk, and that `n` more rounds are enough. On the way down the size fits the
-- node, and the root, which is met once, is free or split; on the way up it fits the child.
pub data Walks (memory size : ℕ) (tree : Cells ℕ) (n : ℕ) : Search → Type 0 where
  downwards :
      (m d idx cur ptr : ℕ) (tree' : Cells ℕ)
      → Splits tree tree'
      → At memory m d idx cur ptr
      → size ≤ cur
      → ((d ≡ 0)
          → (size ≤ cur / 2)
            × ((get_tree_item tree' idx ≡ node_free) ⊎ (get_tree_item tree' idx ≡ node_split)))
      → 64 * 2 ^ 19 + m < n + 64 * (idx * 2 ^ m)
      → Walks memory size tree n (at_node idx cur ptr down tree')
  from_left :
      (m d idx cur ptr : ℕ) (tree' : Cells ℕ)
      → Splits tree tree'
      → At memory (suc m) d idx cur ptr
      → size ≤ cur / 2
      → 64 * 2 ^ 19 + 40 < n + suc m + 64 * (idx * 2 ^ suc m + 2 ^ m)
      → Walks memory size tree n (at_node idx cur ptr up_left tree')
  from_right :
      (m d idx cur ptr : ℕ) (tree' : Cells ℕ)
      → Splits tree tree'
      → At memory (suc m) d idx cur ptr
      → size ≤ cur / 2
      → 64 * 2 ^ 19 + 40 < n + suc m + 64 * (idx * 2 ^ suc m + 2 ^ suc m)
      → Walks memory size tree n (at_node idx cur ptr up_right tree')

module _ (memory size : ℕ) (tree : Cells ℕ) where
  -- The way up from a node below the root.
  pub up :
      (n m d idx cur ptr : ℕ) (state : TraverseState) (tree' : Cells ℕ)
      → Splits tree tree'
      → At memory m (suc d) idx cur ptr
      → size ≤ cur
      → 64 * 2 ^ 19 + 40 < n + suc m + 64 * (idx * 2 ^ m + 2 ^ m)
      → Walks memory size tree n (go_up (at_node idx cur ptr state tree'))
  unfolding go_up
  up n m d idx cur ptr state tree' s a le b =
      let sp = At-span memory m (suc d) idx cur ptr a in
      let two = pow-suc 2 m in
      elim (Bool-cases (is_right_child idx)) [
        | inl h ↦
            let (a', e) = At-up_right memory m d idx cur ptr (ground arith) a in
            rw h (
              from_right m d (idx / 2) _ _ tree' s a' (omega (arith, a.size, sp.1))
                (omega (arith, b, e, two)))
        | inr h ↦
            let (a', e) = At-up_left memory m d idx cur ptr (ground arith) a in
            rw h (
              from_left m d (idx / 2) _ _ tree' s a' (omega (arith, a.size, sp.1))
                (omega (arith, b, e, two)))
      ]
