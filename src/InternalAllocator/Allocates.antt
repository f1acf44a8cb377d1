-- ===== src/InternalAllocator/Allocates.antt =====
-- internal_alloc in src/internal_allocator.c ends, and what it gives out.
use sealloc.Base.{
  ℕ, zero, suc, ◌+◌, ◌-◌, ◌*◌, ◌^◌, ◌≤◌, ◌<◌, ◌≡◌, ◌≢◌, ◌⊎◌, inl, inr, true, false, Bool-cases,
  Cells, u64, arith,
}
use native.Mathlib.Nat.{pow-suc}
use sealloc.Bitmap.{get_tree_item, set_tree_item}
use sealloc.ContainerLl.{null}
use sealloc.InternalAllocator.{IntAlloc, is_leaf, node_used, node_free, coalesce_full_nodes}
use sealloc.InternalAllocator.Search
use sealloc.InternalAllocator.Search.{
  TraverseState, down, up_left, up_right, Search, Round, returns, continues, panics, go_up, go_left,
  go_right, take, at_leaf, split, at_inner, round, allocated, failed, is_over, search_loop,
}
use sealloc.InternalAllocator.Levels.{At, At-span, At-right, pow-pos}
use sealloc.InternalAllocator.Walk.{
  Splits, Found, nothing, Walks, downwards, from_left, from_right, up,
}
use sealloc.InternalAllocator.Room.{has_room, not_leaf}
use sealloc.InternalAllocator.Rounds.{Stepped, goes, stops, breaks, leaf-Stepped, inner-Stepped}

module _ (memory size : ℕ) (tree : Cells ℕ) where
  tree_of : (n : ℕ) (s : Search) → Walks memory size tree n s → Splits tree s.tree
  tree_of n _ (downwards m d idx cur ptr t s a le root b) = s
  tree_of n _ (from_left m d idx cur ptr t s a le b) = s
  tree_of n _ (from_right m d idx cur ptr t s a le b) = s

  round-Stepped :
      (n : ℕ) (s : Search)
      → Walks memory size tree (suc n) s
      → is_over s ≡ false
      → Stepped memory size tree n (round size s)
  unfolding round is_over go_right
  round-Stepped n _ (downwards zero d idx cur ptr t s a le root b) o =
      let l : is_leaf idx ≡ true =
        (let sp = (At-span memory 0 d idx cur ptr a).0 in ground arith) in
      rw l (leaf-Stepped memory size tree n d idx cur ptr t s a le b)
  round-Stepped n _ (downwards (suc m) d idx cur ptr t s a le root b) o =
      rw (not_leaf memory size m d idx cur ptr a)
        (inner-Stepped memory size tree n m d idx cur ptr t s a le root b)
  round-Stepped n _ (from_left m d idx cur ptr t s a le b) o =
      let (a', e) = At-right memory m d idx cur ptr a in
      rw (not_leaf memory size m d idx cur ptr a) (
        goes _ (
          downwards m (suc d) _ _ _ t s a' le (λ z. absurd (omega arith))
            (omega (arith, b, e, a.level))))
  round-Stepped n _ (from_right m zero idx cur ptr t s a le b) o =
      let lo = a.lo in let hi = a.hi in absurd (ground arith)
  round-Stepped n _ (from_right m (suc d) idx cur ptr t s a le b) o =
      rw (not_leaf memory size m (suc d) idx cur ptr a) (
        goes _ (
          up memory size tree n (suc m) d idx cur ptr up_right t s a (omega arith)
            (omega (arith, b))))

  -- A round, and the rest of the walk.
  finish :
      (n : ℕ) (r : Round)
      → Stepped memory size tree n r
      → ((s : Search) → Walks memory size tree n s → Found memory size tree (search_loop n size s))
      → Found memory size tree (elim r [
        | returns ptr k t ↦ allocated ptr k t
        | continues s' ↦ search_loop n size s'
        | panics ↦ failed
      ])
  finish n _ (goes s w) ih = ih s w
  finish n _ (stops p k t f) ih = f
  finish n _ (breaks f) ih = f

  no_rounds : (s : Search) → ¬ Walks memory size tree 0 s
  no_rounds _ (downwards m d idx cur ptr t s a le root b) =
      let sp = (At-span memory m d idx cur ptr a).1 in absurd (omega (arith, pow-pos m))
  no_rounds _ (from_left m d idx cur ptr t s a le b) =
      let sp = (At-span memory (suc m) d idx cur ptr a).1 in
      absurd (omega (arith, pow-suc 2 m, a.level))
  no_rounds _ (from_right m d idx cur ptr t s a le b) =
      let sp = (At-span memory (suc m) d idx cur ptr a).1 in absurd (omega (arith, a.level))

  pub walk :
      (n : ℕ) (s : Search)
      → Walks memory size tree n s
      → Found memory size tree (search_loop n size s)
  unfolding search_loop
  walk zero s w = absurd (no_rounds s w)
  walk (suc n) s w = elim (Bool-cases (is_over s)) [
    | inl o ↦ rw o (nothing s.tree (tree_of (suc n) s w))
    | inr o ↦ rw o (finish n (round size s) (round-Stepped n s w o) (λ s' w'. walk n s' w'))
  ]

-- What internal_alloc gives for a size: null, when there is too little free memory, or when no free node that the
-- size fits can be reached through split nodes; a free block of the tree; or an abort at a leaf that is neither
-- free nor used.
pub data Allocates (root : IntAlloc) (size : ℕ) : Search.Outcome → Type 0 where
  too_little : root.free_mem < size → Allocates root size (Search.Outcome.done null root)
  no_block :
      size ≤ root.free_mem
      → has_room root.buddy_tree size 18 1 ≡ false
      → Allocates root size (Search.Outcome.done null root)
  gives :
      (tree : Cells ℕ) (m d idx ptr : ℕ)
      → size ≤ root.free_mem
      → Splits root.buddy_tree tree
      → get_tree_item tree idx ≡ node_free
      → At root.memory m d idx (32 * 2 ^ m) ptr
      → size ≤ 32 * 2 ^ m
      → (m ≡ 0) ⊎ (16 * 2 ^ m < size)
      → Allocates root size (
          Search.Outcome.done ptr (record root {
            free_mem = u64 (root.free_mem + (2 ^ 64 - 32 * 2 ^ m));
            buddy_tree = coalesce_full_nodes (set_tree_item tree idx node_used) idx;
          }))
  bad :
      (tree : Cells ℕ) (idx : ℕ)
      → size ≤ root.free_mem
      → Splits root.buddy_tree tree
      → 2 ^ 18 ≤ idx
      → idx < 2 ^ 19
      → get_tree_item tree idx ≢ node_free
      → get_tree_item tree idx ≢ node_used
      → Allocates root size Search.Outcome.aborts
