-- ===== src/Chunk/Fresh.antt =====
-- chunk_init in src/chunk.c: the links of a new chunk.
use sealloc.Base.{
  ℕ, suc, ◌+◌, ◌-◌, ◌*◌, ◌^◌, ◌≤◌, ◌<◌, ◌≡◌, refl, arith, Bool, true, ◌&&◌, leb, all_below,
  all_below_sound, store, fill, Cells, ap, some, ◌/◌,
}
use sealloc.Chunk.{
  get_buddy_tree_item, get_jt_item, node_free, chunk_size_bytes, Chunk, JumpNode, chunk_init,
  init_levels, set_jt_item_next, set_jt_item_prev, sub32,
}
use sealloc.Chunk.Links.{Linked}
use sealloc.Chunk.Climb.{pow2_le, positive}
use sealloc.Chunk.RoundTrip.{FreeAt, allocated_is_found}
use sealloc.Chunk.Take.{leftmost-bounds}
use sealloc.Chunk.Allocate.{chunk_allocate_with_node}
use sealloc.Chunk.Deallocate.{chunk_get_run_ptr}
use native.Mathlib.Nat.{pow-suc, mul-le-mul_left}
use sealloc.Bitmap.{get_tree_item-zero_at}

abbrev jumps : Chunk → ℕ → Cells JumpNode
jumps chunk heap = (chunk_init chunk heap).jump_tree

level_test : Chunk → ℕ → ℕ → Bool
level_test chunk heap l = all_below (2 ^ l) λ i.
    leb (2 ^ l + (jumps chunk heap (2 ^ l + i - 1)).prev) (2 ^ l + i)
    && leb (jumps chunk heap (2 ^ l + i - 1)).next 1

levels : (chunk : Chunk) (heap : ℕ) → all_below 12 (level_test chunk heap) ≡ true
unfolding level_test chunk_init init_levels store fill set_jt_item_next set_jt_item_prev sub32
    all_below
levels chunk heap = refl

row :
    (chunk : Chunk) (heap l i : ℕ)
    → l < 12
    → i < 2 ^ l
    → (2 ^ l + (jumps chunk heap (2 ^ l + i - 1)).prev ≤ 2 ^ l + i)
      × ((jumps chunk heap (2 ^ l + i - 1)).next ≤ 1)
unfolding level_test
row chunk heap l i h k =
    let test =
      all_below_sound (2 ^ l)
        (λ i.
          leb (2 ^ l + (jumps chunk heap (2 ^ l + i - 1)).prev) (2 ^ l + i)
          && leb (jumps chunk heap (2 ^ l + i - 1)).next 1)
        i (all_below_sound 12 (level_test chunk heap) l (levels chunk heap) h) k in
    (ground arith, ground arith)

nexts : (chunk : Chunk) (heap : ℕ) → all_below 4095 (λ g. leb (jumps chunk heap g).next 1) ≡ true
unfolding chunk_init init_levels store fill set_jt_item_next set_jt_item_prev sub32 all_below
nexts chunk heap = refl

-- The links of a new chunk keep to their levels, and its root is not free.
pub chunk_init-Linked :
    (chunk : Chunk) (heap level : ℕ) → level < 12 → Linked level (chunk_init chunk heap)
unfolding chunk_init init_levels store fill set_jt_item_next set_jt_item_prev sub32
chunk_init-Linked chunk heap level h = record {
  back = λ l g le p q.
      let two = pow-suc 2 l in
      let at : 2 ^ l + (g + 1 - 2 ^ l) - 1 ≡ g = omega arith in
      let r = (row chunk heap l (g + 1 - 2 ^ l) (omega arith) (omega arith)).0 in
      let same = ap (λ (x : ℕ). (jumps chunk heap x).prev) at in back_lem (2 ^ l) g _ _ p same r;
  short = λ g q.
      let most = pow2_le (suc level) 12 (omega arith) in
      let test =
        all_below_sound 4095 (λ i. leb (jumps chunk heap i).next 1) g (nexts chunk heap)
          (omega arith) in
      short_lem _ test;
  root = (refl, refl);
  first_root = refl;
}
  where
    back_lem : (a g x y : ℕ) → a ≤ g + 1 → x ≡ y → a + x ≤ a + (g + 1 - a) → a + y ≤ g + 1
    back_lem a g x y p e r = omega arith

    short_lem : (x : ℕ) → leb x 1 ≡ true → x < 2 ^ 16
    short_lem x e = ground arith

pub chunk_init-free :
    (chunk : Chunk) (heap j : ℕ)
    → 0 < j
    → j < 4096
    → get_buddy_tree_item (chunk_init chunk heap).buddy_tree j ≡ node_free
unfolding chunk_init init_levels fill
chunk_init-free chunk heap j p lt =
    get_tree_item-zero_at (chunk_init chunk heap).buddy_tree j p (omega arith)
      (zero_at ((j - 1) / 4) (omega arith))
  where
    zero_at : (w : ℕ) → w < 1024 → (chunk_init chunk heap).buddy_tree w ≡ 0
    zero_at w h = ground arith

-- A node of a new chunk is allocated, and chunk_get_run_ptr then gives, for the address that the call
-- returned, the same address, the size of the node, and the region size when the node is a leaf and the
-- size is below the leaf's. The chunk must end below the end of the address space.
first_run_is_found :
    (chunk : Chunk) (heap idx level reg_size : ℕ)
    → heap + chunk_size_bytes < 2 ^ 64
    → level < 12
    → 2 ^ level ≤ idx
    → idx < 2 ^ suc level
    → (ptr : ℕ) × (chunk' : Chunk) × (chunk_allocate_with_node
          (chunk_init chunk heap)
          (get_jt_item (chunk_init chunk heap).jump_tree idx)
          idx
          level
          reg_size
        ≡ some (ptr, chunk'))
      × ((chunk_get_run_ptr chunk' ptr).run_ptr ≡ ptr)
      × ((chunk_get_run_ptr chunk' ptr).run_size ≡ 16_384 * 2 ^ (11 - level))
      × (level ≡ 11 → reg_size < 16_384 → (chunk_get_run_ptr chunk' ptr).reg_size ≡ reg_size)
unfolding FreeAt chunk_init init_levels
first_run_is_found chunk heap idx level reg_size fits l p lt =
    allocated_is_found (chunk_init chunk heap) idx level reg_size
      (chunk_init-Linked chunk heap level l) l p lt fits
      (λ j h.
        let (b, b') = leftmost-bounds (11 - level) level idx (omega arith) p lt in
        let pos = pow2_le 0 level (omega arith) in
        let le = mul-le-mul_left idx (pow2_le j (11 - level) h) in
        chunk_init-free chunk heap (idx * 2 ^ j) (positive idx j (omega arith)) (omega arith))
