-- ===== src/Chunk/RoundTrip.antt =====
-- A run of src/chunk.c from its allocation to its release: the address that chunk_allocate_with_node
-- gives is the one under which chunk_get_run_ptr and chunk_deallocate_run find the run.
use sealloc.Base.{
  ℕ, suc, ◌+◌, ◌-◌, ◌*◌, ◌^◌, ◌≤◌, ◌<◌, ◌≡◌, ◌≢◌, ◌∙◌, sym, ap, Cells, arith, Bool, some, eq-cases,
  inl, inr,
}
use native.Mathlib.Nat.{mul-le-mul_left}
use sealloc.Chunk.{
  Chunk, chunk_size_bytes, get_buddy_tree_item, set_buddy_tree_item, node_used, node_free,
  node_unmapped, get_jt_item,
}
use sealloc.Chunk.Allocate.{chunk_allocate_with_node}
use sealloc.Chunk.Deallocate.{chunk_get_run_ptr, chunk_deallocate_run}
use sealloc.Chunk.Links.{Linked}
use sealloc.Chunk.Climb.{pow2_le, positive, RunAt}
use sealloc.Chunk.Lookup.{InChunk, block, info, chunk_get_run_ptr-RunAt}
use sealloc.Chunk.Coalesce.{ClosedBut, closed_but, set_same, set_other}
use sealloc.Chunk.Release.{IsTree, Released, chunk_deallocate_run_lem}
use sealloc.Chunk.Take.{node_address, Taken, leftmost-bounds, chunk_allocate_with_node_lem}

-- The node and the leftmost nodes under it are free.
unfoldable pub FreeAt : Cells ℕ → ℕ → ℕ → Type 0
FreeAt tree idx k = (j : ℕ) → j ≤ k → get_buddy_tree_item tree (idx * 2 ^ j) ≡ node_free

-- The address of a node is in the chunk, in the node's first leaf.
address-InChunk :
    (c c' : Chunk) (idx level : ℕ)
    → level < 12
    → 2 ^ level ≤ idx
    → idx < 2 ^ suc level
    → c.entry.key + chunk_size_bytes < 2 ^ 64
    → c'.entry ≡ c.entry
    → InChunk c' (node_address c idx level)
      × (2048 + block c' (node_address c idx level) ≡ idx * 2 ^ (11 - level))
unfolding node_address block
address-InChunk c c' idx level l p lt k e =
    let (b, b') = leftmost-bounds (11 - level) level idx (omega arith) p lt in
    let key = ap (λ x. x.key) e in
    (record { fits = omega arith; from = omega arith; to = omega arith }, omega arith)

below-lt : (idx j k : ℕ) → j < k → idx * 2 ^ k < 4096 → idx * 2 ^ suc j < 4096
below-lt idx j k h lt =
    let le = mul-le-mul_left idx (pow2_le (suc j) k (omega arith)) in omega arith

below-ne : (idx j : ℕ) → 0 < idx → idx * 2 ^ suc j ≢ idx
below-ne idx j p e = let le = mul-le-mul_left idx (pow2_le 1 (suc j) (omega arith)) in omega arith

Taken-RunAt :
    (c c' : Chunk) (idx level reg_size : ℕ)
    → level < 12
    → 2 ^ level ≤ idx
    → idx < 2 ^ suc level
    → FreeAt c.buddy_tree idx (11 - level)
    → Taken idx level reg_size c c'
    → RunAt c'.buddy_tree idx (11 - level)
unfolding FreeAt
Taken-RunAt c c' idx level reg_size l p lt f t =
    let (b, b') = leftmost-bounds (11 - level) level idx (omega arith) p lt in
    let pos = pow2_le 0 level (omega arith) in
    let most = pow2_le (suc level) 12 (omega arith) in
    let same = t.buddy in
    record {
      used =
          rw same (set_same c.buddy_tree idx node_used (omega arith) (omega arith) (omega arith));
      below = λ j h. rw same (
          set_other c.buddy_tree idx node_used (idx * 2 ^ suc j) (omega arith) (omega arith)
            (positive idx (suc j) (omega arith)) (below-lt idx j (11 - level) h b') (omega arith)
            (below-ne idx j (omega arith))
          ∙ f (suc j) (omega arith));
    }

-- A free node of a level whose links keep to their levels, with no run inside it, is allocated, and the address
-- that the call returns is then looked up: chunk_get_run_ptr gives the same address, and the size of the node.
pub allocated_is_found :
    (chunk : Chunk) (idx level reg_size : ℕ)
    → Linked level chunk
    → level < 12
    → 2 ^ level ≤ idx
    → idx < 2 ^ suc level
    → chunk.entry.key + chunk_size_bytes < 2 ^ 64
    → FreeAt chunk.buddy_tree idx (11 - level)
    → (ptr : ℕ) × (chunk' : Chunk) × (chunk_allocate_with_node chunk
          (get_jt_item chunk.jump_tree idx)
          idx
          level
          reg_size
        ≡ some (ptr, chunk'))
      × ((chunk_get_run_ptr chunk' ptr).run_ptr ≡ ptr)
      × ((chunk_get_run_ptr chunk' ptr).run_size ≡ 16_384 * 2 ^ (11 - level))
      × (level ≡ 11 → reg_size < 16_384 → (chunk_get_run_ptr chunk' ptr).reg_size ≡ reg_size)
unfolding info block node_address
allocated_is_found chunk idx level reg_size v l p lt k f =
    let (c, q, t) = chunk_allocate_with_node_lem chunk idx level reg_size v l p lt k in
    let ptr = node_address chunk idx level in
    let (i, at) = address-InChunk chunk c idx level l p lt k t.entry in
    let pos = pow2_le 0 level (omega arith) in
    let found =
      chunk_get_run_ptr-RunAt c ptr idx (11 - level) i (omega arith) at
        (Taken-RunAt chunk c idx level reg_size l p lt f t) in
    let key = ap (λ x. x.key) t.entry in
    (
      ptr,
      c,
      q,
      ap (λ x. x.run_ptr) found ∙ omega arith,
      ap (λ x. x.run_size) found,
      λ e h.
          ap (λ x. x.reg_size) found
          ∙ (let last : 11 - level ≡ 0 = omega arith in
              let flat : idx * 2 ^ (11 - level) ≡ idx * 2 ^ 0 = ap (λ (x : ℕ). idx * 2 ^ x) last in
              let same : block c ptr ≡ idx - 2048 = omega arith in
              let noted : c.reg_size_small_medium (block c ptr) ≡ reg_size =
                ap c.reg_size_small_medium same ∙ (t.noted e (omega arith) ∙ omega arith) in
              ground arith),
    )

-- A free node may become used.
pub used-IsTree :
    (tree : Cells ℕ) (idx : ℕ)
    → 0 < idx
    → idx < 4096
    → get_buddy_tree_item tree idx ≡ node_free
    → IsTree tree
    → IsTree (set_buddy_tree_item tree idx node_used)
unfolding ClosedBut
used-IsTree tree idx p lt f t = record {
  no_depleted = λ j pj lj d. elim (eq-cases j idx) [
    | inl e ↦ absurd (
        let u =
          ap (get_buddy_tree_item (set_buddy_tree_item tree idx node_used)) e
          ∙ set_same tree idx node_used p lt (omega arith) in
        omega arith)
    | inr n ↦
        t.no_depleted j pj lj (sym (set_other tree idx node_used j p lt pj lj (omega arith) n) ∙ d)
  ];
  closed = λ j pj lj z l r. elim (eq-cases j idx) [
    | inr n ↦
        closed_but node_unmapped node_used idx tree p lt (omega arith) (omega arith) t.closed j pj
          lj n l r
    | inl e ↦ absurd (
        let at : (m : ℕ)
            → 0 < m
            → m < 4096
            → m ≢ idx
            → get_buddy_tree_item (set_buddy_tree_item tree idx node_used) m ≡ node_unmapped
            → get_buddy_tree_item tree m ≡ node_unmapped =
          λ m pm lm n u. sym (set_other tree idx node_used m p lt pm lm (omega arith) n) ∙ u in
        let top =
          t.closed j pj lj z (at (j * 2) (omega arith) (omega arith) (omega arith) l)
            (at (j * 2 + 1) (omega arith) (omega arith) (omega arith) r) in
        let free = ap (get_buddy_tree_item tree) e ∙ f in omega arith)
  ];
}

pub used_root :
    (tree : Cells ℕ) (idx : ℕ)
    → 0 < idx
    → idx < 4096
    → get_buddy_tree_item tree 1 ≢ node_unmapped
    → get_buddy_tree_item (set_buddy_tree_item tree idx node_used) 1 ≢ node_unmapped
used_root tree idx p lt live u = elim (eq-cases 1 idx) [
  | inl e ↦ absurd (
      let at =
        ap (get_buddy_tree_item (set_buddy_tree_item tree idx node_used)) e
        ∙ set_same tree idx node_used p lt (omega arith) in
      omega arith)
  | inr n ↦
      live
        (sym (set_other tree idx node_used 1 p lt (omega arith) (omega arith) (omega arith) n) ∙ u)
]

-- A free node of a level whose links keep to their levels, with no run inside it, is allocated, in a chunk that is
-- not unmapped, and chunk_deallocate_run is called with the address: exactly the node's range is unmapped, the node
-- is left unmapped, only nodes above it change with it, no node is depleted, and the call returns true exactly
-- when the root is left unmapped.
pub allocated_is_given_back :
    (chunk : Chunk) (idx level reg_size : ℕ)
    → Linked level chunk
    → level < 12
    → 2 ^ level ≤ idx
    → idx < 2 ^ suc level
    → chunk.entry.key + chunk_size_bytes < 2 ^ 64
    → FreeAt chunk.buddy_tree idx (11 - level)
    → IsTree chunk.buddy_tree
    → get_buddy_tree_item chunk.buddy_tree 1 ≢ node_unmapped
    → (ptr : ℕ) × (chunk' : Chunk) × (full : Bool) × (tree : Cells ℕ) × (chunk_allocate_with_node
          chunk
          (get_jt_item chunk.jump_tree idx)
          idx
          level
          reg_size
        ≡ some (ptr, chunk'))
      × (chunk_deallocate_run chunk' ptr
          ≡ some (
            full,
            record { start = ptr; size = 16_384 * 2 ^ (11 - level) },
            record chunk' { buddy_tree = tree },
          ))
      × Released idx chunk'.buddy_tree full tree
unfolding FreeAt
allocated_is_given_back chunk idx level reg_size v l p lt k f it live =
    let (c, q, t) = chunk_allocate_with_node_lem chunk idx level reg_size v l p lt k in
    let ptr = node_address chunk idx level in
    let (i, at) = address-InChunk chunk c idx level l p lt k t.entry in
    let pos = pow2_le 0 level (omega arith) in
    let most = pow2_le (suc level) 12 (omega arith) in
    let free : get_buddy_tree_item chunk.buddy_tree idx ≡ node_free =
      ap (get_buddy_tree_item chunk.buddy_tree) (omega arith) ∙ f 0 (omega arith) in
    let same = t.buddy in
    let (full, tree, e, r) =
      chunk_deallocate_run_lem c ptr idx (11 - level) i (omega arith) at
        (Taken-RunAt chunk c idx level reg_size l p lt f t)
        (rw same (used-IsTree chunk.buddy_tree idx (omega arith) (omega arith) free it))
        (rw same (used_root chunk.buddy_tree idx (omega arith) (omega arith) live)) in
    (ptr, c, full, tree, q, e, r)
