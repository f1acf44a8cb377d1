-- ===== src/Chunk/Release.antt =====
-- chunk_deallocate_run in src/chunk.c.
use sealloc.Base.{
  ℕ, ◌+◌, ◌*◌, ◌/◌, ◌^◌, ◌<◌, ◌≡◌, ◌≢◌, ◌↔◌, refl, ◌∙◌, sym, ap, Cells, arith, Bool, true, ◌⊎◌, inl,
  inr, eq-cases, ◌==◌, ==_iff, some, u32,
}
use native.Mathlib.Nat.{zero-add, div-one}
use sealloc.Chunk.{
  Chunk, chunk_least_region_size_bytes, get_buddy_tree_item, set_buddy_tree_item, node_depleted,
  node_unmapped,
}
use sealloc.Chunk.Deallocate.{
  BuddyCtx, climb, found, neigh_idx, leaf_of, coalesce_loop, coalesce_depleted_nodes,
  coalesce_unmapped_nodes, release, chunk_deallocate_run, down,
}
use sealloc.Chunk.Climb.{RunAt, climb-RunAt, levels-lt, node-lt, pow2-small}
use sealloc.Chunk.Lookup.{InChunk, block, block-lt}
use sealloc.Chunk.Coalesce.{
  ClosedBut, Coalesced, closed_up, closed_but, set_same, set_other, loop_round, coalesce_loop_lem,
}

-- What holds of the tree of a chunk between two calls: no node is left depleted, and an unmapped node
-- stands above every two unmapped siblings.
pub record IsTree (tree : Cells ℕ) : Type 0 where
  pub no_depleted : (j : ℕ) → 0 < j → j < 4096 → get_buddy_tree_item tree j ≢ node_depleted
  pub closed : ClosedBut 0 node_unmapped tree

-- No sibling is depleted, so nothing is merged before the range is unmapped.
depleted_stops :
    (ctx : BuddyCtx) (tree : Cells ℕ)
    → 0 < ctx.idx
    → ctx.idx < 4096
    → IsTree tree
    → coalesce_loop 32 node_depleted ctx (set_buddy_tree_item tree ctx.idx node_depleted)
      ≡ (ctx, set_buddy_tree_item tree ctx.idx node_depleted)
depleted_stops ctx tree p lt t =
    let tree1 = set_buddy_tree_item tree ctx.idx node_depleted in
    elim (loop_round 31 node_depleted ctx tree1 p) [
      | inl (_, e) ↦ e
      | inr (inl (_, _, e)) ↦ e
      | inr (inr (o, e, _)) ↦ absurd (
          t.no_depleted (neigh_idx ctx.idx) (ground arith) (ground arith) (
            sym (
              set_other tree ctx.idx node_depleted (neigh_idx ctx.idx) p lt (ground arith)
                (ground arith) (omega arith) (ground arith))
            ∙ e))
    ]

leaf_of_lem :
    (chunk : Chunk) (ptr : ℕ) → InChunk chunk ptr → leaf_of ptr chunk ≡ 2048 + block chunk ptr
unfolding leaf_of block
leaf_of_lem chunk ptr i = let f = i.fits in let g = i.from in let h = i.to in omega arith

-- What the release of the node `n` makes of the tree; `full` is the result of the call.
pub record Released (n : ℕ) (tree : Cells ℕ) (full : Bool) (tree' : Cells ℕ) : Type 0 where
  pub valid : IsTree tree'
  pub unmapped : get_buddy_tree_item tree' n ≡ node_unmapped
  pub full_iff : (full ≡ true) ↔ (get_buddy_tree_item tree' 1 ≡ node_unmapped)
  pub only :
      (j : ℕ)
      → 0 < j
      → j < 4096
      → (get_buddy_tree_item tree' j ≡ get_buddy_tree_item tree j)
        ⊎ ((get_buddy_tree_item tree' j ≡ node_unmapped) × (e : ℕ) × (j ≡ n / 2 ^ e))

-- The node on its way from used over depleted to unmapped.
unmap_node : Cells ℕ → ℕ → Cells ℕ
unmap_node tree n = set_buddy_tree_item (set_buddy_tree_item tree n node_depleted) n node_unmapped

unmap_same :
    (tree : Cells ℕ) (n : ℕ)
    → 0 < n
    → n < 4096
    → get_buddy_tree_item (unmap_node tree n) n ≡ node_unmapped
unfolding unmap_node
unmap_same tree n p lt =
    set_same (set_buddy_tree_item tree n node_depleted) n node_unmapped p lt (omega arith)

unmap_other :
    (tree : Cells ℕ) (n j : ℕ)
    → 0 < n
    → n < 4096
    → 0 < j
    → j < 4096
    → j ≢ n
    → get_buddy_tree_item (unmap_node tree n) j ≡ get_buddy_tree_item tree j
unfolding unmap_node
unmap_other tree n j p lt pj lj ne =
    set_other (set_buddy_tree_item tree n node_depleted) n node_unmapped j p lt pj lj (omega arith)
      ne
    ∙ set_other tree n node_depleted j p lt pj lj (omega arith) ne

unmap_closed :
    (tree : Cells ℕ) (n : ℕ)
    → 0 < n
    → n < 4096
    → IsTree tree
    → ClosedBut (n / 2) node_unmapped (unmap_node tree n)
unfolding unmap_node
unmap_closed tree n p lt t =
    closed_up node_unmapped n (set_buddy_tree_item tree n node_depleted) p lt (omega arith)
      (closed_but node_unmapped node_depleted n tree p lt (omega arith) (omega arith) t.closed)

only_above :
    (n top : ℕ) (tree tree' : Cells ℕ)
    → 0 < n
    → n < 4096
    → Coalesced node_unmapped n (unmap_node tree n) top tree'
    → (j : ℕ) → 0 < j
    → j < 4096
    → (get_buddy_tree_item tree' j ≡ get_buddy_tree_item tree j)
      ⊎ ((get_buddy_tree_item tree' j ≡ node_unmapped) × (e : ℕ) × (j ≡ n / 2 ^ e))
only_above n top tree tree' p lt c j pj lj = elim (c.only j pj lj) [
  | inr (q, e, _, h) ↦ inr (q, e, h)
  | inl q ↦ elim (eq-cases j n) [
    | inl h ↦ inr (
      q ∙ (ap (get_buddy_tree_item (unmap_node tree n)) h ∙ unmap_same tree n p lt),
      0,
      h ∙ sym (div-one n),
    )
    | inr h ↦ inl (q ∙ unmap_other tree n j p lt pj lj h)
  ]
]

root_lem :
    (n top : ℕ) (tree tree' : Cells ℕ)
    → 0 < n
    → n < 4096
    → get_buddy_tree_item tree 1 ≢ node_unmapped
    → Coalesced node_unmapped n (unmap_node tree n) top tree'
    → (top ≡ 1) ↔ (get_buddy_tree_item tree' 1 ≡ node_unmapped)
root_lem n top tree tree' p lt live c = (
  λ e. ap (get_buddy_tree_item tree') (sym e) ∙ c.merged,
  λ u. elim (eq-cases top 1) [
    | inl e ↦ e
    | inr e ↦ absurd (
        live (
          sym (
            c.root e
            ∙ unmap_other tree n 1 p lt (omega arith) (omega arith)
                (let l = c.low in let pos = c.positive in omega arith))
          ∙ u))
  ],
)

Released-Coalesced :
    (n top : ℕ) (tree tree' : Cells ℕ)
    → 0 < n
    → n < 4096
    → IsTree tree
    → get_buddy_tree_item tree 1 ≢ node_unmapped
    → Coalesced node_unmapped n (unmap_node tree n) top tree'
    → Released n tree (top == 1) tree'
Released-Coalesced n top tree tree' p lt t live c = record {
  valid = record {
    no_depleted = λ j pj lj d. elim (only_above n top tree tree' p lt c j pj lj) [
      | inl q ↦ t.no_depleted j pj lj (sym q ∙ d)
      | inr (q, _, _) ↦ absurd (omega arith)
    ];
    closed = c.closed;
  };
  unmapped = elim (c.only n p lt) [ inl q ↦ q ∙ unmap_same tree n p lt | inr (q, _, _, _) ↦ q ];
  full_iff = (
    λ e. (root_lem n top tree tree' p lt live c).0 ((==_iff top 1).0 e),
    λ u. (==_iff top 1).1 ((root_lem n top tree tree' p lt live c).1 u),
  );
  only = only_above n top tree tree' p lt c;
}

-- The context that the climb hands to the merge.
context : ℕ → ℕ → ℕ → BuddyCtx
context ptr n k = record {
  idx = n;
  cur_size = u32 (chunk_least_region_size_bytes * 2 ^ k);
  depth_to_leaf = k;
  ptr = ptr;
  state = down;
}

release_lem :
    (chunk : Chunk) (ptr n k : ℕ)
    → 0 < n
    → n < 4096
    → k < 12
    → IsTree chunk.buddy_tree
    → release chunk ptr (found n k) ≡ (
        let (ctx, tree) =
          coalesce_unmapped_nodes (context ptr n k) (unmap_node chunk.buddy_tree n) in
        some (
          ctx.idx == 1,
          record { start = ptr; size = 16_384 * 2 ^ k },
          record chunk { buddy_tree = tree },
        ))
unfolding release coalesce_depleted_nodes context unmap_node
release_lem chunk ptr n k p lt h t =
    let small = pow2-small k h in
    let size : u32 (16_384 * 2 ^ k) ≡ 16_384 * 2 ^ k = omega arith in
    rw (depleted_stops (context ptr n k) chunk.buddy_tree p lt t) (rw size refl)

-- In a chunk that is not unmapped, with no depleted node and closed under merging, let a pointer be in the first
-- leaf of a run. Then chunk_deallocate_run asks to unmap the run's size from the pointer on; the run's node
-- is left unmapped, and no other node but those above it changes, and only to unmapped; the tree is again without
-- depleted nodes and closed under merging; the result is true exactly when the root is left unmapped.
pub chunk_deallocate_run_lem :
    (chunk : Chunk) (ptr n k : ℕ)
    → InChunk chunk ptr
    → 0 < n
    → 2048 + block chunk ptr ≡ n * 2 ^ k
    → RunAt chunk.buddy_tree n k
    → IsTree chunk.buddy_tree
    → get_buddy_tree_item chunk.buddy_tree 1 ≢ node_unmapped
    → (full : Bool) × (tree : Cells ℕ) × (chunk_deallocate_run chunk ptr
        ≡ some (
          full,
          record { start = ptr; size = 16_384 * 2 ^ k },
          record chunk { buddy_tree = tree },
        ))
      × Released n chunk.buddy_tree full tree
unfolding chunk_deallocate_run context coalesce_unmapped_nodes
chunk_deallocate_run_lem chunk ptr n k i p q r t live =
    let lt = block-lt chunk ptr i in
    let h = levels-lt n k p (omega arith) in
    let small = node-lt n k (omega arith) in
    let merged = coalesce_unmapped_nodes (context ptr n k) (unmap_node chunk.buddy_tree n) in
    (
      merged.0.idx == 1,
      merged.1,
      ap (release chunk ptr) (
            ap (λ x. climb 12 x 0 chunk.buddy_tree) (leaf_of_lem chunk ptr i ∙ q)
            ∙ (climb-RunAt 12 k 0 n chunk.buddy_tree h p r ∙ ap (found n) (zero-add k)))
          ∙ release_lem chunk ptr n k p small h t,
      Released-Coalesced n merged.0.idx chunk.buddy_tree merged.1 p small t live (
          coalesce_loop_lem 32 node_unmapped (context ptr n k) (unmap_node chunk.buddy_tree n) p
            small (omega arith) (omega arith) (unmap_same chunk.buddy_tree n p small)
            (unmap_closed chunk.buddy_tree n p small t)),
    )
