-- ===== src/Chunk/Coalesce.antt =====
-- Merging up the buddy tree in src/chunk.c: what the loop changes and when it stops.
use sealloc.Base.{
  ℕ, zero, suc, ◌+◌, ◌*◌, ◌/◌, ◌^◌, ◌≤◌, ◌<◌, ◌≡◌, ◌≢◌, refl, ◌∙◌, sym, ap, Cells, arith,
  Bool-cases, ◌⊎◌, inl, inr, eq-cases, ◌==◌, ==_iff, if◌then◌else◌, ltb,
}
use sealloc.Bitmap.{get-set_tree_item}
use sealloc.Chunk.{get_buddy_tree_item, set_buddy_tree_item, is_right_child}
use sealloc.Chunk.Deallocate.{BuddyCtx, buddy_state_go_up, neigh_idx, coalesce_loop}
use native.Mathlib.Nat.{pow-suc, mul_comm, div-div-eq-div-mul}

-- A node of the state `s` stands above every two siblings in it, but perhaps at the node `p`.
unfoldable pub ClosedBut : ℕ → ℕ → Cells ℕ → Type 0
ClosedBut p s tree =
    (j : ℕ)
    → 0 < j
    → j < 2048
    → j ≢ p
    → get_buddy_tree_item tree (j * 2) ≡ s
    → get_buddy_tree_item tree (j * 2 + 1) ≡ s
    → get_buddy_tree_item tree j ≡ s

pub record Coalesced (s idx : ℕ) (tree : Cells ℕ) (top : ℕ) (tree' : Cells ℕ) : Type 0 where
  pub only :
      (j : ℕ)
      → 0 < j
      → j < 4096
      → (get_buddy_tree_item tree' j ≡ get_buddy_tree_item tree j)
        ⊎ ((get_buddy_tree_item tree' j ≡ s) × (e : ℕ) × (0 < e) × (j ≡ idx / 2 ^ e))
  pub positive : 0 < top
  pub low : top ≤ idx
  pub merged : get_buddy_tree_item tree' top ≡ s
  pub root : top ≢ 1 → get_buddy_tree_item tree' 1 ≡ get_buddy_tree_item tree 1
  pub closed : ClosedBut 0 s tree'

set_lem :
    (tree : Cells ℕ) (i s j : ℕ)
    → 0 < i
    → i < 4096
    → 0 < j
    → j < 4096
    → s < 4
    → get_buddy_tree_item (set_buddy_tree_item tree i s) j
      ≡ (if j == i then s else get_buddy_tree_item tree j)
set_lem tree i s j pi hi pj hj hs =
    get-set_tree_item tree i s j pi (omega arith) pj (omega arith) hs

-- One round of the loop.
pub loop_round :
    (fuel s : ℕ) (ctx : BuddyCtx) (tree : Cells ℕ)
    → 0 < ctx.idx
    → ((ctx.idx ≡ 1) × (coalesce_loop (suc fuel) s ctx tree ≡ (ctx, tree)))
      ⊎ (((1 < ctx.idx)
            × (get_buddy_tree_item tree (neigh_idx ctx.idx) ≢ s)
            × (coalesce_loop (suc fuel) s ctx tree ≡ (ctx, tree)))
          ⊎ ((1 < ctx.idx)
              × (get_buddy_tree_item tree (neigh_idx ctx.idx) ≡ s)
              × (coalesce_loop (suc fuel) s ctx tree
                  ≡ coalesce_loop fuel s
                      (buddy_state_go_up ctx)
                      (set_buddy_tree_item tree (ctx.idx / 2) s))))
unfolding coalesce_loop
loop_round fuel s ctx tree p = elim (Bool-cases (ltb 1 ctx.idx)) [
  | inr e ↦ inl (ground arith, rw e refl)
  | inl e ↦ elim (Bool-cases (get_buddy_tree_item tree (neigh_idx ctx.idx) == s)) [
    | inl h ↦ inr (inr (ground arith, (==_iff _ _).0 h, rw (e, h) refl))
    | inr h ↦ inr (inl (ground arith, ground arith, rw (e, h) refl))
  ]
]

neighbour :
    (s idx : ℕ) (tree : Cells ℕ)
    → 0 < idx
    → idx < 4096
    → get_buddy_tree_item tree (idx / 2 * 2) ≡ s
    → get_buddy_tree_item tree (idx / 2 * 2 + 1) ≡ s
    → get_buddy_tree_item tree (neigh_idx idx) ≡ s
neighbour s idx tree p lt l r = elim (Bool-cases (is_right_child idx)) [
  | inl e ↦ (let q : neigh_idx idx ≡ idx / 2 * 2 = ground arith in rw q l)
  | inr e ↦ (let q : neigh_idx idx ≡ idx / 2 * 2 + 1 = ground arith in rw q r)
]

halves : (idx m : ℕ) → idx / 2 / 2 ^ m ≡ idx / 2 ^ suc m
halves idx m =
    div-div-eq-div-mul idx 2 (2 ^ m)
    ∙ ap (λ (t : ℕ). idx / t) (sym (pow-suc 2 m ∙ mul_comm (2 ^ m) 2))

pub set_same :
    (tree : Cells ℕ) (i s : ℕ)
    → 0 < i
    → i < 4096
    → s < 4
    → get_buddy_tree_item (set_buddy_tree_item tree i s) i ≡ s
set_same tree i s p lt hs = set_lem tree i s i p lt p lt hs ∙ ground arith

pub set_other :
    (tree : Cells ℕ) (i s j : ℕ)
    → 0 < i
    → i < 4096
    → 0 < j
    → j < 4096
    → s < 4
    → j ≢ i
    → get_buddy_tree_item (set_buddy_tree_item tree i s) j ≡ get_buddy_tree_item tree j
set_other tree i s j pi hi pj hj hs n = set_lem tree i s j pi hi pj hj hs ∙ ground arith

-- What was closed but at a node is closed but at its parent, once the node has the state.
pub closed_up :
    (s i : ℕ) (tree : Cells ℕ)
    → 0 < i
    → i < 4096
    → s < 4
    → ClosedBut i s tree
    → ClosedBut (i / 2) s (set_buddy_tree_item tree i s)
unfolding ClosedBut
closed_up s i tree p lt hs c j pj lj nj l r =
    let el : get_buddy_tree_item tree (j * 2) ≡ s =
      sym (set_other tree i s (j * 2) p lt (omega arith) (omega arith) hs (omega arith)) ∙ l in
    let er : get_buddy_tree_item tree (j * 2 + 1) ≡ s =
      sym (set_other tree i s (j * 2 + 1) p lt (omega arith) (omega arith) hs (omega arith)) ∙ r in
    elim (eq-cases j i) [
      | inl q ↦ rw q (set_same tree i s p lt hs)
      | inr q ↦ set_other tree i s j p lt pj (omega arith) hs q ∙ c j pj lj q el er
    ]

-- Another state at a node opens nothing but the node.
pub closed_but :
    (s s' i : ℕ) (tree : Cells ℕ)
    → 0 < i
    → i < 4096
    → s' < 4
    → s' ≢ s
    → ClosedBut 0 s tree
    → ClosedBut i s (set_buddy_tree_item tree i s')
unfolding ClosedBut
closed_but s s' i tree p lt hs n c j pj lj nj l r =
    set_other tree i s' j p lt pj (omega arith) hs nj
    ∙ c j pj lj (omega arith) (child (j * 2) (omega arith) (omega arith) l)
        (child (j * 2 + 1) (omega arith) (omega arith) r)
  where
    child :
        (m : ℕ)
        → 0 < m
        → m < 4096
        → get_buddy_tree_item (set_buddy_tree_item tree i s') m ≡ s
        → get_buddy_tree_item tree m ≡ s
    child m pm lm e = elim (eq-cases m i) [
      | inl q ↦ absurd (
          n (
            sym (
              ap (get_buddy_tree_item (set_buddy_tree_item tree i s')) q
              ∙ set_same tree i s' p lt hs)
            ∙ e))
      | inr q ↦ sym (set_other tree i s' m p lt pm lm hs q) ∙ e
    ]

-- Two siblings in the state, one of them `idx`, are the parent's two children.
stays :
    (s idx : ℕ) (tree : Cells ℕ)
    → 0 < idx
    → idx < 4096
    → get_buddy_tree_item tree idx ≡ s
    → ((idx ≡ 1) ⊎ (get_buddy_tree_item tree (neigh_idx idx) ≢ s))
    → ClosedBut (idx / 2) s tree
    → Coalesced s idx tree idx tree
unfolding ClosedBut
stays s idx tree p lt e stop c = record {
  only = λ j _ _. inl refl;
  positive = p;
  low = omega arith;
  merged = e;
  root = λ _. refl;
  closed = λ j pj lj _ l r. elim (eq-cases j (idx / 2)) [
    | inr ne ↦ c j pj lj ne l r
    | inl q ↦ absurd (elim stop [
      | inl o ↦ omega arith
      | inr n ↦ n (neighbour s idx tree p lt (rw (sym q) l) (rw (sym q) r))
    ])
  ];
}

climbs :
    (s idx : ℕ) (tree : Cells ℕ) (top : ℕ) (tree' : Cells ℕ)
    → 1 < idx
    → idx < 4096
    → s < 4
    → get_buddy_tree_item tree idx ≡ s
    → Coalesced s (idx / 2) (set_buddy_tree_item tree (idx / 2) s) top tree'
    → Coalesced s idx tree top tree'
climbs s idx tree top tree' p lt hs e c = record {
  only = λ j pj lj. elim (c.only j pj lj) [
    | inl q ↦ elim (eq-cases j (idx / 2)) [
      | inl h ↦ inr (
        q ∙ (set_lem tree (idx / 2) s j (omega arith) (omega arith) pj lj hs ∙ ground arith),
        1,
        omega arith,
        omega arith,
      )
      | inr h ↦
          inl (q ∙ (set_lem tree (idx / 2) s j (omega arith) (omega arith) pj lj hs ∙ ground arith))
    ]
    | inr (q, m, pm, h) ↦ inr (q, suc m, omega arith, h ∙ halves idx m)
  ];
  positive = c.positive;
  low = (let l = c.low in omega arith);
  merged = c.merged;
  root = λ nt.
      c.root nt
      ∙ (set_lem tree (idx / 2) s 1 (omega arith) (omega arith) (omega arith) (omega arith) hs
          ∙ (let l = c.low in let pos = c.positive in ground arith));
  closed = c.closed;
}

pub coalesce_loop_lem :
    (fuel s : ℕ) (ctx : BuddyCtx) (tree : Cells ℕ)
    → 0 < ctx.idx
    → ctx.idx < 4096
    → ctx.idx < 2 ^ fuel
    → s < 4
    → get_buddy_tree_item tree ctx.idx ≡ s
    → ClosedBut (ctx.idx / 2) s tree
    → Coalesced s ctx.idx tree
        (coalesce_loop fuel s ctx tree).0.idx
        (coalesce_loop fuel s ctx tree).1
unfolding buddy_state_go_up
coalesce_loop_lem zero s ctx tree p lt f hs e c = absurd (omega arith)
coalesce_loop_lem (suc fuel) s ctx tree p lt f hs e c = elim (loop_round fuel s ctx tree p) [
  | inl (o, q) ↦ rw q (stays s ctx.idx tree p lt e (inl o) c)
  | inr (inl (o, n, q)) ↦ rw q (stays s ctx.idx tree p lt e (inr n) c)
  | inr (inr (o, n, q)) ↦ rw q (
      climbs s ctx.idx tree _ _ o lt hs e (
        coalesce_loop_lem fuel s (buddy_state_go_up ctx) (set_buddy_tree_item tree (ctx.idx / 2) s)
          (omega arith) (omega arith) (omega (arith, pow-suc 2 fuel)) hs
          (set_same tree (ctx.idx / 2) s (omega arith) (omega arith) hs)
          (closed_up s (ctx.idx / 2) tree (omega arith) (omega arith) hs c)))
]
