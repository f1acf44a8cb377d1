-- ===== src/Chunk/Jumps/Held.antt =====
-- chunk_deallocate_run in src/chunk.c touches the node of the run that it releases, and nodes above it; so a
-- run that is handed out stays known to chunk_get_run_ptr.
use sealloc.Base.{
  ℕ, zero, suc, ◌/◌, ◌<◌, ◌≡◌, refl, ◌∙◌, sym, subst, Bool, arith, inl, inr, some, Option, Cells,
}
use sealloc.Chunk.{Chunk, get_buddy_tree_item, set_buddy_tree_item, node_depleted, node_unmapped}
use sealloc.Chunk.Coalesce.{loop_round, set_other}
use sealloc.Chunk.Deallocate.{
  BuddyCtx, found, Range, buddy_state_go_up, coalesce_loop, coalesce_unmapped_nodes,
  coalesce_depleted_nodes, release,
}

tree_eq :
    (c : Chunk) {c' : Chunk} {b full : Bool} {a range : Range} {t : Cells ℕ}
    → ◌≡◌ {A = Option (Bool × Range × Chunk)}
        (some (b, a, record c { buddy_tree = t }))
        (some (full, range, c'))
    → t ≡ c'.buddy_tree
tree_eq c h = cc

-- A set of nodes that has all that is under its nodes.
module _ (q : ℕ → Type 0) (under : (i : ℕ) → 1 < i → i < 4096 → q (i / 2) → q i) where
  -- The trees agree on the set.
  Agree : Cells ℕ → Cells ℕ → Type 0
  Agree tree tree' =
      (i : ℕ) → 0 < i → i < 4096 → q i → get_buddy_tree_item tree' i ≡ get_buddy_tree_item tree i

  set-Agree :
      (tree : Cells ℕ) (j st : ℕ)
      → 0 < j
      → j < 4096
      → st < 4
      → ¬ q j
      → Agree tree (set_buddy_tree_item tree j st)
  unfolding Agree
  set-Agree tree j st p lt h n i pi li qi =
      set_other tree j st i p lt pi li h (λ e. n (subst q e qi))

  Agree-trans : (a b c : Cells ℕ) → Agree a b → Agree b c → Agree a c
  unfolding Agree
  Agree-trans a b c f g i p lt qi = g i p lt qi ∙ f i p lt qi

  -- Where the loop starts and ends is outside the set, and it changes nothing in the set.
  record Outside (tree : Cells ℕ) (r : BuddyCtx × Cells ℕ) : Type 0 where
    pos : 0 < r.0.idx
    small : r.0.idx < 4096
    off : ¬ q r.0.idx
    agree : Agree tree r.1

  coalesce_loop-Outside :
      (fuel st : ℕ) (ctx : BuddyCtx) (tree : Cells ℕ)
      → st < 4
      → 0 < ctx.idx
      → ctx.idx < 4096
      → ¬ q ctx.idx
      → Outside tree (coalesce_loop fuel st ctx tree)
  unfolding coalesce_loop Agree buddy_state_go_up
  coalesce_loop-Outside zero st ctx tree h p lt n = record {
    pos = p;
    small = lt;
    off = n;
    agree = λ i _ _ _. refl;
  }
  coalesce_loop-Outside (suc fuel) st ctx tree h p lt n = elim (loop_round fuel st ctx tree p) [
    | inl (_, e) ↦ subst (Outside tree) (sym e) (stays ctx p lt n)
    | inr (inl (_, _, e)) ↦ subst (Outside tree) (sym e) (stays ctx p lt n)
    | inr (inr (gt, _, e)) ↦
        let up : ¬ q (ctx.idx / 2) = λ x. n (under ctx.idx gt lt x) in
        let r =
          coalesce_loop-Outside fuel st (buddy_state_go_up ctx)
            (set_buddy_tree_item tree (ctx.idx / 2) st) h (omega arith) (omega arith) up in
        subst (Outside tree) (sym e) (record {
          pos = r.pos;
          small = r.small;
          off = r.off;
          agree =
              Agree-trans tree (set_buddy_tree_item tree (ctx.idx / 2) st) _
                (set-Agree tree (ctx.idx / 2) st (omega arith) (omega arith) h up) r.agree;
        })
  ]
    where
      stays :
          (ctx : BuddyCtx) → 0 < ctx.idx → ctx.idx < 4096 → ¬ q ctx.idx → Outside tree (ctx, tree)
      stays ctx p lt n = record { pos = p; small = lt; off = n; agree = λ i _ _ _. refl }

  coalesce_depleted-Agree :
      (ctx : BuddyCtx) (tree : Cells ℕ)
      → 0 < ctx.idx
      → ctx.idx < 4096
      → ¬ q ctx.idx
      → Agree tree (coalesce_depleted_nodes ctx tree).2
  unfolding coalesce_depleted_nodes coalesce_unmapped_nodes
  coalesce_depleted-Agree ctx tree p lt n =
      let r = coalesce_loop-Outside 32 node_depleted ctx tree (omega arith) p lt n in
      let at = coalesce_loop 32 node_depleted ctx tree in
      let tree1 = set_buddy_tree_item at.1 at.0.idx node_unmapped in
      let set = set-Agree at.1 at.0.idx node_unmapped r.pos r.small (omega arith) r.off in
      let r' =
        coalesce_loop-Outside 32 node_unmapped at.0 tree1 (omega arith) r.pos r.small r.off in
      Agree-trans tree at.1 _ r.agree (Agree-trans at.1 tree1 _ set r'.agree)

  pub release-Agree :
      (c : Chunk) (ptr idx depth : ℕ) (full : Bool) (range : Range) (c' : Chunk)
      → 0 < idx
      → idx < 4096
      → ¬ q idx
      → release c ptr (found idx depth) ≡ some (full, range, c')
      → (i : ℕ) → 0 < i
      → i < 4096
      → q i
      → get_buddy_tree_item c'.buddy_tree i ≡ get_buddy_tree_item c.buddy_tree i
  unfolding release Agree
  release-Agree c ptr idx depth full range c' p lt n e =
      let tree1 = set_buddy_tree_item c.buddy_tree idx node_depleted in
      let set = set-Agree c.buddy_tree idx node_depleted p lt (omega arith) n in
      let r = coalesce_depleted-Agree _ tree1 p lt n in
      subst (Agree c.buddy_tree) (tree_eq c e) (Agree-trans c.buddy_tree tree1 _ set r)
