-- ===== src/Chunk/Jumps/Fresh.antt =====
-- chunk_init in src/chunk.c: all nodes but the root are free.
use sealloc.Base.{
  ℕ, zero, suc, ◌+◌, ◌-◌, ◌^◌, ◌≤◌, ◌<◌, ◌≡◌, refl, ◌∙◌, ap, sym, subst, true, arith, Cells, ltb,
  ◌==◌, ==_iff, ◌&&◌, all_below, all_below_sound, if◌then◌else◌, length, List, store, fill, Bool,
}
use sealloc.Chunk.{
  Chunk, JumpNode, chunk_init, init_levels, set_jt_item_next, set_jt_item_prev, sub32,
}
use sealloc.Chunk.Climb.{pow2_le}
use sealloc.Chunk.Jumps.{Nodes, Level, Seg, free, free-take, head_or, from, to}
use sealloc.Chunk.Jumps.Remove.{block_length}
use sealloc.Chunk.Jumps.Take.{FreeNodes}

pub all_but_root : Nodes
all_but_root i = ltb 1 i

free_at : (i : ℕ) → 2 ≤ i → all_but_root i ≡ true
unfolding all_but_root
free_at i h = ground arith

-- What the links of a new chunk are, level by level.
node_test : Cells JumpNode → ℕ → ℕ → Bool
node_test jt l i =
    ((jt (2 ^ l + i - 1)).prev == (if i == 0 then 0 else 1))
    && ((jt (2 ^ l + i - 1)).next == (if i + 1 == 2 ^ l then 0 else 1))

level_test : Chunk → ℕ → ℕ → Bool
level_test chunk heap l =
    let c = chunk_init chunk heap in
    all_below (2 ^ l) (node_test c.jump_tree l)
    && (c.jump_tree_first_index l == (if l == 0 then 0 else 2 ^ l))
    && (c.avail_nodes_count l == (if l == 0 then 0 else 2 ^ l))

levels : (chunk : Chunk) (heap : ℕ) → all_below 12 (level_test chunk heap) ≡ true
unfolding level_test node_test chunk_init init_levels store fill set_jt_item_next set_jt_item_prev
    sub32 all_below
levels chunk heap = refl

and2 : (a b : Bool) → (a && b) ≡ true → (a ≡ true) × (b ≡ true)
and2 a b h = (ground arith, ground arith)

and3 : (a b c : Bool) → (a && b && c) ≡ true → (a ≡ true) × (b ≡ true) × (c ≡ true)
and3 a b c h = (ground arith, ground arith, ground arith)

-- What the tests say of one level.
module _ (chunk : Chunk) (heap l : ℕ) (h : l < 12) where
  tested : level_test chunk heap l ≡ true
  tested = all_below_sound 12 (level_test chunk heap) l (levels chunk heap) h

  nodes :
      (i : ℕ)
      → i < 2 ^ l
      → (((chunk_init chunk heap).jump_tree (2 ^ l + i - 1)).prev ≡ (if i == 0 then 0 else 1))
        × (((chunk_init chunk heap).jump_tree (2 ^ l + i - 1)).next
            ≡ (if i + 1 == 2 ^ l then 0 else 1))
  unfolding level_test node_test
  nodes i lt =
      let (all, _, _) = and3 _ _ _ tested in
      let (a, b) =
        and2 _ _
          (all_below_sound (2 ^ l) (node_test (chunk_init chunk heap).jump_tree l) i all lt) in
      ((==_iff _ _).0 a, (==_iff _ _).0 b)

  heads :
      ((chunk_init chunk heap).jump_tree_first_index l ≡ (if l == 0 then 0 else 2 ^ l))
      × ((chunk_init chunk heap).avail_nodes_count l ≡ (if l == 0 then 0 else 2 ^ l))
  unfolding level_test
  heads = let (_, a, b) = and3 _ _ _ tested in ((==_iff _ _).0 a, (==_iff _ _).0 b)

back :
    (i lo p : ℕ)
    → 2 ≤ lo
    → p ≡ (if i == 0 then 0 else lo + i - 1)
    → (if i == 0 then 0 else 1) ≡ from p (lo + i)
back i lo p h e = ground arith

ahead :
    (n i lo w : ℕ)
    → 2 ≤ lo
    → i + suc n ≡ w
    → (if i + 1 == w then 0 else 1) ≡ to (lo + i) (head_or (free all_but_root (lo + i + 1) n) 0)
unfolding free
ahead zero i lo w h e = ground arith
ahead (suc n) i lo w h e =
    rw
      (ap (λ (xs : List ℕ). head_or xs 0)
        (free-take all_but_root (lo + i + 1) n (free_at (lo + i + 1) (omega arith))))
      (ground arith)

-- A whole level of free nodes, from its node `i` on.
whole_Seg :
    (jt : Cells JumpNode) (w lo : ℕ)
    → 2 ≤ lo
    → ((i : ℕ)
        → i < w
        → ((jt (lo + i - 1)).prev ≡ (if i == 0 then 0 else 1))
          × ((jt (lo + i - 1)).next ≡ (if i + 1 == w then 0 else 1)))
    → (n i p : ℕ) → i + n ≡ w
    → p ≡ (if i == 0 then 0 else lo + i - 1)
    → Seg jt p (free all_but_root (lo + i) n) 0
unfolding free
whole_Seg jt w lo ge f zero i p e q = tt
whole_Seg jt w lo ge f (suc n) i p e q =
    let (a, b) = f i (omega arith) in
    subst (λ (xs : List ℕ). Seg jt p xs 0)
      (sym (free-take all_but_root (lo + i) n (free_at (lo + i) (omega arith))))
      (
        a ∙ back i lo p (omega arith) q,
        b ∙ ahead n i lo w ge e,
        subst (λ (x : ℕ). Seg jt (lo + i) (free all_but_root x n) 0) (assoc lo i)
            (whole_Seg jt w lo ge f n (i + 1) (lo + i) (omega arith) (ground arith)),
      )
  where
    assoc : (x y : ℕ) → x + (y + 1) ≡ x + y + 1
    assoc x y = omega arith

row_length : (lo n : ℕ) → 2 ≤ lo → length (free all_but_root lo n) ≡ n
row_length lo n h = block_length all_but_root lo n (λ i x y. free_at i (omega arith))

row_head : (lo n : ℕ) → 2 ≤ lo → 0 < n → head_or (free all_but_root lo n) 0 ≡ lo
row_head lo zero h p = absurd (omega arith)
row_head lo (suc n) h p =
    ap (λ (xs : List ℕ). head_or xs 0) (free-take all_but_root lo n (free_at lo h))

above : (l x : ℕ) → (if suc l == 0 then 0 else x) ≡ x
above l x = ground arith

new-Level : (chunk : Chunk) (heap l : ℕ) → l < 12 → Level all_but_root l (chunk_init chunk heap)
unfolding free all_but_root
new-Level chunk heap zero h =
    let (a, b) = heads chunk heap 0 h in record { links = tt; first = a; count = b }
new-Level chunk heap (suc l) h =
    let (a, b) = heads chunk heap (suc l) h in
    let w = 2 ^ suc l in
    let ge = pow2_le 1 (suc l) (omega arith) in
    let zero_right : w + 0 ≡ w = omega arith in
    record {
      links =
          subst (λ (x : ℕ). Seg (chunk_init chunk heap).jump_tree 0 (free all_but_root x w) 0)
            zero_right
            (whole_Seg (chunk_init chunk heap).jump_tree w w ge (nodes chunk heap (suc l) h) w 0 0
              (omega arith) refl);
      first = a ∙ above l w ∙ sym (row_head w w ge (omega arith));
      count = b ∙ above l w ∙ sym (row_length w w ge);
    }

-- After chunk_init, exactly the nodes under the root are free: each level links them all, in order, and counts
-- them.
pub chunk_init-FreeNodes :
    (chunk : Chunk) (heap : ℕ) → FreeNodes all_but_root (chunk_init chunk heap)
unfolding all_but_root
chunk_init-FreeNodes chunk heap = record {
  levels = new-Level chunk heap;
  zeros = λ i p q e.
      let one : i ≡ 1 = ground arith in
      let (a, b) = nodes chunk heap 0 (omega arith) 0 (omega arith) in
      let at = ap (λ (x : ℕ). (chunk_init chunk heap).jump_tree (x - 1)) one in
      (ap (λ n. n.prev) at ∙ a, ap (λ n. n.next) at ∙ b);
  closed = λ i p q t. (ground arith, ground arith);
  root = refl;
}
