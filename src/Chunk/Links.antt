-- ===== src/Chunk/Links.antt =====
-- The links of the free nodes in src/chunk.c: the update up the tree ends, and touches no level above the
-- one it is at.
use sealloc.Base.{
  ℕ, zero, suc, ◌+◌, ◌-◌, ◌/◌, ◌^◌, ◌≤◌, ◌<◌, ◌≡◌, refl, ◌∙◌, ap, Cells, arith, Bool-cases, not,
  ◌||◌, ◌⊎◌, inl, inr, ◌==◌, some, store, u16, u32,
}
use native.Mathlib.Nat.{pow-suc}
use sealloc.Chunk.Climb.{pow2_le}
use sealloc.Chunk.{
  Chunk, JumpNode, get_jt_item, set_jt_item_next, set_jt_item_prev, incr_jt_item_next,
  incr_jt_item_prev, sub32,
}
use sealloc.Chunk.Allocate.{link_neighbours, clear_node, unlink_node, up_loop}

set_next-below :
    (mem : Cells JumpNode) (i v j : ℕ) → j + 1 < i → i < 2 ^ 32 → set_jt_item_next mem i v j ≡ mem j
unfolding set_jt_item_next sub32 store
set_next-below mem i v j h k = ground arith

set_prev-below :
    (mem : Cells JumpNode) (i v j : ℕ) → j + 1 < i → i < 2 ^ 32 → set_jt_item_prev mem i v j ≡ mem j
unfolding set_jt_item_prev sub32 store
set_prev-below mem i v j h k = ground arith

incr_next-below :
    (mem : Cells JumpNode) (i v j : ℕ)
    → j + 1 < i
    → i < 2 ^ 32
    → incr_jt_item_next mem i v j ≡ mem j
unfolding incr_jt_item_next sub32 store
incr_next-below mem i v j h k = ground arith

incr_prev-below :
    (mem : Cells JumpNode) (i v j : ℕ)
    → j + 1 < i
    → i < 2 ^ 32
    → incr_jt_item_prev mem i v j ≡ mem j
unfolding incr_jt_item_prev sub32 store
incr_prev-below mem i v j h k = ground arith

-- What unlinking at a level leaves as it is.
record Kept (level : ℕ) (c c' : Chunk) : Type 0 where
  entry : c'.entry ≡ c.entry
  buddy : c'.buddy_tree ≡ c.buddy_tree
  sizes : c'.reg_size_small_medium ≡ c.reg_size_small_medium
  above : (j : ℕ) → j + 1 < 2 ^ level → c'.jump_tree j ≡ c.jump_tree j
  first : (l : ℕ) → l < level → c'.jump_tree_first_index l ≡ c.jump_tree_first_index l

Kept-trans : (level : ℕ) (a b c : Chunk) → Kept level a b → Kept level b c → Kept level a c
Kept-trans level a b c k m = record {
  entry = m.entry ∙ k.entry;
  buddy = m.buddy ∙ k.buddy;
  sizes = m.sizes ∙ k.sizes;
  above = λ j h. m.above j h ∙ k.above j h;
  first = λ l h. m.first l h ∙ k.first l h;
}

links-Kept :
    (level : ℕ) (c : Chunk) (jt : Cells JumpNode) (first : Cells ℕ)
    → ((j : ℕ) → j + 1 < 2 ^ level → jt j ≡ c.jump_tree j)
    → ((l : ℕ) → l < level → first l ≡ c.jump_tree_first_index l)
    → Kept level c (record c { jump_tree_first_index = first; jump_tree = jt })
links-Kept level c jt first above first_lem = record {
  entry = refl;
  buddy = refl;
  sizes = refl;
  above = above;
  first = first_lem;
}

store-below : (a : Cells ℕ) (i v l : ℕ) → l < i → store a i v l ≡ a l
unfolding store
store-below a i v l h = ground arith

sub32-ge : (m a b : ℕ) → m + b ≤ a → a < 2 ^ 32 → (m ≤ sub32 a b) × (sub32 a b < 2 ^ 32)
unfolding sub32
sub32-ge m a b h lt = (omega arith, omega arith)

link_neighbours-Kept :
    (node : JumpNode) (idx level : ℕ) (c : Chunk)
    → 2 ^ level ≤ idx
    → idx < 4096
    → node.next < 2 ^ 16
    → 2 ^ level + node.prev ≤ idx
    → Kept level c (link_neighbours node idx level c)
unfolding link_neighbours
link_neighbours-Kept node idx level c p lt n b =
    let back = sub32-ge (2 ^ level) idx node.prev b (omega arith) in
    let next : u32 (idx + node.next) ≡ idx + node.next = omega arith in
    elim (Bool-cases (node.next == 0)) [
      | inl e ↦ rw e (
          links-Kept level c (set_jt_item_next c.jump_tree (sub32 idx node.prev) 0)
            c.jump_tree_first_index
            (λ j h.
              set_next-below c.jump_tree (sub32 idx node.prev) 0 j (omega arith) (omega arith))
            (λ l h. refl))
      | inr e ↦ elim (Bool-cases (node.prev == 0)) [
        | inl d ↦
            rw (e, d, next)
              (links-Kept level c (set_jt_item_prev c.jump_tree (idx + node.next) 0)
                (store c.jump_tree_first_index level (idx + node.next))
                (λ j h.
                  set_prev-below c.jump_tree (idx + node.next) 0 j (omega arith) (omega arith))
                (λ l h. store-below c.jump_tree_first_index level (idx + node.next) l h))
        | inr d ↦
            rw (e, d, next)
              (let jt = incr_jt_item_next c.jump_tree (sub32 idx node.prev) node.next in
                links-Kept level c (incr_jt_item_prev jt (idx + node.next) node.prev)
                  c.jump_tree_first_index
                  (λ j h.
                    incr_prev-below jt (idx + node.next) node.prev j (omega arith) (omega arith)
                    ∙ incr_next-below c.jump_tree (sub32 idx node.prev) node.next j (omega arith)
                        (omega arith))
                  (λ l h. refl))
      ]
    ]

clear_node-Kept :
    (idx level : ℕ) (c : Chunk)
    → 2 ^ level ≤ idx
    → idx < 4096
    → Kept level c (clear_node idx level c)
unfolding clear_node
clear_node-Kept idx level c p lt = record {
  entry = refl;
  buddy = refl;
  sizes = refl;
  above = λ j h.
      set_prev-below (set_jt_item_next c.jump_tree idx 0) idx 0 j (omega arith) (omega arith)
      ∙ set_next-below c.jump_tree idx 0 j (omega arith) (omega arith);
  first = λ l h. elim (Bool-cases (u16 (c.avail_nodes_count level + (2 ^ 16 - 1)) == 0)) [
    | inl e ↦ rw e (store-below c.jump_tree_first_index level 0 l h)
    | inr e ↦ rw e refl
  ];
}

unlink_node-Kept :
    (node : JumpNode) (idx level : ℕ) (c : Chunk)
    → 2 ^ level ≤ idx
    → idx < 4096
    → node.next < 2 ^ 16
    → 2 ^ level + node.prev ≤ idx
    → Kept level c (unlink_node node idx level c)
unfolding unlink_node
unlink_node-Kept node idx level c p lt n b =
    Kept-trans level c (link_neighbours node idx level c) (unlink_node node idx level c)
      (link_neighbours-Kept node idx level c p lt n b)
      (clear_node-Kept idx level (link_neighbours node idx level c) p lt)

-- The links up to a level: no node points back past the start of its level, no distance is longer than
-- 16 bits hold, and the root is not free.
pub record Linked (level : ℕ) (c : Chunk) : Type 0 where
  pub back :
      (l g : ℕ)
      → l ≤ level
      → 2 ^ l ≤ g + 1
      → g + 1 < 2 ^ suc l
      → 2 ^ l + (c.jump_tree g).prev ≤ g + 1
  pub short : (g : ℕ) → g + 1 < 2 ^ suc level → (c.jump_tree g).next < 2 ^ 16
  pub root : ((c.jump_tree 0).prev ≡ 0) × ((c.jump_tree 0).next ≡ 0)
  pub first_root : c.jump_tree_first_index 0 ≡ 0

Linked-Kept :
    (level : ℕ) (c c' : Chunk) → Linked (suc level) c → Kept (suc level) c c' → Linked level c'
Linked-Kept level c c' v k = record {
  back = λ l g h p q.
      let at = k.above g (omega (arith, pow2_le (suc l) (suc level) (omega arith))) in
      rw at (v.back l g (omega arith) p q);
  short =
      λ g h. rw (k.above g h) (v.short g (omega (arith, pow2_le (suc level) (suc (suc level)))));
  root = rw (k.above 0 (omega (arith, pow2_le 1 (suc level)))) v.root;
  first_root = k.first 0 (omega arith) ∙ v.first_root;
}

item-at : (mem : Cells JumpNode) (i : ℕ) → 0 < i → i < 2 ^ 32 → get_jt_item mem i ≡ mem (i - 1)
unfolding get_jt_item sub32
item-at mem i p h = ap mem (omega arith)

sub32-one : (level : ℕ) → level < 12 → sub32 (suc level) 1 ≡ level
unfolding sub32
sub32-one level h = omega arith

-- What an update up the tree leaves as it is.
pub record Same (c c' : Chunk) : Type 0 where
  pub entry : c'.entry ≡ c.entry
  pub buddy : c'.buddy_tree ≡ c.buddy_tree
  pub sizes : c'.reg_size_small_medium ≡ c.reg_size_small_medium

Same-Kept : (level : ℕ) (a b c : Chunk) → Kept level a b → Same b c → Same a c
Same-Kept level a b c k s = record {
  entry = s.entry ∙ k.entry;
  buddy = s.buddy ∙ k.buddy;
  sizes = s.sizes ∙ k.sizes;
}

up_round :
    (fuel idx level : ℕ) (c : Chunk) (node : JumpNode)
    → (up_loop (suc fuel) node idx level c ≡ some c)
      ⊎ (((node.next ≡ 0) → (node.prev ≡ 0) → c.jump_tree_first_index level ≡ idx)
          × (up_loop (suc fuel) node idx level c ≡ (
              let c' = unlink_node node idx level c in
              up_loop fuel (get_jt_item c'.jump_tree (idx / 2)) (idx / 2) (sub32 level 1) c')))
unfolding up_loop
up_round fuel idx level c node =
    elim (Bool-cases
      ((not (node.next == 0) || not (node.prev == 0)) || (c.jump_tree_first_index level == idx))) [
        | inl e ↦ inr (λ n p. ground arith, rw e refl)
        | inr e ↦ inl (rw e refl)
      ]

pub up_loop-Same :
    (fuel level idx : ℕ) (c : Chunk)
    → level < fuel
    → level < 12
    → 2 ^ level ≤ idx
    → idx < 2 ^ suc level
    → Linked level c
    → (c' : Chunk) × (up_loop fuel (get_jt_item c.jump_tree idx) idx level c ≡ some c') × Same c c'
up_loop-Same zero level idx c f l p lt v = absurd (omega arith)
up_loop-Same (suc fuel) zero idx c f l p lt v =
    elim (up_round fuel idx 0 c (get_jt_item c.jump_tree idx)) [
      | inl e ↦ (c, e, record { entry = refl; buddy = refl; sizes = refl })
      | inr (h, e) ↦ absurd (
          let one : idx ≡ 1 = omega arith in
          let at : get_jt_item c.jump_tree idx ≡ c.jump_tree 0 =
            ap (get_jt_item c.jump_tree) one ∙ item-at c.jump_tree 1 (omega arith) (omega arith) in
          let first = h (ap (λ x. x.next) at ∙ v.root.1) (ap (λ x. x.prev) at ∙ v.root.0) in
          let none_first = v.first_root in omega arith)
    ]
up_loop-Same (suc fuel) (suc level) idx c f l p lt v =
    elim (up_round fuel idx (suc level) c (get_jt_item c.jump_tree idx)) [
      | inl e ↦ (c, e, record { entry = refl; buddy = refl; sizes = refl })
      | inr (h, e) ↦
          let node = get_jt_item c.jump_tree idx in
          let c' = unlink_node node idx (suc level) c in
          let two = pow-suc 2 (suc level) in
          let two' = pow-suc 2 level in
          let pos = pow2_le 0 level (omega arith) in
          let most = pow2_le (suc (suc level)) 12 (omega arith) in
          let at = item-at c.jump_tree idx (omega arith) (omega arith) in
          let short : node.next < 2 ^ 16 = rw at (v.short (idx - 1) (omega arith)) in
          let back : 2 ^ suc level + node.prev ≤ idx = rw at (
            let b = v.back (suc level) (idx - 1) (omega arith) (omega arith) (omega arith) in
            omega arith) in
          let k = unlink_node-Kept node idx (suc level) c p (omega arith) short back in
          let (c'', q, s) =
            up_loop-Same fuel level (idx / 2) c' (omega arith) (omega arith) (omega arith)
              (omega arith) (Linked-Kept level c c' v k) in
          (
            c'',
            e
                ∙ (ap (λ x. up_loop fuel (get_jt_item c'.jump_tree (idx / 2)) (idx / 2) x c')
                      (sub32-one level (omega arith))
                    ∙ q),
            Same-Kept (suc level) c c' c'' k s,
          )
    ]
