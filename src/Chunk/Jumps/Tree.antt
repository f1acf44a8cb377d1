-- ===== src/Chunk/Jumps/Tree.antt =====
-- The whole jump tree of src/chunk.c: every level links exactly its free nodes, and the other nodes hold
-- nothing.
use sealloc.Base.{
  ℕ, suc, ◌+◌, ◌-◌, ◌^◌, ◌≤◌, ◌<◌, ◌≡◌, ◌≢◌, ◌∙◌, ap, sym, subst, true, false, arith, inl, inr, ◌⊎◌,
  eq-cases, Bool-cases, Cells, Bool, ltb,
}
use native.Mathlib.Nat.{pow-suc}
use sealloc.Chunk.{Chunk, JumpNode, get_jt_item}
use sealloc.Chunk.Climb.{pow2_le}
use sealloc.Chunk.Allocate.{unlink_node, link_neighbours, skip_level}
use sealloc.Chunk.Jumps.{Nodes, Level, from}
use sealloc.Chunk.Jumps.Remove.{remove, remove-outside, before, after, before-cases, after-cases}
use sealloc.Chunk.Jumps.Skip.{Block, Skipped, skip_level-Skipped}
use sealloc.Chunk.Jumps.Unlink.{unlink_node-Skipped, clear_node-zero}
use sealloc.Chunk.Jumps.Step.{Block-Block, block-count, block-first, Skipped-Level, other-Level}

abbrev pub Levels : Nodes → Chunk → Type 0
Levels s c = (l : ℕ) → l < 12 → Level s l c

-- A node that is not free holds no distances.
abbrev pub Zeros : Nodes → Cells JumpNode → Type 0
Zeros s jt =
    (i : ℕ) → 0 < i → i < 4096 → s i ≡ false → ((jt (i - 1)).prev ≡ 0) × ((jt (i - 1)).next ≡ 0)

pub range-cases : (a b i : ℕ) → ((a ≤ i) × (i ≤ b)) ⊎ ((i < a) ⊎ (b < i))
range-cases a b i = elim (Bool-cases (ltb i a)) [
  | inl h ↦ inr (inl (ground arith))
  | inr h ↦ elim (Bool-cases (ltb b i)) [
    | inl g ↦ inr (inr (ground arith))
    | inr g ↦ inl (ground arith, ground arith)
  ]
]

-- What a block of the nodes `2 ^ level + n` .. `2 ^ level + n + m` leaves behind.
module _ (s : Nodes) (level n m k : ℕ) (c c' : Chunk) (in_tree : level < 12)
    (all : n + (suc m + k) ≡ 2 ^ level)
    (block : (i : ℕ) → 2 ^ level + n ≤ i → i ≤ 2 ^ level + n + m → s i ≡ true)
    (skipped : Skipped level
      (2 ^ level + n)
      (2 ^ level + n + m)
      (before s (2 ^ level) n)
      (after s (2 ^ level + n + suc m) k)
      c
      c') where
  block-Levels : Levels s c → Levels (remove s (2 ^ level + n) (2 ^ level + n + m)) c'
  block-Levels v l h = elim (eq-cases l level) [
    | inl e ↦
        subst (λ (x : ℕ). Level (remove s (2 ^ level + n) (2 ^ level + n + m)) x c') (sym e)
          (Skipped-Level s level n m k c in_tree all block c' skipped (v level in_tree))
    | inr ne ↦ other-Level s level n m k c in_tree all block c' l skipped ne (v l h)
  ]

  -- A node that was not free, outside the block, holds what it did.
  block-same :
      (i : ℕ)
      → 0 < i
      → s i ≡ false
      → ((c'.jump_tree (i - 1)).prev ≡ (c.jump_tree (i - 1)).prev)
        × ((c'.jump_tree (i - 1)).next ≡ (c.jump_tree (i - 1)).next)
  block-same i p e =
      (skipped.relinked.prev_same i p apart not_v, skipped.relinked.next_same i p apart not_u)
    where
      apart : (i < 2 ^ level + n) ⊎ (2 ^ level + n + m < i)
      apart = elim (range-cases (2 ^ level + n) (2 ^ level + n + m) i) [
        | inl (a, b) ↦ absurd (let t = block i a b in cc)
        | inr o ↦ o
      ]

      not_u : i ≢ before s (2 ^ level) n
      not_u q = elim (before-cases s (2 ^ level) n) [ inl z ↦ omega arith | inr (_, _, t) ↦ cc ]

      not_v : i ≢ after s (2 ^ level + n + suc m) k
      not_v q = elim (after-cases s (2 ^ level + n + suc m) k) [
        | inl z ↦ omega arith
        | inr (_, _, t) ↦ cc
      ]

pub apart : (i a : ℕ) → i ≢ a → (i < a) ⊎ (a < i)
apart i a n = elim (Bool-cases (ltb i a)) [
  | inl h ↦ inl (ground arith)
  | inr h ↦ inr (ground arith)
]

-- The state after unlink_node on a free node.
pub record Unlinked (s : Nodes) (level idx : ℕ) (c : Chunk) : Type 0 where
  pub levels : Levels (remove s idx idx) (unlink_node (get_jt_item c.jump_tree idx) idx level c)
  pub zeros :
      Zeros (remove s idx idx) (unlink_node (get_jt_item c.jump_tree idx) idx level c).jump_tree

Unlinked-at :
    (s : Nodes) (level n : ℕ) (c : Chunk)
    → level < 12
    → n < 2 ^ level
    → s (2 ^ level + n) ≡ true
    → Levels s c
    → Zeros s c.jump_tree
    → Unlinked s level (2 ^ level + n) c
unfolding unlink_node
Unlinked-at s level n c l h t v z =
    let a = 2 ^ level + n in
    let k = 2 ^ level - n - 1 in
    let all : n + (suc 0 + k) ≡ 2 ^ level = omega arith in
    let same : a + 0 ≡ a = omega arith in
    let most = pow2_le level 11 (omega arith) in
    let block : (i : ℕ) → a ≤ i → i ≤ a + 0 → s i ≡ true =
      λ i p q. let e : i ≡ a = omega arith in ap s e ∙ t in
    let u = before s (2 ^ level) n in
    let w = after s (2 ^ level + n + suc 0) k in
    let b =
      subst (λ (x : ℕ). Block c.jump_tree a x u w) same
        (Block-Block s level n 0 k c l all block (v level l)) in
    let (some_left, few, alone, alone') = block-count s level n 0 k c l all block (v level l) in
    let sk =
      subst (λ (x : ℕ). Skipped level a x u w c (unlink_node (get_jt_item c.jump_tree a) a level c))
        (sym same)
        (unlink_node-Skipped level a u w c b (omega arith) few (λ e. alone (omega arith))
          (λ x y. omega (arith, alone' x y))) in
    record {
      levels =
          subst
            (λ (x : ℕ). Levels (remove s a x) (unlink_node (get_jt_item c.jump_tree a) a level c))
            same (block-Levels s level n 0 k c _ l all block sk v);
      zeros = λ i p q e. elim (eq-cases i a) [
        | inl at ↦
            subst
              (λ (x : ℕ).
                (((unlink_node (get_jt_item c.jump_tree a) a level c).jump_tree (x - 1)).prev ≡ 0)
                × (((unlink_node (get_jt_item c.jump_tree a) a level c).jump_tree (x - 1)).next
                    ≡ 0))
              (sym at)
              (clear_node-zero a level (link_neighbours (get_jt_item c.jump_tree a) a level c)
                (omega arith) (omega arith))
        | inr off ↦
            let not_free = sym (remove-outside s a a i (apart i a off)) ∙ e in
            let (x, y) = block-same s level n 0 k c _ l all block sk i p not_free in
            let (x', y') = z i p q not_free in (x ∙ x', y ∙ y')
      ];
    }

pub unlink_node_lem :
    (s : Nodes) (level idx : ℕ) (c : Chunk)
    → level < 12
    → 2 ^ level ≤ idx
    → idx < 2 ^ suc level
    → s idx ≡ true
    → Levels s c
    → Zeros s c.jump_tree
    → Unlinked s level idx c
unlink_node_lem s level idx c l p q t v z =
    let two = pow-suc 2 level in
    let e : 2 ^ level + (idx - 2 ^ level) ≡ idx = omega arith in
    subst (λ (x : ℕ). Unlinked s level x c) e
      (Unlinked-at s level (idx - 2 ^ level) c l (omega arith) (ap s e ∙ t) v z)

-- What tells a free node apart: it holds a distance, or it is the first of its level.
first_at :
    (s : Nodes) (level n : ℕ) (c : Chunk)
    → level < 12
    → n < 2 ^ level
    → s (2 ^ level + n) ≡ true
    → Level s level c
    → (c.jump_tree (2 ^ level + n - 1)).prev ≡ 0
    → c.jump_tree_first_index level ≡ 2 ^ level + n
first_at s level n c l h t v e =
    let a = 2 ^ level + n in
    let k = 2 ^ level - n - 1 in
    let all : n + (suc 0 + k) ≡ 2 ^ level = omega arith in
    let block : (i : ℕ) → a ≤ i → i ≤ a + 0 → s i ≡ true =
      λ i p q. let e : i ≡ a = omega arith in ap s e ∙ t in
    let b = Block-Block s level n 0 k c l all block v in
    block-first s level n 0 k c l all block v
      (behind (before s (2 ^ level) n) a b.left (sym b.prev_a ∙ e))
  where
    behind : (u a : ℕ) → u < a → from u a ≡ 0 → u ≡ 0
    behind u a h e = ground arith

pub first_lem :
    (s : Nodes) (level idx : ℕ) (c : Chunk)
    → level < 12
    → 2 ^ level ≤ idx
    → idx < 2 ^ suc level
    → s idx ≡ true
    → Level s level c
    → (c.jump_tree (idx - 1)).prev ≡ 0
    → c.jump_tree_first_index level ≡ idx
first_lem s level idx c l p q t v e =
    let two = pow-suc 2 level in
    let at : 2 ^ level + (idx - 2 ^ level) ≡ idx = omega arith in
    first_at s level (idx - 2 ^ level) c l (omega arith) (ap s at ∙ t) v
      (ap (λ (x : ℕ). (c.jump_tree (x - 1)).prev) at ∙ e)
    ∙ at

-- The state after skip_level on a block of free nodes.
pub record Skips (s q : Nodes) (level a b : ℕ) (c : Chunk) : Type 0 where
  pub levels : Levels (remove s a b) (skip_level level a b (suc (b - a)) c)
  pub zeros : Zeros q (skip_level level a b (suc (b - a)) c).jump_tree

Skips-at :
    (s q : Nodes) (level n m : ℕ) (c : Chunk)
    → level < 12
    → n + m < 2 ^ level
    → ((i : ℕ) → 2 ^ level + n ≤ i → i ≤ 2 ^ level + n + m → s i ≡ true)
    → ((i : ℕ) → s i ≡ true → q i ≡ true)
    → Levels s c
    → Zeros q c.jump_tree
    → Skips s q level (2 ^ level + n) (2 ^ level + n + m) c
Skips-at s q level n m c l h block sub v z =
    let a = 2 ^ level + n in
    let k = 2 ^ level - (n + m) - 1 in
    let all : n + (suc m + k) ≡ 2 ^ level = omega arith in
    let b = Block-Block s level n m k c l all block (v level l) in
    let (enough, few, _, _) = block-count s level n m k c l all block (v level l) in
    let sk = skip_level-Skipped level a (a + m) _ _ c b (omega arith) few in
    record {
      levels = block-Levels s level n m k c _ l all block sk v;
      zeros = λ i p lt e.
          let not_free = sub-false (sub i) e in
          let (x, y) = block-same s level n m k c _ l all block sk i p not_free in
          let (x', y') = z i p lt e in (x ∙ x', y ∙ y');
    }
  where
    sub-false : {x y : Bool} → (x ≡ true → y ≡ true) → y ≡ false → x ≡ false
    sub-false {x} {y} f e = elim (Bool-cases x) [ inl t ↦ absurd (let u = f t in cc) | inr n ↦ n ]

pub skip_level_lem :
    (s q : Nodes) (level a b : ℕ) (c : Chunk)
    → level < 12
    → 2 ^ level ≤ a
    → a ≤ b
    → b < 2 ^ suc level
    → ((i : ℕ) → a ≤ i → i ≤ b → s i ≡ true)
    → ((i : ℕ) → s i ≡ true → q i ≡ true)
    → Levels s c
    → Zeros q c.jump_tree
    → Skips s q level a b c
skip_level_lem s q level a b c l p o lt block sub v z =
    let two = pow-suc 2 level in
    let at : 2 ^ level + (a - 2 ^ level) ≡ a = omega arith in
    let at' : 2 ^ level + (a - 2 ^ level) + (b - a) ≡ b = omega arith in
    subst (λ (x : ℕ). Skips s q level a x c) at'
      (subst (λ (x : ℕ). Skips s q level x (2 ^ level + (a - 2 ^ level) + (b - a)) c) at
        (Skips-at s q level (a - 2 ^ level) (b - a) c l (omega arith)
          (λ i x y. block i (omega arith) (omega arith)) sub v z))
