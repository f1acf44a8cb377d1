-- ===== src/Chunk/Jumps/Step.antt =====
-- A block of free nodes leaves its level of the jump tree: all levels are in order again.
use sealloc.Base.{
  ℕ, suc, ◌+◌, ◌^◌, ◌≤◌, ◌<◌, ◌≡◌, ◌≢◌, ◌∙◌, ap, sym, subst, true, List, arith, inl, inr, ◌⊎◌,
  eq-cases, ltb, Bool-cases, length,
}
use native.Mathlib.Nat.{pow-suc}
use sealloc.Chunk.{Chunk}
use sealloc.Chunk.Climb.{pow2_le}
use sealloc.Chunk.Jumps.{Nodes, free, head_or, Seg, row, Level, free-agree}
use sealloc.Chunk.Jumps.Relink.{Seg-agree}
use sealloc.Chunk.Jumps.Remove.{
  remove, before, after, before-cases, after-cases, remove-outside, length-free,
}
use sealloc.Chunk.Jumps.Blocks.{
  block-head, block-ends, block-neighbours, block-alone, remove-Seg, remove-length, remove-head,
}
use sealloc.Chunk.Jumps.Skip.{Block, Skipped}

-- The nodes of two levels.
levels-apart :
    (l level i : ℕ)
    → l ≢ level
    → 2 ^ l ≤ i
    → i < 2 ^ l + 2 ^ l
    → (i < 2 ^ level) ⊎ (2 ^ level + 2 ^ level ≤ i)
levels-apart l level i n p q = elim (Bool-cases (ltb l level)) [
  | inl e ↦
      inl (let most = pow2_le (suc l) level (ground arith) in let two = pow-suc 2 l in omega arith)
  | inr e ↦
      inr (
        let most = pow2_le (suc level) l (ground arith) in let two = pow-suc 2 level in omega arith)
]

-- The block is that of the nodes `2 ^ level + n` .. `2 ^ level + n + m`, ahead of `k` more.
module _ (s : Nodes) (level n m k : ℕ) (c : Chunk) (in_tree : level < 12)
    (all : n + (suc m + k) ≡ 2 ^ level)
    (block : (i : ℕ) → 2 ^ level + n ≤ i → i ≤ 2 ^ level + n + m → s i ≡ true) where
  abbrev pub u_of : ℕ
  u_of = before s (2 ^ level) n

  abbrev pub v_of : ℕ
  v_of = after s (2 ^ level + n + suc m) k

  pos : 0 < 2 ^ level
  pos = pow2_le 0 level (omega arith)

  most : 2 ^ level ≤ 2048
  most = pow2_le level 11 (omega arith)

  whole : Level s level c → Seg c.jump_tree 0 (free s (2 ^ level) (n + (suc m + k))) 0
  whole l = subst (λ (t : ℕ). Seg c.jump_tree 0 (free s (2 ^ level) t) 0) (sym all) l.links

  counted : length (free s (2 ^ level) (n + (suc m + k))) ≡ length (row s level)
  counted = ap (λ (t : ℕ). length (free s (2 ^ level) t)) all

  pub Block-Block :
      Level s level c → Block c.jump_tree (2 ^ level + n) (2 ^ level + n + m) u_of v_of
  Block-Block l =
      let ends = block-ends s (2 ^ level) n m k pos block c.jump_tree (whole l) in
      let sides = block-neighbours s (2 ^ level) n m k pos block c.jump_tree (whole l) in
      record {
        pos = omega (arith, pos);
        order = omega arith;
        inside = omega (arith, most, all);
        left = elim (before-cases s (2 ^ level) n) [
          | inl e ↦ omega (arith, pos)
          | inr (a, b, _) ↦ b
        ];
        right = elim (after-cases s (2 ^ level + n + suc m) k) [
          | inl e ↦ inl e
          | inr (a, b, _) ↦ inr (omega arith, omega (arith, most, all))
        ];
        prev_a = ends.0;
        next_b = ends.1;
        next_u = sides.0;
        prev_v = sides.1;
      }

  -- The block starts the level when no free node is ahead of it.
  pub block-first : Level s level c → u_of ≡ 0 → c.jump_tree_first_index level ≡ 2 ^ level + n
  block-first l e =
      l.first
      ∙ sym (ap (λ (t : ℕ). head_or (free s (2 ^ level) t) 0) all)
      ∙ block-head s (2 ^ level) n m k pos block e

  pub block-count :
      Level s level c
      → (suc m ≤ c.avail_nodes_count level)
        × (c.avail_nodes_count level < 4096)
        × (c.avail_nodes_count level ≡ suc m → (u_of ≡ 0) × (v_of ≡ 0))
        × (u_of ≡ 0 → v_of ≡ 0 → c.avail_nodes_count level ≡ suc m)
  block-count l =
      let at = l.count in
      let alone = block-alone s (2 ^ level) n m k pos block in
      (
        omega (arith, counted, remove-length s (2 ^ level) n m k pos block),
        omega (arith, length-free s (2 ^ level) (2 ^ level), most),
        λ e. alone.0 (omega (arith, counted)),
        λ eu ev. at ∙ sym counted ∙ alone.1 eu ev,
      )

  -- The nodes without the block.
  abbrev pub left_over : Nodes
  left_over = remove s (2 ^ level + n) (2 ^ level + n + m)

  pub Skipped-Level :
      (c' : Chunk)
      → Skipped level (2 ^ level + n) (2 ^ level + n + m) u_of v_of c c'
      → Level s level c
      → Level left_over level c'
  Skipped-Level c' k' l =
      let heads = remove-head s (2 ^ level) n m k pos block in
      let same = ap (λ (t : ℕ). head_or (free left_over (2 ^ level) t) 0) all in
      let same' = ap (λ (t : ℕ). head_or (free s (2 ^ level) t) 0) all in
      record {
        links =
            subst (λ (t : ℕ). Seg c'.jump_tree 0 (free left_over (2 ^ level) t) 0) all
              (remove-Seg s (2 ^ level) n m k pos block c.jump_tree c'.jump_tree k'.relinked
                (whole l));
        first = elim (eq-cases u_of 0) [
          | inl e ↦ k'.first_moved e ∙ sym (heads.0 e) ∙ same
          | inr ne ↦ k'.first_kept ne ∙ l.first ∙ sym same' ∙ sym (heads.1 ne) ∙ same
        ];
        count = omega (
          arith,
          counted,
          remove-length s (2 ^ level) n m k pos block,
          ap (λ (t : ℕ). length (free left_over (2 ^ level) t)) all,
        );
      }

  -- Another level has neither the block nor its neighbours.
  module _ (i : ℕ) (else_where : (i < 2 ^ level) ⊎ (2 ^ level + 2 ^ level ≤ i)) where
    off-block : (i < 2 ^ level + n) ⊎ (2 ^ level + n + m < i)
    off-block = elim else_where [ inl h ↦ inl (omega arith) | inr h ↦ inr (omega (arith, all)) ]

    off-u : 0 < i → i ≢ u_of
    off-u p e = elim else_where [
      | inl h ↦ elim (before-cases s (2 ^ level) n) [
        | inl z ↦ omega arith
        | inr (a, b, _) ↦ omega arith
      ]
      | inr h ↦ elim (before-cases s (2 ^ level) n) [
        | inl z ↦ omega arith
        | inr (a, b, _) ↦ omega (arith, all)
      ]
    ]

    off-v : 0 < i → i ≢ v_of
    off-v p e = elim else_where [
      | inl h ↦ elim (after-cases s (2 ^ level + n + suc m) k) [
        | inl z ↦ omega arith
        | inr (a, b, _) ↦ omega arith
      ]
      | inr h ↦ elim (after-cases s (2 ^ level + n + suc m) k) [
        | inl z ↦ omega arith
        | inr (a, b, _) ↦ omega (arith, all)
      ]
    ]

  pub other-Level :
      (c' : Chunk) (l : ℕ)
      → Skipped level (2 ^ level + n) (2 ^ level + n + m) u_of v_of c c'
      → l ≢ level
      → Level s l c
      → Level left_over l c'
  other-Level c' l k' ne v =
      let at = λ (i : ℕ) (p : 2 ^ l ≤ i) (q : i < 2 ^ l + 2 ^ l). levels-apart l level i ne p q in
      let gt = λ (i : ℕ) (p : 2 ^ l ≤ i). pow2_le 0 l (omega arith) in
      let same = free-agree s left_over (2 ^ l) (2 ^ l) (λ i p q.
        remove-outside s (2 ^ level + n) (2 ^ level + n + m) i (off-block i (at i p q))) in
      record {
        links =
            subst (λ (xs : List ℕ). Seg c'.jump_tree 0 xs 0) (sym same)
              (Seg-agree s c.jump_tree c'.jump_tree (2 ^ l) (2 ^ l) 0 0
                (λ i p q _.
                  k'.relinked.next_same i (omega (arith, gt i p)) (off-block i (at i p q))
                    (off-u i (at i p q) (omega (arith, gt i p))))
                (λ i p q _.
                  k'.relinked.prev_same i (omega (arith, gt i p)) (off-block i (at i p q))
                    (off-v i (at i p q) (omega (arith, gt i p))))
                v.links);
        first = k'.first_other l ne ∙ v.first ∙ sym (ap (λ (xs : List ℕ). head_or xs 0) same);
        count = k'.count_other l ne ∙ v.count ∙ sym (ap (λ (xs : List ℕ). length xs) same);
      }
