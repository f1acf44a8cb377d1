-- ===== src/Chunk/Jumps/Blocks.antt =====
-- A block of free nodes leaves the links of its level.
use sealloc.Base.{
  ℕ, suc, ◌+◌, ◌-◌, ◌≤◌, ◌<◌, ◌≡◌, ◌≢◌, refl, ◌∙◌, ap, sym, subst, true, List, ◌++◌, Cells, arith,
  inl, inr, length,
}
use sealloc.Chunk.{JumpNode}
use sealloc.Chunk.Jumps.{
  Nodes, free, head_or, last_or, from, to, Seg, Seg-append, append-Seg, free-take, free-append,
  free-agree, free-none, last-free, head-free,
}
use sealloc.Chunk.Jumps.Relink.{Relinked, Seg-start, Seg-end}
use sealloc.Chunk.Jumps.Remove.{
  remove, before, after, before-cases, after-cases, remove-outside, remove-inside, heads, heads,
  length-zero, length-zero, length-append, length-append, block_last, block_length, block_ends,
  last_next, head_prev,
}

-- `n` nodes from `lo` on, then the block `a` .. `a + m`, then `k` nodes.
module _ (s : Nodes) (lo n m k : ℕ) (pos : 0 < lo)
    (block : (i : ℕ) → lo + n ≤ i → i ≤ lo + n + m → s i ≡ true) where
  parts :
      free s lo (n + (suc m + k))
      ≡ free s lo n ++ (free s (lo + n) (suc m) ++ free s (lo + n + suc m) k)
  parts =
      free-append s lo n (suc m + k)
      ∙ ap (λ (xs : List ℕ). free s lo n ++ xs) (free-append s (lo + n) (suc m) k)

  first_of : (xs : List ℕ) (d : ℕ) → head_or (free s (lo + n) (suc m) ++ xs) d ≡ lo + n
  first_of xs d =
      ap (λ (ys : List ℕ). head_or (ys ++ xs) d)
        (free-take s (lo + n) m (block (lo + n) (omega arith) (omega arith)))

  left_parts :
      free (remove s (lo + n) (lo + n + m)) lo (n + (suc m + k))
      ≡ free s lo n ++ free s (lo + n + suc m) k
  left_parts =
      let t = remove s (lo + n) (lo + n + m) in
      free-append t lo n (suc m + k)
      ∙ ap (λ (xs : List ℕ). free t lo n ++ xs) (free-append t (lo + n) (suc m) k)
      ∙ rw
          (
            free-agree s t lo n (λ i x y. remove-outside s (lo + n) (lo + n + m) i (inl y)),
            free-none t (lo + n) (suc m)
                (λ i x y. remove-inside s (lo + n) (lo + n + m) i x (omega arith)),
            free-agree s t (lo + n + suc m) k
                (λ i x y. remove-outside s (lo + n) (lo + n + m) i (inr (omega arith))),
          )
          refl

  -- The links in their three parts.
  split :
      (jt : Cells JumpNode)
      → Seg jt 0 (free s lo (n + (suc m + k))) 0
      → Seg jt 0 (free s lo n) (lo + n)
        × Seg jt (before s lo n) (free s (lo + n) (suc m)) (after s (lo + n + suc m) k)
        × Seg jt (lo + n + m) (free s (lo + n + suc m) k) 0
  split jt h =
      let (front, rest) =
        Seg-append jt 0 (free s lo n) _ 0 (subst (λ (xs : List ℕ). Seg jt 0 xs 0) parts h) in
      let (mid, back) = Seg-append jt (before s lo n) (free s (lo + n) (suc m)) _ 0 rest in
      (
        subst (λ (x : ℕ). Seg jt 0 (free s lo n) x) (first_of (free s (lo + n + suc m) k) 0) front,
        mid,
        subst (λ (x : ℕ). Seg jt x (free s (lo + n + suc m) k) 0)
            (block_last s (lo + n) m (before s lo n) block) back,
      )

  -- What the ends of the block hold.
  pub block-ends :
      (jt : Cells JumpNode)
      → Seg jt 0 (free s lo (n + (suc m + k))) 0
      → ((jt (lo + n - 1)).prev ≡ from (before s lo n) (lo + n))
        × ((jt (lo + n + m - 1)).next ≡ to (lo + n + m) (after s (lo + n + suc m) k))
  block-ends jt h = block_ends s jt (lo + n) m _ _ block (split jt h).1

  pub block-head : before s lo n ≡ 0 → head_or (free s lo (n + (suc m + k))) 0 ≡ lo + n
  block-head e = ap (λ (xs : List ℕ). head_or xs 0) parts ∙ elim (last-free s lo n 0) [
    | inl z ↦
        ap
          (λ (xs : List ℕ).
            head_or (xs ++ (free s (lo + n) (suc m) ++ free s (lo + n + suc m) k)) 0)
          z
        ∙ first_of (free s (lo + n + suc m) k) 0
    | inr (a, b, _) ↦ absurd (omega arith)
  ]

  -- What the free nodes beside the block hold.
  pub block-neighbours :
      (jt : Cells JumpNode)
      → Seg jt 0 (free s lo (n + (suc m + k))) 0
      → (before s lo n ≢ 0 → (jt (before s lo n - 1)).next ≡ to (before s lo n) (lo + n))
        × (after s (lo + n + suc m) k ≢ 0
            → (jt (after s (lo + n + suc m) k - 1)).prev
              ≡ from (lo + n + m) (after s (lo + n + suc m) k))
  block-neighbours jt h =
      let (front, _, back) = split jt h in
      (
        λ ne. last_next jt 0 (free s lo n) (lo + n) ne front,
        λ ne. head_prev jt (lo + n + m) (free s (lo + n + suc m) k) 0 ne back,
      )

  -- The block has no neighbours exactly when it is all that is free.
  pub block-alone :
      (length (free s lo (n + (suc m + k))) ≡ suc m
        → (before s lo n ≡ 0) × (after s (lo + n + suc m) k ≡ 0))
      × (before s lo n ≡ 0
          → after s (lo + n + suc m) k ≡ 0
          → length (free s lo (n + (suc m + k))) ≡ suc m)
  block-alone = (
    λ e. (
      ap (λ (xs : List ℕ). last_or xs 0)
          (length-zero (free s lo n) (omega (arith, parts_length, e))),
      ap (λ (xs : List ℕ). head_or xs 0)
          (length-zero (free s (lo + n + suc m) k) (omega (arith, parts_length, e))),
    ),
    λ eu ev. omega (arith, parts_length, left_none eu, right_none ev),
  )
    where
      parts_length :
          length (free s lo (n + (suc m + k)))
          ≡ length (free s lo n) + (suc m + length (free s (lo + n + suc m) k))
      parts_length =
          ap (λ (xs : List ℕ). length xs) parts
          ∙ length-append (free s lo n) (free s (lo + n) (suc m) ++ free s (lo + n + suc m) k)
          ∙ omega (
            arith,
            length-append (free s (lo + n) (suc m)) (free s (lo + n + suc m) k),
            block_length s (lo + n) (suc m) (λ i x y. block i x (omega arith)),
          )

      left_none : before s lo n ≡ 0 → length (free s lo n) ≡ 0
      left_none e = elim (last-free s lo n 0) [
        | inl z ↦ ap (λ (xs : List ℕ). length xs) z
        | inr (a, b, _) ↦ absurd (omega arith)
      ]

      right_none : after s (lo + n + suc m) k ≡ 0 → length (free s (lo + n + suc m) k) ≡ 0
      right_none e = elim (head-free s (lo + n + suc m) k) [
        | inl z ↦ ap (λ (xs : List ℕ). length xs) z
        | inr (a, b, _) ↦ absurd (omega arith)
      ]

  pub remove-Seg :
      (jt jt' : Cells JumpNode)
      → Relinked jt jt' (lo + n) (lo + n + m) (before s lo n) (after s (lo + n + suc m) k)
      → Seg jt 0 (free s lo (n + (suc m + k))) 0
      → Seg jt' 0 (free (remove s (lo + n) (lo + n + m)) lo (n + (suc m + k))) 0
  remove-Seg jt jt' r h =
      let u = before s lo n in
      let v = after s (lo + n + suc m) k in
      let (front, _, back) = split jt h in
      subst (λ (xs : List ℕ). Seg jt' 0 xs 0) (sym left_parts)
        (append-Seg jt' 0 (free s lo n) (free s (lo + n + suc m) k) 0
          (Seg-end s jt jt' lo n 0 (lo + n) v
            (λ i x y e.
              subst (λ (j : ℕ). (jt' (j - 1)).next ≡ to j v) (sym e) (r.next_u (omega arith)))
            (λ i x y ne. r.next_same i (omega arith) (inl y) ne)
            (λ i x y. r.prev_same i (omega arith) (inl y) (behind i x y)) front)
          (Seg-start s jt jt' (lo + n + suc m) k (lo + n + m) u 0
            (λ i x y e.
              subst (λ (j : ℕ). (jt' (j - 1)).prev ≡ from u j) (sym e) (r.prev_v (omega arith)))
            (λ i x y ne. r.prev_same i (omega arith) (inr (omega arith)) ne)
            (λ i x y. r.next_same i (omega arith) (inr (omega arith)) (ahead i x)) back))
    where
      behind : (i : ℕ) → lo ≤ i → i < lo + n → i ≢ after s (lo + n + suc m) k
      behind i x y e = elim (after-cases s (lo + n + suc m) k) [
        | inl z ↦ omega arith
        | inr (a, b, _) ↦ omega arith
      ]

      ahead : (i : ℕ) → lo + n + suc m ≤ i → i ≢ before s lo n
      ahead i x e = elim (before-cases s lo n) [ inl z ↦ omega arith | inr (a, b, _) ↦ omega arith ]

  pub remove-length :
      length (free s lo (n + (suc m + k)))
      ≡ length (free (remove s (lo + n) (lo + n + m)) lo (n + (suc m + k))) + suc m
  remove-length =
      ap (λ (xs : List ℕ). length xs) parts
      ∙ length-append (free s lo n) (free s (lo + n) (suc m) ++ free s (lo + n + suc m) k)
      ∙ omega (
        arith,
        length-append (free s (lo + n) (suc m)) (free s (lo + n + suc m) k),
        block_length s (lo + n) (suc m) (λ i x y. block i x (omega arith)),
        ap (λ (xs : List ℕ). length xs) left_parts,
        length-append (free s lo n) (free s (lo + n + suc m) k),
      )

  pub remove-head :
      (before s lo n ≡ 0
        → head_or (free (remove s (lo + n) (lo + n + m)) lo (n + (suc m + k))) 0
          ≡ after s (lo + n + suc m) k)
      × (before s lo n ≢ 0
          → head_or (free (remove s (lo + n) (lo + n + m)) lo (n + (suc m + k))) 0
            ≡ head_or (free s lo (n + (suc m + k))) 0)
  remove-head = (
    λ e. ap (λ (xs : List ℕ). head_or xs 0) left_parts ∙ elim (last-free s lo n 0) [
      | inl z ↦ ap (λ (xs : List ℕ). head_or (xs ++ free s (lo + n + suc m) k) 0) z
      | inr (a, b, _) ↦ absurd (omega arith)
    ],
    λ ne.
        ap (λ (xs : List ℕ). head_or xs 0) left_parts
        ∙ heads (free s lo n) _ (free s (lo + n) (suc m) ++ free s (lo + n + suc m) k) ne
        ∙ sym (ap (λ (xs : List ℕ). head_or xs 0) parts),
  )
