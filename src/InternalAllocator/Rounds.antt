-- ===== src/InternalAllocator/Rounds.antt =====
-- The rounds of internal_alloc in src/internal_allocator.c on the way down, at a leaf and at an inner node.
use sealloc.Base.{
  ℕ, zero, suc, ◌+◌, ◌*◌, ◌/◌, ◌^◌, ◌≤◌, ◌<◌, ◌≡◌, ◌≢◌, refl, ◌⊎◌, inl, inr, true, Bool-cases,
  Cells, ◌==◌, arith,
}
use sealloc.Bitmap.{get_tree_item}
use sealloc.InternalAllocator.{node_split, node_used, node_free}
use sealloc.InternalAllocator.Search.{
  down, Search, Round, returns, continues, panics, go_up, go_left, take, at_leaf, fits, split,
  at_inner, allocated, failed,
}
use sealloc.InternalAllocator.Levels.{At, At-span, At-index, At-left, pow-pos}
use sealloc.InternalAllocator.Walk.{
  Splits, then_split, Found, block, bad_leaf, at_node, Walks, downwards, up,
}

module _ (memory size : ℕ) (tree : Cells ℕ) where
  -- What a round comes to, when `n` rounds are left after it.
  pub data Stepped (n : ℕ) : Round → Type 0 where
    goes : (s : Search) → Walks memory size tree n s → Stepped n (continues s)
    stops :
        (p k : ℕ) (t : Cells ℕ)
        → Found memory size tree (allocated p k t)
        → Stepped n (returns p k t)
    breaks : Found memory size tree failed → Stepped n panics

  pub leaf-Stepped :
      (n d idx cur ptr : ℕ) (tree' : Cells ℕ)
      → Splits tree tree'
      → At memory 0 d idx cur ptr
      → size ≤ cur
      → 64 * 2 ^ 19 + 0 < suc n + 64 * (idx * 2 ^ 0)
      → Stepped n (at_leaf (at_node idx cur ptr down tree'))
  unfolding at_leaf take
  leaf-Stepped n zero idx cur ptr tree' s a le b = absurd (omega (arith, a.level))
  leaf-Stepped n (suc d) idx cur ptr tree' s a le b =
      elim (Bool-cases (get_tree_item tree' idx == node_free)) [
        | inl f ↦
            rw (f, a.size)
              (stops _ _ _ (
                block tree' 0 (suc d) idx ptr s (ground arith) (rw (← a.size) a)
                  (omega (arith, le, a.size)) (inl refl)))
        | inr nf ↦ elim (Bool-cases (get_tree_item tree' idx == node_used)) [
          | inl u ↦
              rw (nf, u)
                (goes _ (up memory size tree n 0 d idx cur ptr down tree' s a le (omega arith)))
          | inr nu ↦
              rw (nf, nu)
                (breaks (
                  bad_leaf tree' idx s (omega (arith, (At-span memory 0 (suc d) idx cur ptr a).0))
                    (At-index memory 0 (suc d) idx cur ptr a) (ground arith) (ground arith)))
        ]
      ]

  -- An inner node that the walk turns back from is not the root.
  back :
      (n m d idx cur ptr : ℕ) (tree' : Cells ℕ)
      → Splits tree tree'
      → At memory (suc m) d idx cur ptr
      → size ≤ cur
      → d ≢ 0
      → 64 * 2 ^ 19 + suc m < suc n + 64 * (idx * 2 ^ suc m)
      → Walks memory size tree n (go_up (at_node idx cur ptr down tree'))
  back n m zero idx cur ptr tree' s a le ne b = absurd (ne refl)
  back n m (suc d) idx cur ptr tree' s a le ne b =
      up memory size tree n (suc m) d idx cur ptr down tree' s a le
        (omega (arith, b, pow-pos (suc m)))

  descend :
      (n m d idx cur ptr : ℕ) (tree' : Cells ℕ)
      → Splits tree tree'
      → At memory (suc m) d idx cur ptr
      → size ≤ cur / 2
      → 64 * 2 ^ 19 + suc m < suc n + 64 * (idx * 2 ^ suc m)
      → Walks memory size tree n (go_left (at_node idx cur ptr down tree'))
  unfolding go_left
  descend n m d idx cur ptr tree' s a le b =
      let (a', e) = At-left memory m d idx cur ptr a in
      downwards m (suc d) _ _ ptr tree' s a' le (λ z. absurd (omega arith)) (omega (arith, b, e))

  tight :
      (m d idx cur ptr : ℕ)
      → At memory (suc m) d idx cur ptr
      → fits size cur ≡ true
      → 16 * 2 ^ suc m < size
  tight m d idx cur ptr a f = let e = a.size in ground arith

  pub inner-Stepped :
      (n m d idx cur ptr : ℕ) (tree' : Cells ℕ)
      → Splits tree tree'
      → At memory (suc m) d idx cur ptr
      → size ≤ cur
      → ((d ≡ 0)
          → (size ≤ cur / 2)
            × ((get_tree_item tree' idx ≡ node_free) ⊎ (get_tree_item tree' idx ≡ node_split)))
      → 64 * 2 ^ 19 + suc m < suc n + 64 * (idx * 2 ^ suc m)
      → Stepped n (at_inner size (at_node idx cur ptr down tree'))
  unfolding at_inner take
  inner-Stepped n m d idx cur ptr tree' s a le root b =
      let node = get_tree_item tree' idx in
      elim (Bool-cases (node == node_split)) [
        | inl sp ↦ elim (Bool-cases (fits size cur)) [
          | inl f ↦
              rw (sp, f)
                (goes _
                  (back n m d idx cur ptr tree' s a le (λ z. (let r = root z in ground arith)) b))
          | inr f ↦ rw (sp, f) (goes _ (descend n m d idx cur ptr tree' s a (ground arith) b))
        ]
        | inr ns ↦ elim (Bool-cases (node == node_free)) [
          | inl fr ↦ elim (Bool-cases (fits size cur)) [
            | inl f ↦
                rw (ns, fr, f)
                  (rw a.size (
                    stops _ _ _ (
                      block tree' (suc m) d idx ptr s (ground arith) (rw (← a.size) a)
                        (omega (arith, le, a.size)) (inr (tight m d idx cur ptr a f)))))
            | inr f ↦
                rw (ns, fr, f)
                  (goes _ (
                    descend n m d idx cur ptr (split tree' idx)
                      (then_split tree' idx s (ground arith)) a (ground arith) b))
          ]
          | inr nf ↦
              rw (ns, nf)
                (goes _
                  (back n m d idx cur ptr tree' s a le (λ z. (let r = root z in ground arith)) b))
        ]
      ]
