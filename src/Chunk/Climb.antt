-- ===== src/Chunk/Climb.antt =====
-- The climb from a leaf to the node of a run, in src/chunk.c: which node it finds.
use sealloc.Base.{
  ℕ, zero, suc, ◌+◌, ◌*◌, ◌/◌, ◌%◌, ◌^◌, ◌<◌, ◌≤◌, ltb, ltb→lt, ◌≡◌, ◌≢◌, ◌∙◌, sym, ap, Cells,
  arith, ◌||◌, eq-cases, ◌⊎◌, inl, inr, Bool-cases, ◌==◌,
}
use sealloc.Bitmap.{get_tree_item-lt}
use sealloc.Chunk.{is_right_child, get_buddy_tree_item, node_free, node_used}
use sealloc.Chunk.Deallocate.{climb, found, no_run}
use native.Mathlib.Nat.{pow-le-pow_right, pow-suc, add-zero}

-- A run at the node `n` whose first leaf is `k` levels below: the node is used, and the leftmost nodes
-- under it are free.
pub record RunAt (tree : Cells ℕ) (n k : ℕ) : Type 0 where
  pub used : get_buddy_tree_item tree n ≡ node_used
  pub below : (j : ℕ) → j < k → get_buddy_tree_item tree (n * 2 ^ suc j) ≡ node_free

pub shift : (n k : ℕ) → n * 2 ^ suc k ≡ n * 2 ^ k * 2
shift n k = grind (arith, pow-suc 2 k)

times_le : (n x : ℕ) → 0 < n → x ≤ n * x
times_le zero x p = absurd (omega arith)
times_le (suc n) x p = grind arith

pub pow2_le : (i j : ℕ) → i ≤ j → 2 ^ i ≤ 2 ^ j
pow2_le i j h = pow-le-pow_right {n = 2} (omega arith) {i = i} {j = j} h

pub pow2-small : (k : ℕ) → k < 12 → 2 ^ k ≤ 2 ^ 11
pow2-small k h = pow2_le k 11 (omega arith)

-- A node of the tree has fewer than twelve levels under it.
pub levels-lt : (n k : ℕ) → 0 < n → n * 2 ^ k < 4096 → k < 12
levels-lt n k p h = elim (Bool-cases (ltb k 12)) [
  | inl e ↦ ltb→lt k 12 e
  | inr e ↦ absurd (omega (arith, pow2_le 12 k (ground arith), times_le n (2 ^ k) p))
]

-- A node is not above 4095 when its first leaf is not.
pub node-lt : (n k : ℕ) → n * 2 ^ k < 4096 → n < 4096
node-lt n zero h = omega arith
node-lt n (suc k) h = node-lt n k (omega (arith, shift n k))

pub positive : (n k : ℕ) → 0 < n → 0 < n * 2 ^ k
positive n zero p = omega arith
positive n (suc k) p = omega (arith, shift n k, positive n k p)

pub climb-RunAt :
    (fuel k depth n : ℕ) (tree : Cells ℕ)
    → k < fuel
    → 0 < n
    → RunAt tree n k
    → climb fuel (n * 2 ^ k) depth tree ≡ found n (depth + k)
unfolding climb
climb-RunAt zero k depth n tree lt p r = absurd (omega arith)
climb-RunAt (suc fuel) zero depth n tree lt p r = let u = r.used in ground arith
climb-RunAt (suc fuel) (suc k) depth n tree lt p r =
    let ih =
      climb-RunAt fuel k (depth + 1) n tree (omega arith) p
        (record { used = r.used; below = λ j h. r.below j (omega arith) }) in
    let free = r.below k (omega arith) in
    let s = shift n k in
    let pos = positive n k p in
    let half : n * 2 ^ suc k / 2 ≡ n * 2 ^ k = omega arith in
    let even : n * 2 ^ suc k % 2 ≡ 0 = omega arith in
    let big : 1 < n * 2 ^ suc k = omega arith in ground arith

-- One round: the node is the run's, or there is no run, or the climb goes on from a free left child.
climb_round :
    (fuel idx depth : ℕ) (tree : Cells ℕ)
    → ((get_buddy_tree_item tree idx ≡ node_used)
        × (climb (suc fuel) idx depth tree ≡ found idx depth))
      ⊎ ((climb (suc fuel) idx depth tree ≡ no_run)
          ⊎ ((get_buddy_tree_item tree idx ≡ node_free)
              × (idx ≢ 1)
              × (idx % 2 ≡ 0)
              × (climb (suc fuel) idx depth tree ≡ climb fuel (idx / 2) (depth + 1) tree)))
unfolding climb
climb_round fuel idx depth tree =
    let small = get_tree_item-lt tree idx in
    elim (Bool-cases (get_buddy_tree_item tree idx == node_used)) [
      | inl u ↦ inl (ground arith, ground arith)
      | inr u ↦ elim (Bool-cases ((idx == 1) || is_right_child idx)) [
        | inl o ↦ inr (inl (ground arith))
        | inr o ↦ elim (Bool-cases (get_buddy_tree_item tree idx == node_free)) [
          | inl f ↦ inr (inr (ground arith, ground arith, ground arith, ground arith))
          | inr f ↦ inr (inl (ground arith))
        ]
      ]
    ]

RunAt-suc :
    (tree : Cells ℕ) (idx n k : ℕ)
    → idx ≡ n * 2 ^ suc k
    → get_buddy_tree_item tree idx ≡ node_free
    → RunAt tree n k
    → RunAt tree n (suc k)
RunAt-suc tree idx n k e f r = record {
  used = r.used;
  below = λ j h. elim (eq-cases j k) [ inl q ↦ rw (q, sym e) f | inr q ↦ r.below j (omega arith) ];
}

pub climb-found :
    (fuel idx depth : ℕ) (tree : Cells ℕ)
    → 0 < idx
    → idx < 2 ^ fuel
    → ((n : ℕ) × (k : ℕ) × (climb fuel idx depth tree ≡ found n (depth + k))
        × (idx ≡ n * 2 ^ k)
        × (0 < n)
        × RunAt tree n k)
      ⊎ (climb fuel idx depth tree ≡ no_run)
climb-found zero idx depth tree p lt = absurd (omega arith)
climb-found (suc fuel) idx depth tree p lt = elim (climb_round fuel idx depth tree) [
  | inl (u, e) ↦ inl (
    idx,
    0,
    rw (add-zero depth) e,
    omega arith,
    p,
    record { used = u; below = λ j h. absurd (omega arith) },
  )
  | inr (inl e) ↦ inr e
  | inr (inr (f, one, even, e)) ↦
      elim (climb-found fuel (idx / 2) (depth + 1) tree (omega arith)
        (omega (arith, pow-suc 2 fuel))) [
          | inl (n, k, e', q, np, r) ↦
              let idx_eq : idx ≡ n * 2 ^ suc k = omega (arith, shift n k) in
              inl (
                n,
                suc k,
                e ∙ (e' ∙ ap (found n) (omega arith)),
                idx_eq,
                np,
                RunAt-suc tree idx n k idx_eq f r,
              )
          | inr e' ↦ inr (e ∙ e')
        ]
]
