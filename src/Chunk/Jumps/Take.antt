-- ===== src/Chunk/Jumps/Take.antt =====
-- chunk_allocate_with_node in src/chunk.c on a free node: the free nodes of the chunk, before and after.
use sealloc.Base.{
  ℕ, zero, suc, ◌+◌, ◌-◌, ◌*◌, ◌/◌, ◌^◌, ◌≤◌, ◌<◌, ◌≡◌, ◌∙◌, ap, true, false, arith, inl, inr,
  eq-cases, u32, Bool-cases,
}
use native.Mathlib.Nat.{pow-suc}
use sealloc.Chunk.{Chunk, JumpNode}
use sealloc.Chunk.Climb.{pow2_le}
use sealloc.Chunk.Allocate.{down_loop, purge_loop, take_subtree}
use sealloc.Chunk.Jumps.{Nodes}
use sealloc.Chunk.Jumps.Relink.{Seg-agree}
use sealloc.Chunk.Jumps.Remove.{remove, remove-inside}
use sealloc.Chunk.Jumps.Tree.{Levels, Zeros}
use sealloc.Chunk.Jumps.Up.{ClosedAt, Updated}
use sealloc.Chunk.Jumps.Down.{without, without-sub, Lowered, down_loop_lem}
use sealloc.Chunk.Jumps.Purge.{no_jumps, purge_loop_lem}

-- The jump tree of a chunk links exactly these nodes, each with all that is under it, and not the root.
pub record FreeNodes (s : Nodes) (c : Chunk) : Type 0 where
  pub levels : Levels s c
  pub zeros : Zeros s c.jump_tree
  pub closed : (i : ℕ) → 0 < i → i < 2048 → ClosedAt s i
  pub root : s 1 ≡ false

-- What becomes of the free nodes when a node is taken: there are fewer, and none of its leaves.
pub record Handed (s s' : Nodes) (level idx : ℕ) : Type 0 where
  pub fewer : (i : ℕ) → s' i ≡ true → s i ≡ true
  pub gone : (i : ℕ) → idx * 2 ^ (11 - level) ≤ i → i < suc idx * 2 ^ (11 - level) → s' i ≡ false

pub doubled : (x n : ℕ) → x * 2 ^ suc n ≡ 2 * x * 2 ^ n
doubled x n = grind (arith, pow-suc 2 n)

without-leaves :
    (m left right : ℕ) (s : Nodes) (i : ℕ)
    → left * 2 ^ m ≤ i
    → i < suc right * 2 ^ m
    → without (suc m) left right s i ≡ false
unfolding without
without-leaves zero left right s i h k = remove-inside s left right i (omega arith) (omega arith)
without-leaves (suc m) left right s i h k =
    let e1 = doubled left m in
    let e2 = doubled (suc right) m in
    let two : suc (2 * right + 1) ≡ 2 * suc right = omega arith in
    without-leaves m (2 * left) (2 * right + 1) (remove s left right) i (omega arith)
      (rw two (omega arith))

cleared : (n : JumpNode) → n.prev ≡ 0 → n.next ≡ 0 → n ≡ no_jumps
cleared n p q = λ i. record { prev = p i; next = q i }

module _ (s s1 : Nodes) (level idx : ℕ) (c : Chunk) (l : level < 11) (p : 2 ^ level ≤ idx)
    (lt : idx < 2 ^ suc level) (t : s idx ≡ true)
    (closed : (i : ℕ) → 0 < i → i < 2048 → ClosedAt s i) (root : s 1 ≡ false)
    (r : Updated s s1 level idx c) where
  bounds :
      (0 < idx) × (idx < 2048) × (2 ^ suc level ≤ 2 * idx) × (2 * idx + 1 < 2 ^ suc (suc level))
  bounds =
      let pos = pow2_le 0 level (omega arith) in
      let most = pow2_le (suc level) 11 (omega arith) in
      let two = pow-suc 2 level in
      let two' = pow-suc 2 (suc level) in (omega arith, omega arith, omega arith, omega arith)

  lowered :
      Lowered
        (without (11 - level) (2 * idx) (2 * idx + 1) s1)
        s1
        (down_loop (11 - level) (suc level) (2 * idx) (2 * idx + 1) 2 c)
  lowered =
      let (pos, small, lo, hi) = bounds in
      let (a, b) = closed idx pos small t in
      let top = λ (i : ℕ) (x : 2 * idx ≤ i) (y : i ≤ 2 * idx + 1).
        r.below i (omega arith) ∙ (elim (eq-cases i (2 * idx)) [
          | inl e ↦ ap s e ∙ a
          | inr n ↦ let e : i ≡ 2 * idx + 1 = omega arith in ap s e ∙ b
        ]) in
      down_loop_lem (11 - level) (suc level) (2 * idx) (2 * idx + 1) 2 s1 s1 c (omega arith) lo
        (omega arith) hi (omega arith) (λ i x y _. top i x y) (λ i x y. r.closed i (omega arith) y)
        (λ i x y. let e : i / 2 ≡ idx = omega arith in ap s1 e ∙ r.gone) r.closed (λ i t. t)
        r.levels r.zeros

  purged :
      (i : ℕ)
      → 0 < i
      → i < 4096
      → let jt = (down_loop (11 - level) (suc level) (2 * idx) (2 * idx + 1) 2 c).jump_tree in
        let s' = without (11 - level) (2 * idx) (2 * idx + 1) s1 in
        (s' i ≡ true → purge_loop (11 - level) (2 * idx) 2 jt (i - 1) ≡ jt (i - 1))
        × (s' i ≡ false → purge_loop (11 - level) (2 * idx) 2 jt (i - 1) ≡ no_jumps)
  purged i x y =
      let (pos, small, lo, hi) = bounds in
      let jt = (down_loop (11 - level) (suc level) (2 * idx) (2 * idx + 1) 2 c).jump_tree in
      let (same, none_left) =
        purge_loop_lem (11 - level) (suc level) (2 * idx) (2 * idx + 1) 2 s1 jt i (omega arith) lo
          (omega arith) hi (omega arith) x in
      (same, none_left (λ e. let (a, b) = lowered.zeros i x y e in cleared (jt (i - 1)) a b))

  pub take_subtree-FreeNodes :
      (s' : Nodes) × FreeNodes s' (take_subtree idx level c).1 × Handed s s' level idx
  unfolding take_subtree
  take_subtree-FreeNodes =
      let (pos, small, lo, hi) = bounds in
      let s' = without (11 - level) (2 * idx) (2 * idx + 1) s1 in
      let jt = (down_loop (11 - level) (suc level) (2 * idx) (2 * idx + 1) 2 c).jump_tree in
      let double : u32 (idx * 2) ≡ 2 * idx = omega arith in
      let double' : u32 (idx * 2 + 1) ≡ 2 * idx + 1 = omega arith in
      let next : level + 1 ≡ suc level = omega arith in
      let some_level : 11 - level ≡ suc (10 - level) = omega arith in
      rw (double, double', next)
        (
          s',
          record {
            levels = λ j h.
                let v = lowered.levels j h in
                record {
                  links =
                      Seg-agree s' jt (purge_loop (11 - level) (2 * idx) 2 jt) (2 ^ j) (2 ^ j) 0 0
                        (λ i x y e.
                          let (a, b) = in_tree j i h x y in ap (λ n. n.next) ((purged i a b).0 e))
                        (λ i x y e.
                          let (a, b) = in_tree j i h x y in ap (λ n. n.prev) ((purged i a b).0 e))
                        v.links;
                  first = v.first;
                  count = v.count;
                };
            zeros =
                λ i x y e. let q = (purged i x y).1 e in (ap (λ n. n.prev) q, ap (λ n. n.next) q);
            closed = lowered.closed;
            root =
                stays s' (λ e. r.fewer 1 (without-sub (11 - level) (2 * idx) (2 * idx + 1) s1 1 e));
          },
          record {
            fewer = λ i e. r.fewer i (without-sub (11 - level) (2 * idx) (2 * idx + 1) s1 i e);
            gone = λ i x y.
                ap (λ (n : ℕ). without n (2 * idx) (2 * idx + 1) s1 i) some_level
                ∙ without-leaves (10 - level) (2 * idx) (2 * idx + 1) s1 i
                    (halves idx (10 - level) (11 - level) i some_level x)
                    (halves' (suc idx) (10 - level) (11 - level) i (2 * idx + 1) some_level
                      (omega arith) y);
          },
        )
    where
      in_tree : (j i : ℕ) → j < 12 → 2 ^ j ≤ i → i < 2 ^ j + 2 ^ j → (0 < i) × (i < 4096)
      in_tree j i h x y =
          let pos = pow2_le 0 j (omega arith) in
          let most = pow2_le (suc j) 12 (omega arith) in
          let two = pow-suc 2 j in (omega arith, omega arith)

      stays : (a : Nodes) → (a 1 ≡ true → s 1 ≡ true) → a 1 ≡ false
      stays a f = elim (Bool-cases (a 1)) [ inl e ↦ absurd (let g = f e in cc) | inr e ↦ e ]

      halves : (x m k i : ℕ) → k ≡ suc m → x * 2 ^ k ≤ i → 2 * x * 2 ^ m ≤ i
      halves x m k i e h =
          let at = ap (λ (n : ℕ). x * 2 ^ n) e in let two = doubled x m in omega arith

      halves' : (x m k i y : ℕ) → k ≡ suc m → suc y ≡ 2 * x → i < x * 2 ^ k → i < suc y * 2 ^ m
      halves' x m k i y e z h =
          let at = ap (λ (n : ℕ). x * 2 ^ n) e in
          let at' = ap (λ (n : ℕ). n * 2 ^ m) z in let two = doubled x m in omega arith
