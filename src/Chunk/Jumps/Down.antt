-- ===== src/Chunk/Jumps/Down.antt =====
-- The levels under a node that chunk_allocate_with_node in src/chunk.c takes: all nodes below it stop being
-- free, and are cleared.
use sealloc.Base.{
  ℕ, zero, suc, ◌+◌, ◌-◌, ◌*◌, ◌/◌, ◌^◌, ◌≤◌, ◌<◌, ◌≡◌, refl, ◌∙◌, ap, sym, subst, true, false,
  arith, inl, inr, eq-cases, u32,
}
use native.Mathlib.Nat.{pow-suc}
use sealloc.Chunk.{Chunk}
use sealloc.Chunk.Climb.{pow2_le}
use sealloc.Chunk.Allocate.{down_loop, skip_level}
use sealloc.Chunk.Jumps.{Nodes}
use sealloc.Chunk.Jumps.Remove.{remove, remove-sub, remove-outside, remove-inside}
use sealloc.Chunk.Jumps.Tree.{Levels, Zeros, range-cases, skip_level_lem}
use sealloc.Chunk.Jumps.Up.{ClosedAt}

-- The nodes without `left` .. `right` and `n - 1` levels under them.
unfoldable pub without : ℕ → ℕ → ℕ → Nodes → Nodes
without zero left right s = s
without (suc n) left right s = without n (2 * left) (2 * right + 1) (remove s left right)

pub without-sub :
    (n left right : ℕ) (s : Nodes) (i : ℕ) → without n left right s i ≡ true → s i ≡ true
unfolding without
without-sub zero left right s i h = h
without-sub (suc n) left right s i h =
    remove-sub s left right i (without-sub n (2 * left) (2 * right + 1) (remove s left right) i h)

-- What the loop leaves: the nodes that are free now, in a chunk whose links are right.
pub record Lowered (s' q : Nodes) (c' : Chunk) : Type 0 where
  pub levels : Levels s' c'
  pub zeros : Zeros q c'.jump_tree
  pub closed : (i : ℕ) → 0 < i → i < 2048 → ClosedAt s' i

down_step :
    (n level left right span : ℕ) (c : Chunk)
    → right < 4096
    → left ≤ right
    → span ≡ suc (right - left)
    → down_loop (suc n) level left right span c
      ≡ down_loop n
          (level + 1)
          (2 * left)
          (2 * right + 1)
          (suc (2 * right + 1 - 2 * left))
          (skip_level level left right (suc (right - left)) c)
unfolding down_loop
down_step n level left right span c lt o e =
    rw
      (
        e,
        mul left (omega arith),
        mul1 right (omega arith),
        double (right - left) (2 * right + 1 - 2 * left) (omega arith) (omega arith),
      )
      refl
  where
    mul : (x : ℕ) → x < 4096 → u32 (x * 2) ≡ 2 * x
    mul x h = omega arith

    mul1 : (x : ℕ) → x < 4096 → u32 (x * 2 + 1) ≡ 2 * x + 1
    mul1 x h = omega arith

    double : (x y : ℕ) → x < 4096 → y ≡ 2 * x + 1 → u32 (suc x * 2) ≡ suc y
    double x y h e = omega arith

-- The next level's nodes are children of those that go now.
children_left :
    (s : Nodes) (left right : ℕ)
    → 0 < left
    → right < 2 * left
    → right < 2048
    → ((i : ℕ) → left ≤ i → i ≤ right → s i ≡ true)
    → ((i : ℕ) → left ≤ i → i < 2048 → ClosedAt s i)
    → (i : ℕ) → 2 * left ≤ i
    → i ≤ 2 * right + 1
    → remove s left right i ≡ true
children_left s left right pos far lt all k i x y =
    let (a, b) = k (i / 2) (omega arith) (omega arith) (all (i / 2) (omega arith) (omega arith)) in
    remove-outside s left right i (inr (omega arith)) ∙ elim (eq-cases (2 * (i / 2)) i) [
      | inl e ↦ ap s (sym e) ∙ a
      | inr n ↦ let odd : i ≡ 2 * (i / 2) + 1 = omega arith in ap s odd ∙ b
    ]

closed_on :
    (s : Nodes) (left right : ℕ)
    → right < 2 * left
    → ((i : ℕ) → left ≤ i → i < 2048 → ClosedAt s i)
    → (i : ℕ) → 2 * left ≤ i
    → i < 2048
    → ClosedAt (remove s left right) i
closed_on s left right far k i x y t =
    let (a, b) = k i (omega arith) y (remove-sub s left right i t) in
    (
      remove-outside s left right (2 * i) (inr (omega arith)) ∙ a,
      remove-outside s left right (2 * i + 1) (inr (omega arith)) ∙ b,
    )

-- A parent of a node that goes has gone already.
closed_over :
    (s : Nodes) (left right : ℕ)
    → ((i : ℕ) → left ≤ i → i ≤ right → s (i / 2) ≡ false)
    → ((i : ℕ) → 0 < i → i < 2048 → ClosedAt s i)
    → (i : ℕ) → 0 < i
    → i < 2048
    → ClosedAt (remove s left right) i
closed_over s left right over k i x y t =
    let was = remove-sub s left right i t in
    let (a, b) = k i x y was in
    (keep (2 * i) (ap s (omega arith)) was a, keep (2 * i + 1) (ap s (omega arith)) was b)
  where
    keep : (j : ℕ) → s (j / 2) ≡ s i → s i ≡ true → s j ≡ true → remove s left right j ≡ true
    keep j e was a = elim (range-cases left right j) [
      | inl (p, q) ↦ absurd (let f = over j p q in cc)
      | inr o ↦ remove-outside s left right j o ∙ a
    ]

pub down_loop_lem :
    (n level left right span : ℕ) (s q : Nodes) (c : Chunk)
    → level + n ≡ 12
    → 2 ^ level ≤ left
    → left ≤ right
    → right < 2 ^ suc level
    → span ≡ suc (right - left)
    → ((i : ℕ) → left ≤ i → i ≤ right → right < 4096 → s i ≡ true)
    → ((i : ℕ) → left ≤ i → i < 2048 → ClosedAt s i)
    → ((i : ℕ) → left ≤ i → i ≤ right → s (i / 2) ≡ false)
    → ((i : ℕ) → 0 < i → i < 2048 → ClosedAt s i)
    → ((i : ℕ) → s i ≡ true → q i ≡ true)
    → Levels s c
    → Zeros q c.jump_tree
    → Lowered (without n left right s) q (down_loop n level left right span c)
unfolding without down_loop
down_loop_lem zero level left right span s q c e p o lt es all k over closed sub v z = record {
  levels = v;
  zeros = z;
  closed = closed;
}
down_loop_lem (suc n) level left right span s q c e p o lt es all k over closed sub v z =
    let most = pow2_le (suc level) 12 (omega arith) in
    let pos = pow2_le 0 level (omega arith) in
    let two = pow-suc 2 level in
    let two' = pow-suc 2 (suc level) in
    let s1 = remove s left right in
    let block = λ (i : ℕ) (x : left ≤ i) (y : i ≤ right). all i x y (omega arith) in
    let r = skip_level_lem s q level left right c (omega arith) p o lt block sub v z in
    let next : suc level ≡ level + 1 = omega arith in
    subst (λ x. Lowered (without n (2 * left) (2 * right + 1) s1) q x)
      (sym (down_step n level left right span c (omega arith) o es))
      (down_loop_lem n (level + 1) (2 * left) (2 * right + 1) (suc (2 * right + 1 - 2 * left)) s1 q
        _ (omega arith) (rw (← next) (omega arith)) (omega arith) (rw (← next) (omega arith)) refl
        (λ i x y h.
          children_left s left right (omega arith) (omega arith) (omega arith) block k i x y)
        (closed_on s left right (omega arith) k)
        (λ i x y. remove-inside s left right (i / 2) (omega arith) (omega arith))
        (closed_over s left right over closed) (λ i t. sub i (remove-sub s left right i t)) r.levels
        r.zeros)
