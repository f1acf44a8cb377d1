-- ===== src/Chunk/Jumps/Purge.antt =====
-- "Purging subtree" in chunk_allocate_with_node of src/chunk.c.
use sealloc.Base.{
  ℕ, zero, suc, ◌+◌, ◌-◌, ◌*◌, ◌^◌, ◌≤◌, ◌<◌, ◌≡◌, refl, ◌∙◌, ap, sym, true, false, arith, inl, inr,
  ◌⊎◌, Cells, fill, u32,
}
use native.Mathlib.Nat.{pow-suc}
use sealloc.Chunk.{JumpNode}
use sealloc.Chunk.Climb.{pow2_le}
use sealloc.Chunk.Allocate.{purge_loop}
use sealloc.Chunk.Jumps.{Nodes}
use sealloc.Chunk.Jumps.Items.{sub32-one}
use sealloc.Chunk.Jumps.Remove.{remove, remove-outside, remove-inside}
use sealloc.Chunk.Jumps.Tree.{range-cases}
use sealloc.Chunk.Jumps.Down.{without, without-sub}

abbrev pub no_jumps : JumpNode
no_jumps = record { prev = 0; next = 0 }

-- The nodes `left` .. `right` cleared.
clear : Cells JumpNode → ℕ → ℕ → Cells JumpNode
clear jt left right = fill jt (left - 1) (suc (right - left)) no_jumps

clear-inside :
    (jt : Cells JumpNode) (left right i : ℕ)
    → 0 < left
    → left ≤ i
    → i ≤ right
    → clear jt left right (i - 1) ≡ no_jumps
unfolding clear fill
clear-inside jt left right i p x y = ground arith

clear-outside :
    (jt : Cells JumpNode) (left right i : ℕ)
    → 0 < left
    → left ≤ right
    → 0 < i
    → (i < left) ⊎ (right < i)
    → clear jt left right (i - 1) ≡ jt (i - 1)
unfolding clear fill
clear-outside jt left right i p o q (inl h) = ground arith
clear-outside jt left right i p o q (inr h) = ground arith

purge_step :
    (n left right span : ℕ) (jt : Cells JumpNode)
    → 0 < left
    → left ≤ right
    → right < 4096
    → span ≡ suc (right - left)
    → purge_loop (suc n) left span jt
      ≡ purge_loop n (2 * left) (suc (2 * right + 1 - 2 * left)) (clear jt left right)
unfolding purge_loop clear
purge_step n left right span jt p o lt e =
    rw
      (
        e,
        sub32-one left p (omega arith),
        mul left (omega arith),
        double (right - left) (2 * right + 1 - 2 * left) (omega arith) (omega arith),
      )
      refl
  where
    mul : (x : ℕ) → x < 4096 → u32 (x * 2) ≡ 2 * x
    mul x h = omega arith

    double : (x y : ℕ) → x < 4096 → y ≡ 2 * x + 1 → u32 (suc x * 2) ≡ suc y
    double x y h e = omega arith

-- Each node holds nothing after the loop, or what it held.
pub purge_loop_lem :
    (n level left right span : ℕ) (s : Nodes) (jt : Cells JumpNode) (i : ℕ)
    → level + n ≡ 12
    → 2 ^ level ≤ left
    → left ≤ right
    → right < 2 ^ suc level
    → span ≡ suc (right - left)
    → 0 < i
    → (without n left right s i ≡ true → purge_loop n left span jt (i - 1) ≡ jt (i - 1))
      × ((s i ≡ false → jt (i - 1) ≡ no_jumps)
          → without n left right s i ≡ false
          → purge_loop n left span jt (i - 1) ≡ no_jumps)
unfolding without purge_loop
purge_loop_lem zero level left right span s jt i e p o lt es q = (λ t. refl, λ h f. h f)
purge_loop_lem (suc n) level left right span s jt i e p o lt es q =
    let most = pow2_le (suc level) 12 (omega arith) in
    let pos = pow2_le 0 level (omega arith) in
    let two = pow-suc 2 level in
    let two' = pow-suc 2 (suc level) in
    let s1 = remove s left right in
    let next : suc level ≡ level + 1 = omega arith in
    let (same, none_left) =
      purge_loop_lem n (level + 1) (2 * left) (2 * right + 1) (suc (2 * right + 1 - 2 * left)) s1
        (clear jt left right) i (omega arith) (rw (← next) (omega arith)) (omega arith)
        (rw (← next) (omega arith)) refl q in
    let step =
      ap (λ (m : Cells JumpNode). m (i - 1))
        (purge_step n left right span jt (omega arith) o (omega arith) es) in
    let cases = range-cases left right i in
    (
      λ t. step ∙ same t ∙ elim cases [
        | inl (x, y) ↦ absurd (
            let f = remove-inside s left right i x y in
            let g = without-sub n (2 * left) (2 * right + 1) s1 i t in cc)
        | inr out ↦ clear-outside jt left right i (omega arith) o q out
      ],
      λ h f.
          step
          ∙ none_left
              (λ g. elim cases [
                | inl (x, y) ↦ clear-inside jt left right i (omega arith) x y
                | inr out ↦
                    clear-outside jt left right i (omega arith) o q out
                    ∙ h (sym (remove-outside s left right i out) ∙ g)
              ])
              f,
    )
