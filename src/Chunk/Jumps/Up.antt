-- ===== src/Chunk/Jumps/Up.antt =====
-- "Update up the tree" in chunk_allocate_with_node of src/chunk.c: a node and the nodes above it stop being
-- free.
use sealloc.Base.{
  ℕ, zero, suc, ◌+◌, ◌-◌, ◌*◌, ◌/◌, ◌^◌, ◌≤◌, ◌<◌, ◌≡◌, ◌≢◌, refl, ◌∙◌, ap, sym, Bool, true, false,
  not, ◌||◌, arith, inl, inr, eq-cases, Bool-cases, ◌==◌, some,
}
use native.Mathlib.Nat.{pow-suc}
use sealloc.Chunk.{Chunk, get_jt_item, sub32}
use sealloc.Chunk.Climb.{pow2_le}
use sealloc.Chunk.Allocate.{unlink_node, up_loop}
use sealloc.Chunk.Jumps.{Nodes}
use sealloc.Chunk.Jumps.Items.{item-at, sub32-one}
use sealloc.Chunk.Jumps.Remove.{remove, remove-sub, remove-outside, remove-inside, after-cases}
use sealloc.Chunk.Jumps.Tree.{Levels, Zeros, apart, unlink_node_lem, first_lem}

-- The children of a free node are free.
abbrev pub ClosedAt : Nodes → ℕ → Type 0
ClosedAt s i = s i ≡ true → (s (2 * i) ≡ true) × (s (2 * i + 1) ≡ true)

-- What the update leaves: the nodes that are free now, in a chunk whose links are right.
pub record Updated (s s' : Nodes) (level idx : ℕ) (c' : Chunk) : Type 0 where
  pub levels : Levels s' c'
  pub zeros : Zeros s' c'.jump_tree
  pub closed : (i : ℕ) → 0 < i → i < 2048 → ClosedAt s' i
  pub fewer : (i : ℕ) → s' i ≡ true → s i ≡ true
  pub gone : s' idx ≡ false
  pub below : (i : ℕ) → 2 ^ suc level ≤ i → s' i ≡ s i

-- The loop ends at a node that is not free.
up_stops :
    (fuel level idx : ℕ) (s : Nodes) (c : Chunk)
    → level < 12
    → 2 ^ level ≤ idx
    → idx < 2 ^ suc level
    → Levels s c
    → Zeros s c.jump_tree
    → s idx ≡ false
    → up_loop (suc fuel) (get_jt_item c.jump_tree idx) idx level c ≡ some c
unfolding up_loop
up_stops fuel level idx s c l p q v z e =
    let pos = pow2_le 0 level (omega arith) in
    let most = pow2_le (suc level) 12 (omega arith) in
    let at = item-at c.jump_tree idx (omega arith) (omega arith) in
    let (zp, zn) = z idx (omega arith) (omega arith) e in
    let first : c.jump_tree_first_index level ≢ idx = λ f.
      elim (after-cases s (2 ^ level) (2 ^ level)) [
        | inl none_free ↦ let fl = (v level l).first in omega arith
        | inr (_, _, t) ↦ let fl = (v level l).first in let g = ap s (sym fl ∙ f) in cc
      ] in
    rw (at, zp, zn, test-false _ _ first) refl
  where
    test-false : (x y : ℕ) → x ≢ y → (x == y) ≡ false
    test-false x y n = ground arith

-- It goes on at a free one.
up_goes :
    (fuel level idx : ℕ) (s : Nodes) (c : Chunk)
    → level < 12
    → 2 ^ level ≤ idx
    → idx < 2 ^ suc level
    → Levels s c
    → s idx ≡ true
    → up_loop (suc fuel) (get_jt_item c.jump_tree idx) idx level c ≡ (
        let c' = unlink_node (get_jt_item c.jump_tree idx) idx level c in
        up_loop fuel (get_jt_item c'.jump_tree (idx / 2)) (idx / 2) (sub32 level 1) c')
unfolding up_loop
up_goes fuel level idx s c l p q v t =
    let pos = pow2_le 0 level (omega arith) in
    let most = pow2_le (suc level) 12 (omega arith) in
    let at = item-at c.jump_tree idx (omega arith) (omega arith) in
    let node = get_jt_item c.jump_tree idx in
    elim (eq-cases (node.prev) 0) [
      | inl e ↦
          let first = first_lem s level idx c l p q t (v level l) (sym (ap (λ n. n.prev) at) ∙ e) in
          rw (first-true (not (node.next == 0) || not (node.prev == 0)) _ _ first) refl
      | inr n ↦ rw (prev-true node.next node.prev (c.jump_tree_first_index level == idx) n) refl
    ]
  where
    first-true : (b : Bool) (x y : ℕ) → x ≡ y → (b || (x == y)) ≡ true
    first-true b x y e = ground arith

    prev-true : (x y : ℕ) (b : Bool) → y ≢ 0 → ((not (x == 0) || not (y == 0)) || b) ≡ true
    prev-true x y b n = ground arith

less-one : (n : ℕ) → suc n - 1 ≡ n
less-one n = omega arith

-- What the theorem on the loop states.
abbrev Ends : ℕ → ℕ → ℕ → Nodes → Chunk → Type 0
Ends fuel level idx s c =
    (s' : Nodes) × (c' : Chunk) × (up_loop fuel (get_jt_item c.jump_tree idx) idx level c ≡ some c')
    × Updated s s' level idx c'

up_end :
    (fuel level idx : ℕ) (s : Nodes) (c : Chunk)
    → level < 12
    → 2 ^ level ≤ idx
    → idx < 2 ^ suc level
    → Levels s c
    → Zeros s c.jump_tree
    → ((i : ℕ) → 0 < i → i < 2048 → i ≢ idx → ClosedAt s i)
    → s idx ≡ false
    → Ends (suc fuel) level idx s c
up_end fuel level idx s c l p q v z k e = (
  s,
  c,
  up_stops fuel level idx s c l p q v z e,
  record {
    levels = v;
    zeros = z;
    closed = λ i x y t. elim (eq-cases i idx) [
      | inl at ↦ absurd (let g = ap s at in cc)
      | inr ne ↦ k i x y ne t
    ];
    fewer = λ i t. t;
    gone = e;
    below = λ i h. refl;
  },
)

-- A node that goes leaves only its parent with a child that is not free.
removed-ClosedAt :
    (s : Nodes) (idx : ℕ)
    → ((i : ℕ) → 0 < i → i < 2048 → i ≢ idx → ClosedAt s i)
    → (i : ℕ) → 0 < i
    → i < 2048
    → i ≢ idx / 2
    → ClosedAt (remove s idx idx) i
removed-ClosedAt s idx k i x y ne t =
    let off : i ≢ idx =
      λ e. let in_it = remove-inside s idx idx i (omega arith) (omega arith) in cc in
    let (a, b) = k i x y off (remove-sub s idx idx i t) in
    (
      remove-outside s idx idx (2 * i) (apart (2 * i) idx (λ e. ne (omega arith))) ∙ a,
      remove-outside s idx idx (2 * i + 1) (apart (2 * i + 1) idx (λ e. ne (omega arith))) ∙ b,
    )

pub up_loop_lem :
    (fuel level idx : ℕ) (s : Nodes) (c : Chunk)
    → level < fuel
    → level < 12
    → 2 ^ level ≤ idx
    → idx < 2 ^ suc level
    → s 1 ≡ false
    → Levels s c
    → Zeros s c.jump_tree
    → ((i : ℕ) → 0 < i → i < 2048 → i ≢ idx → ClosedAt s i)
    → Ends fuel level idx s c
up_loop_lem zero level idx s c f l p q root v z k = absurd (omega arith)
up_loop_lem (suc fuel) zero idx s c f l p q root v z k =
    let one : idx ≡ 1 = omega arith in up_end fuel 0 idx s c l p q v z k (ap s one ∙ root)
up_loop_lem (suc fuel) (suc level) idx s c f l p q root v z k = elim (Bool-cases (s idx)) [
  | inr e ↦ up_end fuel (suc level) idx s c l p q v z k e
  | inl t ↦
      let two = pow-suc 2 level in
      let two' = pow-suc 2 (suc level) in
      let pos = pow2_le 0 level (omega arith) in
      let c1 = unlink_node (get_jt_item c.jump_tree idx) idx (suc level) c in
      let u = unlink_node_lem s (suc level) idx c l p q t v z in
      let s1 = remove s idx idx in
      let root1 = remove-outside s idx idx 1 (inl (omega arith)) ∙ root in
      let (s', c', e, r) =
        up_loop_lem fuel level (idx / 2) s1 c1 (omega arith) (omega arith) (omega arith)
          (omega arith) root1 u.levels u.zeros (removed-ClosedAt s idx k) in
      (
        s',
        c',
        up_goes fuel (suc level) idx s c l p q v t
            ∙ (ap (λ x. up_loop fuel (get_jt_item c1.jump_tree (idx / 2)) (idx / 2) x c1)
                  (sub32-one (suc level) (omega arith) (omega arith) ∙ less-one level)
                ∙ e),
        record {
          levels = r.levels;
          zeros = r.zeros;
          closed = r.closed;
          fewer = λ i x. remove-sub s idx idx i (r.fewer i x);
          gone = r.below idx p ∙ remove-inside s idx idx idx (omega arith) (omega arith);
          below = λ i h. r.below i (omega arith) ∙ remove-outside s idx idx i (inr (omega arith));
        },
      )
]
