-- ===== src/Chunk/Take.antt =====
-- chunk_allocate_with_node in src/chunk.c: which address the run gets, what becomes of the tree, and that
-- the run is found and released again under this address.
use sealloc.Base.{
  ℕ, zero, suc, ◌+◌, ◌-◌, ◌*◌, ◌^◌, ◌≤◌, ◌<◌, ◌≡◌, ◌≢◌, refl, ◌∙◌, ap, Cells, arith, Bool-cases,
  true, false, ◌&&◌, inl, inr, eq-cases, ◌==◌, ==_self, store_lem, if◌then◌else◌, some, u16, u32,
}
use native.Mathlib.Nat.{pow-suc}
use sealloc.Chunk.{
  Chunk, chunk_size_bytes, set_buddy_tree_item, node_used, get_jt_item, sub32, is_leaf,
}
use sealloc.Chunk.Allocate.{
  skip_level, down_loop, take_leaf, take_subtree, take_node, chunk_allocate_with_node,
}
use sealloc.Chunk.Climb.{pow2_le, shift}
use sealloc.Chunk.Links.{Linked, Same, up_loop-Same}

skip_level-Same :
    (level left right span : ℕ) (c : Chunk) → Same c (skip_level level left right span c)
unfolding skip_level
skip_level-Same level left right span c =
    let l = get_jt_item c.jump_tree left in
    let r = get_jt_item c.jump_tree right in
    elim (Bool-cases ((l.prev == 0) && (r.next == 0))) [
      | inl e ↦ rw e (record { entry = refl; buddy = refl; sizes = refl })
      | inr e ↦ elim (Bool-cases (l.prev == 0)) [
        | inl d ↦ rw (e, d) (record { entry = refl; buddy = refl; sizes = refl })
        | inr d ↦ elim (Bool-cases (r.next == 0)) [
          | inl g ↦ rw (e, d, g) (record { entry = refl; buddy = refl; sizes = refl })
          | inr g ↦ rw (e, d, g) (record { entry = refl; buddy = refl; sizes = refl })
        ]
      ]
    ]

Same-trans : (a b c : Chunk) → Same a b → Same b c → Same a c
Same-trans a b c p q = record {
  entry = q.entry ∙ p.entry;
  buddy = q.buddy ∙ p.buddy;
  sizes = q.sizes ∙ p.sizes;
}

down_loop-Same :
    (n level left right span : ℕ) (c : Chunk) → Same c (down_loop n level left right span c)
unfolding down_loop
down_loop-Same zero level left right span c = record { entry = refl; buddy = refl; sizes = refl }
down_loop-Same (suc n) level left right span c =
    Same-trans c (skip_level level left right span c) _ (skip_level-Same level left right span c) (
      down_loop-Same n (level + 1) (u32 (left * 2)) (u32 (right * 2 + 1)) (u32 (span * 2))
        (skip_level level left right span c))

swap : (n x : ℕ) → n * x * 2 ≡ n * 2 * x
swap n x = grind arith

-- The first leaf of a node is a leaf.
pub leftmost-bounds :
    (k level idx : ℕ)
    → level + k ≡ 11
    → 2 ^ level ≤ idx
    → idx < 2 ^ suc level
    → (2048 ≤ idx * 2 ^ k) × (idx * 2 ^ k < 4096)
leftmost-bounds zero level idx e p lt =
    let last : level ≡ 11 = omega arith in
    let at : 2 ^ level ≡ 2 ^ 11 = ap (λ (t : ℕ). 2 ^ t) last in
    let two = pow-suc 2 level in (omega arith, omega arith)
leftmost-bounds (suc k) level idx e p lt =
    let two = pow-suc 2 level in
    let two' = pow-suc 2 (suc level) in
    let (h, h') =
      leftmost-bounds k (suc level) (idx * 2) (omega arith) (omega arith) (omega arith) in
    let move : idx * 2 ^ suc k ≡ idx * 2 * 2 ^ k = shift idx k ∙ swap idx (2 ^ k) in
    (omega arith, omega arith)

-- The address of the first leaf of a node.
unfoldable pub node_address : Chunk → ℕ → ℕ → ℕ
node_address c idx level = c.entry.key + (idx * 2 ^ (11 - level) - 2048) * 16_384

-- The node is used, the rest of the tree is as before, and a leaf has its region size noted.
pub record Taken (idx level reg_size : ℕ) (c c' : Chunk) : Type 0 where
  pub entry : c'.entry ≡ c.entry
  pub buddy : c'.buddy_tree ≡ set_buddy_tree_item c.buddy_tree idx node_used
  pub noted : level ≡ 11 → reg_size ≢ 16_384 → c'.reg_size_small_medium (idx - 2048) ≡ u16 reg_size

take_subtree-Taken :
    (idx level reg_size : ℕ) (c : Chunk)
    → level < 11
    → 2 ^ level ≤ idx
    → idx < 2 ^ suc level
    → c.entry.key + chunk_size_bytes < 2 ^ 64
    → ((take_subtree idx level c).0 ≡ node_address c idx level)
      × Taken idx level reg_size c (take_subtree idx level c).1
unfolding take_subtree node_address sub32
take_subtree-Taken idx level reg_size c l p lt k =
    let s = down_loop-Same (11 - level) (level + 1) (u32 (idx * 2)) (u32 (idx * 2 + 1)) 2 c in
    (
      rw (ap (λ x. x.key) s.entry)
          (let (b, b') = leftmost-bounds (11 - level) level idx (omega arith) p lt in omega arith),
      record {
        entry = s.entry;
        buddy = ap (λ (t : Cells ℕ). set_buddy_tree_item t idx node_used) s.buddy;
        noted = λ e _. absurd (omega arith);
      },
    )

test-false : (a b : ℕ) → a ≢ b → (a == b) ≡ false
test-false a b n = ground arith

leaf-sub : (idx : ℕ) → 2048 ≤ idx → idx < 4096 → sub32 idx 2048 ≡ idx - 2048
unfolding sub32
leaf-sub idx p lt = omega arith

take_leaf-Taken :
    (idx reg_size : ℕ) (c : Chunk)
    → 2048 ≤ idx
    → idx < 4096
    → c.entry.key + chunk_size_bytes < 2 ^ 64
    → ((take_leaf idx 11 reg_size c).0 ≡ node_address c idx 11)
      × Taken idx 11 reg_size c (take_leaf idx 11 reg_size c).1
unfolding take_leaf node_address
take_leaf-Taken idx reg_size c p lt k = (
  rw (leaf-sub idx p lt) (omega arith),
  record {
    entry = refl;
    buddy = refl;
    noted = λ _ n.
        rw (test-false reg_size 16_384 n, leaf-sub idx p lt)
          (store_lem c.reg_size_small_medium (idx - 2048) (u16 reg_size) (idx - 2048)
            ∙ rw (==_self (idx - 2048)) refl);
  },
)

Taken-Same :
    (idx level reg_size : ℕ) (a b c : Chunk)
    → Same a b
    → Taken idx level reg_size b c
    → Taken idx level reg_size a c
Taken-Same idx level reg_size a b c s t = record {
  entry = t.entry ∙ s.entry;
  buddy = t.buddy ∙ ap (λ (x : Cells ℕ). set_buddy_tree_item x idx node_used) s.buddy;
  noted = t.noted;
}

take-cases :
    (idx level reg_size : ℕ) (c : Chunk)
    → level < 12
    → 2 ^ level ≤ idx
    → idx < 2 ^ suc level
    → c.entry.key + chunk_size_bytes < 2 ^ 64
    → (r : ℕ × Chunk) × ((if is_leaf idx
          then take_leaf idx level reg_size c
          else take_subtree idx level c)
        ≡ r)
      × (r.0 ≡ node_address c idx level)
      × Taken idx level reg_size c r.1
take-cases idx level reg_size c l p lt k = elim (eq-cases level 11) [
  | inl e ↦
      let at : 2 ^ level ≡ 2 ^ 11 = ap (λ (t : ℕ). 2 ^ t) e in
      let two = pow-suc 2 level in
      let leaf : is_leaf idx ≡ true = ground arith in
      rw e (
        rw leaf (
          let (a, t) = take_leaf-Taken idx reg_size c (omega arith) (omega arith) k in
          (take_leaf idx 11 reg_size c, refl, a, t)))
  | inr n ↦
      let small = pow2_le (suc level) 11 (omega arith) in
      let leaf : is_leaf idx ≡ false = ground arith in
      rw leaf (
        let (a, t) = take_subtree-Taken idx level reg_size c (omega arith) p lt k in
        (take_subtree idx level c, refl, a, t))
]

-- A node of a level whose links keep to their levels is allocated: the call returns the address of the
-- node's first leaf, the node becomes used, no other node of the buddy tree changes, and the region
-- size of a leaf is noted, unless it is the leaf's size.
pub chunk_allocate_with_node_lem :
    (chunk : Chunk) (idx level reg_size : ℕ)
    → Linked level chunk
    → level < 12
    → 2 ^ level ≤ idx
    → idx < 2 ^ suc level
    → chunk.entry.key + chunk_size_bytes < 2 ^ 64
    → (chunk' : Chunk) × (chunk_allocate_with_node chunk
          (get_jt_item chunk.jump_tree idx)
          idx
          level
          reg_size
        ≡ some (node_address chunk idx level, chunk'))
      × Taken idx level reg_size chunk chunk'
unfolding chunk_allocate_with_node node_address take_node
chunk_allocate_with_node_lem chunk idx level reg_size v l p lt k =
    let (c, q, s) = up_loop-Same 12 level idx chunk l l p lt v in
    let key = ap (λ x. x.key) s.entry in
    let (r, e, at, t) = take-cases idx level reg_size c l p lt (rw key k) in
    (
      r.1,
      ap (take_node idx level reg_size) q
          ∙ ap some (
              e
              ∙ ap (λ (x : ℕ). (x, r.1))
                  (at ∙ ap (λ (x : ℕ). x + (idx * 2 ^ (11 - level) - 2048) * 16_384) key)),
      Taken-Same idx level reg_size chunk c r.1 s t,
    )
