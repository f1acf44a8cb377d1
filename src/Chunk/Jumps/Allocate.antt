-- ===== src/Chunk/Jumps/Allocate.antt =====
-- chunk_allocate_with_node in src/chunk.c on a free node: where the run is, and what stays free.
use sealloc.Base.{
  ℕ, zero, suc, ◌+◌, ◌-◌, ◌*◌, ◌^◌, ◌≤◌, ◌<◌, ◌≡◌, refl, ◌∙◌, ap, sym, subst, true, false, arith,
  inl, inr, ◌⊎◌, eq-cases, some, Bool-cases, ltb,
}
use native.Mathlib.Nat.{pow-suc}
use sealloc.Chunk.{Chunk, chunk_size_bytes, is_leaf, get_jt_item, set_buddy_tree_item, node_used}
use sealloc.Chunk.Climb.{pow2_le}
use sealloc.Chunk.Links.{Linked}
use sealloc.Chunk.Take.{node_address, chunk_allocate_with_node_lem}
use sealloc.Chunk.Allocate.{take_leaf, take_subtree, take_node, up_loop, chunk_allocate_with_node}
use sealloc.Chunk.Jumps.{Nodes, from, to}
use sealloc.Chunk.Jumps.Remove.{before, after, before-cases, after-cases}
use sealloc.Chunk.Jumps.Step.{Block-Block}
use sealloc.Chunk.Jumps.Up.{Updated, up_loop_lem}
use sealloc.Chunk.Jumps.Take.{FreeNodes, Handed, take_subtree-FreeNodes}

take_leaf-FreeNodes :
    (s s1 : Nodes) (idx reg_size : ℕ) (c : Chunk)
    → s 1 ≡ false
    → Updated s s1 11 idx c
    → FreeNodes s1 (take_leaf idx 11 reg_size c).1 × Handed s s1 11 idx
unfolding take_leaf
take_leaf-FreeNodes s s1 idx reg_size c root r = (
  record {
    levels =
        λ j h. let v = r.levels j h in record { links = v.links; first = v.first; count = v.count };
    zeros = r.zeros;
    closed = r.closed;
    root = elim (Bool-cases (s1 1)) [ inl e ↦ absurd (let g = r.fewer 1 e in cc) | inr e ↦ e ];
  },
  record { fewer = r.fewer; gone = λ i x y. let e : i ≡ idx = omega arith in ap s1 e ∙ r.gone },
)

-- What both parts of the theorem below state.
abbrev Given : Nodes → ℕ → ℕ → Chunk → Type 0
Given s level idx c = (s' : Nodes) × FreeNodes s' c × Handed s s' level idx

taken :
    (s s1 : Nodes) (level idx reg_size : ℕ) (c : Chunk)
    → level < 12
    → 2 ^ level ≤ idx
    → idx < 2 ^ suc level
    → s idx ≡ true
    → ((i : ℕ) → 0 < i → i < 2048 → (s i ≡ true → (s (2 * i) ≡ true) × (s (2 * i + 1) ≡ true)))
    → s 1 ≡ false
    → Updated s s1 level idx c
    → (r : ℕ × Chunk) × (take_node idx level reg_size (some c) ≡ some r) × Given s level idx r.1
unfolding take_node
taken s s1 level idx reg_size c l p lt t closed root u = elim (eq-cases level 11) [
  | inl e ↦
      let at : 2 ^ level ≡ 2 ^ 11 = ap (λ (n : ℕ). 2 ^ n) e in
      let two = pow-suc 2 level in
      let leaf : is_leaf idx ≡ true = ground arith in
      rw leaf (
        take_leaf idx level reg_size c,
        refl,
        subst (λ (n : ℕ). Given s n idx (take_leaf idx n reg_size c).1) (sym e)
            (let (f, g) =
                take_leaf-FreeNodes s s1 idx reg_size c root
                  (subst (λ (n : ℕ). Updated s s1 n idx c) e u) in
              (s1, f, g)),
      )
  | inr n ↦
      let small = pow2_le (suc level) 11 (omega arith) in
      let leaf : is_leaf idx ≡ false = ground arith in
      rw leaf (
        take_subtree idx level c,
        refl,
        take_subtree-FreeNodes s s1 level idx c (omega arith) p lt t closed root u,
      )
]

-- The links of the free nodes keep to their levels.
module _ (s : Nodes) (c : Chunk) (v : FreeNodes s c) where
  -- What a free node holds.
  node_at :
      (l n : ℕ)
      → l < 12
      → n < 2 ^ l
      → (2 ^ l + (c.jump_tree (2 ^ l + n - 1)).prev ≤ 2 ^ l + n)
        × ((c.jump_tree (2 ^ l + n - 1)).next < 2 ^ 16)
  node_at l n h lt =
      let most = pow2_le l 11 (omega arith) in
      let pos = pow2_le 0 l (omega arith) in
      let a = 2 ^ l + n in
      elim (Bool-cases (s a)) [
        | inr e ↦ let (p, q) = v.zeros a (omega arith) (omega arith) e in (omega arith, omega arith)
        | inl t ↦
            let k = 2 ^ l - n - 1 in
            let all : n + (suc 0 + k) ≡ 2 ^ l = omega arith in
            let block : (i : ℕ) → a ≤ i → i ≤ a + 0 → s i ≡ true =
              λ i p q. let e : i ≡ a = omega arith in ap s e ∙ t in
            let b = Block-Block s l n 0 k c h all block (v.levels l h) in
            let same : a + 0 - 1 ≡ a - 1 = omega arith in
            let prev = b.prev_a in
            let next = ap (λ (x : ℕ). (c.jump_tree x).next) (sym same) ∙ b.next_b in
            (
              rw prev (
                  from-bound (before s (2 ^ l) n) a (2 ^ l) b.left (omega arith)
                    (elim (before-cases s (2 ^ l) n) [ inl z ↦ inl z | inr (x, y, _) ↦ inr x ])),
              rw next (
                  to-bound (a + 0) (after s (2 ^ l + n + suc 0) k)
                    (elim (after-cases s (2 ^ l + n + suc 0) k) [
                      | inl z ↦ omega arith
                      | inr (x, y, _) ↦ omega arith
                    ])),
            )
      ]
    where
      from-bound : (u a lo : ℕ) → u < a → lo ≤ a → (u ≡ 0) ⊎ (lo ≤ u) → lo + from u a ≤ a
      from-bound u a lo h k (inl e) = ground arith
      from-bound u a lo h k (inr e) = ground arith

      to-bound : (a w : ℕ) → w < 4096 → to a w < 2 ^ 16
      to-bound a w h = ground arith

  pub FreeNodes-Linked : (level : ℕ) → level < 12 → Linked level c
  FreeNodes-Linked level h = record {
    back = λ l g le p q.
        let two = pow-suc 2 l in
        let e : 2 ^ l + (g + 1 - 2 ^ l) - 1 ≡ g = omega arith in
        let at = ap (λ (x : ℕ). (c.jump_tree x).prev) e in
        let (b, _) = node_at l (g + 1 - 2 ^ l) (omega arith) (omega arith) in omega arith;
    short = λ g lt. short_at level h g lt;
    root = v.zeros 1 (omega arith) (omega arith) v.root;
    first_root = (v.levels 0 (omega arith)).first ∙ elim (after-cases s 1 1) [
      | inl z ↦ z
      | inr (x, y, t) ↦
          absurd
            (let one : after s 1 1 ≡ 1 = omega arith in let e = ap s one in let f = v.root in cc)
    ];
  }
    where
      short_at : (l : ℕ) → l < 12 → (g : ℕ) → g + 1 < 2 ^ suc l → (c.jump_tree g).next < 2 ^ 16
      short_at zero h g lt =
          let e : g ≡ 1 - 1 = omega arith in
          let (_, q) = v.zeros 1 (omega arith) (omega arith) v.root in
          let at = ap (λ (x : ℕ). (c.jump_tree x).next) e in omega arith
      short_at (suc l) h g lt = elim (Bool-cases (ltb (g + 1) (2 ^ suc l))) [
        | inl e ↦ short_at l (omega arith) g (ground arith)
        | inr e ↦
            let ge : 2 ^ suc l ≤ g + 1 = ground arith in
            let two = pow-suc 2 (suc l) in
            let i : 2 ^ suc l + (g + 1 - 2 ^ suc l) - 1 ≡ g = omega arith in
            let at = ap (λ (x : ℕ). (c.jump_tree x).next) i in
            let (_, b) = node_at (suc l) (g + 1 - 2 ^ suc l) h (omega arith) in omega arith
      ]

-- When the jump tree links exactly the free nodes, a free node of a level is allocated: the call returns the
-- address of its first leaf, and the jump tree links exactly the nodes that are free then, which are free
-- before and of which none is a leaf under the node. The node becomes used, and no other node of the buddy
-- tree changes.
pub chunk_allocate_with_node-FreeNodes :
    (s : Nodes) (chunk : Chunk) (idx level reg_size : ℕ)
    → FreeNodes s chunk
    → level < 12
    → 2 ^ level ≤ idx
    → idx < 2 ^ suc level
    → s idx ≡ true
    → chunk.entry.key + chunk_size_bytes < 2 ^ 64
    → (s' : Nodes) × (chunk' : Chunk) × (chunk_allocate_with_node chunk
          (get_jt_item chunk.jump_tree idx)
          idx
          level
          reg_size
        ≡ some (node_address chunk idx level, chunk'))
      × FreeNodes s' chunk'
      × Handed s s' level idx
      × (chunk'.entry ≡ chunk.entry)
      × (chunk'.buddy_tree ≡ set_buddy_tree_item chunk.buddy_tree idx node_used)
unfolding chunk_allocate_with_node
chunk_allocate_with_node-FreeNodes s chunk idx level reg_size v l p lt t k =
    let (s1, c1, e, u) =
      up_loop_lem 12 level idx s chunk (omega arith) l p lt v.root v.levels v.zeros
        (λ i x y _. v.closed i x y) in
    let (r, e', given) = taken s s1 level idx reg_size c1 l p lt t v.closed v.root u in
    let (s', f, g) = given in
    let (c', e'', kept) =
      chunk_allocate_with_node_lem chunk idx level reg_size (FreeNodes-Linked s chunk v level l) l p
        lt k in
    let same : r ≡ (node_address chunk idx level, c') =
      some_eq (sym (whole chunk idx level reg_size c1 e ∙ e') ∙ e'') in
    let at = ap (λ (x : ℕ × Chunk). x.1) same in
    (s', c', e'', subst (FreeNodes s') at f, g, kept.entry, kept.buddy)
  where
    some_eq : {x y : ℕ × Chunk} → some x ≡ some y → x ≡ y
    some_eq h = cc

    whole :
        (chunk : Chunk) (idx level reg_size : ℕ) (c1 : Chunk)
        → up_loop 12 (get_jt_item chunk.jump_tree idx) idx level chunk ≡ some c1
        → chunk_allocate_with_node chunk (get_jt_item chunk.jump_tree idx) idx level reg_size
          ≡ take_node idx level reg_size (some c1)
    whole chunk idx level reg_size c1 e = ap (take_node idx level reg_size) e
