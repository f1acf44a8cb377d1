-- ===== src/Chunk/Jumps/Below.antt =====
-- The nodes under a node of a chunk's tree, in src/chunk.c.
use sealloc.Base.{
  ℕ, zero, suc, ◌+◌, ◌-◌, ◌*◌, ◌/◌, ◌^◌, ◌≤◌, ◌<◌, ◌≡◌, ◌∙◌, ap, subst, true, false, arith, inl,
  inr, Bool-cases, ltb,
}
use native.Mathlib.Nat.{pow-suc}
use sealloc.Chunk.Climb.{pow2_le}
use sealloc.Chunk.Jumps.{Nodes}
use sealloc.Chunk.Jumps.Up.{ClosedAt}
use sealloc.Chunk.Jumps.Take.{Handed}

-- A node and all that is under it.
pub data Under (idx : ℕ) : ℕ → Type 0 where
  self : Under idx idx
  child : (i : ℕ) → 1 < i → Under idx (i / 2) → Under idx i

-- With a node, all that is under it is free.
pub Under-free :
    (s : Nodes) (idx : ℕ) {i : ℕ}
    → ((j : ℕ) → 0 < j → j < 2048 → ClosedAt s j)
    → s idx ≡ true
    → Under idx i
    → i < 4096
    → s i ≡ true
Under-free s idx closed t self lt = t
Under-free s idx closed t (child i p u) lt =
    let up = Under-free s idx closed t u (omega arith) in
    let (a, b) = closed (i / 2) (omega arith) (omega arith) up in
    half_free (i / 2) i a b (omega arith)
  where
    half_free : (h i : ℕ) → s (2 * h) ≡ true → s (2 * h + 1) ≡ true → h ≡ i / 2 → s i ≡ true
    half_free h i a b e = elim (Bool-cases (ltb (2 * h) i)) [
      | inl x ↦ let at : i ≡ 2 * h + 1 = ground arith in ap s at ∙ b
      | inr x ↦ let at : i ≡ 2 * h = ground arith in ap s at ∙ a
    ]

-- The level that a node under another is on, and where.
Under-bounds :
    (level idx : ℕ) {i : ℕ}
    → 2 ^ level ≤ idx
    → idx < 2 ^ suc level
    → Under idx i
    → (e : ℕ) × (2 ^ (level + e) ≤ i)
      × (i < 2 ^ suc (level + e))
      × (idx * 2 ^ e ≤ i)
      × (i < suc idx * 2 ^ e)
Under-bounds level idx p q self =
    let zero_right : level ≡ level + 0 = omega arith in
    (
      0,
      subst (λ (x : ℕ). 2 ^ x ≤ idx) zero_right p,
      subst (λ (x : ℕ). idx < 2 ^ suc x) zero_right q,
      omega arith,
      omega arith,
    )
Under-bounds level idx p q (child i h u) =
    let (e, a, b, c, d) = Under-bounds level idx p q u in
    let deeper : suc (level + e) ≡ level + suc e = omega arith in
    let two = pow-suc 2 (level + e) in
    let two' = pow-suc 2 (suc (level + e)) in
    let low = twice idx e in
    let high = twice (suc idx) e in
    (
      suc e,
      subst (λ (x : ℕ). 2 ^ x ≤ i) deeper (omega arith),
      subst (λ (x : ℕ). i < 2 ^ suc x) deeper (omega arith),
      omega arith,
      omega arith,
    )
  where
    twice : (x n : ℕ) → x * 2 ^ suc n ≡ 2 * (x * 2 ^ n)
    twice x n = grind (arith, pow-suc 2 n)

-- No node under one that is handed out stays free.
pub Under-gone :
    (s s' : Nodes) (level idx : ℕ)
    → level < 12
    → 2 ^ level ≤ idx
    → idx < 2 ^ suc level
    → ((j : ℕ) → 0 < j → j < 2048 → ClosedAt s' j)
    → Handed s s' level idx
    → (m l i : ℕ) → l + m ≡ 11
    → 2 ^ l ≤ i
    → i < 2 ^ suc l
    → Under idx i
    → s' i ≡ false
Under-gone s s' level idx h p q closed g zero l i e lo hi u =
    let (d, a, b, c, f) = Under-bounds level idx p q u in
    let last : l ≡ 11 = omega arith in
    let at = ap (λ (x : ℕ). 2 ^ x) last in
    let at' = ap (λ (x : ℕ). 2 ^ suc x) last in
    let at_last = level_at (level + d) (omega arith) (omega arith) in
    let depth : d ≡ 11 - level = omega arith in
    g.gone i (subst (λ (x : ℕ). idx * 2 ^ x ≤ i) depth c)
      (subst (λ (x : ℕ). i < suc idx * 2 ^ x) depth f)
  where
    level_at : (x : ℕ) → 2 ^ x < 4096 → 2048 < 2 ^ suc x → x ≡ 11
    level_at x y z = elim (Bool-cases (ltb x 11)) [
      | inl t ↦ absurd (let b = pow2_le (suc x) 11 (ground arith) in omega arith)
      | inr f ↦ elim (Bool-cases (ltb 11 x)) [
        | inl t ↦ absurd (let b = pow2_le 12 x (ground arith) in omega arith)
        | inr f' ↦ ground arith
      ]
    ]
Under-gone s s' level idx h p q closed g (suc m) l i e lo hi u = elim (Bool-cases (s' i)) [
  | inr n ↦ n
  | inl t ↦
      let pos = pow2_le 0 l (omega arith) in
      let most = pow2_le (suc l) 11 (omega arith) in
      let two = pow-suc 2 l in
      let two' = pow-suc 2 (suc l) in
      let (a, _) = closed i (omega arith) (omega arith) t in
      let even : i ≡ 2 * i / 2 = omega arith in
      let n =
        Under-gone s s' level idx h p q closed g m (suc l) (2 * i) (omega arith) (omega arith)
          (omega arith) (child (2 * i) (omega arith) (subst (Under idx) even u)) in
      absurd (cc)
]
