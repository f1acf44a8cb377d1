-- ===== src/Chunk/Jumps/Owned.antt =====
-- What chunk_allocate_run and chunk_deallocate_run in src/chunk.c do to the nodes of a run that is handed out.
use sealloc.Base.{
  ℕ, zero, suc, ◌+◌, ◌-◌, ◌*◌, ◌/◌, ◌^◌, ◌≤◌, ◌<◌, ◌≡◌, ◌≢◌, ◌∙◌, ap, sym, Bool, true, false, arith,
  inl, inr, some, Cells, Bool-cases, ltb,
}
use native.Mathlib.Nat.{mul-le-mul_left}
use sealloc.Chunk.{Chunk, get_buddy_tree_item, node_free, node_used}
use sealloc.Chunk.Climb.{pow2_le, shift, climb-found, node-lt}
use sealloc.Chunk.Coalesce.{set_other, set_same}
use sealloc.Chunk.Lookup.{InChunk, block, block-lt}
use sealloc.Chunk.Deallocate.{found, Range, release, leaf_of, chunk_deallocate_run}
use sealloc.Chunk.Jumps.{Nodes}
use sealloc.Chunk.Jumps.Take.{FreeNodes}
use sealloc.Chunk.Jumps.Runs.{GivenRun}
use sealloc.Chunk.Jumps.Below.{Under, self, child, Under-free, Under-gone}
use sealloc.Chunk.Jumps.Held.{release-Agree}

-- What the buddy tree holds for the free nodes.
abbrev pub Unused : Nodes → Cells ℕ → Type 0
Unused s tree = (i : ℕ) → 0 < i → i < 4096 → s i ≡ true → get_buddy_tree_item tree i ≡ node_free

-- The run that a release finds.
pub record Freed (c c' : Chunk) (p : ℕ) : Type 0 where
  pub n : ℕ
  pub k : ℕ
  pub depth : ℕ
  pub full : Bool
  pub range : Range
  pub pos : 0 < n
  pub small : n < 4096
  pub used : get_buddy_tree_item c.buddy_tree n ≡ node_used
  pub leaf : 2048 + block c p ≡ n * 2 ^ k
  pub done : release c p (found n depth) ≡ some (full, range, c')

leaf_of-block : (c : Chunk) (p : ℕ) → InChunk c p → leaf_of p c ≡ 2048 + block c p
unfolding leaf_of block
leaf_of-block c p i = let f = i.fits in let g = i.from in let h = i.to in omega arith

pub freed :
    (c c' : Chunk) (p : ℕ) (full : Bool) (range : Range)
    → InChunk c p
    → chunk_deallocate_run c p ≡ some (full, range, c')
    → Freed c c' p
unfolding chunk_deallocate_run release
freed c c' p full range i e =
    let at = leaf_of-block c p i in
    let lt = block-lt c p i in
    elim (climb-found 12 (leaf_of p c) 0 c.buddy_tree (omega arith) (omega arith)) [
      | inl (n, k, e', q, np, r) ↦ record {
        n = n;
        k = k;
        depth = 0 + k;
        full = full;
        range = range;
        pos = np;
        small = node-lt n k (omega arith);
        used = r.used;
        leaf = sym at ∙ q;
        done = sym (ap (release c p) e') ∙ e;
      }
      | inr e' ↦ absurd (let f = sym (ap (release c p) e') ∙ e in cc)
    ]

-- A release changes nothing of what is free.
pub freed-Unused :
    (s : Nodes) (c c' : Chunk) (p : ℕ)
    → FreeNodes s c
    → Unused s c.buddy_tree
    → Freed c c' p
    → Unused s c'.buddy_tree
freed-Unused s c c' p v u f i pi li t =
    release-Agree (λ j. s j ≡ true) up c p f.n f.depth f.full f.range c' f.pos f.small in_use f.done
      i pi li t
    ∙ u i pi li t
  where
    in_use : ¬ (s f.n ≡ true)
    in_use t = let a = u f.n f.pos f.small t in let b = f.used in absurd (omega arith)

    up : (j : ℕ) → 1 < j → j < 4096 → s (j / 2) ≡ true → s j ≡ true
    up j h lt t = Under-free s (j / 2) v.closed t (child j h self) lt

-- The free nodes are right in both trees.
pub record Sound (s : Nodes) (c : Chunk) : Type 0 where
  pub links : FreeNodes s c
  pub unused : Unused s c.buddy_tree

-- A run is at a node: nothing under the node is free any more, and the node alone is used.
pub record Owned (s : Nodes) (idx : ℕ) (c : Chunk) : Type 0 where
  pub gone : (i : ℕ) → 0 < i → i < 4096 → Under idx i → s i ≡ false
  pub used : get_buddy_tree_item c.buddy_tree idx ≡ node_used
  pub quiet :
      (i : ℕ)
      → 0 < i
      → i < 4096
      → Under idx i
      → i ≢ idx
      → get_buddy_tree_item c.buddy_tree i ≡ node_free

-- The level of a node.
node_level :
    (n i : ℕ)
    → n < 12
    → 0 < i
    → i < 2 ^ suc n
    → (l : ℕ) × (m : ℕ) × (l + m ≡ 11) × (2 ^ l ≤ i) × (i < 2 ^ suc l)
node_level zero i h p lt = (0, 11, omega arith, omega arith, omega arith)
node_level (suc n) i h p lt = elim (Bool-cases (ltb i (2 ^ suc n))) [
  | inl t ↦ node_level n i (omega arith) p (ground arith)
  | inr f ↦ (suc n, 11 - suc n, omega arith, ground arith, lt)
]

module _ (s : Nodes) (c c' : Chunk) (k ptr : ℕ) (h : k < 12) (g : GivenRun s c k ptr c')
    (v : Sound s c) where
  pub idx_bounds : (0 < g.idx) × (g.idx < 4096)
  idx_bounds =
      let pos = pow2_le 0 (11 - k) (omega arith) in
      let most = pow2_le (suc (11 - k)) 12 (omega arith) in
      (omega (arith, g.node.1), omega (arith, g.node.2))

  given-gone : (i : ℕ) → 0 < i → i < 4096 → Under g.idx i → g.rest i ≡ false
  given-gone i p lt u =
      let (l, m, e, lo, hi) = node_level 11 i (omega arith) p (omega arith) in
      Under-gone s g.rest (11 - k) g.idx (omega arith) g.node.1 g.node.2 g.links.closed g.handed m l
        i e lo hi u

  given_other :
      (i : ℕ)
      → 0 < i
      → i < 4096
      → i ≢ g.idx
      → get_buddy_tree_item c'.buddy_tree i ≡ get_buddy_tree_item c.buddy_tree i
  given_other i p lt n =
      let (a, b) = idx_bounds in
      ap (λ (t : Cells ℕ). get_buddy_tree_item t i) g.buddy
      ∙ set_other c.buddy_tree g.idx node_used i a b p lt (omega arith) n

  pub given-Sound : Sound g.rest c'
  given-Sound = record {
    links = g.links;
    unused = λ i p lt t.
        given_other i p lt (λ e.
          let (a, b) = idx_bounds in let n = given-gone g.idx a b self in let y = ap g.rest e in cc)
        ∙ v.unused i p lt (g.handed.fewer i t);
  }

  pub given-Owned : Owned g.rest g.idx c'
  given-Owned =
      let (a, b) = idx_bounds in
      record {
        gone = given-gone;
        used =
            ap (λ (t : Cells ℕ). get_buddy_tree_item t g.idx) g.buddy
            ∙ set_same c.buddy_tree g.idx node_used a b (omega arith);
        quiet = λ i p lt u n.
            given_other i p lt n
            ∙ v.unused i p lt (Under-free s g.idx v.links.closed g.node.0 u lt);
      }

  pub given-keeps : (o : ℕ) → 0 < o → o < 4096 → Owned s o c → Owned g.rest o c'
  given-keeps o p lt w = record {
    gone = λ i a b u. less i (w.gone i a b u);
    used =
        given_other o p lt
          (λ e. let f = w.gone o p lt self in let y = ap s e in let t = g.node.0 in cc)
        ∙ w.used;
    quiet = λ i a b u n.
        given_other i a b (λ e. let f = w.gone i a b u in let y = ap s e in let t = g.node.0 in cc)
        ∙ w.quiet i a b u n;
  }
    where
      less : (i : ℕ) → s i ≡ false → g.rest i ≡ false
      less i e = elim (Bool-cases (g.rest i)) [
        | inl t ↦ absurd (let x = g.handed.fewer i t in cc)
        | inr n ↦ n
      ]

-- The release of another run leaves a run alone.
pub freed-keeps :
    (s : Nodes) (o : ℕ) (c c' : Chunk) (p : ℕ)
    → 0 < o
    → o < 4096
    → (f : Freed c c' p) → f.n ≢ o
    → Owned s o c
    → Owned s o c'
freed-keeps s o c c' p pos lt f ne w =
    let same =
      release-Agree (Under o) (λ j h _ u. child j h u) c p f.n f.depth f.full f.range c' f.pos
        f.small apart f.done in
    record {
      gone = w.gone;
      used = same o pos lt self ∙ w.used;
      quiet = λ i a b u n. same i a b u ∙ w.quiet i a b u n;
    }
  where
    apart : ¬ Under o f.n
    apart u = let a = w.quiet f.n f.pos f.small u ne in let b = f.used in absurd (omega arith)

-- A node has one first leaf.
pub one_leaf :
    (o k k' : ℕ)
    → 2048 ≤ o * 2 ^ k
    → o * 2 ^ k < 4096
    → 2048 ≤ o * 2 ^ k'
    → o * 2 ^ k' < 4096
    → o * 2 ^ k ≡ o * 2 ^ k'
one_leaf o k k' a b a' b' = elim (Bool-cases (ltb k k')) [
  | inl t ↦ absurd (
      let le = mul-le-mul_left o (pow2_le (suc k) k' (ground arith)) in
      let d = shift o k in omega arith)
  | inr f ↦ elim (Bool-cases (ltb k' k)) [
    | inl t ↦ absurd (
        let le = mul-le-mul_left o (pow2_le (suc k') k (ground arith)) in
        let d = shift o k' in omega arith)
    | inr f' ↦ let e : k ≡ k' = ground arith in ap (λ (x : ℕ). o * 2 ^ x) e
  ]
]
