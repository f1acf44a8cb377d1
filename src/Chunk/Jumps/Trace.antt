-- ===== src/Chunk/Jumps/Trace.antt =====
-- No memory of a chunk is handed out twice by chunk_allocate_run in src/chunk.c.
use sealloc.Base.{
  ℕ, zero, suc, ◌+◌, ◌-◌, ◌*◌, ◌^◌, ◌≤◌, ◌<◌, ◌≡◌, ◌≢◌, refl, ◌∙◌, ap, Bool, true, false, arith,
  inl, inr, ◌⊎◌, some, Bool-cases, leb, ltb,
}
use native.Mathlib.Nat.{pow-suc}
use sealloc.Chunk.{Chunk, chunk_size_bytes, chunk_init, init_levels}
use sealloc.Chunk.Climb.{pow2_le}
use sealloc.ContainerLl.{null}
use sealloc.Random.{Rng}
use sealloc.Chunk.Allocate.{chunk_allocate_run}
use sealloc.Chunk.Take.{node_address, leftmost-bounds}
use sealloc.Chunk.Jumps.{Nodes}
use sealloc.Chunk.Jumps.Up.{ClosedAt}
use sealloc.Chunk.Jumps.Take.{doubled}
use sealloc.Chunk.Jumps.Choose.{FreeIn}
use sealloc.Chunk.Jumps.Runs.{run_bytes, GivenRun}
use sealloc.Chunk.Jumps.Fresh.{chunk_init-FreeNodes}
use sealloc.Chunk.Jumps.Calls.{Steps, given, steps-Kept}

-- All leaves under a free node are free.
leaves_free :
    (s : Nodes)
    → ((i : ℕ) → 0 < i → i < 2048 → ClosedAt s i)
    → (k level j : ℕ) → level + k ≤ 11
    → FreeIn s level j
    → (i : ℕ) → j * 2 ^ k ≤ i
    → i < suc j * 2 ^ k
    → s i ≡ true
leaves_free s closed zero level j e f i p q = let at : i ≡ j = omega arith in ap s at ∙ f.0
leaves_free s closed (suc k) level j e f i p q =
    let two = pow-suc 2 level in
    let two' = pow-suc 2 (suc level) in
    let pos = pow2_le 0 level (omega arith) in
    let most = pow2_le (suc level) 11 (omega arith) in
    let (a, b) = closed j (omega (arith, f.1)) (omega (arith, f.2)) f.0 in
    let low = doubled j k in
    let high = doubled (suc j) k in
    let even : suc (2 * j + 1) ≡ 2 * suc j = omega arith in
    let high' = ap (λ (x : ℕ). x * 2 ^ k) even in
    let odd : suc (2 * j) ≡ 2 * j + 1 = omega arith in
    let mid = ap (λ (x : ℕ). x * 2 ^ k) odd in
    elim (Bool-cases (ltb i ((2 * j + 1) * 2 ^ k))) [
      | inl h ↦
          leaves_free s closed k (suc level) (2 * j) (omega arith)
            (a, omega (arith, f.1), omega (arith, f.2)) i (omega arith) (ground arith)
      | inr h ↦
          leaves_free s closed k (suc level) (2 * j + 1) (omega arith)
            (b, omega (arith, f.1), omega (arith, f.2)) i (ground arith) (omega arith)
    ]

next_block : (x n : ℕ) → suc x * n ≡ x * n + n
next_block x n = grind arith

-- Two ranges of leaves, one with no free leaf and one with free leaves alone, are apart.
apart :
    (s : Nodes) (a n b m : ℕ)
    → 0 < n
    → 0 < m
    → ((i : ℕ) → a ≤ i → i < a + n → s i ≡ false)
    → ((i : ℕ) → b ≤ i → i < b + m → s i ≡ true)
    → (a + n ≤ b) ⊎ (b + m ≤ a)
apart s a n b m pn pm f g = elim (Bool-cases (leb (a + n) b)) [
  | inl h ↦ inl (ground arith)
  | inr h ↦ elim (Bool-cases (leb (b + m) a)) [
    | inl h' ↦ inr (ground arith)
    | inr h' ↦ absurd (elim (Bool-cases (leb a b)) [
      | inl le ↦
          let x = f b (ground arith) (ground arith) in
          let y = g b (ground arith) (ground arith) in cc
      | inr gt ↦
          let x = f a (ground arith) (ground arith) in
          let y = g a (ground arith) (ground arith) in cc
    ])
  ]
]

last_leaf : (k level idx : ℕ) → level + k ≡ 11 → idx < 2 ^ suc level → suc idx * 2 ^ k ≤ 4096
last_leaf zero level idx e q =
    let last : level ≡ 11 = omega arith in let at = ap (λ (n : ℕ). 2 ^ suc n) last in omega arith
last_leaf (suc k) level idx e q =
    let two = pow-suc 2 (suc level) in
    let r = last_leaf k (suc level) (2 * idx + 1) (omega arith) (omega arith) in
    let even : suc (2 * idx + 1) ≡ 2 * suc idx = omega arith in
    let at = ap (λ (x : ℕ). x * 2 ^ k) even in let d = doubled (suc idx) k in omega arith

-- Where a run lies in its chunk.
pub run_place :
    (c : Chunk) (k idx : ℕ)
    → k < 12
    → 2 ^ (11 - k) ≤ idx
    → idx < 2 ^ suc (11 - k)
    → (node_address c idx (11 - k) ≡ c.entry.key + (idx * 2 ^ k - 2048) * 16_384)
      × (2048 ≤ idx * 2 ^ k)
      × (idx * 2 ^ k + 2 ^ k ≤ 4096)
unfolding node_address
run_place c k idx h p q =
    let up : 11 - (11 - k) ≡ k = omega arith in
    let (lo, _) = leftmost-bounds k (11 - k) idx (omega arith) p q in
    let hi = last_leaf k (11 - k) idx (omega arith) q in
    (
      ap (λ (n : ℕ). c.entry.key + (idx * 2 ^ n - 2048) * 16_384) up,
      lo,
      omega (arith, next_block idx (2 ^ k)),
    )

-- What is stated of two runs.
abbrev Apart : ℕ → ℕ → ℕ → ℕ → ℕ → Type 0
Apart heap k ptr k' ptr' =
    ((heap ≤ ptr) × (ptr + run_bytes k ≤ heap + chunk_size_bytes))
    × ((heap ≤ ptr') × (ptr' + run_bytes k' ≤ heap + chunk_size_bytes))
    × ((ptr + run_bytes k ≤ ptr') ⊎ (ptr' + run_bytes k' ≤ ptr))

two_runs :
    (heap : ℕ) (s s2 : Nodes) (c c1 c2 c3 : Chunk) (k k' ptr ptr' : ℕ)
    → k < 12
    → k' < 12
    → c.entry.key ≡ heap
    → c2.entry.key ≡ heap
    → (g : GivenRun s c k ptr c1) → GivenRun s2 c2 k' ptr' c3
    → ((i : ℕ) → s2 i ≡ true → g.rest i ≡ true)
    → ((i : ℕ) → 0 < i → i < 2048 → ClosedAt s2 i)
    → Apart heap k ptr k' ptr'
two_runs heap s s2 c c1 c2 c3 k k' ptr ptr' h h' e e2 g g' sub closed =
    let (at, lo, hi) = run_place c k g.idx h g.node.1 g.node.2 in
    let (at', lo', hi') = run_place c2 k' g'.idx h' g'.node.1 g'.node.2 in
    let up : 11 - (11 - k) ≡ k = omega arith in
    let pos = pow2_le 0 k (omega arith) in
    let pos' = pow2_le 0 k' (omega arith) in
    let address = g.address in
    let address' = g'.address in
    let gone = λ (i : ℕ) (x : g.idx * 2 ^ k ≤ i) (y : i < g.idx * 2 ^ k + 2 ^ k).
      not_free (s2 i) (g.rest i) (sub i)
        (g.handed.gone i (rw up x) (rw up (omega (arith, next_block g.idx (2 ^ k))))) in
    let all = λ (i : ℕ) (x : g'.idx * 2 ^ k' ≤ i) (y : i < g'.idx * 2 ^ k' + 2 ^ k').
      leaves_free s2 closed k' (11 - k') g'.idx (omega arith) g'.node i x
        (omega (arith, next_block g'.idx (2 ^ k'))) in
    (
      (omega arith, omega arith),
      (omega arith, omega arith),
      elim (apart s2 (g.idx * 2 ^ k) (2 ^ k) (g'.idx * 2 ^ k') (2 ^ k') (omega arith) (omega arith)
          gone all) [ inl x ↦ inl (omega arith) | inr x ↦ inr (omega arith) ],
    )
  where
    not_free : (a b : Bool) → (a ≡ true → b ≡ true) → b ≡ false → a ≡ false
    not_free a b f e = elim (Bool-cases a) [ inl t ↦ absurd (let u = f t in cc) | inr n ↦ n ]

pub new_key : (chunk : Chunk) (heap : ℕ) → (chunk_init chunk heap).entry.key ≡ heap
unfolding chunk_init init_levels
new_key chunk heap = refl

-- No memory of a chunk is handed out twice: let chunk_init set up a chunk that ends below the end of the
-- address space. After any sequence of calls, let a call of chunk_allocate_run for 2 ^ k leaves give a run, and
-- after any further sequence, runs released in between or not, let one for 2 ^ k' leaves give another, `k` and
-- `k'` at most 11. Then both runs lie in the chunk, and one ends before the other starts.
pub runs_never_overlap :
    (chunk : Chunk) (heap : ℕ) (c c1 c2 c3 : Chunk) (k k' reg_size reg_size' : ℕ)
    (rng rng1 rng2 rng3 : Rng) (ptr ptr' : ℕ)
    → heap + chunk_size_bytes < 2 ^ 64
    → k < 12
    → k' < 12
    → Steps (chunk_init chunk heap) c
    → chunk_allocate_run c (run_bytes k) reg_size rng ≡ some (ptr, c1, rng1)
    → ptr ≢ null
    → Steps c1 c2
    → chunk_allocate_run c2 (run_bytes k') reg_size' rng2 ≡ some (ptr', c3, rng3)
    → ptr' ≢ null
    → ((heap ≤ ptr) × (ptr + run_bytes k ≤ heap + chunk_size_bytes))
      × ((heap ≤ ptr') × (ptr' + run_bytes k' ≤ heap + chunk_size_bytes))
      × ((ptr + run_bytes k ≤ ptr') ⊎ (ptr' + run_bytes k' ≤ ptr))
runs_never_overlap chunk heap c c1 c2 c3 k k' reg_size reg_size' rng rng1 rng2 rng3 ptr ptr' fits h
      h' before e some_run between e' some_run' =
    let new : (chunk_init chunk heap).entry.key + chunk_size_bytes < 2 ^ 64 =
      rw (new_key chunk heap) fits in
    let start = steps-Kept _ (chunk_init chunk heap) (chunk_init-FreeNodes chunk heap) new before in
    let fits0 : c.entry.key + chunk_size_bytes < 2 ^ 64 = rw start.key new in
    elim (given start.rest c k reg_size rng ptr c1 rng1 start.links h fits0 e) [
      | inl (z, _) ↦ absurd (some_run z)
      | inr g ↦
          let key1 = ap (λ x. x.key) g.entry ∙ start.key in
          let fits1 : c1.entry.key + chunk_size_bytes < 2 ^ 64 = rw key1 new in
          let later = steps-Kept g.rest c1 g.links fits1 between in
          let key2 = later.key ∙ key1 in
          let fits2 : c2.entry.key + chunk_size_bytes < 2 ^ 64 = rw key2 new in
          elim (given later.rest c2 k' reg_size' rng2 ptr' c3 rng3 later.links h' fits2 e') [
            | inl (z, _) ↦ absurd (some_run' z)
            | inr g' ↦
                two_runs heap start.rest later.rest c c1 c2 c3 k k' ptr ptr' h h'
                  (start.key ∙ new_key chunk heap) (key2 ∙ new_key chunk heap) g g' later.fewer
                  later.links.closed
          ]
    ]
