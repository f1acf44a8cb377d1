-- ===== src/Chunk/Jumps/Stays.antt =====
-- chunk_get_run_ptr in src/chunk.c finds each run that was handed out, until it is released.
use sealloc.Base.{
  ℕ, zero, suc, ◌+◌, ◌-◌, ◌*◌, ◌/◌, ◌^◌, ◌≤◌, ◌<◌, ◌≡◌, ◌≢◌, refl, ◌∙◌, ap, sym, subst, Bool, arith,
  inl, inr, some,
}
use native.Mathlib.Nat.{mul-le-mul_left}
use sealloc.Chunk.{Chunk, chunk_size_bytes, chunk_init}
use sealloc.ContainerLl.{null}
use sealloc.Random.{Rng}
use sealloc.Chunk.Climb.{pow2_le, shift, RunAt, positive}
use sealloc.Chunk.Lookup.{InChunk, block, block-lt, info, chunk_get_run_ptr-RunAt}
use sealloc.Chunk.Allocate.{chunk_allocate_run}
use sealloc.Chunk.Deallocate.{Range, chunk_get_run_ptr, chunk_deallocate_run}
use sealloc.Chunk.Fresh.{chunk_init-free}
use sealloc.Chunk.Jumps.{Nodes}
use sealloc.Chunk.Jumps.Take.{FreeNodes}
use sealloc.Chunk.Jumps.Runs.{run_bytes}
use sealloc.Chunk.Jumps.Fresh.{all_but_root, chunk_init-FreeNodes}
use sealloc.Chunk.Jumps.Calls.{
  Step, allocate, deallocate, relink, Steps, here, next, given, release-jumps, FreeNodes-same,
}
use sealloc.Chunk.Jumps.Trace.{run_place, new_key}
use sealloc.Chunk.Jumps.Below.{Under, child, self}
use sealloc.Chunk.Jumps.Owned.{
  freed, freed-Unused, freed-keeps, Sound, Owned, given-Sound, given-Owned, given-keeps, idx_bounds,
  one_leaf,
}

-- The pointers that a sequence of calls releases.
abbrev pub Releases : {c c' : Chunk} → (Chunk → ℕ → Type 0) → Step c c' → Type 0
Releases ok (allocate k reg_size rng ptr rng' h e) = Unit {0}
Releases {c} ok (deallocate ptr full range e) = ok c ptr
Releases ok (relink fd bk e) = Unit {0}

abbrev pub AllReleases : {c c' : Chunk} → (Chunk → ℕ → Type 0) → Steps c c' → Type 0
AllReleases ok here = Unit {0}
AllReleases ok (next before last) = AllReleases ok before × Releases ok last

-- A pointer that is not into a leaf of the chunk at `heap`.
abbrev pub Off : ℕ → ℕ → Chunk → ℕ → Type 0
Off heap leaf c p = (p - heap) / 16_384 ≢ leaf

freed-Sound :
    (s : Nodes) (c c' : Chunk) (p : ℕ) (full : Bool) (range : Range)
    → Sound s c
    → InChunk c p
    → chunk_deallocate_run c p ≡ some (full, range, c')
    → Sound s c' × (c'.entry ≡ c.entry)
unfolding chunk_deallocate_run
freed-Sound s c c' p full range v i e =
    let (tree, same) = release-jumps c p _ full range c' e in
    (
      record {
        links = subst (FreeNodes s) (sym same) (FreeNodes-same s c _ refl refl refl v.links);
        unused = freed-Unused s c c' p v.links v.unused (freed c c' p full range i e);
      },
      ap (λ x. x.entry) same,
    )

-- The calls keep the free nodes right, and, when no release is of the run's first leaf, the run at `o`.
record Spared (s : Nodes) (o : ℕ) (c c' : Chunk) (off : Type 0) : Type 0 where
  rest : Nodes
  sound : Sound rest c'
  owned : off → Owned s o c → Owned rest o c'
  key : c'.entry.key ≡ c.entry.key

block_at : (c : Chunk) (heap p : ℕ) → c.entry.key ≡ heap → block c p ≡ (p - heap) / 16_384
unfolding block
block_at c heap p e = rw e refl

-- The run at the node `o`, whose first leaf is `k` levels below.
module _ (heap o k leaf : ℕ) (pos : 0 < o) (lt : o < 4096) (lo : 2048 ≤ o * 2 ^ k)
    (hi : o * 2 ^ k < 4096) (first : o * 2 ^ k ≡ 2048 + leaf)
    (fits : heap + chunk_size_bytes < 2 ^ 64) where
  Step-Spared :
      (s : Nodes) (c c' : Chunk)
      → c.entry.key ≡ heap
      → Sound s c
      → (st : Step c c') → Releases InChunk st
      → Spared s o c c' (Releases (Off heap leaf) st)
  Step-Spared s c c' at v (allocate k' reg_size rng ptr rng' h e) ok =
      let room : c.entry.key + chunk_size_bytes < 2 ^ 64 = rw at fits in
      elim (given s c k' reg_size rng ptr c' rng' v.links h room e) [
        | inl (_, same) ↦
            subst (λ x. Spared s o c x (Unit {0})) (sym same)
              (record { rest = s; sound = v; owned = λ _ w. w; key = refl })
        | inr g ↦ record {
          rest = g.rest;
          sound = given-Sound s c c' k' ptr h g v;
          owned = λ _. given-keeps s c c' k' ptr h g v o pos lt;
          key = ap (λ x. x.key) g.entry;
        }
      ]
  Step-Spared s c c' at v (deallocate p full range e) ok =
      let (sound, entry) = freed-Sound s c c' p full range v ok e in
      let f = freed c c' p full range ok e in
      let b = block-lt c p ok in
      let from = f.leaf in
      let place = block_at c heap p at in
      record {
        rest = s;
        sound = sound;
        owned = λ off. freed-keeps s o c c' p pos lt f (λ same.
            let there = ap (λ (x : ℕ). x * 2 ^ f.k) same in
            let one = one_leaf o f.k k (omega arith) (omega arith) lo hi in off (omega arith));
        key = ap (λ x. x.key) entry;
      }
  Step-Spared s c c' at v (relink fd bk same) ok =
      subst (λ x. Spared s o c x (Unit {0})) (sym same)
        (record {
          rest = s;
          sound = record { links = FreeNodes-same s c _ refl refl refl v.links; unused = v.unused };
          owned = λ _ w. record { gone = w.gone; used = w.used; quiet = w.quiet };
          key = refl;
        })

  steps-Spared :
      (s : Nodes) (c : Chunk) {c' : Chunk}
      → c.entry.key ≡ heap
      → Sound s c
      → (st : Steps c c') → AllReleases InChunk st
      → Spared s o c c' (AllReleases (Off heap leaf) st)
  steps-Spared s c at v here ok = record { rest = s; sound = v; owned = λ _ w. w; key = refl }
  steps-Spared s c {c'} at v (next {c' = d} before last) ok =
      let a = steps-Spared s c at v before ok.0 in
      let b = Step-Spared a.rest d c' (a.key ∙ at) a.sound last ok.1 in
      record {
        rest = b.rest;
        sound = b.sound;
        owned = λ off w. b.owned off.1 (a.owned off.0 w);
        key = b.key ∙ a.key;
      }

leftmost : (o j : ℕ) → 0 < o → Under o (o * 2 ^ j)
leftmost o zero p = let one : o ≡ o * 2 ^ 0 = omega arith in subst (Under o) one self
leftmost o (suc j) p =
    let d = shift o j in
    let pos = positive o j p in
    let half : o * 2 ^ j ≡ o * 2 ^ suc j / 2 = omega arith in
    child (o * 2 ^ suc j) (omega arith) (subst (Under o) half (leftmost o j p))

-- A run is found while it is owned.
Owned-RunAt :
    (s : Nodes) (o k : ℕ) (c : Chunk)
    → 0 < o
    → o * 2 ^ k < 4096
    → Owned s o c
    → RunAt c.buddy_tree o k
Owned-RunAt s o k c p lt w = record {
  used = w.used;
  below = λ j h.
      let le = mul-le-mul_left o (pow2_le (suc j) k (omega arith)) in
      let le' = mul-le-mul_left o (pow2_le 1 (suc j) (omega arith)) in
      w.quiet (o * 2 ^ suc j) (omega arith) (omega arith) (leftmost o (suc j) p) (λ e. omega arith);
}

new-Sound : (chunk : Chunk) (heap : ℕ) → Sound all_but_root (chunk_init chunk heap)
new-Sound chunk heap = record {
  links = chunk_init-FreeNodes chunk heap;
  unused = λ i p lt _. chunk_init-free chunk heap i p lt;
}

found_at :
    (s : Nodes) (c : Chunk) (heap o k ptr : ℕ)
    → heap + chunk_size_bytes < 2 ^ 64
    → c.entry.key ≡ heap
    → 0 < o
    → 2048 ≤ o * 2 ^ k
    → o * 2 ^ k < 4096
    → ptr ≡ heap + (o * 2 ^ k - 2048) * 16_384
    → Owned s o c
    → ((chunk_get_run_ptr c ptr).run_ptr ≡ ptr) × ((chunk_get_run_ptr c ptr).run_size ≡ run_bytes k)
unfolding info
found_at s c heap o k ptr fits key pos lo hi at w =
    let b = block_at c heap ptr key in
    let i : InChunk c ptr = record { fits = rw key fits; from = omega arith; to = omega arith } in
    let e = chunk_get_run_ptr-RunAt c ptr o k i pos (omega arith) (Owned-RunAt s o k c pos hi w) in
    (ap (λ x. x.run_ptr) e ∙ omega arith, ap (λ x. x.run_size) e)

-- A run is known until it is released: let chunk_init set up a chunk that ends below the end of the address
-- space. After any sequence of calls that release pointers into the chunk, let a call of chunk_allocate_run
-- for 2 ^ k leaves, `k` at most 11, give a run. Then after any further sequence of calls that release pointers
-- into the chunk, though none into the first leaf of the run, chunk_get_run_ptr gives the run and its size for
-- its address.
pub run_stays_found :
    (chunk : Chunk) (heap : ℕ) (c c1 c2 : Chunk) (k reg_size : ℕ) (rng rng1 : Rng) (ptr : ℕ)
    → heap + chunk_size_bytes < 2 ^ 64
    → k < 12
    → (before : Steps (chunk_init chunk heap) c) → AllReleases InChunk before
    → chunk_allocate_run c (run_bytes k) reg_size rng ≡ some (ptr, c1, rng1)
    → ptr ≢ null
    → (between : Steps c1 c2) → AllReleases InChunk between
    → AllReleases (Off heap ((ptr - heap) / 16_384)) between
    → ((chunk_get_run_ptr c2 ptr).run_ptr ≡ ptr)
      × ((chunk_get_run_ptr c2 ptr).run_size ≡ run_bytes k)
run_stays_found chunk heap c c1 c2 k reg_size rng rng1 ptr fits h before ok e some_run between ok'
      off =
    let a =
      steps-Spared heap 1 11 0 (omega arith) (omega arith) (omega arith) (omega arith) refl fits
        all_but_root (chunk_init chunk heap) (new_key chunk heap) (new-Sound chunk heap) before
        ok in
    let key = a.key ∙ new_key chunk heap in
    let room : c.entry.key + chunk_size_bytes < 2 ^ 64 = rw key fits in
    elim (given a.rest c k reg_size rng ptr c1 rng1 a.sound.links h room e) [
      | inl (z, _) ↦ absurd (some_run z)
      | inr g ↦
          let (pos, small) = idx_bounds a.rest c c1 k ptr h g a.sound in
          let (at, lo, hi) = run_place c k g.idx h g.node.1 g.node.2 in
          let address = g.address in
          let some_leaf = pow2_le 0 k (omega arith) in
          let place : ptr ≡ heap + (g.idx * 2 ^ k - 2048) * 16_384 = omega arith in
          let key1 = ap (λ x. x.key) g.entry ∙ key in
          let b =
            steps-Spared heap g.idx k ((ptr - heap) / 16_384) pos small lo (omega arith)
              (omega arith) fits g.rest c1 key1 (given-Sound a.rest c c1 k ptr h g a.sound) between
              ok' in
          found_at b.rest c2 heap g.idx k ptr fits (b.key ∙ key1) pos lo (omega arith) place
            (b.owned off (given-Owned a.rest c c1 k ptr h g a.sound))
    ]
