-- ===== src/Chunk/Jumps/Calls.antt =====
-- Sequences of calls on a chunk of src/chunk.c, and that they keep the free nodes linked.
use sealloc.Base.{
  ℕ, ◌+◌, ◌^◌, ◌<◌, ◌≡◌, refl, ◌∙◌, ap, sym, subst, Bool, true, inl, inr, ◌⊎◌, some, Cells, Option,
}
use sealloc.Chunk.{Chunk, chunk_size_bytes}
use sealloc.ContainerLl.{null}
use sealloc.Random.{Rng}
use sealloc.Chunk.Allocate.{chunk_allocate_run}
use sealloc.Chunk.Deallocate.{
  Range, Climb, found, no_run, out_of_fuel, release, chunk_deallocate_run,
}
use sealloc.Chunk.Jumps.{Nodes}
use sealloc.Chunk.Jumps.Take.{FreeNodes}
use sealloc.Chunk.Jumps.Runs.{run_bytes, GivenRun, chunk_allocate_run-FreeNodes}

-- A call of chunk_allocate_run for some leaves, whatever it gives; one of chunk_deallocate_run that does not
-- abort; or a change of the chunk's place in a list.
pub data Step (c c' : Chunk) : Type 0 where
  allocate :
      (k reg_size : ℕ) (rng : Rng) (ptr : ℕ) (rng' : Rng)
      → k < 12
      → chunk_allocate_run c (run_bytes k) reg_size rng ≡ some (ptr, c', rng')
      → Step c c'
  deallocate :
      (ptr : ℕ) (full : Bool) (range : Range)
      → chunk_deallocate_run c ptr ≡ some (full, range, c')
      → Step c c'
  relink : (fd bk : ℕ) → c' ≡ record c { entry = record c.entry { fd = fd; bk = bk } } → Step c c'

pub data Steps (c : Chunk) : Chunk → Type 0 where
  here : Steps c c
  next : {c' c'' : Chunk} → Steps c c' → Step c' c'' → Steps c c''

-- What a step keeps: some of the free nodes are still free, and only they.
pub record Kept (s : Nodes) (c c' : Chunk) : Type 0 where
  pub rest : Nodes
  pub links : FreeNodes rest c'
  pub fewer : (i : ℕ) → rest i ≡ true → s i ≡ true
  pub key : c'.entry.key ≡ c.entry.key

-- The jump tree is all that counts.
pub FreeNodes-same :
    (s : Nodes) (c c' : Chunk)
    → c'.jump_tree ≡ c.jump_tree
    → c'.jump_tree_first_index ≡ c.jump_tree_first_index
    → c'.avail_nodes_count ≡ c.avail_nodes_count
    → FreeNodes s c
    → FreeNodes s c'
FreeNodes-same s c c' p q r v = record {
  levels = λ l h.
      let u = v.levels l h in
      record { links = rw p u.links; first = rw q u.first; count = rw r u.count };
  zeros = rw p v.zeros;
  closed = v.closed;
  root = v.root;
}

with_tree :
    (c : Chunk) {c' : Chunk} {b full : Bool} {a range : Range} {t : Cells ℕ}
    → ◌≡◌ {A = Option (Bool × Range × Chunk)}
        (some (b, a, record c { buddy_tree = t }))
        (some (full, range, c'))
    → (tree : Cells ℕ) × (c' ≡ record c { buddy_tree = tree })
with_tree c {t} e = (t, cc)

pub release-jumps :
    (c : Chunk) (ptr : ℕ) (r : Climb) (full : Bool) (range : Range) (c' : Chunk)
    → release c ptr r ≡ some (full, range, c')
    → (tree : Cells ℕ) × (c' ≡ record c { buddy_tree = tree })
unfolding release
release-jumps c ptr (found idx depth) full range c' e = with_tree c e
release-jumps c ptr no_run full range c' e = absurd (let f = e in cc)
release-jumps c ptr out_of_fuel full range c' e = absurd (let f = e in cc)

given_eq :
    {o : Option (ℕ × Chunk × Rng)} {p p' : ℕ} {c c' : Chunk} {r r' : Rng}
    → o ≡ some (p, c, r)
    → o ≡ some (p', c', r')
    → (p ≡ p') × (c ≡ c')
given_eq h k = (cc, cc)

-- A call that gave some run gave one of free nodes.
pub given :
    (s : Nodes) (c : Chunk) (k reg_size : ℕ) (rng : Rng) (ptr : ℕ) (c' : Chunk) (rng' : Rng)
    → FreeNodes s c
    → k < 12
    → c.entry.key + chunk_size_bytes < 2 ^ 64
    → chunk_allocate_run c (run_bytes k) reg_size rng ≡ some (ptr, c', rng')
    → ((ptr ≡ null) × (c' ≡ c)) ⊎ GivenRun s c k ptr c'
given s c k reg_size rng ptr c' rng' v h fits e =
    elim (chunk_allocate_run-FreeNodes s c k reg_size rng v h fits) [
      | inl (_, f) ↦ inl (given_eq e f)
      | inr (p, d, r, f, g) ↦
          let (a, b) = given_eq f e in
          inr (subst (GivenRun s c k ptr) b (subst (λ (x : ℕ). GivenRun s c k x d) a g))
    ]

Step-Kept :
    (s : Nodes) (c c' : Chunk)
    → FreeNodes s c
    → c.entry.key + chunk_size_bytes < 2 ^ 64
    → Step c c'
    → Kept s c c'
unfolding chunk_deallocate_run
Step-Kept s c c' v fits (allocate k reg_size rng ptr rng' h e) =
    elim (given s c k reg_size rng ptr c' rng' v h fits e) [
      | inl (_, same) ↦
          subst (Kept s c) (sym same) (record { rest = s; links = v; fewer = λ i t. t; key = refl })
      | inr g ↦ record {
        rest = g.rest;
        links = g.links;
        fewer = g.handed.fewer;
        key = ap (λ x. x.key) g.entry;
      }
    ]
Step-Kept s c c' v fits (deallocate ptr full range e) =
    let (tree, same) = release-jumps c ptr _ full range c' e in
    subst (Kept s c) (sym same) (record {
      rest = s;
      links = FreeNodes-same s c _ refl refl refl v;
      fewer = λ i t. t;
      key = refl;
    })
Step-Kept s c c' v fits (relink fd bk same) = subst (Kept s c) (sym same) (record {
  rest = s;
  links = FreeNodes-same s c _ refl refl refl v;
  fewer = λ i t. t;
  key = refl;
})

pub steps-Kept :
    (s : Nodes) (c : Chunk) {c' : Chunk}
    → FreeNodes s c
    → c.entry.key + chunk_size_bytes < 2 ^ 64
    → Steps c c'
    → Kept s c c'
steps-Kept s c v fits here = record { rest = s; links = v; fewer = λ i t. t; key = refl }
steps-Kept s c {c'} v fits (next {c' = d} before last) =
    let k = steps-Kept s c v fits before in
    let r = Step-Kept k.rest d c' k.links (rw k.key fits) last in
    record {
      rest = r.rest;
      links = r.links;
      fewer = λ i t. k.fewer i (r.fewer i t);
      key = r.key ∙ k.key;
    }
