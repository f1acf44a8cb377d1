-- ===== src/Chunk/Jumps/Runs.antt =====
-- chunk_allocate_run in src/chunk.c, on a chunk whose jump tree links exactly the free nodes.
use sealloc.Base.{
  ℕ, ◌+◌, ◌-◌, ◌*◌, ◌^◌, ◌<◌, ◌≡◌, ◌≢◌, refl, ◌∙◌, ap, true, false, arith, inl, inr, ◌⊎◌, eq-cases,
  none, some, ◌==◌, ==_iff, all_below, all_below_sound, if◌then◌else◌, Option,
}
use sealloc.Chunk.{Chunk, chunk_size_bytes, get_jt_item, sub32, set_buddy_tree_item, node_used}
use sealloc.ContainerLl.{null}
use sealloc.Random.{Rng}
use sealloc.Utils.{ctz, ctz_loop}
use sealloc.Chunk.Take.{node_address}
use sealloc.Chunk.Allocate.{choose_node, size2idx, chunk_allocate_with_node, chunk_allocate_run}
use sealloc.Chunk.Jumps.{Nodes}
use sealloc.Chunk.Jumps.Take.{FreeNodes, Handed}
use sealloc.Chunk.Jumps.Allocate.{chunk_allocate_with_node-FreeNodes}
use sealloc.Chunk.Jumps.Choose.{FreeIn, choose_node_lem}

-- The size of a run of `2 ^ k` leaves.
abbrev pub run_bytes : ℕ → ℕ
run_bytes k = 16_384 * 2 ^ k

levels : all_below 12 (λ k. sub32 11 (size2idx (run_bytes k)) == 11 - k) ≡ true
unfolding all_below sub32 size2idx ctz ctz_loop
levels = refl

level_of : (k : ℕ) → k < 12 → sub32 11 (size2idx (run_bytes k)) ≡ 11 - k
level_of k h =
    (==_iff _ _).0
      (all_below_sound 12 (λ k. sub32 11 (size2idx (run_bytes k)) == 11 - k) k levels h)

-- A run that a call gave: of which node, and what is free then.
pub record GivenRun (s : Nodes) (c : Chunk) (k ptr : ℕ) (c' : Chunk) : Type 0 where
  pub idx : ℕ
  pub rest : Nodes
  pub node : FreeIn s (11 - k) idx
  pub address : ptr ≡ node_address c idx (11 - k)
  pub links : FreeNodes rest c'
  pub handed : Handed s rest (11 - k) idx
  pub entry : c'.entry ≡ c.entry
  pub buddy : c'.buddy_tree ≡ set_buddy_tree_item c.buddy_tree idx node_used

-- chunk_allocate_run from the level on.
abbrev at_level : Chunk → ℕ → Rng → ℕ → Option (ℕ × Chunk × Rng)
at_level c reg_size rng level =
    let (idx, rng') = choose_node c level rng in
    if c.avail_nodes_count level == 0
    then some (null, c, rng)
    else elim (chunk_allocate_with_node c (get_jt_item c.jump_tree idx) idx level reg_size) [
      | none ↦ none
      | some (ptr, c') ↦ some (ptr, c', rng')
    ]

none_at :
    (c : Chunk) (reg_size : ℕ) (rng : Rng) (level : ℕ)
    → c.avail_nodes_count level ≡ 0
    → at_level c reg_size rng level ≡ some (null, c, rng)
none_at c reg_size rng level e = rw e refl

some_at :
    (c : Chunk) (reg_size : ℕ) (rng : Rng) (level ptr : ℕ) (c' : Chunk)
    → c.avail_nodes_count level ≢ 0
    → chunk_allocate_with_node c
        (get_jt_item c.jump_tree (choose_node c level rng).0)
        (choose_node c level rng).0
        level
        reg_size
      ≡ some (ptr, c')
    → at_level c reg_size rng level ≡ some (ptr, c', (choose_node c level rng).1)
some_at c reg_size rng level ptr c' n e = rw (some_left (c.avail_nodes_count level) n, e) refl
  where
    some_left : (x : ℕ) → x ≢ 0 → (x == 0) ≡ false
    some_left x n = ground arith

-- For a chunk whose free nodes are linked level by level, and which ends below the end of the address space,
-- the call for a run of `2 ^ k` leaves, `k` at most 11, gives null and changes nothing when no node of the
-- level is free. Otherwise it gives the run at a free node of the level and marks this node as used; the free
-- nodes are linked level by level again, all of them were free before, and no leaf of the run is one.
pub chunk_allocate_run-FreeNodes :
    (s : Nodes) (c : Chunk) (k reg_size : ℕ) (rng : Rng)
    → FreeNodes s c
    → k < 12
    → c.entry.key + chunk_size_bytes < 2 ^ 64
    → ((c.avail_nodes_count (11 - k) ≡ 0)
        × (chunk_allocate_run c (run_bytes k) reg_size rng ≡ some (null, c, rng)))
      ⊎ ((ptr : ℕ) × (c' : Chunk) × (rng' : Rng) × (chunk_allocate_run c (run_bytes k) reg_size rng
            ≡ some (ptr, c', rng'))
          × GivenRun s c k ptr c')
unfolding chunk_allocate_run
chunk_allocate_run-FreeNodes s c k reg_size rng v h fits =
    let level = 11 - k in
    let at = ap (at_level c reg_size rng) (level_of k h) in
    elim (eq-cases (c.avail_nodes_count level) 0) [
      | inl e ↦ inl (e, at ∙ none_at c reg_size rng level e)
      | inr n ↦
          let r = choose_node c level rng in
          let node = choose_node_lem s c v level (omega arith) rng n in
          let (s', c', e, f, g, kept, buddy) =
            chunk_allocate_with_node-FreeNodes s c r.0 level reg_size v (omega arith) node.1 node.2
              node.0 fits in
          inr (
            node_address c r.0 level,
            c',
            r.1,
            at ∙ some_at c reg_size rng level (node_address c r.0 level) c' n e,
            record {
              idx = r.0;
              rest = s';
              node = node;
              address = refl;
              links = f;
              handed = g;
              entry = kept;
              buddy = buddy;
            },
          )
    ]
