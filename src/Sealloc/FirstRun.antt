-- ===== src/Sealloc/FirstRun.antt =====
-- The search of locate_metadata_for_ptr in src/sealloc.c over the chunks, in terms of their runs.
use sealloc.Base.{
  ℕ, ◌+◌, ◌*◌, ◌^◌, ◌<◌, ◌≡◌, ◌∙◌, ap, List, [], ◌∷◌, true, false, inl, inr, Bool-cases, Cells, ltb,
  length, arith,
}
use sealloc.ContainerLl.{null, list_fuel}
use sealloc.ContainerLl.Seg.{IsList}
use sealloc.Chunk.{Chunk, chunk_size_bytes}
use sealloc.Chunk.Climb.{RunAt}
use sealloc.Chunk.Lookup.{InChunk, block, info, chunk_get_run_ptr_lem}
use sealloc.Chunk.Deallocate.{RunInfo, chunk_get_run_ptr}
use sealloc.World.{World, done}
use sealloc.Arena.Runs.{chunk_entries}
use sealloc.Arena.Chunks.{Mapped, holds}
use sealloc.Sealloc.{locate_chunk}
use sealloc.Sealloc.Locate.{owner, not_held, locate_chunk-owner}

-- A run of the chunk, not at the address 0, is at the node `n`, `k` levels above the leaves, and the address is
-- in its first leaf.
pub record Starts (chunk : Chunk) (ptr n k : ℕ) : Type 0 where
  pub inside : InChunk chunk ptr
  pub leaf : 2048 + block chunk ptr ≡ n * 2 ^ k
  pub run : RunAt chunk.buddy_tree n k
  pub somewhere : 0 < chunk.entry.key + block chunk ptr * 16_384

-- The first chunk of a list that has a run whose first leaf the address is in, with the run; or null.
pub data FirstRun (cs : Cells Chunk) (ptr : ℕ) : List ℕ → ℕ → RunInfo → Type 0 where
  here :
      (x : ℕ) (xs : List ℕ) (n k : ℕ)
      → Starts (cs x) ptr n k
      → FirstRun cs ptr (x ∷ xs) x (info (cs x) (block (cs x) ptr) k)
  there :
      (x : ℕ) (xs : List ℕ) (c : ℕ) (i : RunInfo)
      → ((n k : ℕ) → ¬ Starts (cs x) ptr n k)
      → FirstRun cs ptr xs c i
      → FirstRun cs ptr (x ∷ xs) c i
  nowhere : (i : RunInfo) → FirstRun cs ptr [] null i

-- What chunk_get_run_ptr says, in terms of the chunk's runs.
data Says (chunk : Chunk) (ptr : ℕ) : Type 0 where
  run :
      (n k : ℕ)
      → Starts chunk ptr n k
      → chunk_get_run_ptr chunk ptr ≡ info chunk (block chunk ptr) k
      → ltb 0 (chunk_get_run_ptr chunk ptr).run_ptr ≡ true
      → Says chunk ptr
  nothing :
      ((n k : ℕ) → ¬ Starts chunk ptr n k)
      → ltb 0 (chunk_get_run_ptr chunk ptr).run_ptr ≡ false
      → Says chunk ptr

positive_lem : (n x b : ℕ) → 2048 + b ≡ n * x → 0 < n
positive_lem n x b e = grind arith

says : (chunk : Chunk) (ptr : ℕ) → chunk.entry.key + chunk_size_bytes < 2 ^ 63 → Says chunk ptr
unfolding holds info
says chunk ptr m = elim (Bool-cases (holds chunk ptr)) [
  | inr h ↦
      nothing (λ n k s. absurd (let f = s.inside.from in let t = s.inside.to in ground arith))
        (ap (λ r. ltb 0 r.run_ptr) (not_held chunk ptr m h))
  | inl h ↦
      let i : InChunk chunk ptr = record {
        fits = omega arith;
        from = ground arith;
        to = ground arith;
      } in
      elim (chunk_get_run_ptr_lem chunk ptr i) [
        | inl (n, k, leaf, r, e) ↦
            elim (Bool-cases (ltb 0 (chunk.entry.key + block chunk ptr * 16_384))) [
              | inl p ↦
                  run n k (record { inside = i; leaf = leaf; run = r; somewhere = ground arith }) e
                    (ap (λ x. ltb 0 x.run_ptr) e ∙ p)
              | inr p ↦
                  nothing (λ n k s. absurd (let z = s.somewhere in ground arith))
                    (ap (λ x. ltb 0 x.run_ptr) e ∙ p)
            ]
        | inr (none, e) ↦
            nothing
              (λ n k s. none n k (positive_lem n (2 ^ k) (block chunk ptr) s.leaf) s.leaf s.run)
              (ap (λ x. ltb 0 x.run_ptr) e)
      ]
]

owner-FirstRun :
    (ptr : ℕ) (cs : Cells Chunk) (xs : List ℕ)
    → Mapped cs xs
    → FirstRun cs ptr xs (owner ptr cs xs) (chunk_get_run_ptr (cs (owner ptr cs xs)) ptr)
unfolding owner Mapped
owner-FirstRun ptr cs [] m = nowhere _
owner-FirstRun ptr cs (x ∷ xs) m = elim (says (cs x) ptr m.0) [
  | run n k s e t ↦ rw (t, e) (here x xs n k s)
  | nothing none f ↦ rw f (there x xs _ _ none (owner-FirstRun ptr cs xs m.1))
]

-- On a well-formed list of chunks whose heaps are user space, for an address below 2^63, the search ends with
-- the first chunk that has a run, not at the address 0, whose first leaf the address is in, and with the address
-- and the size of the run, and its region size when it is one leaf; the chunk is null when no chunk has such a
-- run, also for an address in a later leaf of a run. The state does not change.
pub locate_chunk-FirstRun :
    (ptr : ℕ) (w : World) (xs : List ℕ)
    → IsList (chunk_entries w.chunks) w.arena.chunk_list xs
    → length xs < list_fuel
    → Mapped w.chunks xs
    → ptr < 2 ^ 63
    → (c : ℕ) × (i : RunInfo) × (locate_chunk ptr w ≡ done (c, i) w) × FirstRun w.chunks ptr xs c i
locate_chunk-FirstRun ptr w xs s lt m u = (
  owner ptr w.chunks xs,
  chunk_get_run_ptr (w.chunks (owner ptr w.chunks xs)) ptr,
  locate_chunk-owner ptr w xs s lt m u,
  owner-FirstRun ptr w.chunks xs m,
)
