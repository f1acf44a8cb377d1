-- ===== src/Sealloc/Locate.antt =====
-- The search of locate_metadata_for_ptr in src/sealloc.c over the chunks.
use sealloc.Base.{
  ℕ, zero, suc, ◌+◌, ◌<◌, ◌^◌, ◌≡◌, refl, List, [], ◌∷◌, Bool, true, false, ◌||◌, Option, some,
  Cells, u64, leb, ltb, ◌==◌, if◌then◌else◌, length, arith, Bool-cases, inl, inr,
}
use sealloc.ContainerLl.{null, list_fuel}
use sealloc.ContainerLl.Seg.{Seg, IsList}
use sealloc.Chunk.{Chunk, chunk_size_bytes}
use sealloc.Chunk.Deallocate.{chunk_get_run_ptr, no_info}
use sealloc.World.{Arena, World, done}
use sealloc.Arena.Runs.{chunk_entries}
use sealloc.Arena.Chunks.{holds, first_holding, Mapped, get_chunk_from_chunk, get_chunk_from_start}
use sealloc.Sealloc.{locate_loop, locate_chunk}

-- The first chunk for which chunk_get_run_ptr gives a run for the address, or null.
unfoldable pub owner : ℕ → Cells Chunk → List ℕ → ℕ
owner ptr cs [] = null
owner ptr cs (x ∷ xs) = if ltb 0 (chunk_get_run_ptr (cs x) ptr).run_ptr then x else owner ptr cs xs

pub not_held :
    (chunk : Chunk) (ptr : ℕ)
    → chunk.entry.key + chunk_size_bytes < 2 ^ 63
    → holds chunk ptr ≡ false
    → chunk_get_run_ptr chunk ptr ≡ no_info
unfolding holds chunk_get_run_ptr
not_held chunk ptr m h =
    let out : (ltb ptr chunk.entry.key || leb (u64 (chunk.entry.key + chunk_size_bytes)) ptr)
        ≡ true =
      ground arith in
    rw out refl

pick :
    {A : Type 0} (b : Bool) (x y : ℕ) (f : ℕ → A) (rest : Option (ℕ × A))
    → rest ≡ some (y, f y)
    → (if b then some (x, f x) else rest) ≡ some ((if b then x else y), f (if b then x else y))
pick true x y f rest q = refl
pick false x y f rest q = q

locate_loop-owner :
    (fuel p prev ptr : ℕ) (arena : Arena) (cs : Cells Chunk) (xs : List ℕ)
    → Seg (chunk_entries cs) prev p xs
    → length xs < fuel
    → length xs < list_fuel
    → Mapped cs xs
    → ptr < 2 ^ 63
    → locate_loop fuel arena cs ptr (first_holding ptr cs xs)
      ≡ some (owner ptr cs xs, chunk_get_run_ptr (cs (owner ptr cs xs)) ptr)
unfolding locate_loop first_holding owner Mapped
locate_loop-owner zero p prev ptr arena cs xs s lt lt' m u = absurd (omega arith)
locate_loop-owner (suc fuel) p prev ptr arena cs [] s lt lt' m u = refl
locate_loop-owner (suc fuel) p prev ptr arena cs (x ∷ xs) s lt lt' m u =
    elim (Bool-cases (holds (cs x) ptr)) [
      | inl h ↦
          let ih =
            locate_loop-owner fuel (cs x).entry.fd x ptr arena cs xs s.4 (omega arith) (omega arith)
              m.1 u in
          let ne : (x == null) ≡ false = ground (arith, s.1) in
          let next = get_chunk_from_chunk arena cs xs ptr x s.1 s.4 (omega arith) m.1 u in
          rw (h, ne, next)
            (pick (ltb 0 (chunk_get_run_ptr (cs x) ptr).run_ptr) x (owner ptr cs xs)
              (λ c. chunk_get_run_ptr (cs c) ptr)
              (locate_loop fuel arena cs ptr (first_holding ptr cs xs)) ih)
      | inr h ↦
          let e = not_held (cs x) ptr m.0 h in
          rw (h, e)
            (locate_loop-owner (suc fuel) (cs x).entry.fd x ptr arena cs xs s.4 (omega arith)
              (omega arith) m.1 u)
    ]

-- On a well-formed list of chunks whose heaps are user space, for an address below 2^63, the search
-- ends with the first chunk for which chunk_get_run_ptr gives a run for the address, and with this run; the chunk is null when there is none. The state does not change.
pub locate_chunk-owner :
    (ptr : ℕ) (w : World) (xs : List ℕ)
    → IsList (chunk_entries w.chunks) w.arena.chunk_list xs
    → length xs < list_fuel
    → Mapped w.chunks xs
    → ptr < 2 ^ 63
    → locate_chunk ptr w
      ≡ done (owner ptr w.chunks xs, chunk_get_run_ptr (w.chunks (owner ptr w.chunks xs)) ptr) w
unfolding locate_chunk
locate_chunk-owner ptr w xs s lt m u =
    rw
      (
        get_chunk_from_start w.arena w.chunks xs ptr s lt m u,
        locate_loop-owner list_fuel w.arena.chunk_list null ptr w.arena w.chunks xs s lt lt m u,
      )
      refl
