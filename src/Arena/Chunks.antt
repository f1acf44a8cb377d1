-- ===== src/Arena/Chunks.antt =====
-- arena_get_chunk_from_ptr of src/arena.c on a chain of chunks.
use sealloc.Base.{
  ℕ, zero, suc, ◌+◌, ◌<◌, ◌^◌, ◌≡◌, ◌≢◌, refl, List, [], ◌∷◌, Bool, true, false, ◌&&◌, some, Cells,
  u64, leb, ltb, ◌==◌, if◌then◌else◌, length, arith,
}
use sealloc.ContainerLl.{null, list_fuel}
use sealloc.ContainerLl.Seg.{Seg, IsList}
use sealloc.Chunk.{Chunk, chunk_size_bytes}
use sealloc.World.{Arena}
use sealloc.Arena.Runs.{
  chunk_entries, signed_leb, signed_ltb, get_chunk_loop, arena_get_chunk_from_ptr,
}

-- The address is in the heap of the chunk.
unfoldable pub holds : Chunk → ℕ → Bool
holds chunk ptr = leb chunk.entry.key ptr && ltb ptr (chunk.entry.key + chunk_size_bytes)

-- The first chunk whose heap has the address, or null.
unfoldable pub first_holding : ℕ → Cells Chunk → List ℕ → ℕ
first_holding ptr cs [] = null
first_holding ptr cs (x ∷ xs) = if holds (cs x) ptr then x else first_holding ptr cs xs

-- The heaps are in the half of the address space that is not negative as a ptrdiff_t.
unfoldable pub Mapped : Cells Chunk → List ℕ → Type 0
Mapped cs [] = Unit
Mapped cs (x ∷ xs) = ((cs x).entry.key + chunk_size_bytes < 2 ^ 63) × Mapped cs xs

signed-holds :
    (chunk : Chunk) (ptr : ℕ)
    → chunk.entry.key + chunk_size_bytes < 2 ^ 63
    → ptr < 2 ^ 63
    → (signed_leb chunk.entry.key ptr && signed_ltb ptr (u64 (chunk.entry.key + chunk_size_bytes)))
      ≡ holds chunk ptr
unfolding holds
signed-holds chunk ptr h k = ground arith

if_some : (b : Bool) (x y : ℕ) → (if b then some x else some y) ≡ some (if b then x else y)
if_some true x y = refl
if_some false x y = refl

pub get_chunk_loop-first :
    (fuel p prev ptr : ℕ) (cs : Cells Chunk) (xs : List ℕ)
    → Seg (chunk_entries cs) prev p xs
    → length xs < fuel
    → Mapped cs xs
    → ptr < 2 ^ 63
    → get_chunk_loop fuel p ptr cs ≡ some (first_holding ptr cs xs)
unfolding get_chunk_loop first_holding Mapped
get_chunk_loop-first zero p prev ptr cs xs s lt m u = absurd (omega arith)
get_chunk_loop-first (suc fuel) p prev ptr cs [] s lt m u = ground arith
get_chunk_loop-first (suc fuel) p prev ptr cs (x ∷ xs) s lt m u =
    let ih = get_chunk_loop-first fuel (cs x).entry.fd x ptr cs xs s.4 (omega arith) m.1 u in
    let e = signed-holds (cs x) ptr m.0 u in
    let ne : (x == null) ≡ false = ground (arith, s.1) in
    rw (s.0, ne, e, ih) (if_some (holds (cs x) ptr) x (first_holding ptr cs xs))

module _ (arena : Arena) (cs : Cells Chunk) (xs : List ℕ) (ptr : ℕ) where
  pub get_chunk_from_start :
      IsList (chunk_entries cs) arena.chunk_list xs
      → length xs < list_fuel
      → Mapped cs xs
      → ptr < 2 ^ 63
      → arena_get_chunk_from_ptr arena cs ptr null ≡ some (first_holding ptr cs xs)
  unfolding arena_get_chunk_from_ptr
  get_chunk_from_start s lt m u =
      get_chunk_loop-first list_fuel arena.chunk_list null ptr cs xs s lt m u

  pub get_chunk_from_chunk :
      (start : ℕ)
      → start ≢ null
      → Seg (chunk_entries cs) start (cs start).entry.fd xs
      → length xs < list_fuel
      → Mapped cs xs
      → ptr < 2 ^ 63
      → arena_get_chunk_from_ptr arena cs ptr start ≡ some (first_holding ptr cs xs)
  unfolding arena_get_chunk_from_ptr
  get_chunk_from_chunk start ne s lt m u =
      let f : (start == null) ≡ false = ground arith in
      rw f (get_chunk_loop-first list_fuel (cs start).entry.fd start ptr cs xs s lt m u)
