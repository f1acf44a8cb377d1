-- ===== src/Sealloc/Calloc.antt =====
-- sealloc_calloc in src/sealloc.c: the bytes that it asks for and the bytes that it clears.
use sealloc.Base.{
  ℕ, zero, suc, ◌+◌, ◌*◌, ◌≤◌, ◌<◌, ◌≡◌, ◌≢◌, refl, ◌⊎◌, inl, inr, fill, u64, ◌==◌, arith,
  Bool-cases, Cells,
}
use sealloc.World.{World, Outcome, done, aborts, out_of_fuel, M, pure, ◌>>=◌, ◌>>◌, memset}
use sealloc.ContainerLl.{null}
use sealloc.Sealloc.{sealloc_malloc}
use sealloc.Sealloc.Realloc.{sealloc_calloc}

fill_inside : (mem : ℕ → ℕ) (p n v a : ℕ) → p ≤ a → a < p + n → fill mem p n v a ≡ v
unfolding fill
fill_inside mem p n v a h k = ground arith

fill_outside : (mem : ℕ → ℕ) (p n v a : ℕ) → (a < p) ⊎ (p + n ≤ a) → fill mem p n v a ≡ mem a
unfolding fill
fill_outside mem p n v a h = ground arith

-- What clearing `n` bytes makes of the outcome of an allocation.
pub data Clears (n : ℕ) : Outcome ℕ → Outcome ℕ → Type 0 where
  no_memory : (w : World) → Clears n (done null w) (done null w)
  cleared :
      (p : ℕ) (w : World) (memory : Cells ℕ)
      → p ≢ null
      → ((a : ℕ) → p ≤ a → a < p + n → memory a ≡ 0)
      → ((a : ℕ) → (a < p) ⊎ (p + n ≤ a) → memory a ≡ w.memory a)
      → Clears n (done p w) (done p (record w { memory = memory }))
  aborted : Clears n aborts aborts
  unfinished : Clears n out_of_fuel out_of_fuel

-- What sealloc_calloc does with the pointer.
abbrev clear : ℕ → ℕ → M ℕ
clear n p = elim p as (λ x. M ℕ) [ zero ↦ pure null | suc p ↦ memset (suc p) 0 n >> pure (suc p) ]

cleared_outcome : (n : ℕ) (o : Outcome ℕ) (w : World) → Clears n o (((λ w'. o) >>= clear n) w)
cleared_outcome n (done zero w) w0 = no_memory w
cleared_outcome n (done (suc p) w) w0 =
    cleared (suc p) w (fill w.memory (suc p) n 0) (omega arith)
      (λ a h k. fill_inside w.memory (suc p) n 0 a h k)
      (λ a h. fill_outside w.memory (suc p) n 0 a h)
cleared_outcome n aborts w0 = aborted
cleared_outcome n out_of_fuel w0 = unfinished

-- sealloc_calloc gives null and changes nothing when one of its numbers is 0. Else it has the outcome of
-- sealloc_malloc for the product modulo 2^64: an abort, null, or a pointer, and with a pointer as many bytes from
-- it on as the product modulo 2^64 are 0, and no other byte and no other part of the state differ.
pub sealloc_calloc_lem :
    (nmemb size : ℕ) (w : World)
    → (((nmemb ≡ 0) ⊎ (size ≡ 0)) × (sealloc_calloc nmemb size w ≡ done null w))
      ⊎ ((nmemb ≢ 0)
          × (size ≢ 0)
          × Clears
              (u64 (nmemb * size))
              (sealloc_malloc (u64 (nmemb * size)) w)
              (sealloc_calloc nmemb size w))
unfolding sealloc_calloc
sealloc_calloc_lem nmemb size w = elim (Bool-cases (nmemb == 0)) [
  | inl z ↦ inl (inl (ground arith), rw z refl)
  | inr n ↦ elim (Bool-cases (size == 0)) [
    | inl z ↦ inl (inr (ground arith), rw (n, z) refl)
    | inr s ↦ inr (
      ground arith,
      ground arith,
      rw (n, s) (cleared_outcome (u64 (nmemb * size)) (sealloc_malloc (u64 (nmemb * size)) w) w),
    )
  ]
]
