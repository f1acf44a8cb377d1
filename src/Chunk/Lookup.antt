-- ===== src/Chunk/Lookup.antt =====
-- chunk_get_run_ptr in src/chunk.c: an address is taken for a run's exactly when its leaf is the first
-- of a run.
use sealloc.Base.{
  ℕ, ◌+◌, ◌-◌, ◌*◌, ◌/◌, ◌^◌, ◌≤◌, ◌<◌, ◌≡◌, refl, ◌∙◌, sym, ap, arith, ◌≢◌, false, ◌⊎◌, inl, inr,
  ◌==◌, if◌then◌else◌, u32, u64, ltb, leb, ◌||◌,
}
use native.Mathlib.Nat.{zero-add}
use sealloc.Chunk.{Chunk, chunk_size_bytes, chunk_least_region_size_bytes, reg_mark_bad_value}
use sealloc.Chunk.Deallocate.{climb, found, no_run, RunInfo, no_info, run_info, chunk_get_run_ptr}
use sealloc.Chunk.Climb.{RunAt, climb-RunAt, climb-found, pow2-small, levels-lt}

-- An address of the chunk, which ends below the end of the address space.
pub record InChunk (chunk : Chunk) (ptr : ℕ) : Type 0 where
  pub fits : chunk.entry.key + chunk_size_bytes < 2 ^ 64
  pub from : chunk.entry.key ≤ ptr
  pub to : ptr < chunk.entry.key + chunk_size_bytes

unfoldable pub block : Chunk → ℕ → ℕ
block chunk ptr = (ptr - chunk.entry.key) / chunk_least_region_size_bytes

pub block-lt : (chunk : Chunk) (ptr : ℕ) → InChunk chunk ptr → block chunk ptr < 2048
unfolding block
block-lt chunk ptr i = let f = i.fits in let g = i.from in let h = i.to in omega arith

-- What is said of a run of `2 ^ k` leaves that starts at the leaf `b`.
unfoldable pub info : Chunk → ℕ → ℕ → RunInfo
info chunk b k = record {
  run_ptr = chunk.entry.key + b * chunk_least_region_size_bytes;
  run_size = chunk_least_region_size_bytes * 2 ^ k;
  reg_size =
      (if k == 0
        then (if chunk.reg_size_small_medium b == reg_mark_bad_value
            then 0
            else chunk.reg_size_small_medium b)
        else 0);
}

get-InChunk :
    (chunk : Chunk) (ptr : ℕ)
    → InChunk chunk ptr
    → chunk_get_run_ptr chunk ptr
      ≡ run_info chunk (block chunk ptr) (climb 12 (2048 + block chunk ptr) 0 chunk.buddy_tree)
unfolding chunk_get_run_ptr block
get-InChunk chunk ptr i =
    let f = i.fits in
    let g = i.from in
    let h = i.to in
    let small : 2048 + (ptr - chunk.entry.key) / 16_384 < 2 ^ 32 = omega arith in
    let leaf : u32 (2048 + (ptr - chunk.entry.key) / 16_384)
        ≡ 2048 + (ptr - chunk.entry.key) / 16_384 =
      omega arith in
    let inside : (ltb ptr chunk.entry.key || leb (u64 (chunk.entry.key + chunk_size_bytes)) ptr)
        ≡ false =
      ground arith in
    rw (inside, leaf) refl

run_info-found :
    (chunk : Chunk) (b n k : ℕ)
    → chunk.entry.key + chunk_size_bytes < 2 ^ 64
    → b < 2048
    → k < 12
    → run_info chunk b (found n k) ≡ info chunk b k
unfolding run_info info
run_info-found chunk b n k f lt h =
    let p = pow2-small k h in
    let e : u64 (chunk.entry.key + b * 16_384) ≡ chunk.entry.key + b * 16_384 = omega arith in
    let e' : u32 (16_384 * 2 ^ k) ≡ 16_384 * 2 ^ k = omega arith in rw (e, e') refl

pub chunk_get_run_ptr-RunAt :
    (chunk : Chunk) (ptr n k : ℕ)
    → InChunk chunk ptr
    → 0 < n
    → 2048 + block chunk ptr ≡ n * 2 ^ k
    → RunAt chunk.buddy_tree n k
    → chunk_get_run_ptr chunk ptr ≡ info chunk (block chunk ptr) k
chunk_get_run_ptr-RunAt chunk ptr n k i p q r =
    let lt = block-lt chunk ptr i in
    let h = levels-lt n k p (omega arith) in
    get-InChunk chunk ptr i
    ∙ (ap (run_info chunk (block chunk ptr)) (
          ap (λ x. climb 12 x 0 chunk.buddy_tree) q
          ∙ (climb-RunAt 12 k 0 n chunk.buddy_tree h p r ∙ ap (found n) (zero-add k)))
        ∙ run_info-found chunk (block chunk ptr) n k i.fits lt h)

-- For an address of the chunk, chunk_get_run_ptr gives the run whose first leaf the address is in, with its
-- size, and its region size when it is one leaf. When no run starts at that leaf it gives nothing, also for an
-- address in a later leaf of a run.
pub chunk_get_run_ptr_lem :
    (chunk : Chunk) (ptr : ℕ)
    → InChunk chunk ptr
    → ((n : ℕ) × (k : ℕ) × (2048 + block chunk ptr ≡ n * 2 ^ k)
        × RunAt chunk.buddy_tree n k
        × (chunk_get_run_ptr chunk ptr ≡ info chunk (block chunk ptr) k))
      ⊎ (((n k : ℕ) → 0 < n → 2048 + block chunk ptr ≡ n * 2 ^ k → ¬ RunAt chunk.buddy_tree n k)
          × (chunk_get_run_ptr chunk ptr ≡ no_info))
unfolding run_info
chunk_get_run_ptr_lem chunk ptr i =
    let lt = block-lt chunk ptr i in
    elim (climb-found 12 (2048 + block chunk ptr) 0 chunk.buddy_tree (omega arith) (omega arith)) [
      | inl (n, k, e, q, p, r) ↦ inl (
        n,
        k,
        q,
        r,
        get-InChunk chunk ptr i
            ∙ (ap (run_info chunk (block chunk ptr)) (e ∙ ap (found n) (zero-add k))
                ∙ run_info-found chunk (block chunk ptr) n k i.fits lt
                    (levels-lt n k p (omega arith))),
      )
      | inr e ↦ inr (
        λ n k p q r. no_run≢found n k (
            sym e
            ∙ (ap (λ x. climb 12 x 0 chunk.buddy_tree) q
                ∙ climb-RunAt 12 k 0 n chunk.buddy_tree (levels-lt n k p (omega arith)) p r
                ∙ ap (found n) (zero-add k))),
        get-InChunk chunk ptr i ∙ ap (run_info chunk (block chunk ptr)) e,
      )
    ]
  where
    no_run≢found : (n k : ℕ) → no_run ≢ found n k
    no_run≢found n k e = grind arith
