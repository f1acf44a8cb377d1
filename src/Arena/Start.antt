-- ===== src/Arena/Start.antt =====
-- arena_init in src/arena.c, and the addresses that reset_chunk_ptr_start, reset_ia_ptr_start and
-- reset_huge_alloc_ptr_start set.
use sealloc.Base.{ℕ, ◌%◌, ◌^◌, ◌≤◌, ◌<◌, ◌≡◌}
use sealloc.Random.{Rng}
use sealloc.ContainerLl.{null}
use sealloc.Bin.{Bin}
use sealloc.World.{World}
use sealloc.Arena.{max_userspace_addr64, zero_bin}

-- reset_chunk_ptr_start changes the chunks' pointer and the program break, to numbers in their ranges, and
-- the generators.
record ChunkReset (w w' : World) : Type 0 where
  chunk_alloc_ptr : ℕ
  brk : ℕ
  rng : Rng
  done_in : w' ≡ record w {
    arena = record w.arena { chunk_alloc_ptr = chunk_alloc_ptr; brk = brk };
    rng = rng;
  }
  page : chunk_alloc_ptr % 4096 ≡ 0
  low : chunk_alloc_ptr < 2 ^ 32
  user : brk < max_userspace_addr64

-- The arena after arena_init: nothing is on its lists, no bin is in use, and each address that memory is
-- asked for at is a page's and in its range. Nothing else changes but the random generators.
pub record Ready (secret : ℕ) (w w' : World) : Type 0 where
  pub initialized : w'.arena.is_initialized ≡ 1
  pub seeded : w'.arena.secret ≡ secret
  pub no_chunks : w'.arena.chunk_list ≡ null
  pub no_huges : w'.arena.huge_alloc_list ≡ null
  pub no_blocks : w'.arena.internal_alloc_list ≡ null
  pub no_bins : (i : ℕ) → i < 43 → w'.arena.bins i ≡ zero_bin
  pub brk_user : w'.arena.brk < max_userspace_addr64
  pub chunk_page : w'.arena.chunk_alloc_ptr % 4096 ≡ 0
  pub chunk_low : w'.arena.chunk_alloc_ptr < 2 ^ 32
  pub internal_page : w'.arena.internal_alloc_ptr % 4096 ≡ 0
  pub internal_range :
      (w'.arena.brk ≤ w'.arena.internal_alloc_ptr) × (w'.arena.internal_alloc_ptr ≤ 2 ^ 47)
  pub huge_page : w'.arena.huge_alloc_ptr % 4096 ≡ 0
  pub huge_range : (w'.arena.brk ≤ w'.arena.huge_alloc_ptr) × (w'.arena.huge_alloc_ptr ≤ 2 ^ 47)
  pub kept : w' ≡ record w { arena = w'.arena; rng = w'.rng }
