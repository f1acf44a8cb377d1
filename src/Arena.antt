-- ===== src/Arena.antt =====
-- src/arena.c: the addresses at which the arena asks for memory, and its initialisation. The children
-- hold the allocation of metadata, of runs and chunks, the bins and the huge mappings.
pub mod Metadata
pub mod Runs
pub mod Bins
pub mod Huge
pub mod Stuck
pub mod Chunks
pub mod Start
use sealloc.Base.{
  ℕ, zero, suc, ◌+◌, ◌-◌, ◌*◌, ◌%◌, ◌^◌, Bool, true, false, Option, none, some, List, Cells, fill,
  bit_and, u32, u64, leb, if◌then◌else◌,
}
use sealloc.Utils.{page_size, alignup_page, str2u32}
use sealloc.Random.{Rng, splitmix32, splitmix64, init_splitmix32, init_splitmix64}
use sealloc.ContainerLl.{ll_init}
use sealloc.Bin.{Bin}
use sealloc.Platform.{
  StatusCode, err_unknown, err_nomem, err_inval, ok, ceiling_hit, different_address, Probed,
  platform_map_probe,
}
use sealloc.Platform.Calls.{platform_get_program_break, platform_get_random}
use sealloc.World.{
  Arena, World, Outcome, done, aborts, out_of_fuel, M, pure, ◌>>=◌, ◌>>◌, panic, gets, modify,
  modify_arena, or_fuel, or_abort, when,
}

abbrev pub max_userspace_addr64 : ℕ
max_userspace_addr64 = 0x7fff_ffff_ffff

abbrev pub mask_44_bits : ℕ
mask_44_bits = 0x0fff_ffff_ffff

abbrev pub mask_45_bits : ℕ
mask_45_bits = 0x1fff_ffff_ffff

abbrev pub arena_no_bins : ℕ
arena_no_bins = 43

-- ALIGNUP_PAGE on 32 bits
unfoldable pub alignup_page32 : ℕ → ℕ
alignup_page32 n = bit_and (u32 (n + (page_size - 1))) (2 ^ 32 - page_size)

-- The next number of either generator.
abbrev pub next32 : M ℕ
next32 w = let (z, rng) = splitmix32 w.rng in done z (record w { rng = rng })

abbrev pub next64 : M ℕ
next64 w = let (z, rng) = splitmix64 w.rng in done z (record w { rng = rng })

-- A random address above the program break.
unfoldable pub above_brk : ℕ → ℕ → ℕ
above_brk brk z = alignup_page (u64 (brk + z % u64 (max_userspace_addr64 + (2 ^ 64 - brk))))

unfoldable pub reset_ia_ptr_start : M (Unit {0})
reset_ia_ptr_start = do
  z ← next64
  modify_arena λ a. record a { internal_alloc_ptr = above_brk a.brk z }

unfoldable pub reset_huge_alloc_ptr_start : M (Unit {0})
reset_huge_alloc_ptr_start = do
  z ← next64
  modify_arena λ a. record a { huge_alloc_ptr = above_brk a.brk z }

unfoldable pub reset_chunk_ptr_start : M (Unit {0})
reset_chunk_ptr_start = do
  z ← next32
  modify_arena λ a. record a { chunk_alloc_ptr = alignup_page32 z }
  brk ← gets λ w. w.arena.brk
  when (leb brk mask_44_bits)
      do y ← next64; modify_arena λ a. record a { brk = alignup_page (bit_and y mask_45_bits) }

-- Whose address is probed: the pointer into the arena that arena_morecore takes.
pub data Probe : Type 0 where
  chunk_probe huge_probe internal_probe : Probe

unfoldable pub get_probe : Probe → Arena → ℕ
get_probe chunk_probe a = a.chunk_alloc_ptr
get_probe huge_probe a = a.huge_alloc_ptr
get_probe internal_probe a = a.internal_alloc_ptr

unfoldable pub set_probe : Probe → ℕ → Arena → Arena
set_probe chunk_probe v a = record a { chunk_alloc_ptr = v }
set_probe huge_probe v a = record a { huge_alloc_ptr = v }
set_probe internal_probe v a = record a { internal_alloc_ptr = v }

-- The function and the ceiling that go with it. The ceiling of the chunks is the program break.
unfoldable pub reset : Probe → M (Unit {0})
reset chunk_probe = reset_chunk_ptr_start
reset huge_probe = reset_huge_alloc_ptr_start
reset internal_probe = reset_ia_ptr_start

unfoldable pub ceiling : Probe → Arena → ℕ
ceiling chunk_probe a = a.brk
ceiling huge_probe a = max_userspace_addr64
ceiling internal_probe a = max_userspace_addr64

-- A new mapping holds zeros.
unfoldable pub after_probe : ℕ → StatusCode → ℕ → Cells ℕ → Cells ℕ
after_probe len ok p mem = fill mem p len 0
after_probe len different_address p mem = fill mem p len 0
after_probe len _ p mem = mem

-- The call of platform_map_probe.
unfoldable pub map_probe : Probe → ℕ → M StatusCode
map_probe p size w =
    elim (platform_map_probe w.os (get_probe p w.arena) (ceiling p w.arena) size w.calls) [
      | none ↦ out_of_fuel
      | some r ↦ done r.code (record w {
        arena = set_probe p r.probe w.arena;
        calls = r.calls;
        memory = after_probe size r.code r.probe w.memory;
      })
    ]

-- What follows a probe: the address, or another round.
unfoldable pub morecore_loop : ℕ → Probe → ℕ → M ℕ
morecore_loop zero p size = λ w. out_of_fuel
morecore_loop (suc fuel) p size = map_probe p size >>= λ code. elim code [
  | ok ↦ gets λ w. get_probe p w.arena
  | ceiling_hit ↦ reset p >> morecore_loop fuel p size
  | different_address ↦ gets (λ w. get_probe p w.arena) >>= λ result. reset p >> pure result
  | _ ↦ morecore_loop fuel p size
]

unfoldable pub arena_morecore : Probe → ℕ → M ℕ
arena_morecore p size w = morecore_loop w.patience p size w

abbrev pub zero_bin : Bin
zero_bin = record {
  run_list_inactive = 0;
  run_list_active = 0;
  run_list_active_cnt = 0;
  avail_regs = 0;
  reg_size = 0;
  run_size_pages = 0;
  reg_mask_size_bits = 0;
}

-- A status other than success is a call of se_error.
unfoldable pub checked : StatusCode × ℕ → M ℕ
checked r w = elim r.0 [ ok ↦ done r.1 w | _ ↦ aborts ]

-- The seed: the user's, or a random one.
unfoldable pub seed : M ℕ
seed w = elim w.os.user_seed [
  | some text ↦ done (str2u32 text) w
  | none ↦ checked (platform_get_random w.os w.arena.secret) w
]

unfoldable pub arena_init : M (Unit {0})
arena_init = do
  secret ← seed
  modify_arena λ a. record a { secret = secret }
  ptr ← λ w. checked (platform_get_program_break w.os) w
  modify_arena λ a. record a { brk = ptr }
  modify λ w. record w { rng = init_splitmix64 secret (init_splitmix32 secret w.rng) }
  modify_arena λ a. record a {
    internal_alloc_list = ll_init;
    chunk_list = ll_init;
    huge_alloc_list = ll_init;
    is_initialized = 1;
  }
  reset_chunk_ptr_start
  reset_ia_ptr_start
  reset_huge_alloc_ptr_start
  modify_arena λ a. record a { bins = fill a.bins 0 arena_no_bins zero_bin }
