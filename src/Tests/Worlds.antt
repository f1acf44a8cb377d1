-- ===== src/Tests/Worlds.antt =====
-- A process before its first call: nothing is mapped, and the kernel maps memory wherever it is asked.
use sealloc.Base.{none, some, [], ◌∷◌}
use sealloc.Platform.{value, Os, mapped}
use sealloc.World.{Arena, World}
use sealloc.Arena.{zero_bin}

abbrev pub willing : Os
willing = record {
  mmap = λ calls hint len. mapped hint;
  munmap = λ calls ptr len. none;
  sbrk = value 0x5555_5557_7000;
  user_seed = some (52 ∷ 50 ∷ []);
  open_random = none;
  read_random = value 7;
  close_random = none;
  mmap_hint = λ calls hint len. mapped hint;
  mprotect = λ calls ptr len rw. none;
}

abbrev pub empty_arena : Arena
empty_arena = record {
  is_initialized = 0;
  secret = 0;
  brk = 0;
  chunk_list = 0;
  huge_alloc_list = 0;
  internal_alloc_list = 0;
  chunk_alloc_ptr = 0;
  huge_alloc_ptr = 0;
  internal_alloc_ptr = 0;
  bins = λ i. zero_bin;
}

abbrev pub fresh : World
fresh = record {
  arena = empty_arena;
  rng = record { state32 = 0; state64 = 0 };
  runs = λ p. record {
    entry = record { fd = 0; bk = 0; key = 0 };
    navail = 0;
    nfreed = 0;
    gen = 0;
    current_idx = 0;
    reg_bitmap = λ i. 0;
  };
  chunks = λ p. record {
    entry = record { fd = 0; bk = 0; key = 0 };
    avail_nodes_count = λ i. 0;
    reg_size_small_medium = λ i. 0;
    jump_tree_first_index = λ i. 0;
    jump_tree = λ i. record { prev = 0; next = 0 };
    buddy_tree = λ i. 0;
  };
  blocks = λ p. record {
    entry = record { fd = 0; bk = 0; key = 0 };
    free_mem = 0;
    buddy_tree = λ i. 0;
    memory = 0;
  };
  huges = λ p. record { entry = record { fd = 0; bk = 0; key = 0 }; len = 0 };
  memory = λ a. 0;
  os = willing;
  calls = [];
  patience = 100;
}
