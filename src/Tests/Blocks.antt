-- ===== src/Tests/Blocks.antt =====
-- Blocks of metadata at address 1048576: one in which the root is used, and an empty one.
use sealloc.Base.{◌==◌, if◌then◌else◌}
use sealloc.ContainerLl.{null}
use sealloc.InternalAllocator.{IntAlloc, node_free}
use sealloc.InternalAllocator.Allocates.{Allocates}

abbrev root : IntAlloc
root = record {
  entry = record { fd = null; bk = null; key = 4096 };
  free_mem = 0;
  buddy_tree = λ w. if w == 0 then 2 else 0;
  memory = 1_048_576;
}

-- A block of which nothing is taken yet.
abbrev empty_root : IntAlloc
empty_root = record root { free_mem = 8_388_608; buddy_tree = λ w. if w == 0 then node_free else 0 }
