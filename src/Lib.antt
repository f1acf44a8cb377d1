-- ===== src/Lib.antt =====
-- A model of sealloc, a hardened malloc in C (src/ of the repository), and proofs about it.
--
-- The program gives out regions of memory. A request is rounded up to a size class (src/size_class.c,
-- src/sealloc.c). The class has a bin (src/bin.c), which holds runs: a run (src/run.c) is an array of
-- regions of one size, with two bits of state per region, and it gives its regions out in the order of a
-- random generator of the cyclic group of its size (src/sealloc/generator.h, src/random.c). The memory
-- of the runs is cut from chunks of 32 MiB (src/chunk.c), and the structures themselves from blocks of
-- 8 MiB (src/internal_allocator.c); both keep a binary buddy tree. Bins and runs, chunks and blocks are
-- linked by intrusive lists (src/container_ll.c). src/arena.c owns the lists, and asks the kernel for
-- memory at random addresses (src/platform.c). src/sealloc.c puts an allocation together, and finds the
-- structures of a pointer again. src/malloc_api.c exports malloc, free, calloc and realloc.
--
-- Files
--   Base and below: names that the modules share, fixed widths, flat memory as functions of the
--     offset, bit masks.
--   Bitmap: the two-bit maps of src/run.c, src/chunk.c and src/internal_allocator.c.
--   Utils: src/utils.c and the macros of src/sealloc/utils.h. Random: src/random.c.
--   SizeClass: src/size_class.c, src/sealloc/size_class.h, with the rounding of sealloc_malloc and the bin index
--     of arena_get_bin_by_reg_size. Generator: src/sealloc/generator.h, entry by entry.
--   ContainerLl: src/container_ll.c over a heap of entries. Seg says what a well-formed list is.
--   Bin: src/bin.c over a store of runs, with the end of sealloc_allocate_with_bin.
--   Run: src/run.c, and its life as a relation of steps (Run/Trace).
--   Chunk: src/sealloc/chunk.h and chunk_init. Chunk/Allocate: chunk_allocate_run with its parts.
--     Chunk/Deallocate: chunk_deallocate_run, chunk_get_run_ptr and the buddy state. Chunk/Climb, Lookup,
--     Coalesce, Release, Links, Take, RoundTrip and Fresh hold the proofs about one node. Chunk/Jumps says which
--     nodes are free and how the jump tree links them: Items to Purge are about the parts of an allocation, Take
--     and Allocate about chunk_allocate_with_node, Choose and Runs about chunk_allocate_run, Fresh about
--     chunk_init, Calls, Trace, Below, Held, Owned and Stays about sequences of calls on one chunk.
--   InternalAllocator: the data and the merging of src/internal_allocator.c. InternalAllocator/Search:
--     internal_alloc. InternalAllocator/Free: internal_free. Under and Descent are about the latter,
--     Levels, Walk, Rounds, Room, Exhaustive and Allocates about the former.
--   Platform: src/platform.c over a kernel that is a parameter. Platform/Calls: the functions
--     that make one attempt. Platform/Probing is about the loop of platform_map_probe.
--   World: the state of the process that src/arena.c and src/sealloc.c share, and the steps on it: a step
--     takes the state and gives a result and the next state, or aborts, or is out of fuel.
--   Arena: arena_morecore and arena_init of src/arena.c. Arena/Metadata: arena_internal_alloc and
--     arena_internal_free. Arena/Runs: chunks and runs. Arena/Bins: arena_get_bin_by_reg_size. Arena/Huge: huge
--     mappings. Arena/Start, Stuck, Chunks and Bins/Classes hold the proofs.
--   Sealloc: sealloc_malloc and locate_metadata_for_ptr of src/sealloc.c. Sealloc/Free: sealloc_free.
--     Sealloc/Realloc: sealloc_realloc and sealloc_calloc. Sealloc/Locate, FirstRun, Located, Refuses, DoubleFree, Calloc
--     and ReallocZero hold the proofs. Api: src/malloc_api.c.
--   Logging: the printing of numbers in src/logging.c. Logging/Format: vfse_log. Logging/Numbers
--     and Seed are about the printing of numbers and their reading by str2u32 of src/utils.c.
--   Tests: the theorems at concrete inputs.
--
-- A function has its name in C; a part of a long function is a definition of its own, named for what it
-- does. Numbers are naturals, and each store into a field wraps at the field's width. An array, or memory
-- behind a pointer, is a function of the index. The state of the random generators is passed along.
-- The kernel is a function from the calls of mmap, munmap and mprotect so far to the next answer; what sbrk
-- and the calls on the random device give, and the variable SEALLOC_SEED, are values of it. A structure that
-- the C code keeps behind a pointer is a cell at its address, and a bin of an arena is its index.
-- A call of se_error or abort is a result of its own, and so is a division by zero or an access through a
-- null pointer where the C code does not test for it. The assertions of the source are no code of
-- the functions.
--
-- Loops are structural, or run on fuel. ctz has 32 rounds, for 32 bits. A walk along a list has 2^48,
-- for the addresses of a process. The loops up and down the tree of a chunk have 12 rounds, for its 12 levels;
-- those that halve an index have as many as the index has bits. The descent of internal_free has 19,
-- for 19 levels. The search of internal_alloc has 2^25: a measure that falls with each round starts at
-- 2^24 + 18. Where fuel may run out, this is a result of its own. The loop of platform_map_probe has 2^53 rounds, more than the
-- address space has pages. The loop of arena_morecore has no bound in the C code: it runs for as many rounds
-- as the state's `patience` says, which the theorems leave open.
--
-- Not modelled: memory tagging (MTE) and the code for aarch64; the statistics of src/malloc_api.c, and
-- what the other functions print; the system calls behind src/platform.c, which are parameters;
-- that structures which lie in the same memory could overlap, since each kind of structure has cells of its own.
pub mod Base
pub mod Bitmap
pub mod Utils
pub mod Random
pub mod SizeClass
pub mod Generator
pub mod ContainerLl
pub mod Chunk
pub mod InternalAllocator
pub mod Platform
pub mod Logging
pub mod World
pub mod Arena
pub mod Sealloc
pub mod Api
pub mod Bin
pub mod Run
pub mod Tests
