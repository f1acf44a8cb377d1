-- ===== src/Arena/Metadata.antt =====
-- arena_internal_alloc and arena_internal_free in src/arena.c.
use sealloc.Base.{
  ℕ, zero, suc, ◌+◌, ◌&&◌, Option, none, some, Cells, store, u64, leb, ◌==◌, if◌then◌else◌,
}
use sealloc.Utils.{alignup_page}
use sealloc.ContainerLl.{Entry, null, list_fuel, ll_add}
use sealloc.InternalAllocator.{IntAlloc, internal_alloc_chunk_size_bytes, internal_allocator_init}
use sealloc.InternalAllocator.Search
use sealloc.InternalAllocator.Search.{internal_alloc}
use sealloc.InternalAllocator.Free.{internal_free}
use sealloc.World.{done, aborts, out_of_fuel, M, pure, ◌>>=◌, ◌>>◌, gets, modify, modify_arena}
use sealloc.Arena.{internal_probe, arena_morecore}

-- `offsetof(int_alloc_t, memory)` and `sizeof(int_alloc_t)`
abbrev pub memory_offset : ℕ
memory_offset = 131_104

abbrev pub sizeof_int_alloc : ℕ
sizeof_int_alloc = 8_519_712

-- internal_alloc on the block at `root`.
unfoldable pub alloc_at : ℕ → ℕ → M ℕ
alloc_at root size w = elim (internal_alloc (w.blocks root) size) [
  | Search.Outcome.done ptr b ↦ done ptr (record w { blocks = store w.blocks root b })
  | Search.Outcome.aborts ↦ aborts
  | Search.Outcome.out_of_fuel ↦ out_of_fuel
]

-- "Loop over memory mappings and try to satisfy the request": `null` when none can.
unfoldable pub alloc_loop : ℕ → ℕ → ℕ → M ℕ
alloc_loop zero root size = λ w. out_of_fuel
alloc_loop (suc fuel) zero size = pure null
alloc_loop (suc fuel) (suc r) size = alloc_at (suc r) size >>= λ alloc. elim alloc [
  | zero ↦ gets (λ w. (w.blocks (suc r)).entry.fd) >>= λ next. alloc_loop fuel next size
  | suc a ↦ pure (suc a)
]

-- A block in a fresh mapping: its tree holds zeros.
unfoldable pub fresh_block : ℕ → IntAlloc → IntAlloc
fresh_block map b = record b { buddy_tree = λ _. 0; memory = u64 (map + memory_offset) }

abbrev pub block_entries : Cells IntAlloc → Cells Entry
block_entries bs = λ p. (bs p).entry

abbrev pub with_block_entries : Cells IntAlloc → Cells Entry → Cells IntAlloc
with_block_entries bs m = λ p. record (bs p) { entry = m p }

-- `ll_add(&arena->internal_alloc_list, &map->entry)`
unfoldable pub add_block : ℕ → M (Unit {0})
add_block map w =
    let (head, m) = ll_add w.arena.internal_alloc_list map (block_entries w.blocks) in
    done tt (record w {
      arena = record w.arena { internal_alloc_list = head };
      blocks = with_block_entries w.blocks m;
    })

-- "try to get more memory"
unfoldable pub new_block : M ℕ
new_block = do
  map ← arena_morecore internal_probe (alignup_page sizeof_int_alloc)
  modify_arena λ a.
      if map == a.internal_alloc_ptr
      then record a {
        internal_alloc_ptr = u64 (a.internal_alloc_ptr + alignup_page sizeof_int_alloc);
      }
      else a
  modify λ w. record w {
    blocks = store w.blocks map (internal_allocator_init map (fresh_block map (w.blocks map)));
  }
  add_block map
  pure map

unfoldable pub arena_internal_alloc : ℕ → M ℕ
arena_internal_alloc size = do
  root ← gets λ w. w.arena.internal_alloc_list
  alloc ← alloc_loop list_fuel root size
  elim alloc [ zero ↦ new_block >>= λ map. alloc_at map size | suc a ↦ pure (suc a) ]

-- "Find mapping that contains the ptr": `null` when none does, `none` out of fuel.
unfoldable pub block_loop : ℕ → ℕ → ℕ → Cells IntAlloc → Option ℕ
block_loop zero root ptr bs = none
block_loop (suc fuel) root ptr bs =
    let rest = block_loop fuel (bs root).entry.fd ptr bs in
    let memory = (bs root).memory in
    if root == null
    then some null
    else if leb memory ptr && leb ptr (u64 (memory + internal_alloc_chunk_size_bytes))
    then some root
    else rest

unfoldable pub arena_internal_free : ℕ → M (Unit {0})
arena_internal_free ptr w = elim (block_loop list_fuel w.arena.internal_alloc_list ptr w.blocks) [
  | none ↦ out_of_fuel
  | some root ↦ if root == null then aborts else elim (internal_free (w.blocks root) ptr) [
    | none ↦ aborts
    | some b ↦ done tt (record w { blocks = store w.blocks root b })
  ]
]
