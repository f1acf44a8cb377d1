-- ===== src/Arena/Runs.antt =====
-- The chunks of an arena and the runs in them, in src/arena.c.
use sealloc.Base.{
  ℕ, zero, suc, ◌+◌, ◌-◌, ◌*◌, ◌/◌, ◌^◌, Bool, true, false, ◌&&◌, Option, none, some, Cells, store,
  u32, u64, leb, ltb, ◌==◌, if◌then◌else◌,
}
use sealloc.Utils.{page_size, bits2bytes_ceil, ceil_div}
use sealloc.ContainerLl.{Entry, null, list_fuel, ll_add, ll_del}
use sealloc.Bin.{Bin, bin_minimum_regions}
use sealloc.Bin.Runs.{bin_add_run}
use sealloc.Run.{run_init}
use sealloc.Chunk.{Chunk, chunk_size_bytes, chunk_init}
use sealloc.Chunk.Allocate.{chunk_allocate_run}
use sealloc.World.{
  Arena, done, out_of_fuel, M, pure, ◌>>=◌, ◌>>◌, gets, modify, modify_arena, not_null,
}
use sealloc.Arena.{chunk_probe, arena_morecore}
use sealloc.Arena.Metadata.{arena_internal_alloc, arena_internal_free}

abbrev pub sizeof_run : ℕ
sizeof_run = 32

abbrev pub sizeof_chunk : ℕ
sizeof_chunk = 21_600

abbrev pub chunk_entries : Cells Chunk → Cells Entry
chunk_entries cs = λ p. (cs p).entry

abbrev pub with_chunk_entries : Cells Chunk → Cells Entry → Cells Chunk
with_chunk_entries cs m = λ p. record (cs p) { entry = m p }

-- `ll_add(&arena->chunk_list, &chunk_meta->entry)`
unfoldable pub add_chunk : ℕ → M (Unit {0})
add_chunk chunk w =
    let (head, m) = ll_add w.arena.chunk_list chunk (chunk_entries w.chunks) in
    done tt (record w {
      arena = record w.arena { chunk_list = head };
      chunks = with_chunk_entries w.chunks m;
    })

unfoldable pub arena_allocate_chunk : M ℕ
arena_allocate_chunk = do
  chunk_meta ← arena_internal_alloc sizeof_chunk
  ptr ← arena_morecore chunk_probe chunk_size_bytes
  modify_arena λ a.
      if ptr == a.chunk_alloc_ptr
      then record a { chunk_alloc_ptr = u64 (a.chunk_alloc_ptr + (chunk_size_bytes + page_size)) }
      else a
  not_null chunk_meta
  modify λ w. record w { chunks = store w.chunks chunk_meta (chunk_init (w.chunks chunk_meta) ptr) }
  add_chunk chunk_meta
  pure chunk_meta

unfoldable pub arena_deallocate_chunk : ℕ → M (Unit {0})
arena_deallocate_chunk chunk = do
  modify λ w.
      let (head, m) = ll_del w.arena.chunk_list chunk (chunk_entries w.chunks) in
      record w {
        arena = record w.arena { chunk_list = head };
        chunks = with_chunk_entries w.chunks m;
      }
  arena_internal_free chunk

-- chunk_allocate_run on the chunk at an address, for a bin.
unfoldable pub run_from_chunk : ℕ → Bin → M ℕ
run_from_chunk chunk bin w =
    elim (chunk_allocate_run (w.chunks chunk) (u32 (bin.run_size_pages * page_size)) bin.reg_size
      w.rng) [
        | none ↦ out_of_fuel
        | some (ptr, c, rng) ↦ done ptr (record w { chunks = store w.chunks chunk c; rng = rng })
      ]

-- The metadata of a run that was just allocated.
unfoldable pub new_run : Bin → ℕ → M ℕ
new_run bin run_ptr = do
  run ← arena_internal_alloc (sizeof_run + bits2bytes_ceil bin.reg_mask_size_bits)
  not_null run
  modify λ w.
      let (r, rng) = run_init (w.runs run) bin run_ptr w.rng in
      record w { runs = store w.runs run r; rng = rng }
  pure run

-- The loop over the chunks: the address of a new run, or `null` when no chunk has room.
unfoldable pub chunk_loop : ℕ → ℕ → Bin → M ℕ
chunk_loop zero entry bin = λ w. out_of_fuel
chunk_loop (suc fuel) zero bin = pure null
chunk_loop (suc fuel) (suc e) bin = run_from_chunk (suc e) bin >>= λ run_ptr. elim run_ptr [
  | zero ↦ gets (λ w. (w.chunks (suc e)).entry.fd) >>= λ next. chunk_loop fuel next bin
  | suc p ↦ pure (suc p)
]

unfoldable pub arena_allocate_run : Bin → M ℕ
arena_allocate_run bin = do
  entry ← gets λ w. w.arena.chunk_list
  run_ptr ← chunk_loop list_fuel entry bin
  elim run_ptr [
    | zero ↦ arena_allocate_chunk >>= λ chunk. run_from_chunk chunk bin >>= λ ptr. new_run bin ptr
    | suc p ↦ new_run bin (suc p)
  ]

-- `a <= b` on two addresses taken for `ptrdiff_t`.
abbrev pub signed_leb : ℕ → ℕ → Bool
signed_leb a b = leb (u64 (a + 2 ^ 63)) (u64 (b + 2 ^ 63))

abbrev pub signed_ltb : ℕ → ℕ → Bool
signed_ltb a b = ltb (u64 (a + 2 ^ 63)) (u64 (b + 2 ^ 63))

-- `null` when no chunk from the entry on has the address; `none` is out of fuel.
unfoldable pub get_chunk_loop : ℕ → ℕ → ℕ → Cells Chunk → Option ℕ
get_chunk_loop zero entry target cs = none
get_chunk_loop (suc fuel) entry target cs =
    let key = (cs entry).entry.key in
    let rest = get_chunk_loop fuel (cs entry).entry.fd target cs in
    if entry == null
    then some null
    else if signed_leb key target && signed_ltb target (u64 (key + chunk_size_bytes))
    then some entry
    else rest

unfoldable pub arena_get_chunk_from_ptr : Arena → Cells Chunk → ℕ → ℕ → Option ℕ
arena_get_chunk_from_ptr arena cs ptr start_chunk =
    get_chunk_loop list_fuel
      (if start_chunk == null then arena.chunk_list else (cs start_chunk).entry.fd) ptr cs

-- bin_add_run on the bin of an index.
unfoldable pub add_run : ℕ → ℕ → M (Unit {0})
add_run i run = modify λ w.
    let (bin, s) = bin_add_run (w.arena.bins i) run w.runs in
    record w { arena = record w.arena { bins = store w.arena.bins i bin }; runs = s }

unfoldable pub supply_loop : ℕ → ℕ → M Bool
supply_loop zero i = pure true
supply_loop (suc n) i = gets (λ w. w.arena.bins i) >>= λ bin. arena_allocate_run bin >>= λ run.
    elim run [ zero ↦ pure false | suc r ↦ add_run i (suc r) >> supply_loop n i ]

-- The bin is the one of an index. A bin of no regions divides by zero.
unfoldable pub arena_supply_runs : ℕ → M Bool
arena_supply_runs i = do
  bin ← gets λ w. w.arena.bins i
  let regions = bin.reg_mask_size_bits / 2
  not_null regions
  supply_loop (ceil_div (u32 (bin_minimum_regions + (2 ^ 32 - bin.avail_regs))) regions) i
