-- ===== src/Arena/Huge.antt =====
-- The huge mappings of src/arena.c.
use sealloc.Base.{ℕ, ◌+◌, none, some, Cells, store, u64, ltb, ◌==◌, if◌then◌else◌}
use sealloc.Utils.{page_size}
use sealloc.ContainerLl.{Entry, null, ll_add, ll_del, ll_find}
use sealloc.Platform.{ok, platform_unmap}
use sealloc.World.{
  HugeChunk, done, aborts, out_of_fuel, M, pure, ◌>>=◌, ◌>>◌, gets, modify, modify_arena, not_null,
  memcpy,
}
use sealloc.Arena.{huge_probe, arena_morecore}
use sealloc.Arena.Metadata.{arena_internal_alloc, arena_internal_free}

abbrev pub sizeof_huge_chunk : ℕ
sizeof_huge_chunk = 32

abbrev pub huge_entries : Cells HugeChunk → Cells Entry
huge_entries hs = λ p. (hs p).entry

abbrev pub with_huge_entries : Cells HugeChunk → Cells Entry → Cells HugeChunk
with_huge_entries hs m = λ p. record (hs p) { entry = m p }

-- platform_unmap; anything but success is a call of se_error.
unfoldable pub unmap : ℕ → ℕ → M (Unit {0})
unmap ptr len w =
    let (code, calls) = platform_unmap w.os ptr len w.calls in
    elim code [ ok ↦ done tt (record w { calls = calls }) | _ ↦ aborts ]

-- `null` when there is no such mapping.
unfoldable pub arena_find_huge_mapping : ℕ → M ℕ
arena_find_huge_mapping huge_map w =
    elim (ll_find w.arena.huge_alloc_list huge_map (huge_entries w.huges)) [
      | none ↦ out_of_fuel
      | some entry ↦ done entry w
    ]

-- A new mapping, and the next probe one page behind it.
unfoldable pub huge_morecore : ℕ → M ℕ
huge_morecore len = do
  map ← arena_morecore huge_probe len
  modify_arena λ a.
      if map == a.huge_alloc_ptr
      then record a { huge_alloc_ptr = u64 (a.huge_alloc_ptr + u64 (len + page_size)) }
      else a
  pure map

unfoldable pub arena_allocate_huge_mapping : ℕ → M ℕ
arena_allocate_huge_mapping len = do
  huge ← arena_internal_alloc sizeof_huge_chunk
  not_null huge
  map ← huge_morecore len
  modify λ w.
      let entry : Entry = record { fd = null; bk = null; key = map } in
      let hs = store w.huges huge (record { entry = entry; len = len }) in
      let (head, m) = ll_add w.arena.huge_alloc_list huge (huge_entries hs) in
      record w { arena = record w.arena { huge_alloc_list = head }; huges = with_huge_entries hs m }
  pure huge

unfoldable pub arena_reallocate_huge_mapping : ℕ → ℕ → M (Unit {0})
arena_reallocate_huge_mapping huge new_size = do
  map ← huge_morecore new_size
  old ← gets λ w. w.huges huge
  memcpy map old.entry.key (if ltb new_size old.len then new_size else old.len)
  unmap old.entry.key old.len
  modify λ w.
      let h = w.huges huge in
      record w {
        huges =
            store w.huges huge (record h { entry = record h.entry { key = map }; len = new_size });
      }

unfoldable pub arena_deallocate_huge_mapping : ℕ → M (Unit {0})
arena_deallocate_huge_mapping huge = do
  old ← gets λ w. w.huges huge
  unmap old.entry.key old.len
  modify λ w.
      let (head, m) = ll_del w.arena.huge_alloc_list huge (huge_entries w.huges) in
      record w {
        arena = record w.arena { huge_alloc_list = head };
        huges = with_huge_entries w.huges m;
      }
  arena_internal_free huge
