-- ===== src/Sealloc/Realloc.antt =====
-- sealloc_realloc and sealloc_calloc in src/sealloc.c.
use sealloc.Base.{ℕ, zero, suc, ◌*◌, ◌||◌, u64, ltb, ◌==◌, if◌then◌else◌}
use sealloc.Utils.{alignup_page}
use sealloc.SizeClass.{is_size_huge, aligned_size}
use sealloc.ContainerLl.{null}
use sealloc.Run.{size_max, run_validate_ptr}
use sealloc.World.{done, aborts, M, pure, ◌>>=◌, ◌>>◌, panic, gets, not_null, memcpy, memset}
use sealloc.Arena.Huge.{arena_reallocate_huge_mapping, arena_deallocate_huge_mapping}
use sealloc.Sealloc.{
  Metadata, invalid, regular, huge, locate_metadata_for_ptr, sealloc_malloc, allocate_huge,
  ready_bin, sealloc_allocate_with_bin,
}
use sealloc.Sealloc.Free.{sealloc_free_with_metadata}

-- "huge -> regular case"
unfoldable pub huge_to_regular : ℕ → ℕ → M ℕ
huge_to_regular h new_size = sealloc_malloc new_size >>= λ new_reg. elim new_reg [
  | zero ↦ pure null
  | suc r ↦ gets (λ w. (w.huges h).entry.key) >>= λ key.
      memcpy (suc r) key new_size >> arena_deallocate_huge_mapping h >> pure (suc r)
]

unfoldable pub realloc_huge : ℕ → ℕ → M ℕ
realloc_huge h new_size =
    if is_size_huge new_size
    then (arena_reallocate_huge_mapping h new_size >> gets λ w. (w.huges h).entry.key)
    else huge_to_regular h new_size

-- A regular region becomes a huge mapping.
unfoldable pub regular_to_huge : ℕ → ℕ → ℕ → ℕ → ℕ → M ℕ
regular_to_huge chunk i run old_ptr new_size = allocate_huge (alignup_page new_size) >>= λ key.
    gets (λ w. (w.arena.bins i).reg_size) >>= λ n.
    memcpy key old_ptr n >> sealloc_free_with_metadata chunk i run old_ptr >> pure key

-- "Copy data from old to new": as much as the smaller of the two classes.
unfoldable pub copy_region : ℕ → ℕ → ℕ → ℕ → M (Unit {0})
copy_region i_new i_old new_ptr old_ptr = gets (λ w. (w.arena.bins i_new).reg_size) >>= λ n_new.
    gets (λ w. (w.arena.bins i_old).reg_size) >>= λ n_old.
    memcpy new_ptr old_ptr (if ltb n_old n_new then n_old else n_new)

unfoldable pub regular_to_regular : ℕ → ℕ → ℕ → ℕ → ℕ → M ℕ
regular_to_regular chunk i run old_ptr new_size = ready_bin (aligned_size new_size) >>= λ r.
    if r.1
    then (sealloc_allocate_with_bin r.0 >>= λ new_ptr. elim new_ptr [
      | zero ↦ pure null
      | suc p ↦
          copy_region r.0 i (suc p) old_ptr
          >> sealloc_free_with_metadata chunk i run old_ptr
          >> pure (suc p)
    ])
    else pure null

-- The pointer of a region must be valid.
unfoldable pub check_region : ℕ → ℕ → ℕ → M (Unit {0})
check_region i run ptr w =
    if run_validate_ptr (w.runs run) (w.arena.bins i) ptr == size_max then aborts else done tt w

unfoldable pub realloc_located : ℕ → ℕ → Metadata → M ℕ
realloc_located old_ptr new_size invalid = panic
realloc_located old_ptr new_size (huge h) = realloc_huge h (alignup_page new_size)
realloc_located old_ptr new_size (regular chunk run i) =
    not_null run
    >> check_region i run old_ptr
    >> (if is_size_huge new_size
        then regular_to_huge chunk i run old_ptr new_size
        else regular_to_regular chunk i run old_ptr new_size)

unfoldable pub sealloc_realloc : ℕ → ℕ → M ℕ
sealloc_realloc old_ptr new_size = elim old_ptr [
  | zero ↦ sealloc_malloc new_size
  | suc p ↦ locate_metadata_for_ptr (suc p) >>= λ meta. realloc_located (suc p) new_size meta
]

unfoldable pub sealloc_calloc : ℕ → ℕ → M ℕ
sealloc_calloc nmemb size =
    if (nmemb == 0) || (size == 0)
    then pure null
    else (sealloc_malloc (u64 (nmemb * size)) >>= λ ptr. elim ptr [
      | zero ↦ pure null
      | suc p ↦ memset (suc p) 0 (u64 (nmemb * size)) >> pure (suc p)
    ])
