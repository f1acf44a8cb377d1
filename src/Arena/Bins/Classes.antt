-- ===== src/Arena/Bins/Classes.antt =====
-- The bins of an arena stay one for each size class under arena_get_bin_by_reg_size in src/arena.c.
use sealloc.Base.{
  ℕ, ◌≤◌, ◌<◌, ◌≡◌, ◌≢◌, refl, sym, subst, ◌⊎◌, inl, inr, true, false, Bool-cases, Cells, store,
  ◌==◌, eq-cases, ==_self, arith,
}
use sealloc.SizeClass.{bin_index, is_size_aligned}
use sealloc.SizeClass.Classes.{bin_index_unique}
use sealloc.ContainerLl.{null}
use sealloc.Bin.{Bin, bin_init}
use sealloc.World.{World, done}
use sealloc.Arena.Bins.{arena_get_bin_by_reg_size}

-- A size that is one of a class, and the index of its bin.
pub record SizeAt (i size : ℕ) : Type 0 where
  pub positive : 0 < size
  pub not_huge : size ≤ 1048576
  pub aligned : is_size_aligned size ≡ true
  pub index : bin_index size ≡ i

-- Each bin is not initialised yet, or its size is the one whose bin it is.
unfoldable pub IsBins : Cells Bin → Type 0
IsBins bins = (i : ℕ) → ((bins i).reg_size ≡ 0) ⊎ SizeAt i (bins i).reg_size

store_here : (bins : Cells Bin) (i : ℕ) (b : Bin) → store bins i b i ≡ b
unfolding store
store_here bins i b = rw (==_self i) refl

store_there : (bins : Cells Bin) (i : ℕ) (b : Bin) (j : ℕ) → j ≢ i → store bins i b j ≡ bins j
unfolding store
store_there bins i b j ne = let f : (j == i) ≡ false = ground arith in rw f refl

bin_init-size : (b : Bin) (size : ℕ) → (bin_init b size).reg_size ≡ size
unfolding bin_init
bin_init-size b size = refl

-- A bin that has no runs.
pub record IsEmpty (bin : Bin) : Type 0 where
  pub inactive : bin.run_list_inactive ≡ null
  pub active : bin.run_list_active ≡ null
  pub avail : bin.avail_regs ≡ 0

bin_init-IsEmpty : (b : Bin) (size : ℕ) → IsEmpty (bin_init b size)
unfolding bin_init
bin_init-IsEmpty b size = record { inactive = refl; active = refl; avail = refl }

store-IsBins :
    (bins : Cells Bin) (i : ℕ) (b : Bin)
    → IsBins bins
    → SizeAt i b.reg_size
    → IsBins (store bins i b)
unfolding IsBins
store-IsBins bins i b v s j = elim (eq-cases j i) [
  | inl e ↦
      inr (subst (λ k. SizeAt k (store bins i b k).reg_size) (sym e) (rw (store_here bins i b) s))
  | inr ne ↦ rw (store_there bins i b j ne) (v j)
]

-- For an aligned size of 1 byte to 1 MiB, if each bin that is initialised has the size whose bin it is,
-- arena_get_bin_by_reg_size returns one of the arena's 43 bins, and that bin has the size asked for. If the bin
-- was initialised before, nothing changes; else its lists of runs are empty and no regions are left. Each initialised bin still has the size whose bin it is; no other bin and nothing
-- else changes.
pub arena_get_bin-IsBins :
    (size : ℕ) (w : World)
    → 0 < size
    → size ≤ 1048576
    → is_size_aligned size ≡ true
    → IsBins w.arena.bins
    → (bins : Cells Bin) × (arena_get_bin_by_reg_size size w
        ≡ done (bin_index size) (record w { arena = record w.arena { bins = bins } }))
      × (bin_index size < 43)
      × ((bins (bin_index size)).reg_size ≡ size)
      × IsBins bins
      × ((i : ℕ) → i ≢ bin_index size → bins i ≡ w.arena.bins i)
      × ((((w.arena.bins (bin_index size)).reg_size ≢ 0) × (bins ≡ w.arena.bins))
          ⊎ (((w.arena.bins (bin_index size)).reg_size ≡ 0) × IsEmpty (bins (bin_index size))))
unfolding arena_get_bin_by_reg_size IsBins
arena_get_bin-IsBins size w p h a v =
    let i = bin_index size in
    let pos : (size == 0) ≡ false = ground arith in
    let unique = bin_index_unique size size p h a p h a in
    elim (Bool-cases ((w.arena.bins i).reg_size == 0)) [
      | inl z ↦
          let b = bin_init (w.arena.bins i) size in
          let e : b.reg_size ≡ size = bin_init-size (w.arena.bins i) size in
          (
            store w.arena.bins i b,
            rw (z, pos) refl,
            unique.0,
            rw (store_here w.arena.bins i b) e,
            store-IsBins w.arena.bins i b v
                (rw e (record { positive = p; not_huge = h; aligned = a; index = refl })),
            λ j ne. store_there w.arena.bins i b j ne,
            inr (
              ground arith,
              rw (store_here w.arena.bins i b) (bin_init-IsEmpty (w.arena.bins i) size),
            ),
          )
      | inr nz ↦ (
        w.arena.bins,
        rw nz refl,
        unique.0,
        known size (w.arena.bins i).reg_size p h a (ground arith) (v i),
        v,
        λ j ne. refl,
        inl (ground arith, refl),
      )
    ]
  where
    known :
        (m n : ℕ)
        → 0 < m
        → m ≤ 1048576
        → is_size_aligned m ≡ true
        → n ≢ 0
        → (n ≡ 0) ⊎ SizeAt (bin_index m) n
        → n ≡ m
    known m n p h a ne (inl e) = absurd (ne e)
    known m n p h a ne (inr s) =
        (bin_index_unique n m s.positive s.not_huge s.aligned p h a).1 s.index
