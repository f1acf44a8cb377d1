-- ===== src/Sealloc/ReallocZero.antt =====
-- sealloc_realloc in src/sealloc.c with a size of 0.
use sealloc.Base.{ℕ, zero, suc, ◌≡◌, ◌≢◌, refl, ◌∙◌, ap, Bool, true, false, ◌==◌, if◌then◌else◌}
use sealloc.SizeClass.{aligned_size, bin_index, alignup_large_size, npow2, size_to_idx_large}
use sealloc.Utils.{ctz, ctz_loop, ceil_div}
use sealloc.World.{World, done, aborts, M, ◌>>◌, bind-done, bind-aborts}
use sealloc.Arena.Bins.{arena_get_bin_by_reg_size}
use sealloc.Run.{size_max, run_validate_ptr}
use sealloc.Sealloc.{regular, ready_bin, locate_metadata_for_ptr}
use sealloc.Sealloc.Realloc.{sealloc_realloc, realloc_located, regular_to_regular, check_region}

aligned_size_zero : aligned_size 0 ≡ 0
unfolding aligned_size alignup_large_size npow2 ceil_div
aligned_size_zero = refl

bin_index_zero : bin_index 0 ≡ 36
unfolding bin_index size_to_idx_large ctz ctz_loop
bin_index_zero = refl

get_bin_zero : (w : World) → (w.arena.bins 36).reg_size ≡ 0 → arena_get_bin_by_reg_size 0 w ≡ aborts
unfolding arena_get_bin_by_reg_size
get_bin_zero w h = rw (bin_index_zero, h) refl

ready_bin_zero :
    (w : World) → (w.arena.bins 36).reg_size ≡ 0 → ready_bin (aligned_size 0) w ≡ aborts
unfolding ready_bin
ready_bin_zero w h =
    ap (λ (n : ℕ). ready_bin n w) aligned_size_zero
    ∙ bind-aborts (arena_get_bin_by_reg_size 0) _ (get_bin_zero w h)

after_check :
    (b : Bool) (w : World) (k : M ℕ)
    → k w ≡ aborts
    → ((λ w'. if b then aborts else done tt w') >> k) w ≡ aborts
after_check true w k q = refl
after_check false w k q = q

-- For a pointer other than null that locate_metadata_for_ptr finds in a run, sealloc_realloc with a
-- size of 0 aborts if the bin of the smallest large class, number 36, is not initialised.
pub sealloc_realloc_zero-aborts :
    (ptr chunk run i : ℕ) (w w1 : World)
    → ptr ≢ 0
    → locate_metadata_for_ptr ptr w ≡ done (regular chunk run i) w1
    → (w1.arena.bins 36).reg_size ≡ 0
    → sealloc_realloc ptr 0 w ≡ aborts
unfolding sealloc_realloc realloc_located check_region regular_to_regular
sealloc_realloc_zero-aborts zero chunk run i w w1 ne q u = absurd (ne refl)
sealloc_realloc_zero-aborts (suc p) chunk zero i w w1 ne q u =
    bind-done (locate_metadata_for_ptr (suc p)) _ q
sealloc_realloc_zero-aborts (suc p) chunk (suc r) i w w1 ne q u =
    bind-done (locate_metadata_for_ptr (suc p)) _ q
    ∙ after_check (run_validate_ptr (w1.runs (suc r)) (w1.arena.bins i) (suc p) == size_max) w1 _
        (bind-aborts (ready_bin (aligned_size 0)) _ (ready_bin_zero w1 u))
