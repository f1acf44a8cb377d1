-- ===== src/Arena/Bins.antt =====
-- arena_get_bin_by_reg_size in src/arena.c: a bin is its index.
pub mod Classes
use sealloc.Base.{ℕ, zero, suc, Cells, store, ◌==◌, if◌then◌else◌}
use sealloc.SizeClass.{bin_index}
use sealloc.Bin.{Bin, bin_init}
use sealloc.World.{Arena, World, Outcome, done, aborts, M, set_bin}

-- A bin that is met for the first time is initialised, which divides by the size.
unfoldable pub arena_get_bin_by_reg_size : ℕ → M ℕ
arena_get_bin_by_reg_size reg_size w =
    let i = bin_index reg_size in
    let bin = w.arena.bins i in
    if bin.reg_size == 0
    then (if reg_size == 0
        then aborts
        else done i (record w {
          arena = record w.arena { bins = store w.arena.bins i (bin_init bin reg_size) };
        }))
    else done i w
