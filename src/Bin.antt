-- ===== src/Bin.antt =====
-- src/sealloc/bin.h and `bin_init` of src/bin.c. The other operations, on the runs of a bin, are in
-- Bin/Runs. A list head is the address of the first entry.
pub mod Runs
use sealloc.Base.{ℕ, ◌*◌, ◌/◌, ◌^◌, ◌%◌, u32, if◌then◌else◌}
use sealloc.Utils.{page_size}
use sealloc.ContainerLl.{ll_init}
use sealloc.SizeClass.{is_size_small, is_size_medium}

pub record Bin : Type 0 where
  pub run_list_inactive : ℕ
  pub run_list_active : ℕ
  pub run_list_active_cnt : ℕ
  pub avail_regs : ℕ
  pub reg_size : ℕ
  pub run_size_pages : ℕ
  pub reg_mask_size_bits : ℕ

abbrev pub bin_minimum_regions : ℕ
bin_minimum_regions = 256

-- RUN_SIZE_SMALL_PAGES and RUN_SIZE_MEDIUM_PAGES
abbrev pub run_size_small_pages : ℕ
run_size_small_pages = 16384 / page_size

abbrev pub run_size_medium_pages : ℕ
run_size_medium_pages = 16384 / page_size

unfoldable pub bin_init : Bin → ℕ → Bin
bin_init bin reg_size =
    let pages =
      if is_size_small reg_size
      then run_size_small_pages
      else if is_size_medium reg_size
      then run_size_medium_pages
      else reg_size / page_size in
    record bin {
      run_list_inactive = ll_init;
      run_list_active = ll_init;
      run_size_pages = pages;
      reg_size = reg_size;
      avail_regs = 0;
      reg_mask_size_bits = u32 (u32 (pages * page_size) / reg_size * 2);
      run_list_active_cnt = 0;
    }
