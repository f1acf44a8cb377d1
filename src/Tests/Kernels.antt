-- ===== src/Tests/Kernels.antt =====
-- Kernels: one that has no memory left, and one that finds two pages taken.
use sealloc.Base.{ℕ, ◌≤◌, ◌<◌, ◌≡◌, ◌≢◌, refl, ◌⊎◌, inl, some, [], Cells, leb, if◌then◌else◌, arith}
use sealloc.SizeClass.{bin_index, is_size_aligned, alignup_small_size}
use sealloc.Platform.{
  Os, Mapping, mapped, map_failed, eexist, enomem, ceiling_hit, platform_map_probe,
}
use sealloc.Platform.Probing.{NoNull, Stop, stopped, platform_map_probe_lem}
use sealloc.Bin.{Bin}
use sealloc.World.{World, done, out_of_fuel}
use sealloc.Arena.{chunk_probe, arena_morecore}
use sealloc.Arena.Stuck.{Exhausted, arena_morecore-Exhausted}
use sealloc.Arena.Bins.{arena_get_bin_by_reg_size}
use sealloc.Arena.Bins.Classes.{IsBins, IsEmpty, arena_get_bin-IsBins}
use sealloc.Tests.Worlds.{willing, fresh}

abbrev no_memory : Os
no_memory = record willing { mmap = λ calls hint len. map_failed enomem }

arena_morecore-Exhausted_example :
    arena_morecore chunk_probe 33_554_432 (record fresh { os = no_memory }) ≡ out_of_fuel
unfolding Exhausted
arena_morecore-Exhausted_example =
    arena_morecore-Exhausted chunk_probe 33_554_432 (record fresh { os = no_memory })
      (λ calls hint len. refl)

-- The pages below 16384 are taken.
abbrev low_taken : Os
low_taken = record willing {
  mmap = λ calls hint len. if leb 16_384 hint then mapped hint else map_failed eexist;
}

low_taken-NoNull : NoNull low_taken
unfolding NoNull
low_taken-NoNull calls hint len e = absurd (ground arith)

platform_map_probe_lem_example :
    ((8192 < 65_536)
      × ((i : ℕ) × (m : Mapping) × Stop low_taken 8192 65_536 4096 [] i m
          × (platform_map_probe low_taken 8192 65_536 4096 []
              ≡ some (stopped low_taken 8192 65_536 4096 [] i m))))
    ⊎ ((65_536 ≤ 8192)
        × (platform_map_probe low_taken 8192 65_536 4096 []
            ≡ some (record { code = ceiling_hit; probe = 8192; calls = [] })))
platform_map_probe_lem_example =
    platform_map_probe_lem low_taken 8192 65_536 4096 [] low_taken-NoNull (omega arith)

arena_get_bin-IsBins_example :
    (bins : Cells Bin) × (arena_get_bin_by_reg_size 48 fresh
      ≡ done (bin_index 48) (record fresh { arena = record fresh.arena { bins = bins } }))
    × (bin_index 48 < 43)
    × ((bins (bin_index 48)).reg_size ≡ 48)
    × IsBins bins
    × ((i : ℕ) → i ≢ bin_index 48 → bins i ≡ fresh.arena.bins i)
    × ((((fresh.arena.bins (bin_index 48)).reg_size ≢ 0) × (bins ≡ fresh.arena.bins))
        ⊎ (((fresh.arena.bins (bin_index 48)).reg_size ≡ 0) × IsEmpty (bins (bin_index 48))))
unfolding IsBins is_size_aligned alignup_small_size
arena_get_bin-IsBins_example =
    arena_get_bin-IsBins 48 fresh (omega arith) (omega arith) refl (λ i. inl refl)
