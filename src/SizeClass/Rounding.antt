-- ===== src/SizeClass/Rounding.antt =====
-- What the rounding of src/size_class.c computes, and that it finds the least size class.
use sealloc.Base.{ℕ, ◌+◌, ◌-◌, ◌*◌, ◌/◌, ◌^◌, ◌%◌, ◌≤◌, ◌<◌, ◌≡◌, refl, Bool, true, ◌&&◌, arith}
use sealloc.Base.{leb, ltb, ◌==◌, if◌then◌else◌, all_below, all_below_sound}
use sealloc.Base.Bits.{clear_low_4}
use sealloc.Utils.{ceil_div, ctz, ctz_loop}
use sealloc.SizeClass.{alignup_small_size, alignup_medium_size, alignup_large_size, npow2}

-- `npow2` on the quotients that occur, 1 to 64: a power of two, at least its argument, the least.
npow2_row : ℕ → Bool
npow2_row d =
    leb d (npow2 d)
    && leb (npow2 d) 64
    && (npow2 (npow2 d) == npow2 d)
    && all_below 65 (λ c. if (leb 1 c && leb c d) then leb (npow2 c) (npow2 d) else true)
    && (2 ^ ctz (npow2 d) == npow2 d)
    && ltb (ctz (npow2 d)) 7

npow2_table : all_below 64 (λ d. npow2_row (d + 1)) ≡ true
unfolding all_below npow2_row npow2 ctz ctz_loop
npow2_table = refl

pub npow2_facts :
    (d : ℕ)
    → 0 < d
    → d ≤ 64
    → (d ≤ npow2 d)
      × (npow2 d ≤ 64)
      × (npow2 (npow2 d) ≡ npow2 d)
      × (2 ^ ctz (npow2 d) ≡ npow2 d)
      × (ctz (npow2 d) < 7)
unfolding npow2_row
npow2_facts d p h = facts (d - 1) (omega arith) (omega arith)
  where
    facts :
        (k : ℕ)
        → k < 64
        → d ≡ k + 1
        → (d ≤ npow2 d)
          × (npow2 d ≤ 64)
          × (npow2 (npow2 d) ≡ npow2 d)
          × (2 ^ ctz (npow2 d) ≡ npow2 d)
          × (ctz (npow2 d) < 7)
    facts k hk e =
        rw e (ground (arith, all_below_sound 64 (λ d. npow2_row (d + 1)) k npow2_table hk))

mono_table :
    all_below 65 (λ d. all_below 65 (λ c. if leb c d then leb (npow2 c) (npow2 d) else true)) ≡ true
unfolding all_below npow2
mono_table = refl

pub npow2_mono : (c d : ℕ) → c ≤ d → d ≤ 64 → npow2 c ≤ npow2 d
npow2_mono c d h k = ground (
  arith,
  all_below_sound 65 (λ c. if leb c d then leb (npow2 c) (npow2 d) else true) c
      (all_below_sound 65
        (λ d. all_below 65 (λ c. if leb c d then leb (npow2 c) (npow2 d) else true)) d mono_table
        (omega arith)),
)

pub ceil_div_lem : (a b : ℕ) → 0 < b → (a ≤ ceil_div a b * b) × (ceil_div a b * b < a + b)
unfolding ceil_div
ceil_div_lem a b p = grind arith

pub alignup_small_size_lem : (n : ℕ) → n ≤ 512 → alignup_small_size n ≡ (n + 15) / 16 * 16
unfolding alignup_small_size
alignup_small_size_lem n h = omega (arith, clear_low_4 ((n + 15) % 2 ^ 64))

module _ (n : ℕ) (p : 512 < n) (h : n ≤ 8192) where
  medium_quotient : (0 < ceil_div n 1024) × (ceil_div n 1024 ≤ 8)
  medium_quotient = omega (arith, ceil_div_lem n 1024)

  pub alignup_medium_size_lem : alignup_medium_size n ≡ npow2 (ceil_div n 1024) * 1024
  unfolding alignup_medium_size
  alignup_medium_size_lem = omega (arith, medium_quotient, npow2_facts (ceil_div n 1024))

module _ (n : ℕ) (h : n ≤ 1048576) where
  large_quotient : ceil_div n 16384 ≤ 64
  large_quotient = omega (arith, ceil_div_lem n 16384)

  pub alignup_large_size_lem : 0 < n → alignup_large_size n ≡ npow2 (ceil_div n 16384) * 16384
  unfolding alignup_large_size
  alignup_large_size_lem p =
      omega (arith, large_quotient, ceil_div_lem n 16384, npow2_facts (ceil_div n 16384))
