-- ===== src/Generator/Table.antt =====
-- Every entry of the two tables generates its group.
use sealloc.Base.{
  ℕ, ◌+◌, ◌-◌, ◌*◌, ◌/◌, ◌%◌, ◌^◌, ◌<◌, ◌≡◌, refl, ◌≢◌, ◌≤◌, ◌⊎◌, inl, inr, ap, arith,
}
use sealloc.Base.{
  Bool, true, ◌&&◌, List, get_or, length, all, all_sound, all_below, all_below_sound, ltb, ltb→lt,
  leb, ◌==◌, ==_iff,
}
use sealloc.Generator.{
  generators_small_lengths, generators_small, generators_medium_lengths, generators_medium, entry,
}

-- No multiple of `g` by less than `n` vanishes modulo `n`: the multiples of `g` run through all of Z_n.
pub record Generates (g n : ℕ) : Type 0 where
  pub pos : 0 < n
  pub no_cycle : (d : ℕ) → 0 < d → d < n → (d * g) % n ≢ 0

no_gap : (n a b d : ℕ) → n * a ≡ n * b + d → 0 < d → d < n → ⊥
no_gap n a b d e p h = elim (le_or_lt a b) [
  | inl le ↦ absurd (grind (arith, mul_le n a b le))
  | inr lt ↦ absurd (grind (arith, mul_le n (b + 1) a lt))
]
  where
    mul_le : (k x y : ℕ) → x ≤ y → k * x ≤ k * y
    mul_le k x y xy = grind arith

    le_or_lt : (x y : ℕ) → (x ≤ y) ⊎ (y + 1 ≤ x)
    le_or_lt x y = grind arith

-- An inverse modulo `n` shows it.
Generates-of_inverse : (g n u : ℕ) → 0 < n → (g * u) % n ≡ 1 % n → Generates g n
Generates-of_inverse g n u p e = record {
  pos = p;
  no_cycle = λ d dp dn z.
      vanish d dp dn (d * g / n) (g * u / n) (omega (arith, z)) (omega (arith, e, small d dp dn));
}
  where
    small : (d : ℕ) → 0 < d → d < n → 1 % n ≡ 1
    small d dp dn = grind arith

    vanish : (d : ℕ) → 0 < d → d < n → (q r : ℕ) → d * g ≡ n * q → g * u ≡ n * r + 1 → ⊥
    vanish d dp dn q r dg gu =
        no_gap n (q * u) (d * r) d
          (omega (arith, ap (λ (t : ℕ). t * u) dg, ap (λ (t : ℕ). d * t) gu)) dp dn

-- The last entry of a length is the order of the group of units, so `g ^ (len - 1)` is the inverse.
is_unit : ℕ → ℕ → ℕ → Bool
is_unit n len g = ((g * (g ^ (len - 1) % n)) % n == 1 % n) && ltb g (2 ^ 16)

-- A row of a table: `len` entries, at least one, every one a `uint16_t` and invertible modulo
-- the regions of a run.
row_ok : ℕ → ℕ → List ℕ → Bool
row_ok n len row = ltb 0 len && leb len (length row) && all (is_unit n len) row

small_ok : ℕ → Bool
small_ok i =
    row_ok (16384 / (16 * (i + 1))) (get_or generators_small_lengths i 0)
      (get_or generators_small i List.[])

small_table : all_below 32 small_ok ≡ true
unfolding all_below small_ok row_ok is_unit all generators_small_lengths generators_small
small_table = refl

medium_ok : ℕ → Bool
medium_ok i =
    row_ok (16384 / (1024 * 2 ^ i)) (get_or generators_medium_lengths i 0)
      (get_or generators_medium i List.[])

medium_table : all_below 4 medium_ok ≡ true
unfolding all_below medium_ok row_ok is_unit all generators_medium_lengths generators_medium
medium_table = refl

row_ok_sound :
    (n len : ℕ) (row : List ℕ) (j : ℕ)
    → 0 < n
    → row_ok n len row ≡ true
    → j < len
    → Generates (get_or row j 0) n × (get_or row j 0 < 2 ^ 16)
unfolding row_ok is_unit
row_ok_sound n len row j p h lt =
    let unit = all_sound (is_unit n len) row j 0 (ground arith) (ground arith) in
    (
      Generates-of_inverse (get_or row j 0) n (get_or row j 0 ^ (len - 1) % n) p (
          (==_iff (get_or row j 0 * (get_or row j 0 ^ (len - 1) % n) % n) (1 % n)).0
            (ground arith)),
      ground arith,
    )

-- Every entry of GENERATORS_SMALL within its row's length generates Z_n, where n is the number of
-- regions of a run of that size class, and fits a `uint16_t`.
pub small-Generates :
    (i j : ℕ)
    → i < 32
    → j < get_or generators_small_lengths i 0
    → Generates (entry generators_small i j) (16384 / (16 * (i + 1)))
      × (entry generators_small i j < 2 ^ 16)
unfolding entry small_ok
small-Generates i j hi hj =
    row_ok_sound _ _ _ j (regions_pos i hi) (all_below_sound 32 small_ok i small_table hi) hj
  where
    regions_pos : (k : ℕ) → k < 32 → 0 < 16384 / (16 * (k + 1))
    regions_pos k h = grind arith

-- Every entry of GENERATORS_MEDIUM within its row's length generates Z_n likewise, and fits a `uint16_t`.
pub medium-Generates :
    (i j : ℕ)
    → i < 4
    → j < get_or generators_medium_lengths i 0
    → Generates (entry generators_medium i j) (16384 / (1024 * 2 ^ i))
      × (entry generators_medium i j < 2 ^ 16)
unfolding entry medium_ok
medium-Generates i j hi hj =
    row_ok_sound _ _ _ j (regions_pos i hi) (all_below_sound 4 medium_ok i medium_table hi) hj
  where
    pos_ok : all_below 4 (λ k. ltb 0 (16384 / (1024 * 2 ^ k))) ≡ true
    pos_ok = unfold all_below in refl

    regions_pos : (k : ℕ) → k < 4 → 0 < 16384 / (1024 * 2 ^ k)
    regions_pos k h = ltb→lt _ _ (all_below_sound 4 _ k pos_ok h)

pub small_lengths_pos : (i : ℕ) → i < 32 → 0 < get_or generators_small_lengths i 0
unfolding small_ok row_ok
small_lengths_pos i h = ground (arith, all_below_sound 32 small_ok i small_table h)

pub medium_lengths_pos : (i : ℕ) → i < 4 → 0 < get_or generators_medium_lengths i 0
unfolding medium_ok row_ok
medium_lengths_pos i h = ground (arith, all_below_sound 4 medium_ok i medium_table h)

-- Every entry of GENERATORS_SMALL and of GENERATORS_MEDIUM within its row's length generates Z_n, where n is
-- the number of regions of a run of the row's size class, and fits a `uint16_t`.
pub entry-Generates :
    (i j k l : ℕ)
    → i < 32
    → j < get_or generators_small_lengths i 0
    → k < 4
    → l < get_or generators_medium_lengths k 0
    → Generates (entry generators_small i j) (16384 / (16 * (i + 1)))
      × (entry generators_small i j < 2 ^ 16)
      × Generates (entry generators_medium k l) (16384 / (1024 * 2 ^ k))
      × (entry generators_medium k l < 2 ^ 16)
entry-Generates i j k l hi hj hk hl =
    let s = small-Generates i j hi hj in let m = medium-Generates k l hk hl in (s.0, s.1, m.0, m.1)
