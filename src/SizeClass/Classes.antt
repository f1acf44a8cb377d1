-- ===== src/SizeClass/Classes.antt =====
-- The size classes: rounding gives the least class that fits, and each class has a bin of its own.
use sealloc.Base.{ℕ, ◌+◌, ◌-◌, ◌*◌, ◌/◌, ◌^◌, ◌≤◌, ◌<◌, ◌≡◌, refl, ◌⊎◌, inl, inr, true, ◌&&◌, arith}
use sealloc.Base.{leb, ltb, ◌==◌, ==_iff, subst, sym, ◌∙◌, all_below, all_below_sound}
use native.Mathlib.Nat.{one-le-pow}
use sealloc.Utils.{ceil_div, ctz, ctz_loop}
use sealloc.SizeClass.{
  alignup_small_size, alignup_medium_size, alignup_large_size, npow2, is_size_aligned, aligned_size,
  bin_index, size_to_idx_small, size_to_idx_medium, size_to_idx_large,
}
use sealloc.SizeClass.Rounding.{
  npow2_facts, npow2_mono, ceil_div_lem, alignup_small_size_lem, alignup_medium_size_lem,
  alignup_large_size_lem,
}

-- An aligned size, by its class and its position in the class.
pub data Class (n : ℕ) : Type 0 where
  small : (k : ℕ) → k < 32 → n ≡ 16 * (k + 1) → Class n
  medium : (k : ℕ) → k < 4 → n ≡ 1024 * 2 ^ k → Class n
  large : (k : ℕ) → k < 7 → n ≡ 16384 * 2 ^ k → Class n

npow2_8 : npow2 8 ≡ 8
unfolding npow2
npow2_8 = refl

npow2_64 : npow2 64 ≡ 64
unfolding npow2
npow2_64 = refl

aligned_size_small : (n : ℕ) → 0 < n → n ≤ 512 → aligned_size n ≡ (n + 15) / 16 * 16
unfolding aligned_size
aligned_size_small n p h = ground (arith, alignup_small_size_lem n h)

aligned_size_medium : (n : ℕ) → 512 < n → n ≤ 8192 → aligned_size n ≡ npow2 (ceil_div n 1024) * 1024
unfolding aligned_size
aligned_size_medium n p h = ground (arith, alignup_medium_size_lem n p h)

aligned_size_large :
    (n : ℕ) → 8192 < n → n ≤ 1048576 → aligned_size n ≡ npow2 (ceil_div n 16384) * 16384
unfolding aligned_size
aligned_size_large n p h = ground (arith, alignup_large_size_lem n h)

-- `is_size_aligned` says that rounding leaves the size as it is.
is_size_aligned_lem : (n : ℕ) → is_size_aligned n ≡ (aligned_size n == n)
unfolding is_size_aligned aligned_size
is_size_aligned_lem n = ground arith

range : (n : ℕ) → (n ≤ 512) ⊎ ((512 < n) × (n ≤ 8192)) ⊎ (8192 < n)
range n = grind arith

record MediumFacts (d : ℕ) : Type 0 where
  le : npow2 d ≤ 8
  log : ctz (npow2 d) < 4

medium_table : all_below 9 (λ d. leb (npow2 d) 8 && ltb (ctz (npow2 d)) 4) ≡ true
unfolding all_below npow2 ctz ctz_loop
medium_table = refl

medium_facts : (d : ℕ) → d ≤ 8 → MediumFacts d
medium_facts d h =
    let row =
      all_below_sound 9 (λ d. leb (npow2 d) 8 && ltb (ctz (npow2 d)) 4) d medium_table
        (omega arith) in
    record { le = ground arith; log = ground arith }

-- The size that a request is rounded to, by the range of the request.
pub aligned_size-Class :
    (n : ℕ) → 0 < n → n ≤ 1048576 → (n ≤ aligned_size n) × Class (aligned_size n)
aligned_size-Class n p h = elim (range n) [
  | inl s ↦ (
    omega (arith, aligned_size_small n p s),
    small ((n + 15) / 16 - 1) (omega arith) (omega (arith, aligned_size_small n p s)),
  )
  | inr (inl m) ↦
      let d = ceil_div n 1024 in
      let q = ceil_div_lem n 1024 (omega arith) in
      let f = npow2_facts d (omega arith) (omega arith) in
      let e = aligned_size_medium n m.0 m.1 in
      let facts = medium_facts d (omega arith) in
      (omega arith, medium (ctz (npow2 d)) facts.log (omega arith))
  | inr (inr l) ↦
      let d = ceil_div n 16384 in
      let q = ceil_div_lem n 16384 (omega arith) in
      let f = npow2_facts d (omega arith) (omega arith) in
      let e = aligned_size_large n l h in (omega arith, large (ctz (npow2 d)) f.4 (omega arith))
]

class_table :
    all_below 32
      (λ k. (aligned_size (16 * (k + 1)) == 16 * (k + 1)) && (bin_index (16 * (k + 1)) == k))
    ≡ true
unfolding all_below aligned_size alignup_small_size bin_index size_to_idx_small
class_table = refl

medium_class_table :
    all_below 4
      (λ k. (aligned_size (1024 * 2 ^ k) == 1024 * 2 ^ k) && (bin_index (1024 * 2 ^ k) == 32 + k))
    ≡ true
unfolding all_below aligned_size alignup_medium_size npow2 ceil_div bin_index size_to_idx_medium ctz
    ctz_loop
medium_class_table = refl

large_class_table :
    all_below 7 (λ k.
      (aligned_size (16384 * 2 ^ k) == 16384 * 2 ^ k) && (bin_index (16384 * 2 ^ k) == 36 + k))
    ≡ true
unfolding all_below aligned_size alignup_large_size npow2 ceil_div bin_index size_to_idx_large ctz
    ctz_loop
large_class_table = refl

-- The place of a class among the bins.
pub class_bin : {n : ℕ} → Class n → ℕ
class_bin (small k h e) = k
class_bin (medium k h e) = 32 + k
class_bin (large k h e) = 36 + k

-- A size of a class is left as it is, and its bin is the place of the class.
pub Class-fixed : {n : ℕ} (c : Class n) → (aligned_size n ≡ n) × (bin_index n ≡ class_bin c)
unfolding class_bin
Class-fixed (small k h e) = rw e (
    ground (
      arith,
      all_below_sound 32
          (λ k. (aligned_size (16 * (k + 1)) == 16 * (k + 1)) && (bin_index (16 * (k + 1)) == k)) k
          class_table h,
    ))
Class-fixed (medium k h e) = rw e (
    ground (
      arith,
      all_below_sound 4
          (λ k.
            (aligned_size (1024 * 2 ^ k) == 1024 * 2 ^ k) && (bin_index (1024 * 2 ^ k) == 32 + k))
          k medium_class_table h,
    ))
Class-fixed (large k h e) = rw e (
    ground (
      arith,
      all_below_sound 7
          (λ k.
            (aligned_size (16384 * 2 ^ k) == 16384 * 2 ^ k)
            && (bin_index (16384 * 2 ^ k) == 36 + k))
          k large_class_table h,
    ))

-- The aligned sizes are the sizes of the classes.
pub Class-of_aligned : (n : ℕ) → 0 < n → n ≤ 1048576 → is_size_aligned n ≡ true → Class n
Class-of_aligned n p h a =
    subst Class ((==_iff _ _).0 (sym (is_size_aligned_lem n) ∙ a)) (aligned_size-Class n p h).1

ceil_div_mono : (a b k : ℕ) → 0 < k → a ≤ b → ceil_div a k ≤ ceil_div b k
ceil_div_mono a b k p h =
    omega_step (ceil_div a k) (ceil_div b k) (ceil_div_lem a k p) (ceil_div_lem b k p)
  where
    omega_step : (x y : ℕ) → (a ≤ x * k) × (x * k < a + k) → (b ≤ y * k) × (y * k < b + k) → x ≤ y
    omega_step x y u v = grind arith

aligned_size_mono : (n c : ℕ) → 0 < n → n ≤ c → c ≤ 1048576 → aligned_size n ≤ aligned_size c
aligned_size_mono n c p h k = elim (range c) [
  | inl s ↦ omega (arith, aligned_size_small n, aligned_size_small c)
  | inr (inl m) ↦ elim (range n) [
    | inl s ↦ omega (arith, aligned_size_small n, (aligned_size-Class c (omega arith) k).0)
    | inr (inl m') ↦ omega (
      arith,
      aligned_size_medium n m'.0 m'.1,
      aligned_size_medium c m.0 m.1,
      npow2_mono (ceil_div n 1024) (ceil_div c 1024) (ceil_div_mono n c 1024 (omega arith) h)
          (omega (arith, ceil_div_lem c 1024)),
    )
    | inr (inr l) ↦ absurd (omega arith)
  ]
  | inr (inr l) ↦ elim (range n) [
    | inl s ↦ omega (arith, aligned_size_small n, (aligned_size-Class c (omega arith) k).0)
    | inr (inl m') ↦ omega (
      arith,
      aligned_size_medium n m'.0 m'.1,
      (medium_facts (ceil_div n 1024) (omega (arith, ceil_div_lem n 1024))).le,
      (aligned_size-Class c (omega arith) k).0,
    )
    | inr (inr l') ↦ omega (
      arith,
      aligned_size_large n l' (omega arith),
      aligned_size_large c l k,
      npow2_mono (ceil_div n 16384) (ceil_div c 16384) (ceil_div_mono n c 16384 (omega arith) h)
          (omega (arith, ceil_div_lem c 16384)),
    )
  ]
]

size_table : all_below 7 (λ k. leb (2 ^ k) 64) && all_below 4 (λ k. leb (2 ^ k) 8) ≡ true
unfolding all_below
size_table = refl

Class-bounds : {n : ℕ} → Class n → (0 < n) × (n ≤ 1048576)
Class-bounds (small k h e) = omega arith
Class-bounds (medium k h e) =
    ground (arith, size_table, all_below_sound 4 (λ k. leb (2 ^ k) 8) k, one-le-pow k 2)
Class-bounds (large k h e) =
    ground (arith, size_table, all_below_sound 7 (λ k. leb (2 ^ k) 64) k, one-le-pow k 2)

-- A request of 1 byte to 1 MiB is rounded to a size that holds it, is no larger than 1 MiB, and is
-- aligned in its size class.
aligned_size_bounds :
    (n : ℕ)
    → 0 < n
    → n ≤ 1048576
    → (n ≤ aligned_size n) × (aligned_size n ≤ 1048576) × (is_size_aligned (aligned_size n) ≡ true)
aligned_size_bounds n p h =
    let (le, c) = aligned_size-Class n p h in
    (le, (Class-bounds c).1, is_size_aligned_lem _ ∙ (==_iff _ _).1 (Class-fixed c).0)

-- No aligned size that holds the request is smaller than the one that it is rounded to.
aligned_size_least :
    (n c : ℕ) → 0 < n → n ≤ c → c ≤ 1048576 → is_size_aligned c ≡ true → aligned_size n ≤ c
aligned_size_least n c p h k a =
    omega (arith, aligned_size_mono n c p h k, (==_iff _ _).0 (sym (is_size_aligned_lem c) ∙ a))

-- For a request of at least 1 byte, and an aligned size `c` of at most 1 MiB that holds it, the request is
-- rounded to an aligned size that holds it and is no larger than `c`.
pub aligned_size_lem :
    (n c : ℕ)
    → 0 < n
    → n ≤ c
    → c ≤ 1048576
    → is_size_aligned c ≡ true
    → (n ≤ aligned_size n) × (is_size_aligned (aligned_size n) ≡ true) × (aligned_size n ≤ c)
aligned_size_lem n c p h k a =
    let (le, _, aligned) = aligned_size_bounds n p (omega arith) in
    (le, aligned, aligned_size_least n c p h k a)

class_bin-lt : {n : ℕ} (c : Class n) → class_bin c < 43
unfolding class_bin
class_bin-lt (small k h e) = omega arith
class_bin-lt (medium k h e) = omega arith
class_bin-lt (large k h e) = omega arith

class_bin-injective : {n m : ℕ} (c : Class n) (d : Class m) → class_bin c ≡ class_bin d → n ≡ m
unfolding class_bin
class_bin-injective (small k h e) (small k' h' e') q = omega arith
class_bin-injective (small k h e) (medium k' h' e') q = absurd (omega arith)
class_bin-injective (small k h e) (large k' h' e') q = absurd (omega arith)
class_bin-injective (medium k h e) (small k' h' e') q = absurd (omega arith)
class_bin-injective (medium k h e) (medium k' h' e') q =
    let s : k ≡ k' = omega arith in rw (e, e', s)
class_bin-injective (medium k h e) (large k' h' e') q = absurd (omega arith)
class_bin-injective (large k h e) (small k' h' e') q = absurd (omega arith)
class_bin-injective (large k h e) (medium k' h' e') q = absurd (omega arith)
class_bin-injective (large k h e) (large k' h' e') q = let s : k ≡ k' = omega arith in rw (e, e', s)

-- The bin of an aligned size is one of the arena's 43, and no other aligned size has it.
pub bin_index_unique :
    (n m : ℕ)
    → 0 < n
    → n ≤ 1048576
    → is_size_aligned n ≡ true
    → 0 < m
    → m ≤ 1048576
    → is_size_aligned m ≡ true
    → (bin_index n < 43) × (bin_index n ≡ bin_index m → n ≡ m)
bin_index_unique n m p h a p' h' a' =
    let c = Class-of_aligned n p h a in
    let d = Class-of_aligned m p' h' a' in
    let e = (Class-fixed c).1 in
    let e' = (Class-fixed d).1 in
    (rw e (class_bin-lt c), λ q. class_bin-injective c d (sym e ∙ q ∙ e'))
