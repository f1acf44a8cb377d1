-- ===== src/Base/Bits.antt =====
-- `&` at variables, from the digit recursion that the native operation stands for.
use Prim.Native.Nat.{
  ℕ, zero, suc, ◌+◌, ◌*◌, ◌-◌, ◌/◌, ◌%◌, ◌^◌, ◌≤◌, ◌<◌, min, digits, bit_and, bit_and-bitwise,
}
use mathlib.Core.Path.{◌≡◌, refl, ap}
use native.Mathlib.Omega.{arith}

-- What `&` computes, on so many rounds.
abbrev rounds : ℕ → ℕ → ℕ → ℕ
rounds = digits (λ y. zero) min

-- Nothing is left of a 0 on either side.
left_zero : (k y : ℕ) → rounds k 0 y ≡ 0
left_zero zero y = refl
left_zero (suc k) y = refl

right_zero : (k x : ℕ) → rounds k x 0 ≡ 0
right_zero zero zero = refl
right_zero zero (suc x) = refl
right_zero (suc k) zero = refl
right_zero (suc k) (suc x) = omega (arith, right_zero k (suc x / 2))

-- More rounds than the number needs make no difference.
rounds_enough : (x y k l : ℕ) → x ≤ min k l → rounds k x y ≡ rounds l x y
rounds_enough zero y k l h = omega (arith, left_zero k y, left_zero l y)
rounds_enough (suc x) y zero l h = absurd (omega arith)
rounds_enough (suc x) y (suc k) zero h = absurd (omega arith)
rounds_enough (suc x) y (suc k) (suc l) h =
    ap (λ (t : ℕ). t * 2 + min (suc x % 2) (y % 2))
      (rounds_enough (suc x / 2) (y / 2) k l (omega arith))

-- The lowest digit of `a & b`.
pub bit_and_step : (a b : ℕ) → bit_and a b ≡ bit_and (a / 2) (b / 2) * 2 + min (a % 2) (b % 2)
bit_and_step a b = omega (arith, bit_and-bitwise a b, bit_and-bitwise (a / 2) (b / 2), lowest a)
  where
    lowest : (x : ℕ) → rounds x x b ≡ rounds (x / 2) (x / 2) (b / 2) * 2 + min (x % 2) (b % 2)
    lowest zero = omega (arith, left_zero 0 (b / 2))
    lowest (suc x) =
        ap (λ (t : ℕ). t * 2 + min (suc x % 2) (b % 2))
          (rounds_enough (suc x / 2) (b / 2) x (suc x / 2) (omega arith))

bit_and-zero : (a : ℕ) → bit_and a 0 ≡ 0
bit_and-zero a = omega (arith, bit_and-bitwise a 0, right_zero a a)

-- The mask of `k` low bits.
unfoldable pub ones : ℕ → ℕ
ones zero = 0
ones (suc k) = 2 * ones k + 1

pub bit_and-ones : (k a : ℕ) → bit_and a (ones k) ≡ a % (ones k + 1)
unfolding ones
bit_and-ones zero a = omega (arith, bit_and-zero a)
bit_and-ones (suc k) a = grind (
  arith,
  bit_and_step a (2 * ones k + 1),
  bit_and-ones k (a / 2),
  halves (a / 2) (a % 2) (ones k + 1),
)
  where
    halves : (b r p : ℕ) → r < 2 → 0 < p → (2 * b + r) % (2 * p) ≡ 2 * (b % p) + r
    halves b r p hr hp = grind arith

unfoldable pub pow2 : ℕ → ℕ
pow2 zero = 1
pow2 (suc k) = 2 * pow2 k

pub bit_and-above : (k a m : ℕ) → bit_and a (pow2 k * m) ≡ pow2 k * bit_and (a / pow2 k) m
unfolding pow2
bit_and-above zero a m = ground arith
bit_and-above (suc k) a m = grind (
  arith,
  bit_and_step a (2 * pow2 k * m),
  bit_and-above k (a / 2) m,
  even (pow2 k * m),
  halves a (pow2 k),
)
  where
    even : (n : ℕ) → (2 * n % 2 ≡ 0) × (2 * n / 2 ≡ n)
    even n = (omega arith, omega arith)

    halves : (b p : ℕ) → b / 2 / p ≡ b / (2 * p)
    halves b p = grind arith

-- `x & ~(2^k - 1)` on 64 bits, at the masks of ALIGNUP_SMALL_SIZE and ALIGNUP_PAGE.
pub clear_low_4 : (a : ℕ) → a < 2 ^ 64 → bit_and a (2 ^ 64 - 16) ≡ a / 16 * 16
unfolding pow2 ones
clear_low_4 a h = omega (arith, bit_and-above 4 a (ones 60), bit_and-ones 60 (a / 16))

pub clear_low_12 : (a : ℕ) → a < 2 ^ 64 → bit_and a (2 ^ 64 - 4096) ≡ a / 4096 * 4096
unfolding pow2 ones
clear_low_12 a h = omega (arith, bit_and-above 12 a (ones 52), bit_and-ones 52 (a / 4096))

pub clear_low_3 : (a : ℕ) → a < 2 ^ 32 → bit_and a (2 ^ 32 - 8) ≡ a / 8 * 8
unfolding pow2 ones
clear_low_3 a h = omega (arith, bit_and-above 3 a (ones 29), bit_and-ones 29 (a / 8))

pub clear_low_12_32 : (a : ℕ) → a < 2 ^ 32 → bit_and a (2 ^ 32 - 4096) ≡ a / 4096 * 4096
unfolding pow2 ones
clear_low_12_32 a h = omega (arith, bit_and-above 12 a (ones 20), bit_and-ones 20 (a / 4096))
