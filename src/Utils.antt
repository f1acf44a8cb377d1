-- ===== src/Utils.antt =====
-- src/utils.c and the macros of src/sealloc/utils.h. Addresses and `size_t` are 64 bits wide.
use sealloc.Base.{
  ℕ, zero, suc, ◌+◌, ◌-◌, ◌*◌, ◌/◌, ◌%◌, ◌^◌, ◌≤◌, ◌<◌, ◌≡◌, Bool, List, [], ◌∷◌, get_or, arith,
}
use sealloc.Base.{bit_and, u32, u64, ltb, ◌==◌, if◌then◌else◌, Bool-cases, inl, inr}
use native.Mathlib.Nat.{pow-suc, add-zero}
use sealloc.Base.Bits.{clear_low_12, clear_low_3}

abbrev pub page_size : ℕ
page_size = 4096

-- ALIGNUP_8, on `unsigned`
unfoldable pub alignup_8 : ℕ → ℕ
alignup_8 n = bit_and (u32 (n + 7)) (2 ^ 32 - 8)

-- ALIGNUP_PAGE, on 64 bits
pub alignup_page : ℕ → ℕ
alignup_page n = bit_and (u64 (n + (page_size - 1))) (2 ^ 64 - page_size)

unfoldable pub bits2bytes_ceil : ℕ → ℕ
bits2bytes_ceil bits = alignup_8 bits / 8

abbrev pub is_aligned : ℕ → ℕ → Bool
is_aligned x y = x % y == 0

-- The loop halves a 32-bit number until it is at most 1, which takes fewer than 32 rounds.
unfoldable pub ctz_loop : ℕ → ℕ → ℕ → ℕ
ctz_loop zero x cnt = cnt
ctz_loop (suc fuel) x cnt =
    let rest = ctz_loop fuel (x / 2) (cnt + 1) in if ltb 1 x then rest else cnt

unfoldable pub ctz : ℕ → ℕ
ctz x = ctz_loop 32 x 0

-- A text is the bytes before its NUL.
unfoldable pub msg_len : List ℕ → ℕ
msg_len [] = 0
msg_len (c ∷ msg) = u32 (msg_len msg + 1)

-- A `char` as an `int`: it is signed on x86-64.
unfoldable pub char_value : ℕ → ℕ
char_value c = if ltb c 128 then c else c + (2 ^ 32 - 256)

-- The loop reads the text from its end, where `base` is the power of ten of the place.
unfoldable pub str2u32_loop : ℕ → List ℕ → ℕ → ℕ → ℕ
str2u32_loop zero str res base = res
str2u32_loop (suc idx) str res base =
    str2u32_loop idx str
      (u32 (res + u32 (u32 (char_value (get_or str idx 0) + (2 ^ 32 - b'0')) * base)))
      (u32 (base * 10))

unfoldable pub str2u32 : List ℕ → ℕ
str2u32 str = str2u32_loop (msg_len str) str 0 1

-- ceil_div of src/size_class.c and src/arena.c
unfoldable pub ceil_div : ℕ → ℕ → ℕ
ceil_div a b = a / b + (if a % b == 0 then 0 else 1)

pub alignup_page_lem : (n : ℕ) → n + 4095 < 2 ^ 64 → alignup_page n ≡ (n + 4095) / 4096 * 4096
unfolding alignup_page
alignup_page_lem n h = omega (arith, clear_low_12 ((n + 4095) % 2 ^ 64))

-- A size rounded up to a page: the least multiple of the page size that is not below it.
pub alignup_page_bounds :
    (n : ℕ)
    → n + 4095 < 2 ^ 64
    → (n ≤ alignup_page n) × (alignup_page n < n + 4096) × (alignup_page n % 4096 ≡ 0)
alignup_page_bounds n h = omega (arith, alignup_page_lem n h)

pub bits2bytes_ceil_lem : (n : ℕ) → n + 7 < 2 ^ 32 → bits2bytes_ceil n ≡ (n + 7) / 8
unfolding bits2bytes_ceil alignup_8
bits2bytes_ceil_lem n h = omega (arith, clear_low_3 ((n + 7) % 2 ^ 32))

ctz_loop_lem :
    (fuel x cnt : ℕ)
    → 0 < x
    → x < 2 ^ fuel
    → (y : ℕ) × (ctz_loop fuel x cnt ≡ y + cnt) × (2 ^ y ≤ x) × (x < 2 * 2 ^ y)
unfolding ctz_loop
ctz_loop_lem zero x cnt p h = absurd (omega arith)
ctz_loop_lem (suc fuel) x cnt p h = elim (Bool-cases (ltb 1 x)) [
  | inl more ↦
      let (y, e, lo, hi) =
        ctz_loop_lem fuel (x / 2) (cnt + 1) (ground arith) (omega (arith, pow-suc 2 fuel)) in
      (suc y, rw more (omega arith), omega (arith, pow-suc 2 y), omega (arith, pow-suc 2 y))
  | inr done ↦ (0, rw done (omega arith), omega arith, ground arith)
]

-- For a number below 2^32 the loop ends by its test, and counts the position of the highest bit.
ctz_bounds : (x : ℕ) → 0 < x → x < 2 ^ 32 → (2 ^ ctz x ≤ x) × (x < 2 * 2 ^ ctz x)
unfolding ctz
ctz_bounds x p h = let (y, e, lo, hi) = ctz_loop_lem 32 x 0 p h in rw (e, add-zero) (lo, hi)
