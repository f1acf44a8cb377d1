-- ===== src/Base/Words.antt =====
-- The fixed widths of C, shifts, and flat memory as a function of the offset.
use Prim.Native.Nat.{ℕ, zero, suc, ◌+◌, ◌-◌, ◌%◌, ◌^◌, ◌<◌}
use mathlib.Core.Path.{◌≡◌, refl}
use mathlib.Core.Bool.{Bool, true, ◌&&◌}
use native.Mathlib.Omega.{arith}
use sealloc.Base.Tests.{ltb, ◌==◌, if◌then◌else◌}

abbrev pub u8 : ℕ → ℕ
u8 n = n % 2 ^ 8

abbrev pub u16 : ℕ → ℕ
u16 n = n % 2 ^ 16

abbrev pub u32 : ℕ → ℕ
u32 n = n % 2 ^ 32

abbrev pub u64 : ℕ → ℕ
u64 n = n % 2 ^ 64

-- `~x` on a 32-bit operand.
abbrev pub not32 : ℕ → ℕ
not32 x = 2 ^ 32 - 1 - x

-- An array, or memory behind a pointer: what each index holds.
abbrev pub Cells {ℓ} : Type ℓ → Type ℓ
Cells A = ℕ → A

-- `a[i] = v`
unfoldable pub store {ℓ} : {A : Type ℓ} → Cells A → ℕ → A → Cells A
store a i v j = if j == i then v else a j

-- `for (k = 0; k < n; k++) a[i + k] = v`, as `memset` does.
unfoldable pub fill {ℓ} : {A : Type ℓ} → Cells A → ℕ → ℕ → A → Cells A
fill a i n v j = if (ltb j i) then a j else if ltb j (i + n) then v else a j

pub store_lem {ℓ} :
    {A : Type ℓ} (a : Cells A) (i : ℕ) (v : A) (j : ℕ) → store a i v j ≡ (if j == i then v else a j)
unfolding store
store_lem a i v j = refl

-- A test of all numbers below a bound, by evaluation.
unfoldable pub all_below : ℕ → (ℕ → Bool) → Bool
all_below zero test = true
all_below (suc bound) test = test bound && all_below bound test

pub all_below_sound :
    (bound : ℕ) (test : ℕ → Bool) (i : ℕ) → all_below bound test ≡ true → i < bound → test i ≡ true
unfolding all_below
all_below_sound zero test i passed in_bound = absurd (omega arith)
all_below_sound (suc bound) test i passed in_bound = ground (arith, all_below_sound bound test i)
