-- ===== src/Random.antt =====
-- src/random.c: the two static generators, as a state that is passed along.
use sealloc.Base.{ℕ, ◌+◌, ◌*◌, ◌/◌, ◌^◌, bit_xor, u32, u64}

pub record Rng : Type 0 where
  pub state32 : ℕ
  pub state64 : ℕ

pub init_splitmix32 : ℕ → Rng → Rng
init_splitmix32 seed r = record r { state32 = u32 seed }

pub init_splitmix64 : ℕ → Rng → Rng
init_splitmix64 seed r = record r { state64 = u64 seed }

unfoldable pub splitmix32 : Rng → ℕ × Rng
splitmix32 r =
    let s = u32 (r.state32 + 0x9e37_79b9) in
    let z = u32 (bit_xor s (s / 2 ^ 16) * 0x21f0_aaad) in
    let z' = u32 (bit_xor z (z / 2 ^ 15) * 0x735a_2d97) in
    (bit_xor z' (z' / 2 ^ 15), record r { state32 = s })

unfoldable pub splitmix64 : Rng → ℕ × Rng
splitmix64 r =
    let s = u64 (r.state64 + 0x9e37_79b9_7f4a_7c15) in
    let z = u64 (bit_xor s (s / 2 ^ 30) * 0xbf58_476d_1ce4_e5b9) in
    let z' = u64 (bit_xor z (z / 2 ^ 27) * 0x94d0_49bb_1331_11eb) in
    (bit_xor z' (z' / 2 ^ 31), record r { state64 = s })
