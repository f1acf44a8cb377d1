-- ===== src/InternalAllocator/Levels.antt =====
-- The nodes of the buddy tree of src/internal_allocator.c by level, and the steps between them that the search
-- of internal_alloc takes.
use sealloc.Base.{
  ℕ, zero, suc, ◌+◌, ◌-◌, ◌*◌, ◌/◌, ◌%◌, ◌^◌, ◌≤◌, ◌<◌, ◌≡◌, ◌∙◌, sym, ap, arith, u64,
}
use native.Mathlib.Nat.{pow-suc, one-le-pow, mul-le-mul_right}
use sealloc.InternalAllocator.Under.{left_lem, right_lem}

-- The node `idx`, `d` levels below the root and `m` above the leaves, has a block of `cur` bytes that
-- starts at `ptr`.
pub record At (memory m d idx cur ptr : ℕ) : Type 0 where
  pub level : m + d ≡ 18
  pub lo : 2 ^ d ≤ idx
  pub hi : idx < 2 ^ suc d
  pub size : cur ≡ 32 * 2 ^ m
  pub place : ptr + 2 ^ 23 ≡ memory + 32 * (idx * 2 ^ m)
  pub room : memory + 2 ^ 23 < 2 ^ 64

pub pow-pos : (m : ℕ) → 1 ≤ 2 ^ m
pow-pos m = one-le-pow m 2 (omega arith)

pow-sum : (a b : ℕ) → 2 ^ (a + b) ≡ 2 ^ a * 2 ^ b
pow-sum zero b = let e : zero + b ≡ b = omega arith in rw e (omega arith)
pow-sum (suc a) b =
    let e : suc a + b ≡ suc (a + b) = omega arith in
    let ih = pow-sum a b in
    ap (λ (k : ℕ). 2 ^ k) e ∙ (grind (arith, pow-suc 2 (a + b), pow-suc 2 a, ih))

product : (m d : ℕ) → m + d ≡ 18 → 2 ^ d * 2 ^ m ≡ 2 ^ 18
product m d e = let s : d + m ≡ 18 = omega arith in sym (pow-sum d m) ∙ ap (λ (k : ℕ). 2 ^ k) s

span_lem :
    (idx p x : ℕ)
    → p * x ≡ 2 ^ 18
    → p ≤ idx
    → idx < p * 2
    → (2 ^ 18 ≤ idx * x) × (idx * x + x ≤ 2 ^ 19)
span_lem idx p x e lo hi =
    (grind arith, (let h : suc idx * x ≤ p * 2 * x = mul-le-mul_right x hi in grind arith))

index_bound : (idx x : ℕ) → 1 ≤ x → idx * x + x ≤ 2 ^ 19 → idx < 2 ^ 19
index_bound idx x p h = grind arith

module _ (memory m d idx cur ptr : ℕ) where
  -- The leaves under the node.
  pub At-span : At memory m d idx cur ptr → (2 ^ 18 ≤ idx * 2 ^ m) × (idx * 2 ^ m + 2 ^ m ≤ 2 ^ 19)
  At-span a =
      span_lem idx (2 ^ d) (2 ^ m) (product m d a.level) a.lo (omega (arith, a.hi, pow-suc 2 d))

  pub At-index : At memory m d idx cur ptr → idx < 2 ^ 19
  At-index a = index_bound idx (2 ^ m) (pow-pos m) (At-span a).1

module _ (memory m d idx cur ptr : ℕ) where
  pub At-left :
      At memory (suc m) d idx cur ptr
      → At memory m (suc d) (u64 (idx * 2)) (cur / 2) ptr
        × (u64 (idx * 2) * 2 ^ m ≡ idx * 2 ^ suc m)
  At-left a =
      let two = pow-suc 2 m in
      let left : idx * 2 * 2 ^ m ≡ idx * 2 ^ suc m =
        left_lem idx (2 ^ m) ∙ ap (λ (t : ℕ). idx * t) (sym two) in
      let lt = At-index memory (suc m) d idx cur ptr a in
      let i : u64 (idx * 2) ≡ idx * 2 = omega arith in
      rw i (
        record {
          level = omega (arith, a.level);
          lo = omega (arith, a.lo, pow-suc 2 d);
          hi = omega (arith, a.hi, pow-suc 2 (suc d));
          size = omega (arith, a.size);
          place = omega (arith, a.place);
          room = a.room;
        },
        left,
      )

  pub At-right :
      At memory (suc m) d idx cur ptr
      → At memory m (suc d) (u64 (idx * 2 + 1)) (cur / 2) (u64 (ptr + cur / 2))
        × (u64 (idx * 2 + 1) * 2 ^ m ≡ idx * 2 ^ suc m + 2 ^ m)
  At-right a =
      let two = pow-suc 2 m in
      let right : (idx * 2 + 1) * 2 ^ m ≡ idx * 2 ^ suc m + 2 ^ m =
        right_lem idx (2 ^ m) ∙ ap (λ (t : ℕ). idx * t + 2 ^ m) (sym two) in
      let lt = At-index memory (suc m) d idx cur ptr a in
      let s = At-span memory (suc m) d idx cur ptr a in
      let i : u64 (idx * 2 + 1) ≡ idx * 2 + 1 = omega arith in
      let c : u64 (ptr + cur / 2) ≡ ptr + cur / 2 = omega (arith, a.place, a.size, a.room, s.1) in
      rw (i, c)
        (
          record {
            level = omega (arith, a.level);
            lo = omega (arith, a.lo, pow-suc 2 d);
            hi = omega (arith, a.hi, pow-suc 2 (suc d));
            size = omega (arith, a.size);
            place = omega (arith, a.place, a.size);
            room = a.room;
          },
          right,
        )

  -- The parent of a left child, and of a right one, in terms of the leaves under them.
  pub At-up_left :
      idx % 2 ≡ 0
      → At memory m (suc d) idx cur ptr
      → At memory (suc m) d (idx / 2) (u64 (cur * 2)) ptr × (idx / 2 * 2 ^ suc m ≡ idx * 2 ^ m)
  At-up_left even a =
      let two = pow-suc 2 m in
      let half : idx / 2 * 2 ^ suc m ≡ idx * 2 ^ m =
        ap (λ (t : ℕ). idx / 2 * t) two
        ∙ sym (left_lem (idx / 2) (2 ^ m))
        ∙ ap (λ (t : ℕ). t * 2 ^ m) (omega arith) in
      let s = At-span memory m (suc d) idx cur ptr a in
      let c : u64 (cur * 2) ≡ cur * 2 = omega (arith, a.size, s.1) in
      (
        rw c (record {
          level = omega (arith, a.level);
          lo = omega (arith, a.lo, pow-suc 2 d);
          hi = omega (arith, a.hi, pow-suc 2 (suc d));
          size = omega (arith, a.size);
          place = omega (arith, a.place);
          room = a.room;
        }),
        half,
      )

  pub At-up_right :
      idx % 2 ≡ 1
      → At memory m (suc d) idx cur ptr
      → At memory (suc m) d (idx / 2) (u64 (cur * 2)) (u64 (ptr + (2 ^ 64 - cur)))
        × (idx / 2 * 2 ^ suc m + 2 ^ m ≡ idx * 2 ^ m)
  At-up_right odd a =
      let two = pow-suc 2 m in
      let half : idx / 2 * 2 ^ suc m + 2 ^ m ≡ idx * 2 ^ m =
        ap (λ (t : ℕ). idx / 2 * t + 2 ^ m) two
        ∙ sym (right_lem (idx / 2) (2 ^ m))
        ∙ ap (λ (t : ℕ). t * 2 ^ m) (omega arith) in
      let s = At-span memory m (suc d) idx cur ptr a in
      let c : u64 (cur * 2) ≡ cur * 2 = omega (arith, a.size, s.1) in
      let ps =
        span_lem (idx / 2) (2 ^ d) (2 ^ suc m) (product (suc m) d (omega (arith, a.level)))
          (omega (arith, a.lo, pow-suc 2 d))
          (omega (arith, a.hi, pow-suc 2 (suc d), pow-suc 2 d)) in
      (
        record {
          level = omega (arith, a.level);
          lo = omega (arith, a.lo, pow-suc 2 d);
          hi = omega (arith, a.hi, pow-suc 2 (suc d));
          size = omega (arith, a.size, c);
          place = omega (arith, a.place, a.size, a.room, s.1, ps.0, half);
          room = a.room;
        },
        half,
      )
