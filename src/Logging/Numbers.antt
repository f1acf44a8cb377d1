-- ===== src/Logging/Numbers.antt =====
-- zu2str in src/logging.c: the digits of the text are those of the number.
use sealloc.Base.{
  ℕ, zero, suc, ◌+◌, ◌-◌, ◌*◌, ◌/◌, ◌%◌, ◌^◌, ◌≤◌, ◌<◌, ◌≡◌, ◌≢◌, refl, ◌∙◌, sym, ap, Bool-cases,
  eq-cases, inl, inr, true, false, Cells, store, ltb, ◌==◌, arith,
}
use native.Mathlib.Nat.{pow-suc}
use sealloc.Logging.{bufsize, zu2str_loop, zu2str}

-- The number that `k` decimal digits from a cell on stand for.
unfoldable pub value : Cells ℕ → ℕ → ℕ → ℕ
value buf begin zero = 0
value buf begin (suc k) = value buf begin k * 10 + (buf (begin + k) - b'0')

-- What the loop leaves: the digits of the number up to where it started, and the cells behind untouched.
record Printed (p n : ℕ) (buf : Cells ℕ) (r : ℕ × Cells ℕ) : Type 0 where
  below : r.0 ≤ p
  digits : value r.1 (r.0 + 1) (p - r.0) ≡ n
  decimal : (i : ℕ) → r.0 < i → i ≤ p → (b'0' ≤ r.1 i) × (r.1 i ≤ b'9')
  behind : (i : ℕ) → p < i → r.1 i ≡ buf i

next_digit :
    (p n : ℕ) (buf : Cells ℕ) (r : ℕ × Cells ℕ)
    → Printed p (n / 10) (store buf (suc p) (n % 10 + b'0')) r
    → Printed (suc p) n buf r
unfolding value store
next_digit p n buf r ih =
    let here : r.1 (suc p) ≡ n % 10 + b'0' =
      ih.behind (suc p) (omega arith)
      ∙ (let e : (suc p == suc p) ≡ true = ground arith in rw e refl) in
    record {
      below = omega (arith, ih.below);
      digits =
          let k : suc p - r.0 ≡ suc (p - r.0) = omega (arith, ih.below) in
          let at : r.0 + 1 + (p - r.0) ≡ suc p = omega (arith, ih.below) in
          rw (k, at, ih.digits, here) (omega arith);
      decimal = λ i lo hi. elim (eq-cases i (suc p)) [
        | inl e ↦ rw (e, here) (omega arith, omega arith)
        | inr ne ↦ ih.decimal i lo (omega arith)
      ];
      behind = λ i lt.
          ih.behind i (omega arith) ∙ (let e : (i == suc p) ≡ false = ground arith in rw e refl);
    }

loop-Printed : (p n : ℕ) (buf : Cells ℕ) → n < 10 ^ p → Printed p n buf (zu2str_loop p n buf)
unfolding zu2str_loop value
loop-Printed zero n buf h = record {
  below = omega arith;
  digits = omega arith;
  decimal = λ i lo hi. absurd (omega arith);
  behind = λ i lt. refl;
}
loop-Printed (suc p) n buf h =
    let b' = store buf (suc p) (n % 10 + b'0') in
    let ih = loop-Printed p (n / 10) b' (omega (arith, pow-suc 10 p)) in
    elim (Bool-cases (ltb 0 n)) [
      | inl pos ↦ rw pos (next_digit p n buf _ ih)
      | inr z ↦ rw z (record {
        below = omega arith;
        digits = let k : suc p - suc p ≡ 0 = omega arith in rw k (ground arith);
        decimal = λ i lo hi. absurd (omega arith);
        behind = λ i lt. refl;
      })
    ]

some_digit : (n : ℕ) (buf : Cells ℕ) (r : ℕ × Cells ℕ) → Printed 200 n buf r → n ≢ 0 → r.0 < 200
unfolding value
some_digit n buf r ih ne = elim (eq-cases r.0 200) [
  | inl e ↦
      let k : 200 - r.0 ≡ 0 = omega arith in
      absurd (ne (sym ih.digits ∙ ap (λ (k : ℕ). value r.1 (r.0 + 1) k) k))
  | inr d ↦ omega (arith, ih.below)
]

small_enough : (n : ℕ) → n < 2 ^ 64 → n < 10 ^ 200
small_enough n h = omega arith

-- The text that zu2str makes of a 64-bit number lies in the buffer, from `begin` to its end, and consists of
-- decimal digits whose value is the number.
pub zu2str-value :
    (n : ℕ) (buf : Cells ℕ)
    → n < 2 ^ 64
    → let t = zu2str n buf in
      (0 < t.len)
      × (t.begin + t.len ≡ bufsize)
      × (value t.buf t.begin t.len ≡ n)
      × ((i : ℕ) → t.begin ≤ i → i < bufsize → (b'0' ≤ t.buf i) × (t.buf i ≤ b'9'))
unfolding zu2str value store
zu2str-value n buf h = elim (Bool-cases (n == 0)) [
  | inl z ↦ rw z (
    omega arith,
    omega arith,
    ground arith,
    λ i lo hi. (let e : i ≡ 200 = omega arith in rw e (omega arith, omega arith)),
  )
  | inr nz ↦
      let r = zu2str_loop 200 n buf in
      let ih : Printed 200 n buf r = loop-Printed 200 n buf (small_enough n h) in
      let q = some_digit n buf r ih (ground arith) in
      let k : bufsize - (r.0 + 1) ≡ 200 - r.0 = omega arith in
      rw nz (
        omega arith,
        omega arith,
        ap (λ (k : ℕ). value r.1 (r.0 + 1) k) k ∙ ih.digits,
        λ i lo hi. ih.decimal i (omega arith) (omega arith),
      )
]
