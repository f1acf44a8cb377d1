-- ===== src/Logging/Seed.antt =====
-- str2u32 in src/utils.c: the number that a text of digits stands for, and zu2str in src/logging.c undone.
use sealloc.Base.{
  ℕ, zero, suc, ◌+◌, ◌-◌, ◌*◌, ◌/◌, ◌%◌, ◌^◌, ◌≤◌, ◌<◌, ◌≡◌, refl, ◌∙◌, ap, List, [], ◌∷◌, length,
  get_or, Cells, u32, arith,
}
use native.Mathlib.Nat.{div-add-mod}
use sealloc.Utils.{msg_len, char_value, str2u32_loop, str2u32}
use sealloc.Logging.{u2str}
use sealloc.Logging.Numbers.{value, zu2str-value}

-- The number that the first `n` digits of a text stand for.
unfoldable pub decimal : List ℕ → ℕ → ℕ
decimal str zero = 0
decimal str (suc n) = decimal str n * 10 + (get_or str n 0 - b'0')

-- The characters below a position are digits.
abbrev pub Digits : List ℕ → ℕ → Type 0
Digits str n = (i : ℕ) → i < n → (b'0' ≤ get_or str i 0) × (get_or str i 0 ≤ b'9')

distribute : (m q r b : ℕ) → (m * q + r) * b ≡ m * (q * b) + r * b
distribute m q r b = grind arith

mod_mul : (a b : ℕ) → a % 2 ^ 32 * b % 2 ^ 32 ≡ a * b % 2 ^ 32
mod_mul a b =
    let whole = ap (λ (t : ℕ). t * b) (div-add-mod a (2 ^ 32)) in
    let d = distribute (2 ^ 32) (a / 2 ^ 32) (a % 2 ^ 32) b in omega arith

digit : (c : ℕ) → b'0' ≤ c → c ≤ b'9' → u32 (char_value c + (2 ^ 32 - b'0')) ≡ c - b'0'
unfolding char_value
digit c lo hi = ground arith

-- One round of the loop, on numbers: `d` is the digit and `v` the number before it.
round_lem :
    (res base d v : ℕ)
    → (u32 (res + u32 (d * base)) + u32 (base * 10) * v) % 2 ^ 32
      ≡ (res + base * (v * 10 + d)) % 2 ^ 32
round_lem res base d v =
    let m = mod_mul (base * 10) v in
    let e : base * (v * 10 + d) ≡ base * 10 * v + d * base = grind arith in omega arith

str2u32_loop-decimal :
    (n : ℕ) (str : List ℕ) (res base : ℕ)
    → res < 2 ^ 32
    → Digits str n
    → str2u32_loop n str res base ≡ (res + base * decimal str n) % 2 ^ 32
unfolding str2u32_loop decimal
str2u32_loop-decimal zero str res base h ds = omega arith
str2u32_loop-decimal (suc n) str res base h ds =
    let (lo, hi) = ds n (omega arith) in
    let c = get_or str n 0 in
    rw (digit c lo hi) (
      str2u32_loop-decimal n str (u32 (res + u32 ((c - b'0') * base))) (u32 (base * 10))
        (omega arith) (λ i lt. ds i (omega arith))
      ∙ round_lem res base (c - b'0') (decimal str n))

msg_len-length : (str : List ℕ) → length str < 2 ^ 32 → msg_len str ≡ length str
unfolding msg_len
msg_len-length [] h = refl
msg_len-length (c ∷ str) h = rw (msg_len-length str (omega arith)) (omega arith)

-- On a text of decimal digits with fewer than 2 ^ 32 characters, str2u32 gives the number that they stand
-- for, modulo 2 ^ 32.
pub str2u32-decimal :
    (str : List ℕ)
    → length str < 2 ^ 32
    → Digits str (length str)
    → str2u32 str ≡ decimal str (length str) % 2 ^ 32
unfolding str2u32
str2u32-decimal str h ds =
    rw (msg_len-length str h)
      (str2u32_loop-decimal (length str) str 0 1 (omega arith) ds ∙ omega arith)

-- The text in a buffer.
unfoldable pub read : Cells ℕ → ℕ → ℕ → List ℕ
read buf begin zero = []
read buf begin (suc n) = buf begin ∷ read buf (begin + 1) n

length-read : (buf : Cells ℕ) (begin n : ℕ) → length (read buf begin n) ≡ n
unfolding read
length-read buf begin zero = refl
length-read buf begin (suc n) = ap suc (length-read buf (begin + 1) n)

get_or-read :
    (buf : Cells ℕ) (begin n i : ℕ) → i < n → get_or (read buf begin n) i 0 ≡ buf (begin + i)
unfolding read
get_or-read buf begin zero i h = absurd (omega arith)
get_or-read buf begin (suc n) zero h = ap buf (omega arith)
get_or-read buf begin (suc n) (suc i) h =
    get_or-read buf (begin + 1) n i (omega arith) ∙ ap buf (omega arith)

decimal-read :
    (buf : Cells ℕ) (begin n k : ℕ) → k ≤ n → decimal (read buf begin n) k ≡ value buf begin k
unfolding decimal value
decimal-read buf begin n zero h = refl
decimal-read buf begin n (suc k) h =
    rw (decimal-read buf begin n k (omega arith), get_or-read buf begin n k (omega arith)) refl

-- A 32-bit number that u2str prints is read back by str2u32.
pub str2u32-u2str :
    (n : ℕ) (buf : Cells ℕ)
    → n < 2 ^ 32
    → let t = u2str n buf in str2u32 (read t.buf t.begin t.len) ≡ n
str2u32-u2str n buf h =
    let same : u32 n ≡ n = omega arith in
    let t = u2str n buf in
    let (_, end, number, digits) = zu2str-value (u32 n) buf (omega arith) in
    let len = length-read t.buf t.begin t.len in
    str2u32-decimal (read t.buf t.begin t.len) (omega arith) (λ i lt.
      rw (get_or-read t.buf t.begin t.len i (omega arith))
        (digits (t.begin + i) (omega arith) (omega arith)))
    ∙ ap (λ (x : ℕ). x % 2 ^ 32)
        (ap (decimal (read t.buf t.begin t.len)) len
          ∙ decimal-read t.buf t.begin t.len t.len (omega arith)
          ∙ number)
    ∙ omega arith
