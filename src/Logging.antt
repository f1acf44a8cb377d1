-- ===== src/Logging.antt =====
-- src/logging.c: how the log prints numbers. A text stands at the end of a buffer of characters, or, for the
-- null pointer, at its start.
pub mod Numbers
pub mod Seed
pub mod Format
use sealloc.Base.{
  ℕ, zero, suc, ◌+◌, ◌-◌, ◌*◌, ◌/◌, ◌%◌, Bool, true, false, ◌&&◌, Option, none, some, List, [], ◌∷◌,
  ◌++◌, Cells, store, get_or, ltb, u32, ◌==◌, if◌then◌else◌,
}

abbrev pub bufsize : ℕ
bufsize = 201

-- The digits of a number in base 16, as in the table `hex`.
unfoldable pub hex : ℕ → ℕ
hex d = if ltb d 10 then d + b'0' else d - 10 + b'a'

-- What the functions give: the buffer, where the text begins in it, and its length.
pub record Text : Type 0 where
  pub buf : Cells ℕ
  pub begin : ℕ
  pub len : ℕ

-- The loop of zu2str; `idx` falls with each round.
unfoldable pub zu2str_loop : ℕ → ℕ → Cells ℕ → ℕ × Cells ℕ
zu2str_loop zero n buf = (0, buf)
zu2str_loop (suc i) n buf =
    let rest = zu2str_loop i (n / 10) (store buf (suc i) (n % 10 + b'0')) in
    if ltb 0 n then rest else (suc i, buf)

unfoldable pub zu2str : ℕ → Cells ℕ → Text
zu2str n buf =
    let (idx, buf') = zu2str_loop (bufsize - 1) n buf in
    if n == 0
    then record {
      buf = store buf (bufsize - 1) b'0';
      begin = bufsize - 1;
      len = bufsize - (bufsize - 1);
    }
    else record { buf = buf'; begin = idx + 1; len = bufsize - (idx + 1) }

-- The number is an `unsigned`, of 32 bits.
abbrev pub u2str : ℕ → Cells ℕ → Text
u2str n = zu2str (u32 n)

-- The loop of p2str, which ends one cell earlier, for the `0x` before the digits.
unfoldable pub p2str_loop : ℕ → ℕ → Cells ℕ → ℕ × Cells ℕ
p2str_loop zero n buf = (1, buf)
p2str_loop (suc i) n buf =
    let rest = p2str_loop i (n / 16) (store buf (suc (suc i)) (hex (n % 16))) in
    if ltb 0 n then rest else (suc (suc i), buf)

-- The null pointer is `(nil)`; the test for 0 behind it is never met.
unfoldable pub p2str : ℕ → Cells ℕ → Text
p2str zero buf = record {
  buf = store (store (store (store (store buf 0 b'(') 1 b'n') 2 b'i') 3 b'l') 4 b')';
  begin = 0;
  len = 5;
}
p2str (suc n) buf =
    let (idx, buf') = p2str_loop (bufsize - 2) (suc n) buf in
    record {
      buf = store (store buf' (idx - 1) b'0') (idx - 1 + 1) b'x';
      begin = idx - 1;
      len = bufsize - (idx - 1);
    }
