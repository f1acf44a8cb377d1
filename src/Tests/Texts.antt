-- ===== src/Tests/Texts.antt =====
-- Numbers as texts.
use sealloc.Base.{ℕ, ◌+◌, ◌≤◌, ◌<◌, ◌≡◌, refl, [], ◌∷◌, Cells, store, some, arith}
use sealloc.Utils.{str2u32, str2u32_loop, msg_len, char_value}
use sealloc.Logging.{bufsize, u2str, zu2str, zu2str_loop, p2str, p2str_loop, hex}
use sealloc.Logging.Format.{
  vfse_log, log_loop, log_char, log_number, log_other, write, bytes, number,
}
use sealloc.Logging.Seed.{read, str2u32-u2str}
use sealloc.Logging.Numbers.{value, zu2str-value}

abbrev blank : Cells ℕ
blank = λ _. 0

zu2str-value_example :
    let t = zu2str 18_446_744_073_709_551_615 blank in
    (0 < t.len)
    × (t.begin + t.len ≡ bufsize)
    × (value t.buf t.begin t.len ≡ 18_446_744_073_709_551_615)
    × ((i : ℕ) → t.begin ≤ i → i < bufsize → (b'0' ≤ t.buf i) × (t.buf i ≤ b'9'))
zu2str-value_example = zu2str-value 18_446_744_073_709_551_615 blank (omega arith)

str2u32-u2str_example :
    let t = u2str 4_294_967_295 blank in str2u32 (read t.buf t.begin t.len) ≡ 4_294_967_295
str2u32-u2str_example = str2u32-u2str 4_294_967_295 blank (omega arith)

-- 0x1f has four characters, of which the last is an f.
pointer_len : (p2str 31 blank).len ≡ 4
unfolding p2str p2str_loop
pointer_len = refl

pointer_end : (p2str 31 blank).buf 200 ≡ b'f'
unfolding p2str p2str_loop hex store
pointer_end = refl

-- The seed 4294967297 is taken modulo 2^32.
seed_wraps : str2u32 (b'4' ∷ b'2' ∷ b'9' ∷ b'4' ∷ b'9' ∷ b'6' ∷ b'7' ∷ b'2' ∷ b'9' ∷ b'7' ∷ []) ≡ 1
unfolding str2u32 str2u32_loop msg_len char_value
seed_wraps = refl

-- The format "a%u%%" with 70.
format_u :
    vfse_log (b'a' ∷ b'%' ∷ b'u' ∷ b'%' ∷ b'%' ∷ []) (number 70 ∷ []) blank
    ≡ some (b'a' ∷ b'7' ∷ b'0' ∷ b'%' ∷ [])
unfolding vfse_log log_loop log_char log_number write bytes zu2str zu2str_loop store
format_u = refl

-- "%u" prints the lower 32 bits of 4294967303.
format_u_wraps : vfse_log (b'%' ∷ b'u' ∷ []) (number 4_294_967_303 ∷ []) blank ≡ some (b'7' ∷ [])
unfolding vfse_log log_loop log_char log_number write bytes zu2str zu2str_loop store
format_u_wraps = refl

-- The format "a%d" with 70 writes "aa%d".
format_d :
    vfse_log (b'a' ∷ b'%' ∷ b'd' ∷ []) (number 70 ∷ []) blank
    ≡ some (b'a' ∷ b'a' ∷ b'%' ∷ b'd' ∷ [])
unfolding vfse_log log_loop log_char log_other write
format_d = refl
