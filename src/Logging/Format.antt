-- ===== src/Logging/Format.antt =====
-- vfse_log in src/logging.c: the format strings of the log. A string is the list of its bytes before the NUL,
-- and the result is what is written, in order.
use sealloc.Base.{ℕ, zero, suc, Option, none, some, List, [], ◌∷◌, ◌++◌, Cells, ◌==◌, if◌then◌else◌}
use sealloc.Logging.{Text, zu2str, u2str, p2str}

-- An argument of the call: a number or an address, or a string.
pub data Arg : Type 0 where
  number : ℕ → Arg
  text : List ℕ → Arg

-- The bytes of a text.
unfoldable pub bytes : ℕ → ℕ → Cells ℕ → List ℕ
bytes begin zero buf = []
bytes begin (suc len) buf = buf begin ∷ bytes (suc begin) len buf

-- The rest of the loop, from a place of the format: it takes what stands between `begin` and `msg`, the
-- arguments that are left, and the buffer. `none` is undefined, for an argument that is missing or of
-- another type.
abbrev pub Rest : Type 0
Rest = List ℕ → List Arg → Cells ℕ → Option (List ℕ)

unfoldable pub write : List ℕ → Option (List ℕ) → Option (List ℕ)
write out none = none
write out (some rest) = some (out ++ rest)

-- `%u`, `%p` and `%zu`
unfoldable pub log_number : (ℕ → Cells ℕ → Text) → List Arg → Cells ℕ → Rest → Option (List ℕ)
log_number print (number n ∷ args) buf rest =
    let t = print n buf in write (bytes t.begin t.len t.buf) (rest [] args t.buf)
log_number print (text s ∷ args) buf rest = none
log_number print [] buf rest = none

-- `%s`
unfoldable pub log_string : List Arg → Cells ℕ → Rest → Option (List ℕ)
log_string (text s ∷ args) buf rest = write s (rest [] args buf)
log_string (number n ∷ args) buf rest = none
log_string [] buf rest = none

-- Any other conversion: an argument is dropped, and what stands before it is written again later.
unfoldable pub log_other : List ℕ → List Arg → Cells ℕ → Rest → Option (List ℕ)
log_other pending (a ∷ args) buf rest = rest (pending ++ (b'%' ∷ [])) args buf
log_other pending [] buf rest = none

-- A character of the format, with the next two, and the loop from one, two and three characters on.
unfoldable pub log_char :
    ℕ → ℕ → ℕ → Rest → Rest → Rest → List ℕ → List Arg → Cells ℕ → Option (List ℕ)
log_char c next third one two three pending args buf =
    if c == b'%'
    then write pending (
        if next == b'%'
        then write (b'%' ∷ []) (two [] args buf)
        else if next == b'u'
        then log_number u2str args buf two
        else if next == b'p'
        then log_number p2str args buf two
        else if next == b'z'
        then (if third == b'u' then log_number zu2str args buf three else two [] args buf)
        else if next == b's'
        then log_string args buf two
        else log_other pending args buf one)
    else one (pending ++ (c ∷ [])) args buf

-- The loop over the format, whose end is the NUL.
unfoldable pub log_loop : List ℕ → Rest
log_loop [] pending args buf = some pending
log_loop (c ∷ []) pending args buf =
    log_char c 0 0 (log_loop []) (log_loop []) (log_loop []) pending args buf
log_loop (c ∷ d ∷ []) pending args buf =
    log_char c d 0 (log_loop (d ∷ [])) (log_loop []) (log_loop []) pending args buf
log_loop (c ∷ d ∷ e ∷ msg) pending args buf =
    log_char c d e (log_loop (d ∷ e ∷ msg)) (log_loop (e ∷ msg)) (log_loop msg) pending args buf

unfoldable pub vfse_log : List ℕ → List Arg → Cells ℕ → Option (List ℕ)
vfse_log msg args buf = log_loop msg [] args buf
