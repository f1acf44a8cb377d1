-- ===== src/Platform.antt =====
-- src/sealloc/platform_api.h and src/platform.c for Linux without memory tagging. The system calls are
-- parameters: a kernel is any function from the calls made so far, newest first, to the next answer.
pub mod Probing
pub mod Calls
use sealloc.Base.{
  ℕ, zero, suc, ◌+◌, ◌^◌, Bool, Option, none, some, List, [], ◌∷◌, u64, leb, ◌==◌, if◌then◌else◌,
}
use sealloc.Utils.{page_size}

-- The values of errno that the code tells apart.
pub data Errno : Type 0 where
  eexist einval enomem other : Errno

-- What mmap returns.
pub data Mapping : Type 0 where
  mapped : ℕ → Mapping
  map_failed : Errno → Mapping

-- What sbrk and read give.
pub data Answer : Type 0 where
  value : ℕ → Answer
  failed : Errno → Answer

-- A call with its arguments and its answer; `none` is success. `mmap_call` has MAP_FIXED_NOREPLACE, and the
-- flag of `mprotect_call` is whether the memory may be read and written, or not touched at all.
pub data Call : Type 0 where
  mmap_call : ℕ → ℕ → Mapping → Call
  mmap_hint_call : ℕ → ℕ → Mapping → Call
  munmap_call : ℕ → ℕ → Option Errno → Call
  mprotect_call : ℕ → ℕ → Bool → Option Errno → Call

-- `mmap` is called with MAP_FIXED_NOREPLACE and `mmap_hint` without. `user_seed` is the text of
-- SEALLOC_SEED, if it is set. The last three are the calls on /dev/urandom.
pub record Os : Type 0 where
  pub mmap : List Call → ℕ → ℕ → Mapping
  pub mmap_hint : List Call → ℕ → ℕ → Mapping
  pub munmap : List Call → ℕ → ℕ → Option Errno
  pub mprotect : List Call → ℕ → ℕ → Bool → Option Errno
  pub sbrk : Answer
  pub user_seed : Option (List ℕ)
  pub open_random : Option Errno
  pub read_random : Answer
  pub close_random : Option Errno

-- platform_status_code_t
pub data StatusCode : Type 0 where
  err_unknown err_nomem err_inval ok ceiling_hit different_address : StatusCode

unfoldable pub get_error_from_errno : Errno → StatusCode
get_error_from_errno einval = err_inval
get_error_from_errno enomem = err_nomem
get_error_from_errno eexist = err_unknown
get_error_from_errno other = err_unknown

-- What platform_map_probe returns, with the value that it leaves in `*probe`, and the calls after it.
pub record Probed : Type 0 where
  pub code : StatusCode
  pub probe : ℕ
  pub calls : List Call

-- What the loop does with an answer for the address `hint`: stop, go on with the next page, or, on a
-- NULL, try again.
unfoldable pub on_answer :
    ℕ → ℕ → ℕ → List Call → Option Probed → Option Probed → Mapping → Option Probed
on_answer probe hint ceiling calls more again (map_failed eexist) =
    if leb ceiling (u64 (hint + page_size))
    then some (record { code = ceiling_hit; probe = probe; calls = calls })
    else more
on_answer probe hint ceiling calls more again (map_failed e) =
    some (record { code = get_error_from_errno e; probe = probe; calls = calls })
on_answer probe hint ceiling calls more again (mapped a) =
    if a == 0
    then again
    else some
        (record { code = if a == hint then ok else different_address; probe = a; calls = calls })

-- `probe` is the value on entry, `new_probe` the address that is tried. `none` is out of fuel.
unfoldable pub probe_loop : ℕ → Os → ℕ → ℕ → ℕ → ℕ → List Call → Option Probed
probe_loop zero os probe new_probe ceiling len calls = none
probe_loop (suc fuel) os probe new_probe ceiling len calls =
    let map = os.mmap calls new_probe len in
    let calls' = mmap_call new_probe len map ∷ calls in
    let more = probe_loop fuel os probe (u64 (new_probe + page_size)) ceiling len calls' in
    let again = probe_loop fuel os probe new_probe ceiling len calls' in
    on_answer probe new_probe ceiling calls' more again map

-- More rounds than a 64-bit address space has pages.
abbrev pub probe_fuel : ℕ
probe_fuel = 2 ^ 53

unfoldable pub platform_map_probe : Os → ℕ → ℕ → ℕ → List Call → Option Probed
platform_map_probe os probe ceiling len calls =
    if leb ceiling probe
    then some (record { code = ceiling_hit; probe = probe; calls = calls })
    else probe_loop probe_fuel os probe probe ceiling len calls

-- What a call that gives no value comes to.
unfoldable pub status : Option Errno → StatusCode
status none = ok
status (some e) = get_error_from_errno e

unfoldable pub platform_unmap : Os → ℕ → ℕ → List Call → StatusCode × List Call
platform_unmap os ptr len calls =
    let r = os.munmap calls ptr len in (status r, munmap_call ptr len r ∷ calls)
