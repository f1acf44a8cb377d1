-- ===== src/Platform/Calls.antt =====
-- The functions of src/platform.c that make one attempt: platform_map, platform_guard, platform_unguard,
-- platform_get_program_break, platform_get_random and platform_strerror.
use Prim.Native.String.{String}
use sealloc.Base.{ℕ, ◌-◌, ◌^◌, u32, true, false, none, some, List, ◌∷◌}
use sealloc.Platform.{
  mapped, map_failed, value, failed, Call, mmap_hint_call, mprotect_call, Os, StatusCode,
  err_unknown, err_nomem, err_inval, ok, ceiling_hit, different_address, get_error_from_errno,
  status,
}

unfoldable pub platform_strerror : StatusCode → String
platform_strerror err_inval = "Invalid arguments passed to function"
platform_strerror err_nomem = "No available memory or mapping cap reached"
platform_strerror err_unknown = "Unknown error"
platform_strerror ok = "No error"
platform_strerror ceiling_hit = "Maximum address hit"
platform_strerror different_address =
    "kernel created mapping under different address than specified"

-- `*result` is written only on success: `result` is what it held.
unfoldable pub platform_map : Os → ℕ → ℕ → ℕ → List Call → StatusCode × ℕ × List Call
platform_map os hint len result calls =
    let map = os.mmap_hint calls hint len in
    let calls' = mmap_hint_call hint len map ∷ calls in
    elim map [
      | mapped a ↦ (ok, a, calls')
      | map_failed e ↦ (get_error_from_errno e, result, calls')
    ]

-- `*result` is written in any case, with `(void *)-1` on a failure.
unfoldable pub platform_get_program_break : Os → StatusCode × ℕ
platform_get_program_break os = elim os.sbrk [
  | value a ↦ (ok, a)
  | failed e ↦ (get_error_from_errno e, 2 ^ 64 - 1)
]

unfoldable pub platform_guard : Os → ℕ → ℕ → List Call → StatusCode × List Call
platform_guard os ptr len calls =
    let r = os.mprotect calls ptr len false in (status r, mprotect_call ptr len false r ∷ calls)

unfoldable pub platform_unguard : Os → ℕ → ℕ → List Call → StatusCode × List Call
platform_unguard os ptr len calls =
    let r = os.mprotect calls ptr len true in (status r, mprotect_call ptr len true r ∷ calls)

-- `buf` is what `*buf` held. What read gives is what `*buf`, of 32 bits, holds after it.
unfoldable pub platform_get_random : Os → ℕ → StatusCode × ℕ
platform_get_random os buf = elim os.open_random [
  | some e ↦ (get_error_from_errno e, buf)
  | none ↦ elim os.read_random [
    | failed e ↦ (get_error_from_errno e, buf)
    | value v ↦ (status os.close_random, u32 v)
  ]
]
