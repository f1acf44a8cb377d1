-- ===== src/Arena/Stuck.antt =====
-- arena_morecore in src/arena.c under a kernel that has no more memory to give.
use sealloc.Base.{
  ℕ, zero, suc, ◌≡◌, refl, ◌∙◌, List, ◌∷◌, some, Bool-cases, inl, inr, ◌⊎◌, true, false, leb,
  bit_and, ◌-◌, ◌^◌, Bool,
}
use sealloc.Platform.{
  get_error_from_errno, Os, Call, map_failed, mmap_call, enomem, ceiling_hit, err_nomem, Probed,
  on_answer, probe_loop, platform_map_probe,
}
use sealloc.Utils.{alignup_page}
use sealloc.World.{when, bind-done, modify_arena, World, done, out_of_fuel, ◌>>=◌}
use sealloc.Arena.{
  Probe, chunk_probe, huge_probe, internal_probe, get_probe, set_probe, after_probe, ceiling, reset,
  reset_chunk_ptr_start, reset_huge_alloc_ptr_start, reset_ia_ptr_start, map_probe, morecore_loop,
  arena_morecore, mask_44_bits, mask_45_bits, next64,
}

-- Every mmap is answered by ENOMEM.
unfoldable pub Exhausted : Os → Type 0
Exhausted os = (calls : List Call) (hint len : ℕ) → os.mmap calls hint len ≡ map_failed enomem

probe_loop-Exhausted :
    (fuel : ℕ) (os : Os) (probe new_probe ceil len : ℕ) (calls : List Call)
    → Exhausted os
    → probe_loop (suc fuel) os probe new_probe ceil len calls
      ≡ some (record {
        code = err_nomem;
        probe = probe;
        calls = mmap_call new_probe len (map_failed enomem) ∷ calls;
      })
unfolding probe_loop on_answer Exhausted get_error_from_errno
probe_loop-Exhausted fuel os probe new_probe ceil len calls e =
    rw (e calls new_probe len, probe_loop) refl

probe-Exhausted :
    (os : Os) (probe ceil len : ℕ) (calls : List Call)
    → Exhausted os
    → (r : Probed) × (platform_map_probe os probe ceil len calls ≡ some r)
      × ((r.code ≡ ceiling_hit) ⊎ (r.code ≡ err_nomem))
unfolding platform_map_probe
probe-Exhausted os probe ceil len calls e = elim (Bool-cases (leb ceil probe)) [
  | inl h ↦ (record { code = ceiling_hit; probe = probe; calls = calls }, rw h refl, inl refl)
  | inr h ↦ (
    record {
      code = err_nomem;
      probe = probe;
      calls = mmap_call probe len (map_failed enomem) ∷ calls;
    },
    rw h (probe_loop-Exhausted (2 ^ 53 - 1) os probe probe ceil len calls e),
    inr refl,
  )
]

-- A probe goes on in a state with the same kernel.
map_probe-done :
    (p : Probe) (size : ℕ) (w : World) (r : Probed)
    → platform_map_probe w.os (get_probe p w.arena) (ceiling p w.arena) size w.calls ≡ some r
    → (w' : World) × (map_probe p size w ≡ done r.code w') × (w'.os ≡ w.os)
unfolding map_probe
map_probe-done p size w r q = (
  record w {
    arena = set_probe p r.probe w.arena;
    calls = r.calls;
    memory = after_probe size r.code r.probe w.memory;
  },
  rw (q, map_probe) refl,
  refl,
)

-- The two ends of reset_chunk_ptr_start.
reset_brk-os :
    (b : Bool) (w : World)
    → (w' : World) × (when b
          (next64 >>= λ y.
            modify_arena λ a. record a { brk = alignup_page (bit_and y mask_45_bits) })
          w
        ≡ done tt w')
      × (w'.os ≡ w.os)
reset_brk-os true w = (_, refl, refl)
reset_brk-os false w = (w, refl, refl)

reset-os : (p : Probe) (w : World) → (w' : World) × (reset p w ≡ done tt w') × (w'.os ≡ w.os)
unfolding reset reset_chunk_ptr_start reset_huge_alloc_ptr_start reset_ia_ptr_start
reset-os chunk_probe w = reset_brk-os (leb w.arena.brk mask_44_bits) _
reset-os huge_probe w = (_, refl, refl)
reset-os internal_probe w = (_, refl, refl)

-- A round changes nothing that would let the next one succeed.
morecore_round-Exhausted :
    (fuel : ℕ) (p : Probe) (size : ℕ) (w : World)
    → Exhausted w.os
    → (w' : World) × (w'.os ≡ w.os)
      × (morecore_loop (suc fuel) p size w ≡ morecore_loop fuel p size w')
unfolding morecore_loop
morecore_round-Exhausted fuel p size w e =
    let (r, q, c) = probe-Exhausted w.os (get_probe p w.arena) (ceiling p w.arena) size w.calls e in
    let (w1, q1, o1) = map_probe-done p size w r q in
    let (w2, q2, o2) = reset-os p w1 in
    elim c [
      | inl h ↦ (w2, o2 ∙ o1, bind-done (map_probe p size) _ q1 ∙ (rw h (bind-done (reset p) _ q2)))
      | inr h ↦ (w1, o1, bind-done (map_probe p size) _ q1 ∙ (rw h refl))
    ]

morecore_loop-Exhausted :
    (fuel : ℕ) (p : Probe) (size : ℕ) (w : World)
    → Exhausted w.os
    → morecore_loop fuel p size w ≡ out_of_fuel
unfolding morecore_loop
morecore_loop-Exhausted zero p size w e = refl
morecore_loop-Exhausted (suc fuel) p size w e =
    let (w', o, q) = morecore_round-Exhausted fuel p size w e in
    q ∙ morecore_loop-Exhausted fuel p size w' (rw o e)

-- When the kernel answers every mmap with ENOMEM, arena_morecore never returns.
pub arena_morecore-Exhausted :
    (p : Probe) (size : ℕ) (w : World) → Exhausted w.os → arena_morecore p size w ≡ out_of_fuel
unfolding arena_morecore
arena_morecore-Exhausted p size w e = morecore_loop-Exhausted w.patience p size w e
