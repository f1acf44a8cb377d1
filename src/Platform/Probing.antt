-- ===== src/Platform/Probing.antt =====
-- The loop of platform_map_probe in src/platform.c: which addresses it tries and where it stops.
use sealloc.Base.{
  ℕ, zero, suc, ◌+◌, ◌*◌, ◌^◌, ◌≤◌, ◌<◌, ◌≡◌, ◌≢◌, refl, ◌∙◌, ap, subst, ◌⊎◌, eq-cases, inl, inr,
  Bool, true, false, Bool-cases, Option, some, List, ◌∷◌, u64, leb, ◌==◌, if◌then◌else◌, arith,
}
use sealloc.Utils.{page_size}
use sealloc.Platform.{
  eexist, einval, enomem, other, Mapping, mapped, map_failed, Call, mmap_call, Os, StatusCode, ok,
  ceiling_hit, different_address, get_error_from_errno, on_answer, Probed, probe_loop, probe_fuel,
  platform_map_probe,
}

-- The calls after `i` pages in a row, from `probe` on, were found taken.
unfoldable pub tried : ℕ → ℕ → ℕ → List Call → List Call
tried probe len zero calls = calls
tried probe len (suc i) calls =
    mmap_call (probe + i * page_size) len (map_failed eexist) ∷ tried probe len i calls

-- The status for the last answer: a page that is taken was the last below the ceiling.
unfoldable pub status : ℕ → Mapping → StatusCode
status hint (mapped a) = if a == hint then ok else different_address
status hint (map_failed eexist) = ceiling_hit
status hint (map_failed e) = get_error_from_errno e

unfoldable pub address_of : ℕ → Mapping → ℕ
address_of probe (mapped a) = a
address_of probe (map_failed e) = probe

unfoldable pub is_taken : Mapping → Bool
is_taken (map_failed eexist) = true
is_taken _ = false

-- No mapping is at the null page.
unfoldable pub NoNull : Os → Type 0
NoNull os = (calls : List Call) (hint len : ℕ) → os.mmap calls hint len ≢ mapped 0

module _ (os : Os) (probe ceiling len : ℕ) (calls : List Call) where
  -- `m` is the answer for the page `i`, after those before it were taken; it is not taken, or it is the
  -- last below the ceiling.
  pub record Stop (i : ℕ) (m : Mapping) : Type 0 where
    pub taken :
        (k : ℕ)
        → k < i
        → os.mmap (tried probe len k calls) (probe + k * page_size) len ≡ map_failed eexist
    pub below : probe + i * page_size < ceiling
    pub answer : os.mmap (tried probe len i calls) (probe + i * page_size) len ≡ m
    pub last : is_taken m ≡ true → ceiling ≤ probe + suc i * page_size

  unfoldable pub stopped : ℕ → Mapping → Probed
  stopped i m = record {
    code = status (probe + i * page_size) m;
    probe = address_of probe m;
    calls = mmap_call (probe + i * page_size) len m ∷ tried probe len i calls;
  }

  -- The loop from the page `i` on ends, at a page where it may.
  Ends : ℕ → ℕ → Type 0
  Ends fuel i =
      (j : ℕ) × (m : Mapping) × Stop j m
      × (probe_loop fuel os probe (probe + i * page_size) ceiling len (tried probe len i calls)
          ≡ some (stopped j m))

  Taken : ℕ → Type 0
  Taken i =
      (k : ℕ)
      → k < i
      → os.mmap (tried probe len k calls) (probe + k * page_size) len ≡ map_failed eexist

  module _ (nn : NoNull os) (room : ceiling + page_size < 2 ^ 64) (fuel i : ℕ)
      (below : probe + i * page_size < ceiling) (taken : Taken i)
      (ih : probe + suc i * page_size < ceiling → Taken (suc i) → Ends fuel (suc i)) where
    also :
        os.mmap (tried probe len i calls) (probe + i * page_size) len ≡ map_failed eexist
        → Taken (suc i)
    unfolding Taken
    also q k lt = elim (eq-cases k i) [ inl e ↦ rw e q | inr ne ↦ taken k (omega arith) ]

    -- A round of the loop, by its answer.
    abbrev round : Mapping → Option Probed
    round m =
        let calls' = mmap_call (probe + i * page_size) len m ∷ tried probe len i calls in
        on_answer probe (probe + i * page_size) ceiling calls'
          (probe_loop fuel os probe (u64 (probe + i * page_size + page_size)) ceiling len calls')
          (probe_loop fuel os probe (probe + i * page_size) ceiling len calls') m

    answered :
        (m : Mapping)
        → os.mmap (tried probe len i calls) (probe + i * page_size) len ≡ m
        → probe_loop
            (suc fuel)
            os
            probe
            (probe + i * page_size)
            ceiling
            len
            (tried probe len i calls)
          ≡ round m
    unfolding probe_loop
    answered m q = ap round q

    on_answer-Stop :
        (m : Mapping)
        → os.mmap (tried probe len i calls) (probe + i * page_size) len ≡ m
        → Ends (suc fuel) i
    unfolding on_answer is_taken stopped status address_of tried NoNull Ends Taken
    on_answer-Stop (mapped a) q = elim (eq-cases a 0) [
      | inl z ↦ absurd (nn (tried probe len i calls) (probe + i * page_size) len (q ∙ ap mapped z))
      | inr ne ↦ (
        i,
        mapped a,
        record { taken = taken; below = below; answer = q; last = λ e. absurd (ground arith) },
        (let f : (a == 0) ≡ false = ground arith in answered _ q ∙ (rw f refl)),
      )
    ]
    on_answer-Stop (map_failed eexist) q =
        let wrap : u64 (probe + i * page_size + page_size) ≡ probe + suc i * page_size =
          omega arith in
        elim (Bool-cases (leb ceiling (probe + suc i * page_size))) [
          | inl h ↦ (
            i,
            map_failed eexist,
            record { taken = taken; below = below; answer = q; last = λ e. ground arith },
            answered _ q ∙ (rw (wrap, h) refl),
          )
          | inr h ↦
              let (j, m, st, e) = ih (ground arith) (also q) in
              (j, m, st, answered _ q ∙ (rw (wrap, h) e))
        ]
    on_answer-Stop (map_failed einval) q = (
      i,
      map_failed einval,
      record { taken = taken; below = below; answer = q; last = λ e. absurd (ground arith) },
      answered _ q,
    )
    on_answer-Stop (map_failed enomem) q = (
      i,
      map_failed enomem,
      record { taken = taken; below = below; answer = q; last = λ e. absurd (ground arith) },
      answered _ q,
    )
    on_answer-Stop (map_failed other) q = (
      i,
      map_failed other,
      record { taken = taken; below = below; answer = q; last = λ e. absurd (ground arith) },
      answered _ q,
    )

  probe_loop-Stop :
      (fuel i : ℕ)
      → NoNull os
      → ceiling + page_size < 2 ^ 64
      → probe + i * page_size < ceiling
      → ceiling ≤ probe + i * page_size + fuel * page_size
      → Taken i
      → Ends fuel i
  probe_loop-Stop zero i nn room below enough taken = absurd (omega arith)
  probe_loop-Stop (suc fuel) i nn room below enough taken =
      on_answer-Stop nn room fuel i below taken
        (λ b t. probe_loop-Stop fuel (suc i) nn room b (omega arith) t)
        (os.mmap (tried probe len i calls) (probe + i * page_size) len) refl

  from_start :
      (fuel : ℕ)
      → NoNull os
      → ceiling + page_size < 2 ^ 64
      → probe < ceiling
      → ceiling ≤ probe + fuel * page_size
      → (j : ℕ) × (m : Mapping) × Stop j m
        × (probe_loop fuel os probe probe ceiling len calls ≡ some (stopped j m))
  unfolding Ends Taken tried
  from_start fuel nn room below enough =
      let z : probe + 0 * page_size ≡ probe = omega arith in
      subst
        (λ (n : ℕ).
          (j : ℕ) × (m : Mapping) × Stop j m
          × (probe_loop fuel os probe n ceiling len calls ≡ some (stopped j m)))
        z
        (probe_loop-Stop fuel 0 nn room (omega arith) (omega arith) (λ k lt. absurd (omega arith)))

-- Under a kernel that maps nothing at null, and with a ceiling more than a page below 2^64,
-- platform_map_probe returns. From a probe below the ceiling it tries one page after the other, each
-- with one mmap, until one is not taken or the next would reach the ceiling; the last answer decides
-- the status, and where memory was mapped the probe is its address. From any other probe it returns at
-- once that the ceiling is hit.
pub platform_map_probe_lem :
    (os : Os) (probe ceiling len : ℕ) (calls : List Call)
    → NoNull os
    → ceiling + page_size < 2 ^ 64
    → ((probe < ceiling)
        × ((i : ℕ) × (m : Mapping) × Stop os probe ceiling len calls i m
            × (platform_map_probe os probe ceiling len calls
                ≡ some (stopped os probe ceiling len calls i m))))
      ⊎ ((ceiling ≤ probe)
          × (platform_map_probe os probe ceiling len calls
              ≡ some (record { code = ceiling_hit; probe = probe; calls = calls })))
unfolding platform_map_probe Ends
platform_map_probe_lem os probe ceiling len calls nn room = elim (Bool-cases (leb ceiling probe)) [
  | inl h ↦ inr (ground arith, rw h refl)
  | inr h ↦
      let (i, m, st, e) =
        from_start os probe ceiling len calls probe_fuel nn room (ground arith) (omega arith) in
      inl (ground arith, (i, m, st, rw h e))
]
