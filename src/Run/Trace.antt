-- ===== src/Run/Trace.antt =====
-- The life of a run: allocations and attempts to free, in any order.
use sealloc.Base.{ℕ, ◌-◌, ◌*◌, ◌/◌, ◌%◌, ◌<◌, ◌≡◌, refl, ◌≢◌, true, false, arith, ◌∙◌, ap, subst}
use sealloc.Base.{eq-cases, ◌⊎◌, inl, inr}
use sealloc.Bin.{Bin}
use sealloc.Run.{Run, state_free, state_alloc, state_alloc_free, run_allocate, run_deallocate}
use sealloc.Run.Invariant.{regions, slot, IsBin, IsRun, run_allocate_lem}
use sealloc.Run.Free.{InRun, address, run_deallocate_accepts, run_deallocate_refuses, quotient-lt}
use sealloc.ContainerLl.{Entry}
use native.Mathlib.Nat.{div-add-mod', mul-mod_left}

-- One call on the run. Any pointer into the run may be passed to `run_deallocate`.
pub data Step (bin : Bin) : Run → Run → Type 0 where
  allocates :
      {run run' : Run} → 0 < run.navail → run' ≡ (run_allocate run bin).0 → Step bin run run'
  frees :
      {run run' : Run} (ptr : ℕ)
      → InRun bin run ptr
      → run' ≡ (run_deallocate run bin ptr).0
      → Step bin run run'

pub data Reach (bin : Bin) (run : Run) : Run → Type 0 where
  here : Reach bin run run
  next : {r s : Run} → Reach bin run r → Step bin r s → Reach bin run s

-- What a region may become.
pub record Later (run run' : Run) : Type 0 where
  pub same_entry : run'.entry ≡ run.entry
  pub taken : (j : ℕ) → slot run j ≢ state_free → slot run' j ≢ state_free
  pub freed : (j : ℕ) → slot run j ≡ state_alloc_free → slot run' j ≡ state_alloc_free

-- Distinct regions have distinct addresses.
pub address-injective :
    (bin : Bin) (run : Run) (j k : ℕ)
    → 0 < bin.reg_size
    → address bin run j ≡ address bin run k
    → j ≡ k
address-injective bin run j k p e = cancel j k bin.reg_size p (omega arith)
  where
    cancel : (x y s : ℕ) → 0 < s → x * s ≡ y * s → x ≡ y
    cancel x y s h q = grind arith

-- A pointer into the run is the start of an allocated region, or it is not.
allocated-cases :
    (bin : Bin) (run : Run) (ptr : ℕ)
    → IsBin bin
    → InRun bin run ptr
    → ((j : ℕ) × (j < regions bin) × (ptr ≡ address bin run j) × (slot run j ≡ state_alloc))
      ⊎ ((j : ℕ) → j < regions bin → ptr ≡ address bin run j → slot run j ≢ state_alloc)
allocated-cases bin run ptr b i =
    let off = ptr - run.entry.key in
    let j = off / bin.reg_size in
    let split = div-add-mod' off bin.reg_size in
    elim (eq-cases (off % bin.reg_size) 0) [
      | inl z ↦ elim (eq-cases (slot run j) state_alloc) [
        | inl a ↦ inl (
          j,
          quotient-lt off (regions bin) bin.reg_size b.reg_size_pos (omega arith),
          omega arith,
          a,
        )
        | inr na ↦ inr (λ k h e.
            let same : k ≡ j = address-injective bin run k j b.reg_size_pos (omega arith) in
            rw same na)
      ]
      | inr nz ↦ inr (λ k h e. absurd (nz (inside k (omega arith))))
    ]
  where
    inside :
        (k : ℕ) → ptr - run.entry.key ≡ k * bin.reg_size → (ptr - run.entry.key) % bin.reg_size ≡ 0
    inside k e = ap (λ (t : ℕ). t % bin.reg_size) e ∙ mul-mod_left k bin.reg_size

Step-lem :
    {bin : Bin} {run run' : Run}
    → IsBin bin
    → IsRun bin run
    → Step bin run run'
    → IsRun bin run' × Later run run'
Step-lem {bin} {run} {run'} b v (allocates more e) =
    let (inv, n, entry, (j, lt, free, p, slots)) = run_allocate_lem bin run b v more in
    rw e (
      inv,
      record {
        same_entry = entry;
        taken = λ k h. rw slots (ground arith);
        freed = λ k h. rw slots (ground arith);
      },
    )
Step-lem {bin} {run} {run'} b v (frees ptr i e) = elim (allocated-cases bin run ptr b i) [
  | inl (j, lt, at, a) ↦
      let (done, inv, n, av, entry, slots, _, _) = run_deallocate_accepts bin run j b v lt a in
      rw (e, at)
        (
          inv,
          record {
            same_entry = entry;
            taken = λ k h. rw slots (ground arith);
            freed = λ k h. rw slots (ground arith);
          },
        )
  | inr none_there ↦
      rw (e, run_deallocate_refuses bin run ptr b i none_there)
        (v, record { same_entry = refl; taken = λ k h. h; freed = λ k h. h })
]

-- The invariant and the fate of the regions along any sequence of calls.
pub Reach-lem :
    {bin : Bin} {run run' : Run}
    → IsBin bin
    → IsRun bin run
    → Reach bin run run'
    → IsRun bin run' × Later run run'
Reach-lem b v here = (v, record { same_entry = refl; taken = λ k h. h; freed = λ k h. h })
Reach-lem b v (next r s) =
    let (u, l) = Reach-lem b v r in
    let (w, k) = Step-lem b u s in
    (
      w,
      record {
        same_entry = k.same_entry ∙ l.same_entry;
        taken = λ j h. k.taken j (l.taken j h);
        freed = λ j h. k.freed j (l.freed j h);
      },
    )

-- A region is handed out once: after an allocation and any sequence of further calls, whatever was
-- freed in between, the next allocation gives another pointer.
pub allocate_once :
    (bin : Bin) (run later : Run)
    → IsBin bin
    → IsRun bin run
    → 0 < run.navail
    → Reach bin (run_allocate run bin).0 later
    → 0 < later.navail
    → (run_allocate later bin).1 ≢ (run_allocate run bin).1
allocate_once bin run later b v more r more' e =
    let (inv, n, entry, (j, lt, free, p, slots)) = run_allocate_lem bin run b v more in
    let (inv', l) = Reach-lem b inv r in
    let (inv2, n2, entry2, (k, lt2, free2, p2, slots2)) = run_allocate_lem bin later b inv' more' in
    let same_key : later.entry.key ≡ run.entry.key =
      ap (λ (x : Entry). x.key) (l.same_entry ∙ entry) in
    let same : k ≡ j = address-injective bin run k j b.reg_size_pos (omega arith) in
    l.taken j (rw slots (ground arith)) (rw (← same) free2)

-- A pointer that was freed is refused for ever: after a free that succeeds and any sequence of further
-- calls, freeing the same pointer again fails and changes nothing.
pub double_free_refused :
    (bin : Bin) (run later : Run) (ptr : ℕ)
    → IsBin bin
    → IsRun bin run
    → InRun bin run ptr
    → (run_deallocate run bin ptr).1 ≡ true
    → Reach bin (run_deallocate run bin ptr).0 later
    → run_deallocate later bin ptr ≡ (later, false)
double_free_refused bin run later ptr b v i ok r = elim (allocated-cases bin run ptr b i) [
  | inl (j, lt, at, a) ↦
      let (done, inv, n, av, entry, slots, _, _) = run_deallocate_accepts bin run j b v lt a in
      let r' : Reach bin (run_deallocate run bin (address bin run j)).0 later =
        subst (λ x. Reach bin (run_deallocate run bin x).0 later) at r in
      let (inv', l) = Reach-lem b inv r' in
      let same_key : later.entry.key ≡ run.entry.key =
        ap (λ (x : Entry). x.key) (l.same_entry ∙ entry) in
      let gone : slot later j ≡ state_alloc_free = l.freed j (rw slots (ground arith)) in
      run_deallocate_refuses bin later ptr b (omega arith) (λ k h e.
        let same : k ≡ j = address-injective bin run k j b.reg_size_pos (omega arith) in
        rw (same, gone) (ground arith))
  | inr none_there ↦ absurd (cc (run_deallocate_refuses bin run ptr b i none_there))
]
