-- ===== src/Bin/Runs/Choose.antt =====
-- Choosing a run and allocating from it.
use sealloc.Base.{
  ℕ, zero, suc, ◌+◌, ◌-◌, ◌*◌, ◌%◌, ◌^◌, ◌<◌, ◌≡◌, refl, List, [], ◌∷◌, true, false, arith,
}
use sealloc.Base.{
  Cells, store, store_lem, has, length, get_or, ◌==◌, if◌then◌else◌, eq-cases, inl, inr, sym, ap,
}
use sealloc.Random.{Rng, splitmix32}
use sealloc.ContainerLl.{Entry, null, ll_add, ll_del, list_fuel}
use sealloc.ContainerLl.Seg.{
  Seg, IsList, erase, frame, not-has-erase_self, has-erase, length-erase, ne_null_of_has,
}
use sealloc.ContainerLl.Ops.{ll_add-cons, ll_del-erase}
use sealloc.Bin.{Bin}
use sealloc.Run.{Run, run_allocate, state_free}
use sealloc.Run.Invariant.{IsBin, IsRun, regions, slot, run_allocate_lem}
use sealloc.Bin.Runs.{
  Store, entries, picked, pick_loop, bin_get_run_for_allocation, bin_retire_run, allocate_from_run,
}
use sealloc.Bin.Runs.Holds.{Holds, total, total-same, total-erase, untouched}

-- The walk finds the run at its index.
pick_loop-get :
    (fuel prev p i : ℕ) (s : Store) (xs : List ℕ)
    → Seg (entries s) prev p xs
    → length xs < fuel
    → i < length xs
    → (pick_loop fuel p i s ≡ picked (get_or xs i null)) × (has (get_or xs i null) xs ≡ true)
unfolding pick_loop
pick_loop-get zero prev p i s xs l lt h = absurd (omega arith)
pick_loop-get (suc fuel) prev p i s [] l lt h = absurd (omega arith)
pick_loop-get (suc fuel) prev p zero s (x ∷ xs) l lt h = (ground arith, ground arith)
pick_loop-get (suc fuel) prev p (suc i) s (x ∷ xs) l lt h =
    let ih = pick_loop-get fuel x (s x).entry.fd i s xs l.4 (omega arith) (omega arith) in
    let e : suc i - 1 ≡ i = omega arith in (ground arith, ground arith)

-- With a run on the active list, the random walk never falls off its end: it picks a run of the list,
-- one with regions left, and takes one region off the bin's count.
pub bin_get_run_for_allocation-picked :
    (bin : Bin) (s : Store) (rng : Rng) (xs ys : List ℕ)
    → Holds bin s xs ys
    → 0 < bin.run_list_active_cnt
    → length xs < list_fuel
    → total s xs < 2 ^ 32
    → let (p, bin', rng') = bin_get_run_for_allocation bin s rng in
      (run : ℕ) × (p ≡ picked run)
      × (has run xs ≡ true)
      × (0 < (s run).navail)
      × (bin' ≡ record bin { avail_regs = bin.avail_regs - 1 })
unfolding bin_get_run_for_allocation
bin_get_run_for_allocation-picked bin s rng xs ys h pos fuel small =
    let i = (splitmix32 rng).0 % bin.run_list_active_cnt in
    let (e, m) =
      pick_loop-get list_fuel null bin.run_list_active i s xs h.active fuel
        (omega (arith, h.cnt)) in
    (
      get_or xs i null,
      e,
      m,
      h.working _ m,
      rw (e, bin_get_run_for_allocation)
          (ap (λ (n : ℕ). record bin { avail_regs = n })
            (omega (arith, h.avail, h.working _ m, total-erase s _ xs m))),
    )

-- The store after one region was taken from a run of the list, its links unchanged.
module _ (s : Store) (run : ℕ) (run' : Run) (same : run'.entry ≡ (s run).entry) where
  entries-store : (a : ℕ) → (store s run run' a).entry ≡ (s a).entry
  entries-store a = ground (arith, store_lem s run run' a)

  Seg-store :
      (prev p : ℕ) (xs : List ℕ)
      → Seg (entries s) prev p xs
      → Seg (entries (store s run run')) prev p xs
  Seg-store prev p xs l = frame (entries s) (entries (store s run run')) prev p xs l (λ a i.
      (ap (λ (x : Entry). x.fd) (entries-store a), ap (λ (x : Entry). x.bk) (entries-store a)))

  total-store :
      (m : Cells Entry) (prev p : ℕ) (xs : List ℕ)
      → Seg m prev p xs
      → has run xs ≡ true
      → total (store s run run') xs + (s run).navail ≡ total s xs + run'.navail
  unfolding total
  total-store m prev p [] l h = absurd (ground arith)
  total-store m prev p (x ∷ xs) l h = elim (eq-cases x run) [
    | inl e ↦
        let rest : total (store s run run') xs ≡ total s xs =
          total-same s (store s run run') xs (λ a i. ground (arith, store_lem s run run' a)) in
        ground (arith, store_lem s run run' x)
    | inr ne ↦ ground (arith, store_lem s run run' x, total-store m x (m x).fd xs l.4)
  ]

-- Retiring takes the run from the active list to the inactive one, on which it comes first.
pub bin_retire_run-lists :
    (bin : Bin) (s : Store) (run : ℕ) (xs ys : List ℕ)
    → IsList (entries s) bin.run_list_active xs
    → IsList (entries s) bin.run_list_inactive ys
    → ((a : ℕ) → has a xs ≡ true → has a ys ≡ false)
    → has run xs ≡ true
    → let (bin', s') = bin_retire_run bin run s in
      IsList (entries s') bin'.run_list_active (erase run xs)
      × IsList (entries s') bin'.run_list_inactive (run ∷ ys)
      × ((a : ℕ) → (s' a).navail ≡ (s a).navail)
unfolding bin_retire_run
bin_retire_run-lists bin s run xs ys l k apart i =
    let d = ll_del-erase bin.run_list_active run (entries s) xs l i in
    let m = (ll_del bin.run_list_active run (entries s)).1 in
    let head = (ll_del bin.run_list_active run (entries s)).0 in
    let k' =
      untouched (entries s) m bin.run_list_inactive ys xs k d.3 (λ a j. ground (arith, apart a)) in
    let c =
      ll_add-cons bin.run_list_inactive run m ys k'
        (ne_null_of_has (entries s) null bin.run_list_active run xs l i) (apart run i) in
    let m' = (ll_add bin.run_list_inactive run m).1 in
    (
      untouched m m' head (erase run xs) (run ∷ ys) d.0 c.2 (λ a j. ground (
        arith,
        apart a,
        has-erase a run xs,
        not-has-erase_self (entries s) null bin.run_list_active run xs l,
      )),
      rw c.0 c.1,
      λ a. refl,
    )

-- The bin after bin_get_run_for_allocation has taken one region off its count.
abbrev pub one_taken : Bin → Bin
one_taken bin = record bin { avail_regs = bin.avail_regs - 1 }

one_taken-IsBin : (bin : Bin) → IsBin bin → IsBin (one_taken bin)
one_taken-IsBin bin b = record {
  reg_size_pos = b.reg_size_pos;
  regions_pos = b.regions_pos;
  regions_le = b.regions_le;
  bytes_le = b.bytes_le;
}

one_taken-IsRun : (bin : Bin) (run : Run) → IsRun bin run → IsRun (one_taken bin) run
one_taken-IsRun bin run v = record {
  start = v.start;
  used = v.used;
  generates = v.generates;
  idx = v.idx;
  avail = v.avail;
  visited = v.visited;
  fresh = v.fresh;
  freed = v.freed;
  fits = v.fits;
}

module _ (bin : Bin) (s : Store) (run : ℕ) (xs ys : List ℕ) (h : Holds bin s xs ys)
    (i : has run xs ≡ true) (run' : Run) (same : run'.entry ≡ (s run).entry)
    (one : run'.navail + 1 ≡ (s run).navail) where
  abbrev s1 : Store
  s1 = store s run run'

  total_left : total s1 xs ≡ bin.avail_regs - 1
  total_left = omega (
    arith,
    total-store s run run' same (entries s) null bin.run_list_active xs h.active i,
    h.avail,
    one,
    total-erase s run xs i,
  )

  kept-Holds : 0 < run'.navail → Holds (one_taken bin) s1 xs ys
  kept-Holds more = record {
    active = Seg-store s run run' same null bin.run_list_active xs h.active;
    inactive = Seg-store s run run' same null bin.run_list_inactive ys h.inactive;
    apart = h.apart;
    cnt = h.cnt;
    avail = sym total_left;
    working = λ a j. ground (arith, store_lem s run run' a, h.working a);
  }

  retired-Holds :
      run'.navail ≡ 0
      → length xs < 2 ^ 32
      → let (bin', s') = bin_retire_run (one_taken bin) run s1 in
        Holds bin' s' (erase run xs) (run ∷ ys)
  retired-Holds last small =
      let (l, k, n) =
        bin_retire_run-lists (one_taken bin) s1 run xs ys
          (Seg-store s run run' same null bin.run_list_active xs h.active)
          (Seg-store s run run' same null bin.run_list_inactive ys h.inactive) h.apart i in
      let s2 = (bin_retire_run (one_taken bin) run s1).1 in
      let gone = not-has-erase_self (entries s) null bin.run_list_active run xs h.active in
      record {
        active = l;
        inactive = k;
        apart = λ a j. ground (arith, h.apart a, has-erase a run xs, gone);
        cnt = unfold bin_retire_run in omega (arith, h.cnt, length-erase run xs i);
        avail =
            unfold bin_retire_run in
            omega (
              arith,
              total_left,
              total-same s1 s2 (erase run xs) (λ a j. n a),
              total-erase s1 run xs i,
              ap (λ (x : Run). x.navail) (own run),
            );
        working = λ a j.
            ground (arith, n a, store_lem s run run' a, h.working a, has-erase a run xs, gone);
      }
    where
      own : (a : ℕ) → store s a run' a ≡ run'
      own a = ground (arith, store_lem s a run' a)

-- Allocating from a run that was chosen: the region was free and its address is returned; the lists and
-- the counters of the bin are right again, where a run that gave its last region has been retired.
pub allocate_from_run-Holds :
    (bin : Bin) (s : Store) (run : ℕ) (xs ys : List ℕ)
    → Holds bin s xs ys
    → has run xs ≡ true
    → IsBin bin
    → IsRun bin (s run)
    → length xs < 2 ^ 32
    → let (bin', s', ptr) = allocate_from_run (one_taken bin) run s in
      let last = (s run).navail == 1 in
      Holds bin' s' (if last then erase run xs else xs) (if last then run ∷ ys else ys)
      × ((j : ℕ) × (j < regions bin)
          × (slot (s run) j ≡ state_free)
          × (ptr ≡ (s run).entry.key + j * bin.reg_size))
unfolding allocate_from_run
allocate_from_run-Holds bin s run xs ys h i b v small =
    let bin0 = one_taken bin in
    let more = h.working run i in
    let (inv, one, same, (j, lt, free, at, slots)) =
      run_allocate_lem bin0 (s run) (one_taken-IsBin bin b) (one_taken-IsRun bin (s run) v) more in
    let run' = (run_allocate (s run) bin0).0 in
    elim (eq-cases (s run).navail 1) [
      | inl e ↦
          let hit : ((s run).navail == 1) ≡ true = ground arith in
          let empty : (run'.navail == 0) ≡ true = ground arith in
          rw (hit, empty, allocate_from_run)
            (retired-Holds bin s run xs ys h i run' same one (omega arith) small, (j, lt, free, at))
      | inr ne ↦
          let miss : ((s run).navail == 1) ≡ false = ground arith in
          let left : (run'.navail == 0) ≡ false = ground arith in
          rw (miss, left, allocate_from_run)
            (kept-Holds bin s run xs ys h i run' same one (omega arith), (j, lt, free, at))
    ]
