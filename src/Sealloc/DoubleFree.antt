-- ===== src/Sealloc/DoubleFree.antt =====
-- sealloc_free in src/sealloc.c on an allocated region, twice.
use sealloc.Base.{
  ℕ, zero, suc, ◌+◌, ◌<◌, ◌≡◌, ◌≢◌, refl, sym, subst, ◌∙◌, ap, List, true, false, Cells, store,
  ◌==◌, if◌then◌else◌, arith, eq-cases, ==_self, inl, inr, ◌*◌,
}
use sealloc.ContainerLl.{Entry, null}
use sealloc.Bin.{Bin}
use sealloc.Run.{Run, state_alloc, state_alloc_free, run_deallocate, run_is_freeable}
use sealloc.Run.Invariant.{regions, slot, IsBin, IsRun}
use sealloc.Run.Free.{InRun, address, run_deallocate_accepts}
use sealloc.World.{when, World, done, aborts, bind-done}
use sealloc.Sealloc.{locate_metadata_for_ptr}
use sealloc.Sealloc.Located.{Located, locate-Located, Located-runs}
use sealloc.Sealloc.Free.{
  delete_run, deallocate_region, sealloc_free_with_metadata, free_located, sealloc_free,
}
use sealloc.Sealloc.Realloc.{sealloc_realloc}
use sealloc.Sealloc.Refuses.{unallocated_region-aborts}

store_same : (s : Cells Run) (run : ℕ) (r : Run) → store s run r run ≡ r
unfolding store
store_same s run r = ground arith

store_entry :
    (s : Cells Run) (run : ℕ) (r : Run)
    → r.entry ≡ (s run).entry
    → (p : ℕ) → (store s run r p).entry ≡ (s p).entry
unfolding store
store_entry s run r h p = elim (eq-cases p run) [
  | inl e ↦ rw (e, ==_self run) h
  | inr ne ↦ (let f : (p == run) ≡ false = ground arith in rw f refl)
]

store_other : (s : Cells Run) (run : ℕ) (r : Run) (p : ℕ) → p ≢ run → store s run r p ≡ s p
unfolding store
store_other s run r p ne = let f : (p == run) ≡ false = ground arith in rw f refl

same_region : (j k s key : ℕ) → 0 < s → key + j * s ≡ key + k * s → j ≡ k
same_region j k s key p e = grind arith

-- One more region of the run is counted as freed; only its bitmap may differ otherwise.
pub record Counted (run run' : Run) : Type 0 where
  pub entry : run'.entry ≡ run.entry
  pub navail : run'.navail ≡ run.navail
  pub nfreed : run'.nfreed ≡ run.nfreed + 1
  pub gen : run'.gen ≡ run.gen
  pub current_idx : run'.current_idx ≡ run.current_idx

-- No allocated region starts at the pointer, which is in the run.
abbrev Unallocated : Bin → Run → ℕ → Type 0
Unallocated bin run ptr =
    InRun bin run ptr
    × ((k : ℕ) → k < regions bin → ptr ≡ address bin run k → slot run k ≢ state_alloc)

module _ (bin : Bin) (run : Run) (j : ℕ) (b : IsBin bin) (v : IsRun bin run) where
  module _ (h : j < regions bin) (a : slot run j ≡ state_alloc) where
    freed : Run
    freed = (run_deallocate run bin (address bin run j)).0

    facts :
        let (run', ok) = run_deallocate run bin (address bin run j) in
        (ok ≡ true)
        × IsRun bin run'
        × (run'.nfreed ≡ run.nfreed + 1)
        × (run'.navail ≡ run.navail)
        × (run'.entry ≡ run.entry)
        × ((k : ℕ) → slot run' k ≡ (if k == j then state_alloc_free else slot run k))
        × (run'.gen ≡ run.gen)
        × (run'.current_idx ≡ run.current_idx)
    facts = run_deallocate_accepts bin run j b v h a

    freed_entry : freed.entry ≡ run.entry
    unfolding freed
    freed_entry = facts.4

    freed-slots : (k : ℕ) → slot freed k ≡ (if k == j then state_alloc_free else slot run k)
    unfolding freed
    freed-slots = facts.5

    freed-Counted : Counted run freed
    unfolding freed
    freed-Counted = record {
      entry = facts.4;
      navail = facts.3;
      nfreed = facts.2;
      gen = facts.6;
      current_idx = facts.7;
    }

    freed_key : freed.entry.key ≡ run.entry.key
    unfolding freed
    freed_key = ap (λ (e : Entry). e.key) facts.4

    inside : run.entry.key + j * bin.reg_size < run.entry.key + regions bin * bin.reg_size
    inside = grind (arith, b.reg_size_pos)

    freed-InRun : InRun bin freed (address bin run j)
    freed-InRun = rw freed_key (omega arith, inside)

    freed_none_here :
        (k : ℕ)
        → k < regions bin
        → address bin run j ≡ address bin freed k
        → slot freed k ≢ state_alloc
    unfolding freed
    freed_none_here k lt e =
        let same : k ≡ j = sym (
          same_region j k bin.reg_size run.entry.key b.reg_size_pos
            (e ∙ ap (λ (q : ℕ). q + k * bin.reg_size) freed_key)) in
        rw same (ground (arith, facts.5 j))

    not_freeable : run.nfreed + 1 < regions bin → run_is_freeable freed bin ≡ false
    unfolding freed
    not_freeable more = ground (arith, facts.2)

module _ (w : World) (chunk i r j : ℕ) where
  abbrev run_here : Run
  run_here = w.runs (suc r)

  abbrev bin_here : Bin
  bin_here = w.arena.bins i

  module _ (b : IsBin bin_here) (v : IsRun bin_here run_here) (h : j < regions bin_here)
      (a : slot run_here j ≡ state_alloc) where
    abbrev after : World
    after = record w { runs = store w.runs (suc r) (freed bin_here run_here j b v h a) }

    deallocate-after : deallocate_region i (suc r) (address bin_here run_here j) w ≡ done tt after
    unfolding deallocate_region freed
    deallocate-after = rw (facts bin_here run_here j b v h a).0 refl

    free-after :
        run_here.nfreed + 1 < regions bin_here
        → sealloc_free_with_metadata chunk i (suc r) (address bin_here run_here j) w ≡ done tt after
    unfolding sealloc_free_with_metadata
    free-after more =
        bind-done (deallocate_region i (suc r) (address bin_here run_here j)) _ deallocate-after
        ∙ ap (λ c. when c (delete_run chunk i (suc r)) after)
            (ap (λ q. run_is_freeable q bin_here) (store_same w.runs (suc r) _)
              ∙ not_freeable bin_here run_here j b v h a more)

-- If the allocator's books lead from a pointer other than null to a run that keeps its invariant, and
-- an allocated region of the run starts there that is not the last one to come back, then sealloc_free
-- marks the region as freed, and no other region of the run; it counts one more of the run's regions as freed
-- and changes no other field of the run, no other run and no other part of the state. After that, a second free
-- of the pointer, or a realloc of it, aborts.
pub double_free-aborts :
    (w : World) (xs : List ℕ) (ptr chunk run i j n : ℕ)
    → Located w xs ptr chunk run i
    → ptr ≢ null
    → run ≢ null
    → IsBin (w.arena.bins i)
    → IsRun (w.arena.bins i) (w.runs run)
    → j < regions (w.arena.bins i)
    → slot (w.runs run) j ≡ state_alloc
    → ptr ≡ address (w.arena.bins i) (w.runs run) j
    → (w.runs run).nfreed + 1 < regions (w.arena.bins i)
    → (s : Cells Run) × (sealloc_free ptr w ≡ done tt (record w { runs = s }))
      × ((k : ℕ) → slot (s run) k ≡ (if k == j then state_alloc_free else slot (w.runs run) k))
      × Counted (w.runs run) (s run)
      × ((p : ℕ) → p ≢ run → s p ≡ w.runs p)
      × (sealloc_free ptr (record w { runs = s }) ≡ aborts)
      × (sealloc_realloc ptr n (record w { runs = s }) ≡ aborts)
unfolding sealloc_free free_located
double_free-aborts w xs zero chunk run i j n l ne nr b v h a e more = absurd (ne refl)
double_free-aborts w xs (suc p) chunk zero i j n l ne nr b v h a e more = absurd (nr refl)
double_free-aborts w xs (suc p) chunk (suc r) i j n l ne nr b v h a e more =
    let bin = w.arena.bins i in
    let run = w.runs (suc r) in
    let run' = freed bin run j b v h a in
    let s = store w.runs (suc r) run' in
    let here : s (suc r) ≡ run' = store_same w.runs (suc r) run' in
    let u : Unallocated bin (s (suc r)) (suc p) =
      subst (λ q. Unallocated bin (s (suc r)) q) (sym e)
        (subst (λ q. Unallocated bin q (address bin run j)) (sym here)
          (freed-InRun bin run j b v h a, freed_none_here bin run j b v h a)) in
    let l' =
      Located-runs w s xs (suc p) chunk (suc r) i
        (store_entry w.runs (suc r) run' (freed_entry bin run j b v h a)) l in
    let again =
      unallocated_region-aborts (suc p) n chunk (suc r) i (record w { runs = s })
        (record w { runs = s }) ne
        (locate-Located (record w { runs = s }) xs (suc p) chunk (suc r) i l') b u.0 u.1 in
    (
      s,
      bind-done (locate_metadata_for_ptr (suc p)) _ (locate-Located w xs (suc p) chunk (suc r) i l)
          ∙ subst
              (λ q.
                sealloc_free_with_metadata chunk i (suc r) q w ≡ done tt (record w { runs = s }))
              (sym e) (free-after w chunk i r j b v h a more),
      λ k. ap (λ q. slot q k) here ∙ freed-slots bin run j b v h a k,
      subst (Counted run) (sym here) (freed-Counted bin run j b v h a),
      λ q d. store_other w.runs (suc r) run' q d,
      again.0,
      again.1,
    )
