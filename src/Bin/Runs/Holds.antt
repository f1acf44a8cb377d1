-- ===== src/Bin/Runs/Holds.antt =====
-- The two lists of a bin as lists of runs, and what the operations of src/bin.c do to them.
use sealloc.Base.{ℕ, ◌+◌, ◌^◌, ◌<◌, ◌≡◌, refl, ◌≢◌, List, [], ◌∷◌, ◌++◌, true, false, arith, some}
use sealloc.Base.{Cells, has, length, ◌==◌, if◌then◌else◌, sym, ◌∙◌, ap}
use sealloc.ContainerLl.{Entry, null, ll_add, ll_del, list_fuel}
use sealloc.ContainerLl.Seg.{Seg, IsList, erase, frame, not-has-erase}
use sealloc.ContainerLl.Ops.{OnlyLinks, ll_add-cons, ll_del-erase, find, ll_find-find}
use sealloc.Bin.{Bin}
use sealloc.Bin.Runs.{
  Store, entries, with_entries, bin_add_run, bin_delete_run, bin_get_run_by_addr,
}

-- The regions left in some runs.
unfoldable pub total : Store → List ℕ → ℕ
total s [] = 0
total s (x ∷ xs) = (s x).navail + total s xs

pub total-same :
    (s s' : Store) (xs : List ℕ)
    → ((a : ℕ) → has a xs ≡ true → (s' a).navail ≡ (s a).navail)
    → total s' xs ≡ total s xs
unfolding total
total-same s s' [] h = refl
total-same s s' (x ∷ xs) h =
    omega (arith, h x (ground arith), total-same s s' xs (λ a i. h a (ground arith)))

pub total-cons : (s : Store) (x : ℕ) (xs : List ℕ) → total s (x ∷ xs) ≡ (s x).navail + total s xs
unfolding total
total-cons s x xs = refl

pub total-erase :
    (s : Store) (i : ℕ) (xs : List ℕ)
    → has i xs ≡ true
    → total s xs ≡ total s (erase i xs) + (s i).navail
unfolding total erase
total-erase s i [] h = absurd (ground arith)
total-erase s i (x ∷ xs) h = ground (arith, total-erase s i xs)

-- `xs` are the runs on the active list, `ys` those on the inactive one: disjoint lists; the active
-- ones all have regions left, and the bin's counters are their number and their regions' number.
pub record Holds (bin : Bin) (s : Store) (xs ys : List ℕ) : Type 0 where
  pub active : IsList (entries s) bin.run_list_active xs
  pub inactive : IsList (entries s) bin.run_list_inactive ys
  pub apart : (a : ℕ) → has a xs ≡ true → has a ys ≡ false
  pub cnt : bin.run_list_active_cnt ≡ length xs
  pub avail : bin.avail_regs ≡ total s xs
  pub working : (a : ℕ) → has a xs ≡ true → 0 < (s a).navail

-- A list is not touched by a change of links at other addresses.
pub untouched :
    (m g : Cells Entry) (head : ℕ) (ys zs : List ℕ)
    → IsList m head ys
    → OnlyLinks m g zs
    → ((a : ℕ) → has a ys ≡ true → has a zs ≡ false)
    → IsList g head ys
untouched m g head ys zs l o apart = frame m g null head ys l (λ a i.
    let same : g a ≡ m a = o.outside a (apart a i) in
    (ap (λ (x : Entry). x.fd) same, ap (λ (x : Entry). x.bk) same))

-- Adding a run that is on neither list puts it in front of the active ones; the counters grow with it.
pub bin_add_run-Holds :
    (bin : Bin) (s : Store) (run : ℕ) (xs ys : List ℕ)
    → Holds bin s xs ys
    → run ≢ null
    → has run xs ≡ false
    → has run ys ≡ false
    → 0 < (s run).navail
    → length xs + 1 < 2 ^ 32
    → total s xs + (s run).navail < 2 ^ 32
    → let (bin', s') = bin_add_run bin run s in Holds bin' s' (run ∷ xs) ys
unfolding bin_add_run
bin_add_run-Holds bin s run xs ys h ne out out' more small small' =
    let (e, l, o) = ll_add-cons bin.run_list_active run (entries s) xs h.active ne out in
    let m = (ll_add bin.run_list_active run (entries s)).1 in
    record {
      active = rw e l;
      inactive =
          untouched (entries s) m bin.run_list_inactive ys (run ∷ xs) h.inactive o
            (λ a i. ground (arith, h.apart a));
      apart = λ a i. ground (arith, h.apart a);
      cnt = omega (arith, h.cnt);
      avail =
          let kept = total-same s (with_entries s m) xs (λ a i. refl) in
          ground (arith, h.avail, kept, total-cons (with_entries s m) run xs);
      working = λ a i. ground (arith, h.working a);
    }

-- Deleting a run from the inactive list takes it out of there and leaves the active runs alone.
pub bin_delete_run-Holds :
    (bin : Bin) (s : Store) (run : ℕ) (xs ys : List ℕ)
    → Holds bin s xs ys
    → has run ys ≡ true
    → let (bin', s') = bin_delete_run bin run s in Holds bin' s' xs (erase run ys)
unfolding bin_delete_run
bin_delete_run-Holds bin s run xs ys h i =
    let (l, f, k, o) = ll_del-erase bin.run_list_inactive run (entries s) ys h.inactive i in
    let m = (ll_del bin.run_list_inactive run (entries s)).1 in
    record {
      active = untouched (entries s) m bin.run_list_active xs ys h.active o h.apart;
      inactive = l;
      apart = λ a j. not-has-erase a run ys (h.apart a j);
      cnt = h.cnt;
      avail = h.avail ∙ sym (total-same s (with_entries s m) xs (λ a j. refl));
      working = h.working;
    }

find-append :
    (key : ℕ) (m : Cells Entry) (prev p : ℕ) (xs ys : List ℕ)
    → Seg m prev p xs
    → find key m (xs ++ ys) ≡ (if find key m xs == null then find key m ys else find key m xs)
unfolding find
find-append key m prev p [] ys s = refl
find-append key m prev p (x ∷ xs) ys s = ground (arith, find-append key m x (m x).fd xs ys s.4)

-- The search by address finds the first run with that heap, on the active list before the inactive one,
-- and null when no run has it.
pub bin_get_run_by_addr-find :
    (bin : Bin) (s : Store) (run_ptr : ℕ) (xs ys : List ℕ)
    → Holds bin s xs ys
    → length xs < list_fuel
    → length ys < list_fuel
    → bin_get_run_by_addr bin run_ptr s ≡ some (find run_ptr (entries s) (xs ++ ys))
unfolding bin_get_run_by_addr
bin_get_run_by_addr-find bin s run_ptr xs ys h lx ly =
    rw (ll_find-find bin.run_list_active run_ptr (entries s) xs h.active lx, bin_get_run_by_addr)
      (ground (
        arith,
        ll_find-find bin.run_list_inactive run_ptr (entries s) ys h.inactive ly,
        find-append run_ptr (entries s) null bin.run_list_active xs ys h.active,
      ))
