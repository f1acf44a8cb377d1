-- ===== src/Sealloc/Located.antt =====
-- locate_metadata_for_ptr in src/sealloc.c on a pointer that the allocator's books lead to a run.
use sealloc.Base.{
  ℕ, zero, suc, ◌<◌, ◌^◌, ◌≡◌, ◌≢◌, refl, ◌∙◌, ap, List, false, none, some, Cells, ltb, ◌==◌,
  if◌then◌else◌, length, arith,
}
use std.Path.{fun_ext}
use sealloc.ContainerLl.{ll_find, Entry, null, list_fuel}
use sealloc.ContainerLl.Seg.{IsList}
use sealloc.SizeClass.{bin_index}
use sealloc.Bin.{Bin}
use sealloc.Bin.Runs.{bin_get_run_by_addr}
use sealloc.Run.{Run}
use sealloc.Chunk.Deallocate.{RunInfo, chunk_get_run_ptr}
use sealloc.World.{World, done, pure, ◌>>=◌, or_fuel, bind-done}
use sealloc.Arena.Bins.{arena_get_bin_by_reg_size}
use sealloc.Arena.Runs.{chunk_entries}
use sealloc.Arena.Chunks.{Mapped}
use sealloc.Sealloc.{regular, locate_chunk, locate_metadata_for_ptr}
use sealloc.Sealloc.Locate.{owner, locate_chunk-owner}

-- The size by which the bin of a run is looked up.
abbrev pub class_size : RunInfo → ℕ
class_size info = if ltb 0 info.reg_size then info.reg_size else info.run_size

-- The allocator's books lead from the pointer to a run: the first chunk that has it in a run is `chunk`,
-- and the bin `i` of that run's size knows the run at its address.
pub record Located (w : World) (xs : List ℕ) (ptr chunk run i : ℕ) : Type 0 where
  pub chunks : IsList (chunk_entries w.chunks) w.arena.chunk_list xs
  pub few : length xs < list_fuel
  pub mapped : Mapped w.chunks xs
  pub user : ptr < 2 ^ 63
  pub owned : owner ptr w.chunks xs ≡ chunk
  pub chunk_there : chunk ≢ null
  pub index : bin_index (class_size (chunk_get_run_ptr (w.chunks chunk) ptr)) ≡ i
  pub in_bin :
      bin_get_run_by_addr (w.arena.bins i) (chunk_get_run_ptr (w.chunks chunk) ptr).run_ptr w.runs
      ≡ some run
  pub initialised : (w.arena.bins i).reg_size ≢ 0

get_bin_initialised :
    (size : ℕ) (w : World)
    → (w.arena.bins (bin_index size)).reg_size ≢ 0
    → arena_get_bin_by_reg_size size w ≡ done (bin_index size) w
unfolding arena_get_bin_by_reg_size
get_bin_initialised size w ne =
    let f : ((w.arena.bins (bin_index size)).reg_size == 0) ≡ false = ground arith in rw f refl

pub locate-Located :
    (w : World) (xs : List ℕ) (ptr chunk run i : ℕ)
    → Located w xs ptr chunk run i
    → locate_metadata_for_ptr ptr w ≡ done (regular chunk run i) w
unfolding locate_metadata_for_ptr
locate-Located w xs ptr zero run i l = absurd (l.chunk_there refl)
locate-Located w xs ptr (suc c) run i l =
    let info = chunk_get_run_ptr (w.chunks (suc c)) ptr in
    let q : locate_chunk ptr w ≡ done (suc c, info) w =
      locate_chunk-owner ptr w xs l.chunks l.few l.mapped l.user
      ∙ ap (λ o. done (o, chunk_get_run_ptr (w.chunks o) ptr) w) l.owned in
    let g : arena_get_bin_by_reg_size (class_size info) w ≡ done i w =
      get_bin_initialised (class_size info) w (rw l.index l.initialised)
      ∙ ap (λ k. done k w) l.index in
    bind-done (locate_chunk ptr) _ q
    ∙ bind-done (arena_get_bin_by_reg_size (class_size info)) _ g
    ∙ ap (λ o. (or_fuel o >>= λ run'. pure (regular (suc c) run' i)) w) l.in_bin

-- Which run has an address depends on the entries of the runs alone.
by_addr-entries :
    (bin : Bin) (run_ptr : ℕ) (s s' : Cells Run)
    → ((p : ℕ) → (s p).entry ≡ (s' p).entry)
    → bin_get_run_by_addr bin run_ptr s ≡ bin_get_run_by_addr bin run_ptr s'
unfolding bin_get_run_by_addr
by_addr-entries bin run_ptr s s' h =
    ap
      (λ (m : Cells Entry). elim (ll_find bin.run_list_active run_ptr m) [
        | none ↦ none
        | some run ↦ if run == null then ll_find bin.run_list_inactive run_ptr m else some run
      ])
      (fun_ext h)

pub Located-runs :
    (w : World) (s : Cells Run) (xs : List ℕ) (ptr chunk run i : ℕ)
    → ((p : ℕ) → (s p).entry ≡ (w.runs p).entry)
    → Located w xs ptr chunk run i
    → Located (record w { runs = s }) xs ptr chunk run i
Located-runs w s xs ptr chunk run i h l = record {
  chunks = l.chunks;
  few = l.few;
  mapped = l.mapped;
  user = l.user;
  owned = l.owned;
  chunk_there = l.chunk_there;
  index = l.index;
  in_bin = by_addr-entries (w.arena.bins i) _ s w.runs h ∙ l.in_bin;
  initialised = l.initialised;
}
