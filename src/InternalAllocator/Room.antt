-- ===== src/InternalAllocator/Room.antt =====
-- Which nodes the walk of internal_alloc in src/internal_allocator.c could give out, and its single rounds.
use sealloc.Base.{
  ℕ, zero, suc, ◌+◌, ◌*◌, ◌/◌, ◌^◌, ◌≤◌, ◌<◌, ◌≡◌, ◌≢◌, refl, ◌∙◌, sym, subst, inl, inr, Bool, true,
  false, ◌&&◌, ◌||◌, Bool-cases, Cells, u64, leb, ◌==◌, arith,
}
use native.Mathlib.Nat.{pow-suc, pow-le-pow_right}
use sealloc.Bitmap.{get_tree_item, set_tree_item, get-set_tree_item}
use sealloc.InternalAllocator.{is_leaf, node_split, node_used, node_free, coalesce_full_nodes}
use sealloc.InternalAllocator.Search.{
  down, up_left, up_right, Search, returns, continues, panics, go_left, take, at_leaf, fits, split,
  at_inner, round, Result, allocated, ended, failed, is_over, search_loop,
}
use sealloc.InternalAllocator.Levels.{At, At-span, At-left, At-index, pow-pos}
use sealloc.InternalAllocator.Walk.{at_node}

-- Whether a free node that the size fits can be reached through split nodes, from a node that is `m` levels
-- above the leaves and that the size fits.
unfoldable pub has_room : Cells ℕ → ℕ → ℕ → ℕ → Bool
has_room tree size zero idx = get_tree_item tree idx == node_free
has_room tree size (suc m) idx =
    let node = get_tree_item tree idx in
    let below = has_room tree size m (idx * 2) || has_room tree size m (idx * 2 + 1) in
    (node == node_free) || ((node == node_split) && (leb size (32 * 2 ^ m) && below))

-- The walk does not end with nothing.
abbrev pub Gives : Result → Type 0
Gives r = (t : Cells ℕ) → r ≢ ended t

allocated-Gives : (p n : ℕ) (t : Cells ℕ) → Gives (allocated p n t)
allocated-Gives p n t t' e = grind arith

failed-Gives : Gives failed
failed-Gives t e = grind arith

pub over-down : (idx cur ptr : ℕ) (t : Cells ℕ) → is_over (at_node idx cur ptr down t) ≡ false
unfolding is_over
over-down idx cur ptr t = ground arith

pub over-up_left : (idx cur ptr : ℕ) (t : Cells ℕ) → is_over (at_node idx cur ptr up_left t) ≡ false
unfolding is_over
over-up_left idx cur ptr t = ground arith

pub over-up_right :
    (idx cur ptr : ℕ) (t : Cells ℕ) → idx ≢ 1 → is_over (at_node idx cur ptr up_right t) ≡ false
unfolding is_over
over-up_right idx cur ptr t h = ground arith

-- Back at the root, the walk is over.
pub over :
    (g size cur ptr : ℕ) (t : Cells ℕ)
    → search_loop (suc g) size (at_node 1 cur ptr up_right t) ≡ ended t
unfolding search_loop is_over
over g size cur ptr t = refl

pub goes :
    (f g size : ℕ) (s s' : Search)
    → f ≡ suc g
    → is_over s ≡ false
    → round size s ≡ continues s'
    → search_loop f size s ≡ search_loop g size s'
unfolding search_loop
goes zero g size s s' e o q = absurd (omega arith)
goes (suc f) g size s s' e o q = let e' : f ≡ g = omega arith in rw (o, q, e') refl

gives :
    (f g size p n : ℕ) (s : Search) (t : Cells ℕ)
    → f ≡ suc g
    → is_over s ≡ false
    → round size s ≡ returns p n t
    → Gives (search_loop f size s)
unfolding search_loop
gives zero g size p n s t e o q = absurd (omega arith)
gives (suc f) g size p n s t e o q = rw (o, q) (allocated-Gives p n t)

pub breaks :
    (f g size : ℕ) (s : Search)
    → f ≡ suc g
    → is_over s ≡ false
    → round size s ≡ panics
    → Gives (search_loop f size s)
unfolding search_loop
breaks zero g size s e o q = absurd (omega arith)
breaks (suc f) g size s e o q = rw (o, q) failed-Gives

split_left :
    (t : Cells ℕ) (idx : ℕ)
    → 0 < idx
    → idx < 2 ^ 19
    → get_tree_item (split t idx) (u64 (idx * 2)) ≡ node_free
unfolding split
split_left t idx p h =
    let i : u64 (idx * 2) ≡ idx * 2 = omega arith in
    let j : u64 (idx * 2 + 1) ≡ idx * 2 + 1 = omega arith in
    let t1 = set_tree_item t idx node_split in
    let t2 = set_tree_item t1 (idx * 2) node_free in
    let ne : (idx * 2 == idx * 2 + 1) ≡ false = ground arith in
    let eq : (idx * 2 == idx * 2) ≡ true = ground arith in
    let a =
      get-set_tree_item t2 (idx * 2 + 1) node_free (idx * 2) (omega arith) (omega arith)
        (omega arith) (omega arith) (omega arith) in
    let b =
      get-set_tree_item t1 (idx * 2) node_free (idx * 2) (omega arith) (omega arith) (omega arith)
        (omega arith) (omega arith) in
    rw (i, j) (a ∙ rw ne (b ∙ rw eq refl))

module _ (memory size : ℕ) where
  pub leaf_lem : (d idx cur ptr : ℕ) → At memory 0 d idx cur ptr → is_leaf idx ≡ true
  leaf_lem d idx cur ptr a = let sp = (At-span memory 0 d idx cur ptr a).0 in ground arith

  pub not_leaf : (m d idx cur ptr : ℕ) → At memory (suc m) d idx cur ptr → is_leaf idx ≡ false
  not_leaf m d idx cur ptr a =
      let h : suc d ≤ 18 = omega (arith, a.level) in
      let q : 2 ^ suc d ≤ 2 ^ 18 = pow-le-pow_right (omega arith) h in let lt = a.hi in ground arith

  -- From a free node that the size fits, the walk gives something.
  pub free_below :
      (m d idx cur ptr : ℕ) (t : Cells ℕ)
      → At memory m d idx cur ptr
      → get_tree_item t idx ≡ node_free
      → size ≤ cur
      → (c : ℕ) × (c ≤ 2 * 2 ^ m)
        × ((f g : ℕ) → f ≡ c + g → Gives (search_loop f size (at_node idx cur ptr down t)))
  unfolding round at_leaf at_inner take go_left
  free_below zero d idx cur ptr t a e le =
      let l = leaf_lem d idx cur ptr a in
      (
        1,
        omega arith,
        λ f g q.
            gives f g size ptr cur (at_node idx cur ptr down t)
              (coalesce_full_nodes (set_tree_item t idx node_used) idx) (omega arith)
              (over-down idx cur ptr t) (rw (l, e) refl),
      )
  free_below (suc m) d idx cur ptr t a e le =
      let l = not_leaf m d idx cur ptr a in
      let two = pow-suc 2 m in
      elim (Bool-cases (fits size cur)) [
        | inl h ↦ (
          1,
          omega (arith, pow-pos (suc m)),
          λ f g q.
              gives f g size ptr cur (at_node idx cur ptr down t)
                (coalesce_full_nodes (set_tree_item t idx node_used) idx) (omega arith)
                (over-down idx cur ptr t) (rw (l, e, h) refl),
        )
        | inr h ↦
            let lt = At-index memory (suc m) d idx cur ptr a in
            let pos : 0 < idx = omega (arith, a.lo, pow-pos d) in
            let (c, b, w) =
              free_below m (suc d) (u64 (idx * 2)) (cur / 2) ptr (split t idx)
                (At-left memory m d idx cur ptr a).0 (split_left t idx pos lt) (ground arith) in
            (
              suc c,
              omega (arith, pow-pos m),
              λ f g q.
                  subst Gives
                    (sym (
                      goes f (c + g) size (at_node idx cur ptr down t)
                        (at_node (u64 (idx * 2)) (cur / 2) ptr down (split t idx)) (omega arith)
                        (over-down idx cur ptr t) (rw (l, e, h) refl)))
                    (w (c + g) g refl),
            )
      ]
