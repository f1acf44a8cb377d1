-- ===== src/InternalAllocator/Exhaustive.antt =====
-- The walk of internal_alloc in src/internal_allocator.c gives up only when it has seen every node that it could
-- give out.
use sealloc.Base.{
  ℕ, zero, suc, ◌+◌, ◌-◌, ◌*◌, ◌/◌, ◌^◌, ◌≤◌, ◌≡◌, ◌≢◌, refl, ◌∙◌, sym, ap, subst, ◌⊎◌, inl, inr,
  true, false, Bool-cases, Cells, u64, leb, ◌==◌, arith,
}
use native.Mathlib.Nat.{pow-suc}
use sealloc.Bitmap.{get_tree_item}
use sealloc.InternalAllocator.{is_right_child, node_split, node_used, node_free}
use sealloc.InternalAllocator.Search.{
  down, up_left, up_right, Search, continues, go_up, go_left, go_right, at_leaf, fits, at_inner,
  round, Result, allocated, ended, failed, out_of_fuel, is_over, search_loop, search_fuel,
}
use sealloc.InternalAllocator.Levels.{At, At-span, At-left, At-right, At-index, pow-pos}
use sealloc.InternalAllocator.Walk.{at_node}
use sealloc.InternalAllocator.Room.{
  has_room, Gives, over-down, over-up_left, over-up_right, over, goes, breaks, leaf_lem, not_leaf,
  free_below,
}

tree_of : Result → Cells ℕ
tree_of (allocated p n t) = t
tree_of (ended t) = t
tree_of failed = λ i. 0
tree_of out_of_fuel = λ i. 0

module _ (memory size : ℕ) where
  -- What the walk does from a node that it enters on the way down, where the nodes above stay as they are.
  data Visit (tree : Cells ℕ) (m idx : ℕ) (s : Search) : Type 0 where
    ends :
        (c : ℕ)
        → c ≤ 4 * 2 ^ m
        → ((f g : ℕ) → f ≡ c + g → Gives (search_loop f size s))
        → Visit tree m idx s
    passes :
        (c : ℕ)
        → c + 3 ≤ 4 * 2 ^ m
        → has_room tree size m idx ≡ false
        → ((f g : ℕ) → f ≡ c + g → search_loop f size s ≡ search_loop g size (go_up s))
        → Visit tree m idx s

  -- What it does from a split node: it comes back from the right child.
  data Sides (tree : Cells ℕ) (m idx : ℕ) (s s' : Search) : Type 0 where
    ends :
        (c : ℕ)
        → c ≤ 4 * 2 ^ suc m
        → ((f g : ℕ) → f ≡ c + g → Gives (search_loop f size s))
        → Sides tree m idx s s'
    back :
        (c : ℕ)
        → c + 4 ≤ 4 * 2 ^ suc m
        → has_room tree size m (idx * 2) ≡ false
        → has_room tree size m (idx * 2 + 1) ≡ false
        → ((f g : ℕ) → f ≡ c + g → search_loop f size s ≡ search_loop g size s')
        → Sides tree m idx s s'

  from_left_lem :
      (m d idx cur ptr : ℕ) (tree : Cells ℕ)
      → At memory (suc m) d idx cur ptr
      → go_up (at_node (u64 (idx * 2)) (cur / 2) ptr down tree) ≡ at_node idx cur ptr up_left tree
  unfolding go_up
  from_left_lem m d idx cur ptr tree a =
      let lt = At-index memory (suc m) d idx cur ptr a in
      let i : u64 (idx * 2) ≡ idx * 2 = omega arith in
      let r : is_right_child (idx * 2) ≡ false = ground arith in
      let h : idx * 2 / 2 ≡ idx = omega arith in
      let k : u64 (cur / 2 * 2) ≡ cur = cur_back m d idx cur ptr a in rw (i, r, h, k) refl
    where
      cur_back : (m d idx cur ptr : ℕ) → At memory (suc m) d idx cur ptr → u64 (cur / 2 * 2) ≡ cur
      cur_back m d idx cur ptr a =
          let two = pow-suc 2 m in
          let sp = (At-span memory (suc m) d idx cur ptr a).1 in omega (arith, a.size)

  from_right_lem :
      (m d idx cur ptr : ℕ) (tree : Cells ℕ)
      → At memory (suc m) d idx cur ptr
      → go_up (at_node (u64 (idx * 2 + 1)) (cur / 2) (u64 (ptr + cur / 2)) down tree)
        ≡ at_node idx cur ptr up_right tree
  unfolding go_up
  from_right_lem m d idx cur ptr tree a =
      let two = pow-suc 2 m in
      let sp = (At-span memory (suc m) d idx cur ptr a).1 in
      let lt = At-index memory (suc m) d idx cur ptr a in
      let i : u64 (idx * 2 + 1) ≡ idx * 2 + 1 = omega arith in
      let r : is_right_child (idx * 2 + 1) ≡ true = ground arith in
      let h : (idx * 2 + 1) / 2 ≡ idx = omega arith in
      let k : u64 (cur / 2 * 2) ≡ cur = omega (arith, a.size) in
      let p : u64 (u64 (ptr + cur / 2) + (2 ^ 64 - cur / 2)) ≡ ptr =
        omega (arith, a.size, a.place, a.room) in
      rw (i, r, h, k, p) refl

  module _ (m d idx cur ptr : ℕ) (tree : Cells ℕ) (a : At memory (suc m) d idx cur ptr) where
    abbrev here : Search
    here = at_node idx cur ptr down tree

    abbrev left : Search
    left = at_node (u64 (idx * 2)) (cur / 2) ptr down tree

    abbrev right : Search
    right = at_node (u64 (idx * 2 + 1)) (cur / 2) (u64 (ptr + cur / 2)) down tree

    to_left :
        (f g : ℕ)
        → f ≡ suc g
        → get_tree_item tree idx ≡ node_split
        → fits size cur ≡ false
        → search_loop f size here ≡ search_loop g size left
    unfolding round at_inner go_left
    to_left f g q e h =
        goes f g size here left q (over-down idx cur ptr tree)
          (rw (not_leaf memory size m d idx cur ptr a, e, h) refl)

    to_right :
        (f g : ℕ)
        → f ≡ suc g
        → search_loop f size (at_node idx cur ptr up_left tree) ≡ search_loop g size right
    unfolding round go_right
    to_right f g q =
        goes f g size (at_node idx cur ptr up_left tree) right q (over-up_left idx cur ptr tree)
          (rw (not_leaf memory size m d idx cur ptr a) refl)

    from_left :
        (f g c : ℕ)
        → ((f g : ℕ) → f ≡ c + g → search_loop f size left ≡ search_loop g size (go_up left))
        → f ≡ suc (c + suc g)
        → get_tree_item tree idx ≡ node_split
        → fits size cur ≡ false
        → search_loop f size here ≡ search_loop g size right
    from_left f g c w q e h =
        to_left f (c + suc g) q e h
        ∙ w (c + suc g) (suc g) refl
        ∙ ap (search_loop (suc g) size) (from_left_lem m d idx cur ptr tree a)
        ∙ to_right (suc g) g refl

    sides :
        get_tree_item tree idx ≡ node_split
        → fits size cur ≡ false
        → Visit tree m (u64 (idx * 2)) left
        → Visit tree m (u64 (idx * 2 + 1)) right
        → Sides tree m idx here (at_node idx cur ptr up_right tree)
    sides e h (ends c b w) v =
        ends (suc c) (omega (arith, pow-suc 2 m, pow-pos m))
          (λ f g q. subst Gives (sym (to_left f (c + g) (omega arith) e h)) (w (c + g) g refl))
    sides e h (passes c b n w) (ends c' b' w') =
        ends (c + 2 + c') (omega (arith, pow-suc 2 m)) (λ f g q.
          subst Gives (sym (from_left f (c' + g) c w (omega arith) e h)) (w' (c' + g) g refl))
    sides e h (passes c b n w) (passes c' b' n' w') =
        let lt = At-index memory (suc m) d idx cur ptr a in
        let i : u64 (idx * 2) ≡ idx * 2 = omega arith in
        let j : u64 (idx * 2 + 1) ≡ idx * 2 + 1 = omega arith in
        back (c + 2 + c') (omega (arith, pow-suc 2 m)) (ap (has_room tree size m) (sym i) ∙ n)
          (ap (has_room tree size m) (sym j) ∙ n')
          (λ f g q.
            from_left f (c' + g) c w (omega arith) e h
            ∙ w' (c' + g) g refl
            ∙ ap (search_loop g size) (from_right_lem m d idx cur ptr tree a))

  -- A node from which the walk goes up at once.
  turns_back :
      (tree : Cells ℕ) (m idx : ℕ) (s : Search)
      → is_over s ≡ false
      → round size s ≡ continues (go_up s)
      → has_room tree size m idx ≡ false
      → Visit tree m idx s
  turns_back tree m idx s o q n =
      passes 1 (omega (arith, pow-pos m)) n (λ f g e. goes f g size s (go_up s) (omega arith) o q)

  free-Visit :
      (m d idx cur ptr : ℕ) (tree : Cells ℕ)
      → At memory m d idx cur ptr
      → get_tree_item tree idx ≡ node_free
      → size ≤ cur
      → Visit tree m idx (at_node idx cur ptr down tree)
  free-Visit m d idx cur ptr tree a e le =
      let (c, b, w) = free_below memory size m d idx cur ptr tree a e le in ends c (omega arith) w

  leaf-Visit :
      (d idx cur ptr : ℕ) (tree : Cells ℕ)
      → At memory 0 d idx cur ptr
      → size ≤ cur
      → Visit tree 0 idx (at_node idx cur ptr down tree)
  unfolding round at_leaf has_room
  leaf-Visit d idx cur ptr tree a le =
      let l = leaf_lem memory size d idx cur ptr a in
      let o = over-down idx cur ptr tree in
      let s = at_node idx cur ptr down tree in
      elim (Bool-cases (get_tree_item tree idx == node_free)) [
        | inl e ↦ free-Visit 0 d idx cur ptr tree a (ground arith) le
        | inr e ↦ elim (Bool-cases (get_tree_item tree idx == node_used)) [
          | inl u ↦ turns_back tree 0 idx s o (rw (l, e, u) refl) e
          | inr u ↦
              ends 1 (omega arith) (λ f g q. breaks f g size s (omega arith) o (rw (l, e, u) refl))
        ]
      ]

  no_room :
      (tree : Cells ℕ) (m idx : ℕ)
      → has_room tree size m (idx * 2) ≡ false
      → has_room tree size m (idx * 2 + 1) ≡ false
      → (get_tree_item tree idx == node_free) ≡ false
      → has_room tree size (suc m) idx ≡ false
  unfolding has_room
  no_room tree m idx n n' e = rw (n, n', e) (ground arith)

  inner-Visit :
      (m d idx cur ptr : ℕ) (tree : Cells ℕ) (a : At memory (suc m) (suc d) idx cur ptr)
      → size ≤ cur
      → (size ≤ cur / 2 → Visit tree m (u64 (idx * 2)) (left m (suc d) idx cur ptr tree a))
      → (size ≤ cur / 2 → Visit tree m (u64 (idx * 2 + 1)) (right m (suc d) idx cur ptr tree a))
      → Visit tree (suc m) idx (at_node idx cur ptr down tree)
  unfolding round at_inner has_room go_up
  inner-Visit m d idx cur ptr tree a le v v' =
      let l = not_leaf memory size m (suc d) idx cur ptr a in
      let o = over-down idx cur ptr tree in
      let s = at_node idx cur ptr down tree in
      elim (Bool-cases (get_tree_item tree idx == node_free)) [
        | inl e ↦ free-Visit (suc m) (suc d) idx cur ptr tree a (ground arith) le
        | inr e ↦ elim (Bool-cases (get_tree_item tree idx == node_split)) [
          | inr n ↦ turns_back tree (suc m) idx s o (rw (l, e, n) refl) (rw (e, n) refl)
          | inl n ↦ elim (Bool-cases (fits size cur)) [
            | inl h ↦
                let big : leb size (32 * 2 ^ m) ≡ false =
                  (let two = pow-suc 2 m in let z = a.size in ground arith) in
                turns_back tree (suc m) idx s o (rw (l, n, h) refl) (rw (e, n, big) refl)
            | inr h ↦ after (ground arith) e (
                sides m (suc d) idx cur ptr tree a (ground arith) h (v (ground arith))
                  (v' (ground arith)))
          ]
        ]
      ]
    where
      below_root : idx ≢ 1
      below_root e = let two = pow-suc 2 d in absurd (omega (arith, a.lo, pow-pos d))

      after :
          get_tree_item tree idx ≡ node_split
          → (get_tree_item tree idx == node_free) ≡ false
          → Sides tree m idx (at_node idx cur ptr down tree) (at_node idx cur ptr up_right tree)
          → Visit tree (suc m) idx (at_node idx cur ptr down tree)
      after n e (ends c b w) = ends c b w
      after n e (back c b r r' w) =
          passes (c + 1) (omega arith) (no_room tree m idx r r' e) (λ f g q.
            w f (suc g) (omega arith)
            ∙ goes (suc g) g size (at_node idx cur ptr up_right tree)
                (go_up (at_node idx cur ptr down tree)) refl
                (over-up_right idx cur ptr tree below_root)
                (rw (not_leaf memory size m (suc d) idx cur ptr a) refl))

  visit :
      (m d idx cur ptr : ℕ) (tree : Cells ℕ)
      → At memory m (suc d) idx cur ptr
      → size ≤ cur
      → Visit tree m idx (at_node idx cur ptr down tree)
  visit zero d idx cur ptr tree a le = leaf-Visit (suc d) idx cur ptr tree a le
  visit (suc m) d idx cur ptr tree a le =
      inner-Visit m d idx cur ptr tree a le
        (λ h. visit m (suc d) _ _ _ tree (At-left memory m (suc d) idx cur ptr a).0 h)
        (λ h. visit m (suc d) _ _ _ tree (At-right memory m (suc d) idx cur ptr a).0 h)

  ended_tree : (t t' : Cells ℕ) → ended t ≡ ended t' → t ≡ t'
  unfolding tree_of
  ended_tree t t' e = ap tree_of e

  -- When the walk from the root ends with nothing, the tree is as before, and no free node that the size fits
  -- could be reached.
  pub ended_lem :
      (ptr : ℕ) (tree t : Cells ℕ)
      → At memory 18 0 1 8_388_608 ptr
      → size ≤ 4_194_304
      → (get_tree_item tree 1 ≡ node_free) ⊎ (get_tree_item tree 1 ≡ node_split)
      → search_loop search_fuel size (at_node 1 8_388_608 ptr down tree) ≡ ended t
      → (t ≡ tree) × (has_room tree size 18 1 ≡ false)
  ended_lem ptr tree t a le (inl e) q =
      let (c, b, w) = free_below memory size 18 0 1 8_388_608 ptr tree a e (omega arith) in
      absurd (w search_fuel (search_fuel - c) (omega arith) t q)
  ended_lem ptr tree t a le (inr e) q = from_sides (
      sides 17 0 1 8_388_608 ptr tree a e (ground arith)
        (visit 17 0 _ _ _ tree (At-left memory 17 0 1 8_388_608 ptr a).0 (omega arith))
        (visit 17 0 _ _ _ tree (At-right memory 17 0 1 8_388_608 ptr a).0 (omega arith)))
    where
      from_sides :
          Sides tree 17 1
            (at_node 1 8_388_608 ptr down tree)
            (at_node 1 8_388_608 ptr up_right tree)
          → (t ≡ tree) × (has_room tree size 18 1 ≡ false)
      from_sides (ends c b w) = absurd (w search_fuel (search_fuel - c) (omega arith) t q)
      from_sides (back c b n n' w) =
          let o = w search_fuel (suc (search_fuel - suc c)) (omega arith) in
          (
            ended_tree t tree (sym q ∙ o ∙ over (search_fuel - suc c) size 8_388_608 ptr tree),
            no_room tree 17 1 n n' (rw e refl),
          )
