-- ===== src/Chunk/Jumps/Choose.antt =====
-- choose_node and chunk_allocate_run in src/chunk.c: the node that is picked is free.
use sealloc.Base.{
  ℕ, zero, suc, ◌+◌, ◌*◌, ◌/◌, ◌%◌, ◌^◌, ◌≤◌, ◌<◌, ◌≡◌, ◌≢◌, refl, ◌∙◌, ap, sym, subst, Bool, true,
  false, arith, inl, inr, ◌⊎◌, none, some, if◌then◌else◌, Bool-cases, ltb, List, [], ◌∷◌, length,
  not, ◌||◌, ◌==◌, u32, Option,
}
use native.Mathlib.Nat.{pow-suc}
use sealloc.Chunk.{Chunk, get_jt_item}
use sealloc.Chunk.Climb.{pow2_le}
use sealloc.Random.{Rng, splitmix32}
use sealloc.Chunk.Allocate.{
  try_loop, walk_loop, choose_node, random_lookup_tries, random_lookup_treshold_percentage,
}
use sealloc.Chunk.Jumps.{Nodes, Seg, row, free, head_or, to}
use sealloc.Chunk.Jumps.Items.{item-at}
use sealloc.Chunk.Jumps.Take.{FreeNodes}

-- A free node of a level.
abbrev pub FreeIn : Nodes → ℕ → ℕ → Type 0
FreeIn s level idx = (s idx ≡ true) × (2 ^ level ≤ idx) × (idx < 2 ^ suc level)

mod_lt : (a b : ℕ) → 0 < b → a % b < b
mod_lt a b p = grind arith

-- How one try of try_loop ends.
hit_cases :
    (b : Bool) (i idx : ℕ) (rng : Rng) (rest : Option ℕ × Rng)
    → (if b then (some i, rng) else rest).0 ≡ some idx
    → ((b ≡ true) × (i ≡ idx)) ⊎ (rest.0 ≡ some idx)
hit_cases true i idx rng rest e = inl (refl, cc)
hit_cases false i idx rng rest e = inr e

module _ (s : Nodes) (c : Chunk) (v : FreeNodes s c) (level : ℕ) (h : level < 12) where
  -- A node that holds a distance is free.
  linked_free :
      (i : ℕ)
      → 0 < i
      → i < 4096
      → (let node = get_jt_item c.jump_tree i in not (node.prev == 0) || not (node.next == 0))
        ≡ true
      → s i ≡ true
  linked_free i p q t = elim (Bool-cases (s i)) [
    | inl e ↦ e
    | inr e ↦
        let at = item-at c.jump_tree i p q in
        let (a, b) = v.zeros i p q e in
        absurd (two_zeros _ _ (ap (λ n. n.prev) at ∙ a) (ap (λ n. n.next) at ∙ b) t)
  ]
    where
      two_zeros : (x y : ℕ) → x ≡ 0 → y ≡ 0 → (not (x == 0) || not (y == 0)) ≡ true → ⊥
      two_zeros x y a b e = ground arith

  try_loop_lem :
      (tries : ℕ) (rng : Rng) (idx : ℕ)
      → (try_loop tries (2 ^ level) c rng).0 ≡ some idx
      → FreeIn s level idx
  unfolding try_loop
  try_loop_lem zero rng idx e = absurd (let f = e in cc)
  try_loop_lem (suc tries) rng idx e =
      let z = (splitmix32 rng).0 in
      let most = pow2_le level 11 (omega arith) in
      let pos = pow2_le 0 level (omega arith) in
      let two = pow-suc 2 level in
      let small = mod_lt z (2 ^ level) (omega arith) in
      let i = u32 (2 ^ level + z % 2 ^ level) in
      let node = get_jt_item c.jump_tree i in
      elim (hit_cases (not (node.prev == 0) || not (node.next == 0)) i idx (splitmix32 rng).1
        (try_loop tries (2 ^ level) c (splitmix32 rng).1) e) [
          | inl (t, at) ↦ (
            ap s (sym at) ∙ linked_free i (omega arith) (omega arith) t,
            omega arith,
            omega arith,
          )
          | inr e' ↦ try_loop_lem tries (splitmix32 rng).1 idx e'
        ]

  -- The nodes of a list are free, in order.
  Rising : ℕ → List ℕ → Type 0
  Rising lo [] = Unit {0}
  Rising lo (x ∷ xs) = FreeIn s level x × (lo ≤ x) × Rising (x + 1) xs

  Rising-le : (lo lo' : ℕ) (xs : List ℕ) → lo ≤ lo' → Rising lo' xs → Rising lo xs
  unfolding Rising
  Rising-le lo lo' [] le r = tt
  Rising-le lo lo' (x ∷ xs) le r = (r.0, omega (arith, r.1), r.2)

  free-Rising : (lo n : ℕ) → 2 ^ level ≤ lo → lo + n ≤ 2 ^ suc level → Rising lo (free s lo n)
  unfolding Rising free
  free-Rising lo zero p q = tt
  free-Rising lo (suc n) p q = elim (Bool-cases (s lo)) [
    | inl e ↦
        rw e ((e, p, omega arith), omega arith, free-Rising (lo + 1) n (omega arith) (omega arith))
    | inr e ↦ rw e (
        Rising-le lo (lo + 1) (free s (lo + 1) n) (omega arith)
          (free-Rising (lo + 1) n (omega arith) (omega arith)))
  ]

  walk_loop_lem :
      (k x p : ℕ) (xs : List ℕ)
      → k ≤ length xs
      → Rising x (x ∷ xs)
      → Seg c.jump_tree p (x ∷ xs) 0
      → FreeIn s level (walk_loop k x c)
  unfolding walk_loop Rising
  walk_loop_lem zero x p xs le r g = r.0
  walk_loop_lem (suc k) x p [] le r g = absurd (omega arith)
  walk_loop_lem (suc k) x p (y ∷ xs) le r g =
      let most = pow2_le (suc level) 12 (omega arith) in
      let pos = pow2_le 0 level (omega arith) in
      let lt = r.2.1 in
      let (_, lo, hi) = r.0 in
      let (_, _, hi') = r.2.0 in
      let at = item-at c.jump_tree x (omega arith) (omega arith) in
      let step : u32 (x + (get_jt_item c.jump_tree x).next) ≡ y =
        ap (λ n. u32 (x + n.next)) at
        ∙ (ap (λ (d : ℕ). u32 (x + d)) g.1 ∙ jump x y lt (omega arith)) in
      ap-walk k y _ (sym step)
        (walk_loop_lem k y x xs (omega arith) (r.2.0, omega arith, r.2.2) g.2)
    where
      jump : (x y : ℕ) → x + 1 ≤ y → y < 4096 → u32 (x + to x y) ≡ y
      jump x y a b = ground arith

      ap-walk :
          (k y i : ℕ) → y ≡ i → FreeIn s level (walk_loop k y c) → FreeIn s level (walk_loop k i c)
      ap-walk k y i e f = subst (λ (j : ℕ). FreeIn s level (walk_loop k j c)) e f

  walk_row :
      (k lo : ℕ) (xs : List ℕ)
      → k < length xs
      → Rising lo xs
      → Seg c.jump_tree 0 xs 0
      → FreeIn s level (walk_loop k (head_or xs 0) c)
  unfolding Rising
  walk_row k lo [] lt r g = absurd (omega arith)
  walk_row k lo (x ∷ xs) lt r g = walk_loop_lem k x 0 xs (omega arith) (r.0, omega arith, r.2) g

  picked :
      (hit : Option ℕ) (w : ℕ) (rng1 rng2 : Rng)
      → ((idx : ℕ) → hit ≡ some idx → FreeIn s level idx)
      → FreeIn s level w
      → FreeIn s level (elim hit as (λ _. ℕ × Rng) [ some idx ↦ (idx, rng1) | none ↦ (w, rng2) ]).0
  picked none w rng1 rng2 f g = g
  picked (some idx) w rng1 rng2 f g = f idx refl

  tried :
      (b : Bool) (rng : Rng) (idx : ℕ)
      → (if b then try_loop random_lookup_tries (2 ^ level) c rng else (none, rng)).0 ≡ some idx
      → FreeIn s level idx
  tried true rng idx e = try_loop_lem random_lookup_tries rng idx e
  tried false rng idx e = absurd (let f = e in cc)

  pub choose_node_lem :
      (rng : Rng) → c.avail_nodes_count level ≢ 0 → FreeIn s level (choose_node c level rng).0
  unfolding choose_node
  choose_node_lem rng n =
      let test =
        ltb random_lookup_treshold_percentage (c.avail_nodes_count level * 100 / 2 ^ level) in
      let r = if test then try_loop random_lookup_tries (2 ^ level) c rng else (none, rng) in
      let z = (splitmix32 r.1).0 in
      let l = v.levels level h in
      let two = pow-suc 2 level in
      let short = mod_lt z (c.avail_nodes_count level) (omega arith) in
      picked r.0 _ _ _ (λ idx e. tried test rng idx e)
        (subst (λ (x : ℕ). FreeIn s level (walk_loop (z % c.avail_nodes_count level) x c))
          (sym l.first)
          (walk_row (z % c.avail_nodes_count level) (2 ^ level) (row s level) (rw (← l.count) short)
            (free-Rising (2 ^ level) (2 ^ level) (omega arith) (omega arith)) l.links))
