-- ===== src/ContainerLl/Ops.antt =====
-- What the operations of src/container_ll.c do to the list that a chain stands for.
use sealloc.Base.{ℕ, zero, suc, ◌<◌, ◌≡◌, refl, ◌≢◌, inl, inr, List, [], ◌∷◌, true, false, arith}
use sealloc.Base.{Cells, store, has, ◌==◌, if◌then◌else◌, eq-cases, subst, length, some}
use sealloc.ContainerLl.{
  null, Entry, set_fd, set_bk, ll_add, move_head, unlink, ll_del, find_loop, ll_find, list_fuel,
}
use sealloc.ContainerLl.Seg.{
  Seg, IsList, erase, frame, not-has-null, fd_of_has, bk_of_has, head_bk, not-has-erase,
}

-- `g` differs from `m` in no key, and in the links at most at the addresses `xs`.
pub record OnlyLinks (m g : Cells Entry) (xs : List ℕ) : Type 0 where
  pub keys : (a : ℕ) → (g a).key ≡ (m a).key
  pub outside : (a : ℕ) → has a xs ≡ false → g a ≡ m a

-- Adding puts the entry in front.
pub ll_add-cons :
    (head item : ℕ) (m : Cells Entry) (xs : List ℕ)
    → IsList m head xs
    → item ≢ null
    → has item xs ≡ false
    → let r = ll_add head item m in
      (r.0 ≡ item) × IsList r.1 item (item ∷ xs) × OnlyLinks m r.1 (item ∷ xs)
unfolding ll_add set_fd set_bk store
ll_add-cons head item m [] s ne out = (
  ground arith,
  (refl, ne, ground arith, refl, ground arith),
  record { keys = ground arith; outside = ground arith },
)
ll_add-cons head item m (x ∷ xs) s ne out = (
  ground arith,
  (refl, ne, ground arith, out, (ground arith, s.1, ground arith, s.3, rest)),
  record { keys = ground arith; outside = ground arith },
)
  where
    g : Cells Entry
    g = (ll_add head item m).1

    rest : Seg g x (g x).fd xs
    rest =
        let e : (g x).fd ≡ (m x).fd = ground arith in
        rw e (frame m g x (m x).fd xs s.4 (λ a i. (ground arith, ground arith)))

-- The links after an entry is taken out: its neighbours skip it, and its own links are cleared.
record Unlinked (m g : Cells Entry) (item : ℕ) : Type 0 where
  fd :
      (a : ℕ)
      → a ≢ null
      → a ≢ item
      → (g a).fd ≡ (if a == (m item).bk then (m item).fd else (m a).fd)
  bk :
      (a : ℕ)
      → a ≢ null
      → a ≢ item
      → (g a).bk ≡ (if a == (m item).fd then (m item).bk else (m a).bk)
  own_fd : (g item).fd ≡ null
  own_bk : (g item).bk ≡ null
  keys : (a : ℕ) → (g a).key ≡ (m a).key
  at_null : g null ≡ m null
  others : (a : ℕ) → a ≢ item → a ≢ (m item).fd → a ≢ (m item).bk → g a ≡ m a

unlink-Unlinked :
    (item : ℕ) (m : Cells Entry)
    → item ≢ null
    → (m item).fd ≢ item
    → (m item).bk ≢ item
    → Unlinked m (unlink item m) item
unfolding unlink set_fd set_bk store
unlink-Unlinked item m ne nf nb = record {
  fd = λ a h k. ground arith;
  bk = λ a h k. ground arith;
  own_fd = ground arith;
  own_bk = ground arith;
  keys = λ a. ground arith;
  at_null = ground arith;
  others = λ a h k l. ground arith;
}

ll_del-Unlinked :
    (head item : ℕ) (m : Cells Entry)
    → item ≢ null
    → (m item).fd ≢ item
    → (m item).bk ≢ item
    → (head ≡ item → (m item).bk ≡ null)
    → Unlinked m (ll_del head item m).1 item
      × ((ll_del head item m).0 ≡ (if head == item then (m item).fd else head))
unfolding ll_del move_head unlink set_fd set_bk store
ll_del-Unlinked head item m ne nf nb hd = (
  record {
    fd = λ a h k. ground arith;
    bk = λ a h k. ground arith;
    own_fd = ground arith;
    own_bk = ground arith;
    keys = λ a. ground arith;
    at_null = ground arith;
    others = λ a h k l. ground arith;
  },
  ground arith,
)

module _ (m g : Cells Entry) (item : ℕ) (u : Unlinked m g item) where
  -- The part of the list behind the entry, seen from the part before it.
  erase-Seg_here :
      (prev : ℕ) (xs : List ℕ)
      → Seg m item (m item).fd xs
      → (m item).bk ≡ prev
      → has item xs ≡ false
      → has prev xs ≡ false
      → Seg g prev (m item).fd xs
  erase-Seg_here prev [] s b out apart = s
  erase-Seg_here prev (y ∷ ys) s b out apart =
      let ne : (m item).fd ≢ item = ground arith in
      let f : (g (m item).fd).fd ≡ (m (m item).fd).fd = ground (arith, u.fd (m item).fd) in
      let k : (g (m item).fd).bk ≡ prev = ground (arith, u.bk (m item).fd) in
      let e : (m item).fd ≡ y = s.0 in
      let f' : (g y).fd ≡ (m y).fd = ground arith in
      (
        s.0,
        s.1,
        ground arith,
        s.3,
        rw f' (
            frame m g y (m y).fd ys s.4 (λ a i.
              let same : g a ≡ m a = u.others a (ground arith) (ground arith) (ground arith) in
              (ground arith, ground arith))),
      )

  erase-Seg :
      (prev p : ℕ) (xs : List ℕ)
      → Seg m prev p xs
      → has item xs ≡ true
      → has prev xs ≡ false
      → Seg g prev (if p == item then (m item).fd else p) (erase item xs)
  unfolding erase
  erase-Seg prev p [] s h apart = absurd (ground arith)
  erase-Seg prev p (x ∷ xs) s h apart = elim (eq-cases x item) [
    | inl e ↦
        let hit : (x == item) ≡ true = ground arith in
        let hit' : (p == item) ≡ true = ground arith in
        let s' : Seg m item (m item).fd xs = subst (λ y. Seg m y (m y).fd xs) e s.4 in
        rw (hit, hit') (erase-Seg_here prev xs s' (ground arith) (ground arith) (ground arith))
    | inr ne ↦
        let miss : (x == item) ≡ false = ground arith in
        let miss' : (p == item) ≡ false = ground arith in
        let h' : has item xs ≡ true = ground arith in
        let link : (g x).fd ≡ (if (m x).fd == item then (m item).fd else (m x).fd) =
          ground (arith, u.fd x, bk_of_has m x (m x).fd item xs s.4, head_bk m x (m x).fd xs s.4) in
        let back : (g x).bk ≡ prev = ground (arith, u.bk x, fd_of_has m x (m x).fd item xs s.4) in
        rw (miss, miss')
          (
            s.0,
            s.1,
            back,
            not-has-erase x item xs s.3,
            rw link (erase-Seg x (m x).fd xs s.4 h' s.3),
          )
  ]

-- An entry of a list is not its own neighbour, and the first has none before it.
neighbours :
    (m : Cells Entry) (prev p i : ℕ) (xs : List ℕ)
    → Seg m prev p xs
    → has i xs ≡ true
    → has prev xs ≡ false
    → (i ≢ null) × ((m i).fd ≢ i) × ((m i).bk ≢ i) × (p ≡ i → (m i).bk ≡ prev)
neighbours m prev p i [] s h apart = absurd (ground arith)
neighbours m prev p i (x ∷ xs) s h apart = elim (eq-cases i x) [
  | inl e ↦ (ground arith, own_fd xs s e, ground arith, ground arith)
  | inr ne ↦
      let r = neighbours m x (m x).fd i xs s.4 (ground arith) s.3 in (r.0, r.1, r.2, ground arith)
]
  where
    own_fd : (ys : List ℕ) → Seg m prev p (x ∷ ys) → i ≡ x → (m i).fd ≢ i
    own_fd [] q e = ground arith
    own_fd (y ∷ ys) q e = ground arith

-- Deleting an entry of the list takes it out of the chain and clears its links; the other entries
-- stay in order, no key changes, and nothing outside the list does.
pub ll_del-erase :
    (head item : ℕ) (m : Cells Entry) (xs : List ℕ)
    → IsList m head xs
    → has item xs ≡ true
    → let r = ll_del head item m in
      IsList r.1 r.0 (erase item xs)
      × ((r.1 item).fd ≡ null)
      × ((r.1 item).bk ≡ null)
      × OnlyLinks m r.1 xs
ll_del-erase head item m xs s h =
    let n = neighbours m null head item xs s h (not-has-null m null head xs s) in
    let (u, hd) = ll_del-Unlinked head item m n.0 n.1 n.2 n.3 in
    (
      rw hd (
          erase-Seg m (ll_del head item m).1 item u null head xs s h
            (not-has-null m null head xs s)),
      u.own_fd,
      u.own_bk,
      record {
        keys = u.keys;
        outside = λ a out. elim (eq-cases a null) [
          | inl z ↦ rw z u.at_null
          | inr nz ↦
              u.others a (ground arith) (ground (arith, fd_of_has m null head item xs s h))
                (ground (arith, bk_of_has m null head item xs s h))
        ];
      },
    )

-- The first entry of a list with a key, or null.
unfoldable pub find : ℕ → Cells Entry → List ℕ → ℕ
find key m [] = null
find key m (x ∷ xs) = if (m x).key == key then x else find key m xs

find_loop-find :
    (fuel p prev key : ℕ) (m : Cells Entry) (xs : List ℕ)
    → Seg m prev p xs
    → length xs < fuel
    → find_loop fuel p key m ≡ some (find key m xs)
unfolding find_loop find
find_loop-find zero p prev key m xs s lt = absurd (omega arith)
find_loop-find (suc fuel) p prev key m [] s lt = ground arith
find_loop-find (suc fuel) p prev key m (x ∷ xs) s lt =
    let ih = find_loop-find fuel (m x).fd x key m xs s.4 (omega arith) in ground arith

-- The search ends on a list, with the first entry that has the key, or with null if none has.
pub ll_find-find :
    (head key : ℕ) (m : Cells Entry) (xs : List ℕ)
    → IsList m head xs
    → length xs < list_fuel
    → ll_find head key m ≡ some (find key m xs)
unfolding ll_find
ll_find-find head key m xs s lt = find_loop-find list_fuel head null key m xs s lt
