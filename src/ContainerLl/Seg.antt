-- ===== src/ContainerLl/Seg.antt =====
-- The list that a doubly linked chain of entries stands for.
use sealloc.Base.{ℕ, ◌+◌, ◌≡◌, refl, ◌≢◌, ◌⊎◌, inl, inr, List, [], ◌∷◌, true, false, arith}
use sealloc.Base.{Cells, has, length, ◌==◌, if◌then◌else◌, eq-cases}
use sealloc.ContainerLl.{null, Entry}

-- From `p`, whose `bk` is `prev`, the entries `xs` follow one another by `fd`, each with its `bk` to
-- the one before; they are distinct, none is null, and the last has a null `fd`.
abbrev pub Seg : Cells Entry → ℕ → ℕ → List ℕ → Type 0
Seg m prev p [] = p ≡ null
Seg m prev p (x ∷ xs) =
    (p ≡ x) × (x ≢ null) × ((m x).bk ≡ prev) × (has x xs ≡ false) × Seg m x (m x).fd xs

abbrev pub IsList : Cells Entry → ℕ → List ℕ → Type 0
IsList m head xs = Seg m null head xs

unfoldable pub erase : ℕ → List ℕ → List ℕ
erase a [] = []
erase a (x ∷ xs) = if x == a then xs else x ∷ erase a xs

pub frame :
    (m m' : Cells Entry) (prev p : ℕ) (xs : List ℕ)
    → Seg m prev p xs
    → ((a : ℕ) → has a xs ≡ true → ((m' a).fd ≡ (m a).fd) × ((m' a).bk ≡ (m a).bk))
    → Seg m' prev p xs
frame m m' prev p [] s same = s
frame m m' prev p (x ∷ xs) s same =
    let here = same x (ground arith) in
    let rest = frame m m' x (m x).fd xs s.4 (λ a i. same a (ground arith)) in
    (s.0, s.1, ground arith, s.3, rw here.0 rest)

pub not-has-null :
    (m : Cells Entry) (prev p : ℕ) (xs : List ℕ) → Seg m prev p xs → has null xs ≡ false
not-has-null m prev p [] s = refl
not-has-null m prev p (x ∷ xs) s = ground (arith, not-has-null m x (m x).fd xs s.4)

-- The successor of an entry is null or in the list.
pub fd_of_has :
    (m : Cells Entry) (prev p i : ℕ) (xs : List ℕ)
    → Seg m prev p xs
    → has i xs ≡ true
    → ((m i).fd ≡ null) ⊎ (has (m i).fd xs ≡ true)
fd_of_has m prev p i [] s h = absurd (ground arith)
fd_of_has m prev p i (x ∷ xs) s h = elim (eq-cases i x) [
  | inl e ↦ first xs s e
  | inr ne ↦ elim (fd_of_has m x (m x).fd i xs s.4 (ground arith)) [
    | inl n ↦ inl n
    | inr r ↦ inr (ground arith)
  ]
]
  where
    first :
        (ys : List ℕ)
        → Seg m prev p (x ∷ ys)
        → i ≡ x
        → ((m i).fd ≡ null) ⊎ (has (m i).fd (x ∷ ys) ≡ true)
    first [] s e = inl (ground arith)
    first (y ∷ ys) s e = inr (ground arith)

-- The predecessor of an entry is in the list, but for the first.
pub bk_of_has :
    (m : Cells Entry) (prev p i : ℕ) (xs : List ℕ)
    → Seg m prev p xs
    → has i xs ≡ true
    → ((p ≡ i) × ((m i).bk ≡ prev)) ⊎ (has (m i).bk xs ≡ true)
bk_of_has m prev p i [] s h = absurd (ground arith)
bk_of_has m prev p i (x ∷ xs) s h = elim (eq-cases i x) [
  | inl e ↦ inl (ground arith, ground arith)
  | inr ne ↦ elim (bk_of_has m x (m x).fd i xs s.4 (ground arith)) [
    | inl n ↦ inr (ground arith)
    | inr r ↦ inr (ground arith)
  ]
]

pub not-has-erase : (a i : ℕ) (xs : List ℕ) → has a xs ≡ false → has a (erase i xs) ≡ false
unfolding erase
not-has-erase a i [] h = refl
not-has-erase a i (x ∷ xs) h = ground (arith, not-has-erase a i xs)

pub head_bk :
    (m : Cells Entry) (prev p : ℕ) (xs : List ℕ)
    → Seg m prev p xs
    → has p xs ≡ true
    → (m p).bk ≡ prev
head_bk m prev p [] s h = absurd (ground arith)
head_bk m prev p (x ∷ xs) s h = ground arith

pub not-has-erase_self :
    (m : Cells Entry) (prev p i : ℕ) (xs : List ℕ) → Seg m prev p xs → has i (erase i xs) ≡ false
unfolding erase
not-has-erase_self m prev p i [] s = refl
not-has-erase_self m prev p i (x ∷ xs) s = ground (arith, not-has-erase_self m x (m x).fd i xs s.4)

pub has-erase : (a i : ℕ) (xs : List ℕ) → has a (erase i xs) ≡ true → has a xs ≡ true
unfolding erase
has-erase a i [] h = h
has-erase a i (x ∷ xs) h = ground (arith, has-erase a i xs)

pub length-erase : (i : ℕ) (xs : List ℕ) → has i xs ≡ true → length xs ≡ length (erase i xs) + 1
unfolding erase
length-erase i [] h = absurd (ground arith)
length-erase i (x ∷ xs) h = ground (arith, length-erase i xs)

pub ne_null_of_has :
    (m : Cells Entry) (prev p i : ℕ) (xs : List ℕ) → Seg m prev p xs → has i xs ≡ true → i ≢ null
ne_null_of_has m prev p i xs s h e = absurd (ground (arith, not-has-null m prev p xs s))
