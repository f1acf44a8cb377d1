-- ===== src/Chunk/Jumps.antt =====
-- The jump tree of src/chunk.c: which nodes of a level its links join, in order.
pub mod Items
pub mod Relink
pub mod Remove
pub mod Blocks
pub mod Skip
pub mod Unlink
pub mod Step
pub mod Tree
pub mod Up
pub mod Down
pub mod Purge
pub mod Take
pub mod Allocate
pub mod Choose
pub mod Runs
pub mod Fresh
pub mod Calls
pub mod Trace
pub mod Below
pub mod Held
pub mod Owned
pub mod Stays
use sealloc.Base.{
  ℕ, zero, suc, ◌+◌, ◌-◌, ◌*◌, ◌^◌, ◌≤◌, ◌<◌, ◌≡◌, refl, ◌∙◌, ap, Bool, true, false, List, [], ◌∷◌,
  ◌++◌, Cells, arith, ◌==◌, if◌then◌else◌, length, Bool-cases, inl, inr, ◌⊎◌,
}
use sealloc.Chunk.{JumpNode, Chunk}

-- Which nodes are free.
abbrev pub Nodes : Type 0
Nodes = ℕ → Bool

-- The free ones of `n` nodes from `lo` on.
unfoldable pub free : Nodes → ℕ → ℕ → List ℕ
free s lo zero = []
free s lo (suc n) = if s lo then lo ∷ free s (lo + 1) n else free s (lo + 1) n

abbrev pub head_or : List ℕ → ℕ → ℕ
head_or [] d = d
head_or (x ∷ xs) d = x

abbrev pub last_or : List ℕ → ℕ → ℕ
last_or [] d = d
last_or (x ∷ xs) d = last_or xs x

-- The distances that a node holds, to the one behind it and to the one ahead of it; 0 is none.
abbrev pub from : ℕ → ℕ → ℕ
from p x = if p == 0 then 0 else x - p

abbrev pub to : ℕ → ℕ → ℕ
to x n = if n == 0 then 0 else n - x

-- The nodes are linked in this order, behind `p` and ahead of `n`.
abbrev pub Seg : Cells JumpNode → ℕ → List ℕ → ℕ → Type 0
Seg jt p [] n = Unit {0}
Seg jt p (x ∷ xs) n =
    ((jt (x - 1)).prev ≡ from p x) × ((jt (x - 1)).next ≡ to x (head_or xs n)) × Seg jt x xs n

-- The free nodes of a level.
abbrev pub row : Nodes → ℕ → List ℕ
row s level = free s (2 ^ level) (2 ^ level)

-- The links, the first index and the count of a level are those of its free nodes.
pub record Level (s : Nodes) (level : ℕ) (c : Chunk) : Type 0 where
  pub links : Seg c.jump_tree 0 (row s level) 0
  pub first : c.jump_tree_first_index level ≡ head_or (row s level) 0
  pub count : c.avail_nodes_count level ≡ length (row s level)

pub Seg-append :
    (jt : Cells JumpNode) (p : ℕ) (xs ys : List ℕ) (n : ℕ)
    → Seg jt p (xs ++ ys) n
    → Seg jt p xs (head_or ys n) × Seg jt (last_or xs p) ys n
Seg-append jt p [] ys n h = (tt, h)
Seg-append jt p (x ∷ []) ys n h = ((h.0, h.1, tt), h.2)
Seg-append jt p (x ∷ y ∷ xs) ys n h =
    let r = Seg-append jt x (y ∷ xs) ys n h.2 in ((h.0, h.1, r.0), r.1)

pub append-Seg :
    (jt : Cells JumpNode) (p : ℕ) (xs ys : List ℕ) (n : ℕ)
    → Seg jt p xs (head_or ys n)
    → Seg jt (last_or xs p) ys n
    → Seg jt p (xs ++ ys) n
append-Seg jt p [] ys n h k = k
append-Seg jt p (x ∷ []) ys n h k = (h.0, h.1, k)
append-Seg jt p (x ∷ y ∷ xs) ys n h k = (h.0, h.1, append-Seg jt x (y ∷ xs) ys n h.2 k)

pub free-skip : (s : Nodes) (lo n : ℕ) → s lo ≡ false → free s lo (suc n) ≡ free s (lo + 1) n
unfolding free
free-skip s lo n h = rw h refl

pub free-take : (s : Nodes) (lo n : ℕ) → s lo ≡ true → free s lo (suc n) ≡ lo ∷ free s (lo + 1) n
unfolding free
free-take s lo n h = rw h refl

-- A range in two parts.
pub free-append : (s : Nodes) (lo m n : ℕ) → free s lo (m + n) ≡ free s lo m ++ free s (lo + m) n
unfolding free
free-append s lo zero n = ap (free s lo) (zero_left n) ∙ ap (λ (x : ℕ). free s x n) (zero_right lo)
  where
    zero_left : (k : ℕ) → 0 + k ≡ k
    zero_left k = omega arith

    zero_right : (k : ℕ) → k ≡ k + 0
    zero_right k = omega arith
free-append s lo (suc m) n = ap (free s lo) (suc_left m n) ∙ elim (Bool-cases (s lo)) [
  | inl e ↦ rw e (ap (λ (xs : List ℕ). lo ∷ xs) (tail (free-append s (lo + 1) m n)))
  | inr e ↦ rw e (tail (free-append s (lo + 1) m n))
]
  where
    suc_left : (j k : ℕ) → suc j + k ≡ suc (j + k)
    suc_left j k = omega arith

    shift : (j k : ℕ) → j + 1 + k ≡ j + suc k
    shift j k = omega arith

    tail :
        free s (lo + 1) (m + n) ≡ free s (lo + 1) m ++ free s (lo + 1 + m) n
        → free s (lo + 1) (m + n) ≡ free s (lo + 1) m ++ free s (lo + suc m) n
    tail h = h ∙ ap (λ (x : ℕ). free s (lo + 1) m ++ free s x n) (shift lo m)

-- Only the nodes of the range matter.
pub free-agree :
    (s t : Nodes) (lo n : ℕ)
    → ((i : ℕ) → lo ≤ i → i < lo + n → t i ≡ s i)
    → free t lo n ≡ free s lo n
unfolding free
free-agree s t lo zero h = refl
free-agree s t lo (suc n) h =
    rw
      (
        h lo (omega arith) (omega arith),
        free-agree s t (lo + 1) n (λ i p q. h i (omega arith) (omega arith)),
      )
      refl

pub free-none :
    (s : Nodes) (lo n : ℕ) → ((i : ℕ) → lo ≤ i → i < lo + n → s i ≡ false) → free s lo n ≡ []
unfolding free
free-none s lo zero h = refl
free-none s lo (suc n) h =
    free-skip s lo n (h lo (omega arith) (omega arith))
    ∙ free-none s (lo + 1) n (λ i p q. h i (omega arith) (omega arith))

-- No node of the range is free, or the first and the last of the free ones are in it.
pub head-free :
    (s : Nodes) (lo n : ℕ)
    → (free s lo n ≡ [])
      ⊎ ((lo ≤ head_or (free s lo n) 0)
          × (head_or (free s lo n) 0 < lo + n)
          × (s (head_or (free s lo n) 0) ≡ true))
unfolding free
head-free s lo zero = inl refl
head-free s lo (suc n) = elim (Bool-cases (s lo)) [
  | inl e ↦ rw e (inr (omega arith, omega arith, e))
  | inr e ↦ rw e (elim (head-free s (lo + 1) n) [
    | inl h ↦ inl h
    | inr (a, b, h) ↦ inr (omega arith, omega arith, h)
  ])
]

pub last-free :
    (s : Nodes) (lo n p : ℕ)
    → (free s lo n ≡ [])
      ⊎ ((lo ≤ last_or (free s lo n) p)
          × (last_or (free s lo n) p < lo + n)
          × (s (last_or (free s lo n) p) ≡ true))
unfolding free
last-free s lo zero p = inl refl
last-free s lo (suc n) p = elim (Bool-cases (s lo)) [
  | inl e ↦ rw e (elim (last-free s (lo + 1) n lo) [
    | inl h ↦ inr (rw h (omega arith, omega arith, e))
    | inr (a, b, h) ↦ inr (omega arith, omega arith, h)
  ])
  | inr e ↦ rw e (elim (last-free s (lo + 1) n p) [
    | inl h ↦ inl h
    | inr (a, b, h) ↦ inr (omega arith, omega arith, h)
  ])
]
