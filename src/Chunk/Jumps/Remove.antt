-- ===== src/Chunk/Jumps/Remove.antt =====
-- The nodes of a level of the jump tree without a block of them.
use sealloc.Base.{
  ℕ, zero, suc, ◌+◌, ◌-◌, ◌≤◌, ◌<◌, ◌≡◌, ◌≢◌, refl, ◌∙◌, ap, subst, true, false, not, ◌&&◌, leb,
  List, [], ◌∷◌, ◌++◌, Cells, arith, Bool-cases, inl, inr, ◌⊎◌, length,
}
use sealloc.Chunk.{JumpNode}
use sealloc.Chunk.Jumps.{
  Nodes, free, head_or, last_or, from, to, Seg, free-take, last-free, head-free,
}

-- All nodes but `a` .. `b`.
unfoldable pub remove : Nodes → ℕ → ℕ → Nodes
remove s a b i = s i && not (leb a i && leb i b)

-- The free node before `n` nodes of a range, and the one behind; 0 is none.
abbrev pub before : Nodes → ℕ → ℕ → ℕ
before s lo n = last_or (free s lo n) 0

abbrev pub after : Nodes → ℕ → ℕ → ℕ
after s lo n = head_or (free s lo n) 0

pub before-cases :
    (s : Nodes) (lo n : ℕ)
    → (before s lo n ≡ 0)
      ⊎ ((lo ≤ before s lo n) × (before s lo n < lo + n) × (s (before s lo n) ≡ true))
before-cases s lo n = elim (last-free s lo n 0) [
  | inl e ↦ inl (ap (λ (xs : List ℕ). last_or xs 0) e)
  | inr h ↦ inr h
]

pub after-cases :
    (s : Nodes) (lo n : ℕ)
    → (after s lo n ≡ 0)
      ⊎ ((lo ≤ after s lo n) × (after s lo n < lo + n) × (s (after s lo n) ≡ true))
after-cases s lo n = elim (head-free s lo n) [
  | inl e ↦ inl (ap (λ (xs : List ℕ). head_or xs 0) e)
  | inr h ↦ inr h
]

pub remove-outside : (s : Nodes) (a b i : ℕ) → (i < a) ⊎ (b < i) → remove s a b i ≡ s i
unfolding remove
remove-outside s a b i (inl h) = ground arith
remove-outside s a b i (inr h) = ground arith

pub remove-inside : (s : Nodes) (a b i : ℕ) → a ≤ i → i ≤ b → remove s a b i ≡ false
unfolding remove
remove-inside s a b i h k = ground arith

pub remove-sub : (s : Nodes) (a b i : ℕ) → remove s a b i ≡ true → s i ≡ true
unfolding remove
remove-sub s a b i h = ground arith

append_last : (xs ys : List ℕ) (p : ℕ) → last_or (xs ++ ys) p ≡ last_or ys (last_or xs p)
append_last [] ys p = refl
append_last (x ∷ xs) ys p = append_last xs ys x

pub heads : (xs ys zs : List ℕ) → last_or xs 0 ≢ 0 → head_or (xs ++ ys) 0 ≡ head_or (xs ++ zs) 0
heads [] ys zs n = absurd (n refl)
heads (x ∷ xs) ys zs n = refl

pub length-zero : (xs : List ℕ) → length xs ≡ 0 → xs ≡ []
length-zero [] e = refl
length-zero (x ∷ xs) e = absurd (omega arith)

pub length-free : (s : Nodes) (lo n : ℕ) → length (free s lo n) ≤ n
unfolding free
length-free s lo zero = omega arith
length-free s lo (suc n) = elim (Bool-cases (s lo)) [
  | inl e ↦ rw e (omega (arith, length-free s (lo + 1) n))
  | inr e ↦ rw e (omega (arith, length-free s (lo + 1) n))
]

pub length-append : (xs ys : List ℕ) → length (xs ++ ys) ≡ length xs + length ys
length-append [] ys = omega arith
length-append (x ∷ xs) ys = omega (arith, length-append xs ys)

-- A block that is free throughout.
pub block_last :
    (s : Nodes) (a m p : ℕ)
    → ((i : ℕ) → a ≤ i → i ≤ a + m → s i ≡ true)
    → last_or (free s a (suc m)) p ≡ a + m
unfolding free
block_last s a zero p h =
    ap (λ (xs : List ℕ). last_or xs p) (free-take s a 0 (h a (omega arith) (omega arith)))
    ∙ omega arith
block_last s a (suc m) p h =
    ap (λ (xs : List ℕ). last_or xs p) (free-take s a (suc m) (h a (omega arith) (omega arith)))
    ∙ (block_last s (a + 1) m a (λ i x y. h i (omega arith) (omega arith)) ∙ omega arith)

pub block_length :
    (s : Nodes) (a m : ℕ) → ((i : ℕ) → a ≤ i → i < a + m → s i ≡ true) → length (free s a m) ≡ m
unfolding free
block_length s a zero h = refl
block_length s a (suc m) h =
    ap (λ (xs : List ℕ). length xs) (free-take s a m (h a (omega arith) (omega arith)))
    ∙ ap suc (block_length s (a + 1) m (λ i x y. h i (omega arith) (omega arith)))

pub block_ends :
    (s : Nodes) (jt : Cells JumpNode) (a m p q : ℕ)
    → ((i : ℕ) → a ≤ i → i ≤ a + m → s i ≡ true)
    → Seg jt p (free s a (suc m)) q
    → ((jt (a - 1)).prev ≡ from p a) × ((jt (a + m - 1)).next ≡ to (a + m) q)
unfolding free
block_ends s jt a zero p q h g =
    let at : a ≡ a + 0 = omega arith in
    let g' =
      subst (λ (xs : List ℕ). Seg jt p xs q) (free-take s a 0 (h a (omega arith) (omega arith)))
        g in
    (g'.0, subst (λ (x : ℕ). (jt (x - 1)).next ≡ to x q) at g'.1)
block_ends s jt a (suc m) p q h g =
    let at : a + 1 + m ≡ a + suc m = omega arith in
    let g' =
      subst (λ (xs : List ℕ). Seg jt p xs q)
        (free-take s a (suc m) (h a (omega arith) (omega arith))) g in
    let r = block_ends s jt (a + 1) m a q (λ i x y. h i (omega arith) (omega arith)) g'.2 in
    (g'.0, subst (λ (x : ℕ). (jt (x - 1)).next ≡ to x q) at r.1)

-- What the last and the first node of some links hold.
pub last_next :
    (jt : Cells JumpNode) (p : ℕ) (xs : List ℕ) (q : ℕ)
    → last_or xs 0 ≢ 0
    → Seg jt p xs q
    → (jt (last_or xs 0 - 1)).next ≡ to (last_or xs 0) q
last_next jt p [] q n h = absurd (n refl)
last_next jt p (x ∷ []) q n h = h.1
last_next jt p (x ∷ y ∷ xs) q n h = last_next jt x (y ∷ xs) q n h.2

pub head_prev :
    (jt : Cells JumpNode) (p : ℕ) (xs : List ℕ) (q : ℕ)
    → head_or xs 0 ≢ 0
    → Seg jt p xs q
    → (jt (head_or xs 0 - 1)).prev ≡ from p (head_or xs 0)
head_prev jt p [] q n h = absurd (n refl)
head_prev jt p (x ∷ xs) q n h = h.0
