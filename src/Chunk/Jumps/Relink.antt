-- ===== src/Chunk/Jumps/Relink.antt =====
-- A block of neighbours leaves the links of its level: what that changes, and that the rest of the level
-- stays in order.
use sealloc.Base.{
  ℕ, zero, suc, ◌+◌, ◌-◌, ◌≤◌, ◌<◌, ◌≡◌, ◌≢◌, refl, ◌∙◌, ap, sym, true, List, [], ◌∷◌, Cells, arith,
  Bool-cases, inl, inr, ◌⊎◌,
}
use sealloc.Chunk.{JumpNode}
use sealloc.Chunk.Jumps.{Nodes, free, head_or, last_or, from, to, Seg, last-free}

-- The nodes `a` .. `b` lie between `u` and `v`, 0 for none, which are now linked with each other.
pub record Relinked (jt jt' : Cells JumpNode) (a b u v : ℕ) : Type 0 where
  pub next_u : u ≢ 0 → (jt' (u - 1)).next ≡ to u v
  pub prev_v : v ≢ 0 → (jt' (v - 1)).prev ≡ from u v
  pub next_same :
      (i : ℕ) → 0 < i → (i < a) ⊎ (b < i) → i ≢ u → (jt' (i - 1)).next ≡ (jt (i - 1)).next
  pub prev_same :
      (i : ℕ) → 0 < i → (i < a) ⊎ (b < i) → i ≢ v → (jt' (i - 1)).prev ≡ (jt (i - 1)).prev

-- A list whose last entry is not the default has a head.
head-default : (xs : List ℕ) (d a v : ℕ) → last_or xs d ≢ d → head_or xs a ≡ head_or xs v
head-default [] d a v n = absurd (n refl)
head-default (x ∷ xs) d a v n = refl

module _ (s : Nodes) (jt jt' : Cells JumpNode) where
  -- Links that no node of a range has lost.
  pub Seg-agree :
      (lo n p q : ℕ)
      → ((i : ℕ) → lo ≤ i → i < lo + n → s i ≡ true → (jt' (i - 1)).next ≡ (jt (i - 1)).next)
      → ((i : ℕ) → lo ≤ i → i < lo + n → s i ≡ true → (jt' (i - 1)).prev ≡ (jt (i - 1)).prev)
      → Seg jt p (free s lo n) q
      → Seg jt' p (free s lo n) q
  unfolding free
  Seg-agree lo zero p q = λ f g h. tt
  Seg-agree lo (suc n) p q = elim (Bool-cases (s lo)) [
    | inl e ↦ rw e λ f g h. (
      g lo (omega arith) (omega arith) e ∙ h.0,
      f lo (omega arith) (omega arith) e ∙ h.1,
      Seg-agree (lo + 1) n lo q (λ i x y. f i (omega arith) (omega arith))
          (λ i x y. g i (omega arith) (omega arith)) h.2,
    )
    | inr e ↦ rw e λ f g h.
        Seg-agree (lo + 1) n p q (λ i x y. f i (omega arith) (omega arith))
          (λ i x y. g i (omega arith) (omega arith)) h
  ]

  -- The last node of a range has a new node ahead.
  pub Seg-end :
      (lo n p a v : ℕ)
      → ((i : ℕ) → lo ≤ i → i < lo + n → i ≡ last_or (free s lo n) p → (jt' (i - 1)).next ≡ to i v)
      → ((i : ℕ)
          → lo ≤ i
          → i < lo + n
          → i ≢ last_or (free s lo n) p
          → (jt' (i - 1)).next ≡ (jt (i - 1)).next)
      → ((i : ℕ) → lo ≤ i → i < lo + n → (jt' (i - 1)).prev ≡ (jt (i - 1)).prev)
      → Seg jt p (free s lo n) a
      → Seg jt' p (free s lo n) v
  unfolding free
  Seg-end lo zero p a v = λ e f g h. tt
  Seg-end lo (suc n) p a v = elim (Bool-cases (s lo)) [
    | inl t ↦ rw t λ e f g h. (
      g lo (omega arith) (omega arith) ∙ h.0,
      elim (last-free s (lo + 1) n lo) [
        | inl none_left ↦
            let last = ap (λ (xs : List ℕ). last_or xs lo) none_left in
            e lo (omega arith) (omega arith) (sym last)
            ∙ sym (ap (λ (xs : List ℕ). to lo (head_or xs v)) none_left)
        | inr (after, _, _) ↦
            f lo (omega arith) (omega arith) (omega arith)
            ∙ h.1
            ∙ ap (to lo) (head-default (free s (lo + 1) n) lo a v (omega arith))
      ],
      Seg-end (lo + 1) n lo a v (λ i x y. e i (omega arith) (omega arith))
          (λ i x y. f i (omega arith) (omega arith)) (λ i x y. g i (omega arith) (omega arith)) h.2,
    )
    | inr t ↦ rw t λ e f g h.
        Seg-end (lo + 1) n p a v (λ i x y. e i (omega arith) (omega arith))
          (λ i x y. f i (omega arith) (omega arith)) (λ i x y. g i (omega arith) (omega arith)) h
  ]

  -- The first node of a range has a new node behind.
  pub Seg-start :
      (lo n p u q : ℕ)
      → ((i : ℕ)
          → lo ≤ i
          → i < lo + n
          → i ≡ head_or (free s lo n) 0
          → (jt' (i - 1)).prev ≡ from u i)
      → ((i : ℕ)
          → lo ≤ i
          → i < lo + n
          → i ≢ head_or (free s lo n) 0
          → (jt' (i - 1)).prev ≡ (jt (i - 1)).prev)
      → ((i : ℕ) → lo ≤ i → i < lo + n → (jt' (i - 1)).next ≡ (jt (i - 1)).next)
      → Seg jt p (free s lo n) q
      → Seg jt' u (free s lo n) q
  unfolding free
  Seg-start lo zero p u q = λ e g f h. tt
  Seg-start lo (suc n) p u q = elim (Bool-cases (s lo)) [
    | inl t ↦ rw t λ e g f h. (
      e lo (omega arith) (omega arith) refl,
      f lo (omega arith) (omega arith) ∙ h.1,
      Seg-agree (lo + 1) n lo q (λ i x y _. f i (omega arith) (omega arith))
          (λ i x y _. g i (omega arith) (omega arith) (omega arith)) h.2,
    )
    | inr t ↦ rw t λ e g f h.
        Seg-start (lo + 1) n p u q (λ i x y. e i (omega arith) (omega arith))
          (λ i x y. g i (omega arith) (omega arith)) (λ i x y. f i (omega arith) (omega arith)) h
  ]
