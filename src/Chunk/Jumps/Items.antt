-- ===== src/Chunk/Jumps/Items.antt =====
-- The setters of src/chunk.c on a node of the jump tree: what each node holds after one.
use sealloc.Base.{
  ℕ, true, false, ◌+◌, ◌-◌, ◌<◌, ◌≡◌, ◌≢◌, refl, ◌∙◌, ap, Cells, arith, ◌==◌, store, store_lem, u16,
  if◌then◌else◌, eq-cases, inl, inr,
}
use sealloc.Chunk.{
  JumpNode, get_jt_item, set_jt_item_next, set_jt_item_prev, incr_jt_item_next, incr_jt_item_prev,
  sub32,
}

pub sub32-one : (i : ℕ) → 0 < i → i < 4096 → sub32 i 1 ≡ i - 1
unfolding sub32
sub32-one i p h = omega arith

pub item-at : (jt : Cells JumpNode) (i : ℕ) → 0 < i → i < 4096 → get_jt_item jt i ≡ jt (i - 1)
unfolding get_jt_item
item-at jt i p h = ap jt (sub32-one i p h)

-- Every setter stores one node.
module _ (jt : Cells JumpNode) (i : ℕ) (r : JumpNode) (p : 0 < i) (h : i < 4096) where
  store_self : store jt (sub32 i 1) r (i - 1) ≡ r
  store_self =
      store_lem jt (sub32 i 1) r (i - 1)
      ∙ rw (sub32-one i p h) (ap (λ b. if b then r else jt (i - 1)) (same (i - 1)))
    where
      same : (k : ℕ) → (k == k) ≡ true
      same k = ground arith

  store_other : (j : ℕ) → 0 < j → j ≢ i → store jt (sub32 i 1) r (j - 1) ≡ jt (j - 1)
  store_other j q n =
      store_lem jt (sub32 i 1) r (j - 1)
      ∙ rw (sub32-one i p h) (ap (λ b. if b then r else jt (j - 1)) other)
    where
      other : (j - 1 == i - 1) ≡ false
      other = ground arith

  prev-store :
      r.prev ≡ (jt (i - 1)).prev
      → (j : ℕ) → 0 < j
      → (store jt (sub32 i 1) r (j - 1)).prev ≡ (jt (j - 1)).prev
  prev-store k j q = elim (eq-cases j i) [
    | inl e ↦ rw e (ap (λ n. n.prev) store_self ∙ k)
    | inr n ↦ ap (λ n. n.prev) (store_other j q n)
  ]

  next-store :
      r.next ≡ (jt (i - 1)).next
      → (j : ℕ) → 0 < j
      → (store jt (sub32 i 1) r (j - 1)).next ≡ (jt (j - 1)).next
  next-store k j q = elim (eq-cases j i) [
    | inl e ↦ rw e (ap (λ n. n.next) store_self ∙ k)
    | inr n ↦ ap (λ n. n.next) (store_other j q n)
  ]

module _ (jt : Cells JumpNode) (i v : ℕ) (p : 0 < i) (h : i < 4096) where
  pub next-set_next : (set_jt_item_next jt i v (i - 1)).next ≡ v
  unfolding set_jt_item_next
  next-set_next = ap (λ n. n.next) (store_self jt i _ p h)

  pub next-set_next_other :
      (j : ℕ) → 0 < j → j ≢ i → (set_jt_item_next jt i v (j - 1)).next ≡ (jt (j - 1)).next
  unfolding set_jt_item_next
  next-set_next_other j q n = ap (λ n. n.next) (store_other jt i _ p h j q n)

  pub prev-set_next : (j : ℕ) → 0 < j → (set_jt_item_next jt i v (j - 1)).prev ≡ (jt (j - 1)).prev
  unfolding set_jt_item_next
  prev-set_next j q = prev-store jt i _ p h (ap (λ k. (jt k).prev) (sub32-one i p h)) j q

  pub prev-set_prev : (set_jt_item_prev jt i v (i - 1)).prev ≡ v
  unfolding set_jt_item_prev
  prev-set_prev = ap (λ n. n.prev) (store_self jt i _ p h)

  pub prev-set_prev_other :
      (j : ℕ) → 0 < j → j ≢ i → (set_jt_item_prev jt i v (j - 1)).prev ≡ (jt (j - 1)).prev
  unfolding set_jt_item_prev
  prev-set_prev_other j q n = ap (λ n. n.prev) (store_other jt i _ p h j q n)

  pub next-set_prev : (j : ℕ) → 0 < j → (set_jt_item_prev jt i v (j - 1)).next ≡ (jt (j - 1)).next
  unfolding set_jt_item_prev
  next-set_prev j q = next-store jt i _ p h (ap (λ k. (jt k).next) (sub32-one i p h)) j q

-- An increment is a write of the sum.
module _ (jt : Cells JumpNode) (i v : ℕ) (p : 0 < i) (h : i < 4096) where
  pub incr_next_lem : incr_jt_item_next jt i v ≡ set_jt_item_next jt i (u16 ((jt (i - 1)).next + v))
  unfolding incr_jt_item_next set_jt_item_next
  incr_next_lem = rw (sub32-one i p h) refl

  pub incr_prev_lem : incr_jt_item_prev jt i v ≡ set_jt_item_prev jt i (u16 ((jt (i - 1)).prev + v))
  unfolding incr_jt_item_prev set_jt_item_prev
  incr_prev_lem = rw (sub32-one i p h) refl
