-- ===== src/InternalAllocator/Under.antt =====
-- The nodes of the buddy tree of src/internal_allocator.c that lie under a node.
use sealloc.Base.{
  ℕ, zero, suc, ◌+◌, ◌*◌, ◌^◌, ◌≤◌, ◌<◌, ◌≡◌, ◌∙◌, sym, ap, subst, Cells, arith, Bool-cases, inl,
  inr, leb,
}
use native.Mathlib.Nat.{pow-suc, one-le-pow, mul-le-mul_right}
use sealloc.Bitmap.{get_tree_item}
use sealloc.InternalAllocator.{node_used}

-- The node `n`, `m` levels above the leaves, is used and its block starts at the pointer.
pub record UsedAt (memory ptr : ℕ) (tree : Cells ℕ) (n m : ℕ) : Type 0 where
  pub used : get_tree_item tree n ≡ node_used
  pub starts : ptr + 2 ^ 23 ≡ memory + 32 * (n * 2 ^ m)
  pub lo : 2 ^ 18 ≤ n * 2 ^ m
  pub hi : n * 2 ^ m + 2 ^ m ≤ 2 ^ 19

-- The node lies under `idx`, which is `m` levels above the leaves.
pub record Under (n k idx m : ℕ) : Type 0 where
  pub height : k ≤ m
  pub lo : idx * 2 ^ m ≤ n * 2 ^ k
  pub hi : n * 2 ^ k + 2 ^ k ≤ idx * 2 ^ m + 2 ^ m

pub left_lem : (n x : ℕ) → n * 2 * x ≡ n * (x * 2)
left_lem n x = grind arith

pub right_lem : (n x : ℕ) → (n * 2 + 1) * x ≡ n * (x * 2) + x
right_lem n x = grind arith

pub size_lem : (n x : ℕ) → n * (32 * x) ≡ 32 * (n * x)
size_lem n x = grind arith

-- A node of the same height under a node is that node.
same_node : (n k idx m : ℕ) → Under n k idx m → m ≤ k → n ≡ idx
same_node n k idx m u h =
    let e : k ≡ m = omega (arith, u.height) in
    let lo : idx * 2 ^ m ≤ n * 2 ^ m = subst (λ (x : ℕ). idx * 2 ^ m ≤ n * 2 ^ x) e u.lo in
    let hi : n * 2 ^ m ≤ idx * 2 ^ m =
      subst (λ (x : ℕ). n * 2 ^ x + 2 ^ x ≤ idx * 2 ^ m + 2 ^ m → n * 2 ^ m ≤ idx * 2 ^ m) (sym e)
        (λ q. omega arith) u.hi in
    squeeze n idx (2 ^ m) (one-le-pow m 2 (omega arith)) (omega arith)
  where
    squeeze : (n idx x : ℕ) → 1 ≤ x → n * x ≡ idx * x → n ≡ idx
    squeeze n idx x p e = grind arith

pub not_leaf : (idx x : ℕ) → 1 ≤ x → 2 ^ 18 ≤ idx → 2 ^ 18 * x ≤ idx * x
not_leaf idx x p l = mul-le-mul_right x l

-- A used node that starts at the address and is no lower than `idx` is `idx`.
pub same_start :
    (n k idx m ptr_cur ptr memory : ℕ) (tree : Cells ℕ)
    → ptr_cur + 2 ^ 23 ≡ memory + 32 * (idx * 2 ^ m)
    → Under n k idx m
    → UsedAt memory ptr tree n k
    → m ≤ k
    → (ptr_cur ≡ ptr) × (get_tree_item tree idx ≡ node_used)
same_start n k idx m ptr_cur ptr memory tree p u a h =
    let e : k ≡ m = omega (arith, u.height) in
    let same = same_node n k idx m u h in
    let at : n * 2 ^ k ≡ idx * 2 ^ m =
      ap (λ (x : ℕ). x * 2 ^ k) same ∙ ap (λ (x : ℕ). idx * 2 ^ x) e in
    (omega (arith, a.starts), subst (λ (x : ℕ). get_tree_item tree x ≡ node_used) same a.used)

pow_quotient : (k m : ℕ) → k ≤ m → (q : ℕ) × (2 ^ m ≡ q * 2 ^ k)
pow_quotient zero zero h = (1, omega arith)
pow_quotient (suc k) zero h = absurd (omega arith)
pow_quotient k (suc m) h = elim (Bool-cases (leb k m)) [
  | inl t ↦
      let (q, e) = pow_quotient k m (ground arith) in
      (q * 2, pow-suc 2 m ∙ (let l = left_lem q (2 ^ k) in omega arith))
  | inr f ↦ (let e : k ≡ suc m = ground arith in (1, ap (λ (x : ℕ). 2 ^ x) (sym e) ∙ omega arith))
]

multiple_lt : (n y p : ℕ) → n * p < y * p → n * p + p ≤ y * p
multiple_lt n y p lt = elim (Bool-cases (leb y n)) [
  | inl t ↦ (let h : y * p ≤ n * p = mul-le-mul_right p (ground arith) in absurd (omega arith))
  | inr f ↦ (let h : suc n * p ≤ y * p = mul-le-mul_right p (ground arith) in omega arith)
]

regroup : (x q p : ℕ) → x * (q * p) ≡ x * q * p
regroup x q p = grind arith

-- A node that starts before another one, and is no higher, ends before it.
pub before_lem : (n k y m : ℕ) → k ≤ m → n * 2 ^ k < y * 2 ^ m → n * 2 ^ k + 2 ^ k ≤ y * 2 ^ m
before_lem n k y m h lt =
    let (q, e) = pow_quotient k m h in
    let r : y * 2 ^ m ≡ y * q * 2 ^ k = ap (λ (x : ℕ). y * x) e ∙ regroup y q (2 ^ k) in
    let z = multiple_lt n (y * q) (2 ^ k) (omega arith) in omega arith
