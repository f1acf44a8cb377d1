-- ===== src/Chunk/Jumps/Skip.antt =====
-- link_neighbours, clear_node and skip_level of src/chunk.c take a block of free nodes out of the links of
-- its level.
use sealloc.Base.{
  ℕ, suc, ◌+◌, ◌-◌, ◌^◌, ◌≤◌, ◌<◌, ◌≡◌, ◌≢◌, refl, ◌∙◌, ap, sym, true, false, Cells, arith, inl,
  inr, ◌⊎◌, ◌==◌, eq-cases, store, store_lem, u16, u32, ==_self,
}
use sealloc.Chunk.{
  JumpNode, Chunk, set_jt_item_next, set_jt_item_prev, incr_jt_item_next, incr_jt_item_prev, sub32,
}
use sealloc.Chunk.Allocate.{skip_level}
use sealloc.Chunk.Jumps.{from, to}
use sealloc.Chunk.Jumps.Items.{
  item-at, next-set_next, next-set_next_other, prev-set_next, prev-set_prev, prev-set_prev_other,
  next-set_prev, incr_next_lem, incr_prev_lem,
}
use sealloc.Chunk.Jumps.Relink.{Relinked}

-- A block `a` .. `b` with the free nodes beside it, in the links of a level.
pub record Block (jt : Cells JumpNode) (a b u v : ℕ) : Type 0 where
  pub pos : 0 < a
  pub order : a ≤ b
  pub inside : b < 4096
  pub left : u < a
  pub right : (v ≡ 0) ⊎ ((b < v) × (v < 4096))
  pub prev_a : (jt (a - 1)).prev ≡ from u a
  pub next_b : (jt (b - 1)).next ≡ to b v
  pub next_u : u ≢ 0 → (jt (u - 1)).next ≡ to u a
  pub prev_v : v ≢ 0 → (jt (v - 1)).prev ≡ from b v

-- The block has left the links, the first index and the count of its level, and no other level changes.
pub record Skipped (level a b u v : ℕ) (c c' : Chunk) : Type 0 where
  pub relinked : Relinked c.jump_tree c'.jump_tree a b u v
  pub first_moved : u ≡ 0 → c'.jump_tree_first_index level ≡ v
  pub first_kept : u ≢ 0 → c'.jump_tree_first_index level ≡ c.jump_tree_first_index level
  pub first_other : (l : ℕ) → l ≢ level → c'.jump_tree_first_index l ≡ c.jump_tree_first_index l
  pub count : c.avail_nodes_count level ≡ c'.avail_nodes_count level + suc (b - a)
  pub count_other : (l : ℕ) → l ≢ level → c'.avail_nodes_count l ≡ c.avail_nodes_count l

pub to-some : (x n : ℕ) → n ≢ 0 → to x n ≡ n - x
to-some x n h = ground arith

pub from-some : (p x : ℕ) → p ≢ 0 → from p x ≡ x - p
from-some p x h = ground arith

-- The block has no neighbour on one side or on both, or its neighbours are linked.
module _ (jt : Cells JumpNode) (a b u v : ℕ) (k : Block jt a b u v) where
  relink_none : u ≡ 0 → v ≡ 0 → Relinked jt jt a b u v
  relink_none eu ev = record {
    next_u = λ n. absurd (n eu);
    prev_v = λ n. absurd (n ev);
    next_same = λ i p o n. refl;
    prev_same = λ i p o n. refl;
  }

  pub relink_u : u ≢ 0 → v ≡ 0 → Relinked jt (set_jt_item_next jt u 0) a b u v
  relink_u nu ev =
      let p : 0 < u = omega arith in
      let lt : u < 4096 = omega (arith, k.left, k.order, k.inside) in
      record {
        next_u = λ n. next-set_next jt u 0 p lt ∙ sym (ap (to u) ev);
        prev_v = λ n. absurd (n ev);
        next_same = λ i q o n. next-set_next_other jt u 0 p lt i q n;
        prev_same = λ i q o n. prev-set_next jt u 0 p lt i q;
      }

  pub relink_v : u ≡ 0 → b < v → v < 4096 → Relinked jt (set_jt_item_prev jt v 0) a b u v
  relink_v eu bv lt =
      let p : 0 < v = omega arith in
      record {
        next_u = λ n. absurd (n eu);
        prev_v = λ n. prev-set_prev jt v 0 p lt ∙ sym (ap (λ (x : ℕ). from x v) eu);
        next_same = λ i q o n. next-set_prev jt v 0 p lt i q;
        prev_same = λ i q o n. prev-set_prev_other jt v 0 p lt i q n;
      }

  -- `x` and `y` are what the increments add.
  pub relink_uv :
      (x y : ℕ)
      → u ≢ 0
      → b < v
      → v < 4096
      → x ≡ v - a
      → y ≡ b - u
      → Relinked jt (incr_jt_item_prev (incr_jt_item_next jt u x) v y) a b u v
  relink_uv x y nu bv lt ex ey =
      let pu : 0 < u = omega arith in
      let ltu : u < 4096 = omega (arith, k.left, k.order, k.inside) in
      let pv : 0 < v = omega arith in
      let jt1 = set_jt_item_next jt u (v - u) in
      let e1 : incr_jt_item_next jt u x ≡ jt1 =
        incr_next_lem jt u x pu ltu
        ∙ ap (set_jt_item_next jt u)
            (omega (arith, k.next_u nu, to-some u a (omega arith), k.left, k.order)) in
      let e2 : incr_jt_item_prev jt1 v y ≡ set_jt_item_prev jt1 v (v - u) =
        incr_prev_lem jt1 v y pv lt
        ∙ ap (set_jt_item_prev jt1 v) (
            omega (
              arith,
              prev-set_next jt u (v - u) pu ltu v pv,
              k.prev_v (omega arith),
              from-some b v (omega arith),
              k.left,
              k.order,
            )) in
      rw (e1, e2)
        record {
          next_u = λ n.
              next-set_prev jt1 v (v - u) pv lt u pu
              ∙ next-set_next jt u (v - u) pu ltu
              ∙ sym (to-some u v (omega arith));
          prev_v = λ n. prev-set_prev jt1 v (v - u) pv lt ∙ sym (from-some u v nu);
          next_same = λ i q o n.
              next-set_prev jt1 v (v - u) pv lt i q ∙ next-set_next_other jt u (v - u) pu ltu i q n;
          prev_same = λ i q o n.
              prev-set_prev_other jt1 v (v - u) pv lt i q n ∙ prev-set_next jt u (v - u) pu ltu i q;
        }

-- A node that has left the links is cleared.
pub clear-Relinked :
    (jt jt' : Cells JumpNode) (a u v : ℕ)
    → 0 < a
    → a < 4096
    → u < a
    → (v ≡ 0) ⊎ (a < v)
    → Relinked jt jt' a a u v
    → Relinked jt (set_jt_item_prev (set_jt_item_next jt' a 0) a 0) a a u v
clear-Relinked jt jt' a u v p lt ua av r =
    let jt1 = set_jt_item_next jt' a 0 in
    record {
      next_u = λ n.
          next-set_prev jt1 a 0 p lt u (omega arith)
          ∙ next-set_next_other jt' a 0 p lt u (omega arith) (omega arith)
          ∙ r.next_u n;
      prev_v = λ n.
          prev-set_prev_other jt1 a 0 p lt v (omega arith) (omega arith)
          ∙ prev-set_next jt' a 0 p lt v (omega arith)
          ∙ r.prev_v n;
      next_same = λ i q o n.
          next-set_prev jt1 a 0 p lt i q
          ∙ next-set_next_other jt' a 0 p lt i q (omega arith)
          ∙ r.next_same i q o n;
      prev_same = λ i q o n.
          prev-set_prev_other jt1 a 0 p lt i q (omega arith)
          ∙ prev-set_next jt' a 0 p lt i q
          ∙ r.prev_same i q o n;
    }

-- A test for 0.
pub zero-test : (x : ℕ) → x ≡ 0 → (x == 0) ≡ true
zero-test x h = ground arith

pub pos-test : (x : ℕ) → x ≢ 0 → (x == 0) ≡ false
pos-test x h = ground arith

pub store_at : (f : Cells ℕ) (i v : ℕ) → store f i v i ≡ v
store_at f i v = store_lem f i v i ∙ rw (==_self i) refl

pub store_off : (f : Cells ℕ) (i v l : ℕ) → l ≢ i → store f i v l ≡ f l
unfolding store
store_off f i v l n = ground arith

-- What the code reads off the ends of a block.
pub no-u : (u a : ℕ) → u ≡ 0 → (from u a == 0) ≡ true
no-u u a e = rw e refl

pub some-u :
    (u a : ℕ) → u < a → a < 4096 → u ≢ 0 → ((from u a == 0) ≡ false) × (sub32 a (from u a) ≡ u)
unfolding sub32
some-u u a h lt n = let e = from-some u a n in rw e (ground arith, omega arith)

pub no-v : (b v : ℕ) → v ≡ 0 → (to b v == 0) ≡ true
no-v b v e = rw e refl

pub some-v : (b v : ℕ) → b < v → v < 4096 → ((to b v == 0) ≡ false) × (u32 (b + to b v) ≡ v)
some-v b v h n = let e = to-some b v (omega arith) in rw e (ground arith, omega arith)

-- skip_level on the level of a block.
module _ (level a b u v : ℕ) (c : Chunk) (k : Block c.jump_tree a b u v)
    (count : suc (b - a) ≤ c.avail_nodes_count level)
    (small : c.avail_nodes_count level < 4096) where
  count_after :
      u16 (c.avail_nodes_count level + (2 ^ 32 - suc (b - a)))
      ≡ c.avail_nodes_count level - suc (b - a)
  count_after = omega (arith, k.order, k.inside)

  -- What the levels' counts and the other first indices are, whatever the case.
  skipped :
      (jt : Cells JumpNode) (first : Cells ℕ)
      → Relinked c.jump_tree jt a b u v
      → (u ≡ 0 → first level ≡ v)
      → (u ≢ 0 → first level ≡ c.jump_tree_first_index level)
      → ((l : ℕ) → l ≢ level → first l ≡ c.jump_tree_first_index l)
      → Skipped level a b u v c (record c {
        jump_tree = jt;
        jump_tree_first_index = first;
        avail_nodes_count =
            store c.avail_nodes_count level
              (u16 (c.avail_nodes_count level + (2 ^ 32 - suc (b - a))));
      })
  skipped jt first r moved kept other = record {
    relinked = r;
    first_moved = moved;
    first_kept = kept;
    first_other = other;
    count = omega (
      arith,
      store_at c.avail_nodes_count level (u16 (c.avail_nodes_count level + (2 ^ 32 - suc (b - a)))),
      count_after,
    );
    count_other = λ l n. store_off c.avail_nodes_count level _ l n;
  }

  pub skip_level-Skipped : Skipped level a b u v c (skip_level level a b (suc (b - a)) c)
  unfolding skip_level
  skip_level-Skipped =
      let na = item-at c.jump_tree a k.pos (omega (arith, k.order, k.inside)) in
      let nb = item-at c.jump_tree b (omega (arith, k.order, k.pos)) k.inside in
      rw (na, nb, k.prev_a, k.next_b)
        (elim (eq-cases u 0) [
          | inl eu ↦ elim k.right [
            | inl ev ↦
                rw (no-u u a eu, no-v b v ev)
                  (skipped c.jump_tree (store c.jump_tree_first_index level 0)
                    (relink_none c.jump_tree a b u v k eu ev)
                    (λ e. store_at c.jump_tree_first_index level 0 ∙ sym ev) (λ n. absurd (n eu))
                    (λ l n. store_off c.jump_tree_first_index level 0 l n))
            | inr (bv, lt) ↦
                let (tv, at) = some-v b v bv lt in
                rw (no-u u a eu, tv, at)
                  (skipped (set_jt_item_prev c.jump_tree v 0)
                    (store c.jump_tree_first_index level v)
                    (relink_v c.jump_tree a b u v k eu bv lt)
                    (λ e. store_at c.jump_tree_first_index level v) (λ n. absurd (n eu))
                    (λ l n. store_off c.jump_tree_first_index level v l n))
          ]
          | inr nu ↦
              let (tu, atu) = some-u u a k.left (omega (arith, k.order, k.inside)) nu in
              elim k.right [
                | inl ev ↦
                    rw (tu, no-v b v ev, atu)
                      (skipped (set_jt_item_next c.jump_tree u 0) c.jump_tree_first_index
                        (relink_u c.jump_tree a b u v k nu ev) (λ e. absurd (nu e)) (λ n. refl)
                        (λ l n. refl))
                | inr (bv, lt) ↦
                    let (tv, atv) = some-v b v bv lt in
                    rw (tu, tv, atu, atv)
                      (skipped _ c.jump_tree_first_index
                        (relink_uv c.jump_tree a b u v k (u16 (suc (b - a) - 1 + to b v))
                          (u16 (suc (b - a) - 1 + from u a)) nu bv lt
                          (omega (arith, to-some b v (omega arith), k.order))
                          (omega (arith, from-some u a nu, k.order, k.left, k.inside)))
                        (λ e. absurd (nu e)) (λ n. refl) (λ l n. refl))
              ]
        ])
