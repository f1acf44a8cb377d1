-- ===== src/Chunk/Jumps/Unlink.antt =====
-- unlink_node, a part of chunk_allocate_with_node in src/chunk.c, takes one free node out of the links of its
-- level and clears it.
use sealloc.Base.{
  ℕ, ◌+◌, ◌-◌, ◌^◌, ◌<◌, ◌≡◌, ◌≢◌, refl, ◌∙◌, sym, Cells, arith, inl, inr, ◌⊎◌, eq-cases, store,
  u16,
}
use sealloc.Chunk.{JumpNode, Chunk, get_jt_item, set_jt_item_next, set_jt_item_prev, sub32}
use sealloc.Chunk.Allocate.{link_neighbours, clear_node, unlink_node}
use sealloc.Chunk.Jumps.{from, to}
use sealloc.Chunk.Jumps.Items.{
  item-at, next-set_next, next-set_next_other, prev-set_next, prev-set_prev, next-set_prev,
}
use sealloc.Chunk.Jumps.Relink.{Relinked}
use sealloc.Chunk.Jumps.Skip.{
  from-some, Block, Skipped, relink_u, relink_v, relink_uv, clear-Relinked, to-some, no-u, some-u,
  no-v, some-v, zero-test, pos-test, store_at, store_off,
}

-- The node holds no distances any more.
pub clear_node-zero :
    (idx level : ℕ) (c : Chunk)
    → 0 < idx
    → idx < 4096
    → (((clear_node idx level c).jump_tree (idx - 1)).prev ≡ 0)
      × (((clear_node idx level c).jump_tree (idx - 1)).next ≡ 0)
unfolding clear_node
clear_node-zero idx level c p lt = (
  prev-set_prev (set_jt_item_next c.jump_tree idx 0) idx 0 p lt,
  next-set_prev (set_jt_item_next c.jump_tree idx 0) idx 0 p lt idx p
      ∙ next-set_next c.jump_tree idx 0 p lt,
)

at_self : (u a : ℕ) → a < 4096 → u ≡ 0 → sub32 a (from u a) ≡ a
unfolding sub32
at_self u a lt e = rw e (omega arith)

module _ (level a u v : ℕ) (c : Chunk) (k : Block c.jump_tree a a u v)
    (count : 0 < c.avail_nodes_count level) (small : c.avail_nodes_count level < 4096)
    (lone : c.avail_nodes_count level ≡ 1 → (u ≡ 0) × (v ≡ 0))
    (lone' : u ≡ 0 → v ≡ 0 → c.avail_nodes_count level ≡ 1) where
  -- The links and the first index after link_neighbours give those after clear_node.
  cleared :
      (jt : Cells JumpNode) (first : Cells ℕ)
      → Relinked c.jump_tree jt a a u v
      → (u ≡ 0 → v ≢ 0 → first level ≡ v)
      → (u ≢ 0 → first level ≡ c.jump_tree_first_index level)
      → ((l : ℕ) → l ≢ level → first l ≡ c.jump_tree_first_index l)
      → Skipped level a a u v c
          (clear_node a level (record c { jump_tree = jt; jump_tree_first_index = first }))
  unfolding clear_node
  cleared jt first r moved kept other =
      let avail = u16 (c.avail_nodes_count level + (2 ^ 16 - 1)) in
      let at = store_at c.avail_nodes_count level avail in
      let r' = clear-Relinked c.jump_tree jt a u v k.pos k.inside k.left (right k.right) r in
      elim (eq-cases (c.avail_nodes_count level) 1) [
        | inl one ↦
            let (eu, ev) = lone one in
            rw (zero-test avail (omega arith)) record {
              relinked = r';
              first_moved = λ _. store_at first level 0 ∙ sym ev;
              first_kept = λ n. absurd (n eu);
              first_other = λ l n. store_off first level 0 l n ∙ other l n;
              count = omega (arith, at);
              count_other = λ l n. store_off c.avail_nodes_count level _ l n;
            }
        | inr more ↦ rw (pos-test avail (omega arith)) record {
          relinked = r';
          first_moved = λ eu. moved eu (λ ev. more (lone' eu ev));
          first_kept = kept;
          first_other = other;
          count = omega (arith, at);
          count_other = λ l n. store_off c.avail_nodes_count level _ l n;
        }
      ]
    where
      right : (v ≡ 0) ⊎ ((a < v) × (v < 4096)) → (v ≡ 0) ⊎ (a < v)
      right (inl e) = inl e
      right (inr (h, _)) = inr h

  -- With no neighbour, only the node itself is written to.
  relink_self : u ≡ 0 → v ≡ 0 → Relinked c.jump_tree (set_jt_item_next c.jump_tree a 0) a a u v
  relink_self eu ev = record {
    next_u = λ n. absurd (n eu);
    prev_v = λ n. absurd (n ev);
    next_same = λ i p o n. next-set_next_other c.jump_tree a 0 k.pos k.inside i p (apart i o);
    prev_same = λ i p o n. prev-set_next c.jump_tree a 0 k.pos k.inside i p;
  }
    where
      apart : (i : ℕ) → (i < a) ⊎ (a < i) → i ≢ a
      apart i (inl h) e = omega arith
      apart i (inr h) e = omega arith

  pub unlink_node-Skipped :
      Skipped level a a u v c (unlink_node (get_jt_item c.jump_tree a) a level c)
  unfolding unlink_node link_neighbours
  unlink_node-Skipped =
      let na = item-at c.jump_tree a k.pos k.inside in
      let keep = c.jump_tree_first_index in
      rw (na, k.prev_a, k.next_b)
        (elim k.right [
          | inl ev ↦ elim (eq-cases u 0) [
            | inl eu ↦
                rw (no-v a v ev, at_self u a k.inside eu)
                  (cleared (set_jt_item_next c.jump_tree a 0) keep (relink_self eu ev)
                    (λ _ n. absurd (n ev)) (λ n. refl) (λ l n. refl))
            | inr nu ↦
                let (tu, atu) = some-u u a k.left k.inside nu in
                rw (no-v a v ev, atu)
                  (cleared (set_jt_item_next c.jump_tree u 0) keep
                    (relink_u c.jump_tree a a u v k nu ev) (λ e. absurd (nu e)) (λ n. refl)
                    (λ l n. refl))
          ]
          | inr (bv, lt) ↦
              let (tv, atv) = some-v a v bv lt in
              elim (eq-cases u 0) [
                | inl eu ↦
                    rw (tv, no-u u a eu, atv)
                      (cleared (set_jt_item_prev c.jump_tree v 0)
                        (store c.jump_tree_first_index level v)
                        (relink_v c.jump_tree a a u v k eu bv lt)
                        (λ e _. store_at c.jump_tree_first_index level v) (λ n. absurd (n eu))
                        (λ l n. store_off c.jump_tree_first_index level v l n))
                | inr nu ↦
                    let (tu, atu) = some-u u a k.left k.inside nu in
                    rw (tv, tu, atv, atu)
                      (cleared _ keep
                        (relink_uv c.jump_tree a a u v k (to a v) (from u a) nu bv lt
                          (to-some a v (omega arith)) (from-some u a nu))
                        (λ e. absurd (nu e)) (λ n. refl) (λ l n. refl))
              ]
        ])
