-- ===== src/Tests/Links.antt =====
-- The list operations on three entries at 10, 20 and 30, with the keys 100, 200 and 300.
use sealloc.Base.{ℕ, ◌≡◌, refl, [], ◌∷◌, arith, Cells, store, some}
use sealloc.ContainerLl.{null, Entry, ll_add, ll_del, ll_find, set_fd, set_bk}
use sealloc.ContainerLl.Seg.{IsList, erase}
use sealloc.ContainerLl.Ops.{OnlyLinks, ll_add-cons, ll_del-erase, find, ll_find-find}

abbrev link : ℕ → ℕ → ℕ → Entry
link fd bk key = record { fd = fd; bk = bk; key = key }

-- 30, 20, 10, in this order; the entry at 40 is loose.
abbrev chain : Cells Entry
chain =
    store
      (store (store (store (λ _. link 0 0 0) 10 (link 0 20 100)) 20 (link 10 30 200)) 30
        (link 20 0 300))
      40 (link 0 0 400)

chain-IsList : IsList chain 30 (30 ∷ 20 ∷ 10 ∷ [])
unfolding store
chain-IsList = (
  refl,
  omega arith,
  refl,
  refl,
  (refl, omega arith, refl, refl, (refl, omega arith, refl, refl, refl)),
)

ll_add-cons_example :
    let r = ll_add 30 40 chain in
    (r.0 ≡ 40)
    × IsList r.1 40 (40 ∷ 30 ∷ 20 ∷ 10 ∷ [])
    × OnlyLinks chain r.1 (40 ∷ 30 ∷ 20 ∷ 10 ∷ [])
ll_add-cons_example = ll_add-cons 30 40 chain (30 ∷ 20 ∷ 10 ∷ []) chain-IsList (omega arith) refl

ll_del-erase_example :
    let r = ll_del 30 20 chain in
    IsList r.1 r.0 (30 ∷ 10 ∷ [])
    × ((r.1 20).fd ≡ null)
    × ((r.1 20).bk ≡ null)
    × OnlyLinks chain r.1 (30 ∷ 20 ∷ 10 ∷ [])
unfolding erase
ll_del-erase_example = ll_del-erase 30 20 chain (30 ∷ 20 ∷ 10 ∷ []) chain-IsList refl

ll_find-find_example : ll_find 30 200 chain ≡ some 20
unfolding find store
ll_find-find_example = ll_find-find 30 200 chain (30 ∷ 20 ∷ 10 ∷ []) chain-IsList (omega arith)

del_head : (ll_del 30 30 chain).0 ≡ 20
unfolding ll_del set_fd set_bk store
del_head = refl
