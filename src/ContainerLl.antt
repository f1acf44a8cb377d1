-- ===== src/ContainerLl.antt =====
-- src/container_ll.c: an intrusive doubly linked list. An entry lives at its address; `null` is 0.
-- The assertions of the source are not part of the functions: they are what the proofs establish.
pub mod Seg
pub mod Ops
use sealloc.Base.{
  ℕ, zero, suc, ◌^◌, Bool, true, false, Option, none, some, not, Cells, store, ◌==◌, if◌then◌else◌,
}

abbrev pub null : ℕ
null = 0

-- struct ll_entry, with its struct ll_item flattened
pub record Entry : Type 0 where
  pub fd : ℕ
  pub bk : ℕ
  pub key : ℕ

unfoldable pub set_fd : Cells Entry → ℕ → ℕ → Cells Entry
set_fd m p v = store m p (record (m p) { fd = v })

unfoldable pub set_bk : Cells Entry → ℕ → ℕ → Cells Entry
set_bk m p v = store m p (record (m p) { bk = v })

-- The head is the address of the first entry.
abbrev pub ll_init : ℕ
ll_init = null

unfoldable pub ll_add : ℕ → ℕ → Cells Entry → ℕ × Cells Entry
ll_add head item m =
    if head == null
    then (item, set_bk (set_fd m item null) item null)
    else (item, set_bk (set_fd (set_bk m item null) item head) head item)

-- The first step of `ll_del`: the head moves on when it is the entry.
unfoldable pub move_head : ℕ → ℕ → Cells Entry → ℕ × Cells Entry
move_head head item m =
    if head == item
    then (if (m head).fd == null then (null, m) else ((m head).fd, set_bk m (m head).fd null))
    else (head, m)

-- The rest of `ll_del`.
unfoldable pub unlink : ℕ → Cells Entry → Cells Entry
unlink item m =
    let m1 = if (m item).fd == null then m else set_bk m (m item).fd (m item).bk in
    let m2 = if (m1 item).bk == null then m1 else set_fd m1 (m1 item).bk (m1 item).fd in
    set_bk (set_fd m2 item null) item null

unfoldable pub ll_del : ℕ → ℕ → Cells Entry → ℕ × Cells Entry
unfolding move_head unlink
ll_del head item m = let (head', m') = move_head head item m in (head', unlink item m')

-- Rounds for a walk: more than a 47-bit address space has entries. `none` is out of fuel.
abbrev pub list_fuel : ℕ
list_fuel = 2 ^ 48

unfoldable pub find_loop : ℕ → ℕ → ℕ → Cells Entry → Option ℕ
find_loop zero res key m = none
find_loop (suc fuel) res key m =
    let rest = find_loop fuel (m res).fd key m in
    if res == null then some null else if (m res).key == key then some res else rest

unfoldable pub ll_find : ℕ → ℕ → Cells Entry → Option ℕ
ll_find head key m = find_loop list_fuel head key m
