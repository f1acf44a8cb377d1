-- ===== src/InternalAllocator/Search.antt =====
-- internal_alloc in src/internal_allocator.c: the walk over the tree for a free node of the size.
use sealloc.Base.{
  ℕ, zero, suc, ◌+◌, ◌-◌, ◌*◌, ◌/◌, ◌^◌, Bool, true, false, ◌&&◌, Cells, u64, ltb, leb, ◌==◌,
  if◌then◌else◌,
}
use sealloc.Bitmap.{get_tree_item, set_tree_item}
use sealloc.ContainerLl.{null}
use sealloc.InternalAllocator.{
  IntAlloc, internal_alloc_chunk_size_bytes, is_leaf, is_right_child, node_split, node_used,
  node_free, coalesce_full_nodes,
}

-- tstate_t
pub data TraverseState : Type 0 where
  down : TraverseState
  up_left : TraverseState
  up_right : TraverseState

-- The local variables of the loop, and the tree.
pub record Search : Type 0 where
  pub idx : ℕ
  pub cur_size : ℕ
  pub ptr : ℕ
  pub state : TraverseState
  pub tree : Cells ℕ

-- What a round of the loop does: it returns an address, with the memory taken and the tree, or
-- goes on, or calls se_error.
pub data Round : Type 0 where
  returns : ℕ → ℕ → Cells ℕ → Round
  continues : Search → Round
  panics : Round

unfoldable pub go_up : Search → Search
go_up s = record s {
  state = if is_right_child s.idx then up_right else up_left;
  ptr = if is_right_child s.idx then u64 (s.ptr + (2 ^ 64 - s.cur_size)) else s.ptr;
  idx = s.idx / 2;
  cur_size = u64 (s.cur_size * 2);
}

unfoldable pub go_left : Search → Search
go_left s = record s { idx = u64 (s.idx * 2); cur_size = s.cur_size / 2 }

unfoldable pub go_right : Search → Search
go_right s = record s {
  cur_size = s.cur_size / 2;
  ptr = u64 (s.ptr + s.cur_size / 2);
  state = down;
  idx = u64 (s.idx * 2 + 1);
}

-- The node is allocated.
unfoldable pub take : Search → Round
take s = returns s.ptr s.cur_size (coalesce_full_nodes (set_tree_item s.tree s.idx node_used) s.idx)

unfoldable pub at_leaf : Search → Round
at_leaf s =
    let node = get_tree_item s.tree s.idx in
    if node == node_free then take s else if node == node_used then continues (go_up s) else panics

-- `cur_size / 2 < size && size <= cur_size`
abbrev pub fits : ℕ → ℕ → Bool
fits size cur_size = ltb (cur_size / 2) size && leb size cur_size

unfoldable pub split : Cells ℕ → ℕ → Cells ℕ
split tree idx =
    set_tree_item (set_tree_item (set_tree_item tree idx node_split) (u64 (idx * 2)) node_free)
      (u64 (idx * 2 + 1)) node_free

unfoldable pub at_inner : ℕ → Search → Round
at_inner size s =
    let node = get_tree_item s.tree s.idx in
    if node == node_split
    then continues (if fits size s.cur_size then go_up s else go_left s)
    else if node == node_free
    then (if fits size s.cur_size
        then take s
        else continues (go_left (record s { tree = split s.tree s.idx })))
    else continues (go_up s)

unfoldable pub round : ℕ → Search → Round
round size s = if is_leaf s.idx then at_leaf s else elim s.state [
  | down ↦ at_inner size s
  | up_left ↦ continues (go_right s)
  | up_right ↦ continues (go_up s)
]

-- `ended` is the return of NULL, with the tree, and `failed` the abort in se_error.
pub data Result : Type 0 where
  allocated : ℕ → ℕ → Cells ℕ → Result
  ended : Cells ℕ → Result
  failed : Result
  out_of_fuel : Result

-- The search is over when it comes back to the root from the right.
unfoldable pub is_over : Search → Bool
is_over s = (s.idx == 1) && elim s.state [ up_right ↦ true | _ ↦ false ]

unfoldable pub search_loop : ℕ → ℕ → Search → Result
search_loop zero size s = out_of_fuel
search_loop (suc fuel) size s =
    let next : Result = elim (round size s) [
      | returns ptr n tree ↦ allocated ptr n tree
      | continues s' ↦ search_loop fuel size s'
      | panics ↦ failed
    ] in
    if is_over s then ended s.tree else next

-- The rounds that the walk may take: its measure starts at 2^24 + 18.
abbrev pub search_fuel : ℕ
search_fuel = 2 ^ 25

-- The outcome: an address or `null`, with the new state.
pub data Outcome : Type 0 where
  done : ℕ → IntAlloc → Outcome
  aborts : Outcome
  out_of_fuel : Outcome

unfoldable pub internal_alloc : IntAlloc → ℕ → Outcome
internal_alloc root size =
    if ltb root.free_mem size
    then done null root
    else elim (search_loop search_fuel size (record {
      idx = 1;
      cur_size = internal_alloc_chunk_size_bytes;
      ptr = root.memory;
      state = down;
      tree = root.buddy_tree;
    })) [
      | allocated ptr n tree ↦
          done ptr
            (record root { free_mem = u64 (root.free_mem + (2 ^ 64 - n)); buddy_tree = tree })
      | ended tree ↦ done null (record root { buddy_tree = tree })
      | failed ↦ aborts
      | out_of_fuel ↦ out_of_fuel
    ]
