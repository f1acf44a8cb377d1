-- ===== src/InternalAllocator/Descent.antt =====
-- The way down in internal_free of src/internal_allocator.c: it ends, and the node it finds is a used one
-- that starts at the address.
use sealloc.Base.{ℕ, ◌+◌, ◌*◌, ◌/◌, ◌^◌, ◌≤◌, ◌<◌, ◌≡◌, ◌≢◌, Cells, Option, some, none, u64}
use sealloc.Bitmap.{get_tree_item}
use sealloc.InternalAllocator.{IntAlloc, node_used, node_free, coalesce_free_nodes}
use sealloc.Bitmap.{set_tree_item}
use sealloc.InternalAllocator.Free.{Descent, found, no_chunk, find_loop}
use sealloc.InternalAllocator.Under.{UsedAt, Under}

-- What a descent to an address from a node may come to.
data Ends (memory ptr : ℕ) (tree : Cells ℕ) (idx m : ℕ) : Descent → Type 0 where
  at : (n k : ℕ) → UsedAt memory ptr tree n k → Ends memory ptr tree idx m (found n (32 * 2 ^ k))
  nowhere :
      ((n k : ℕ) → Under n k idx m → ¬ UsedAt memory ptr tree n k)
      → Ends memory ptr tree idx m no_chunk

-- What a round of the descent does: it stops at the node or at a leaf that is not the one, or goes on to the child
-- in whose half the address lies.
data Round (fuel idx cur ptr_cur ptr_dest : ℕ) (tree : Cells ℕ) : Descent → Type 0 where
  stops :
      ptr_cur ≡ ptr_dest
      → get_tree_item tree idx ≡ node_used
      → Round fuel idx cur ptr_cur ptr_dest tree (found idx cur)
  fails :
      2 ^ 18 ≤ idx
      → (ptr_cur ≡ ptr_dest → get_tree_item tree idx ≢ node_used)
      → Round fuel idx cur ptr_cur ptr_dest tree no_chunk
  turns_right :
      idx < 2 ^ 18
      → (ptr_cur ≡ ptr_dest → get_tree_item tree idx ≢ node_used)
      → u64 (ptr_cur + cur / 2) ≤ ptr_dest
      → Round fuel idx cur ptr_cur ptr_dest tree
          (find_loop fuel (u64 (idx * 2 + 1)) (cur / 2) (u64 (ptr_cur + cur / 2)) ptr_dest tree)
  turns_left :
      idx < 2 ^ 18
      → (ptr_cur ≡ ptr_dest → get_tree_item tree idx ≢ node_used)
      → ptr_dest < u64 (ptr_cur + cur / 2)
      → Round fuel idx cur ptr_cur ptr_dest tree
          (find_loop fuel (u64 (idx * 2)) (cur / 2) ptr_cur ptr_dest tree)

-- What internal_free comes to.
pub data Frees (root : IntAlloc) (ptr : ℕ) : Option IntAlloc → Type 0 where
  frees :
      (n m : ℕ)
      → UsedAt root.memory ptr root.buddy_tree n m
      → Frees root ptr (
          some (record root {
            buddy_tree = coalesce_free_nodes (set_tree_item root.buddy_tree n node_free) n;
            free_mem = u64 (root.free_mem + 32 * 2 ^ m);
          }))
  refuses : ((n m : ℕ) → ¬ UsedAt root.memory ptr root.buddy_tree n m) → Frees root ptr none
