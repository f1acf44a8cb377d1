-- ===== src/Bitmap.antt =====
-- Two-bit items packed four to a byte: the state maps of src/run.c (`get_bitmap_item`,
-- `set_bitmap_item`), src/chunk.c (`get_buddy_tree_item`, `set_buddy_tree_item`) and
-- src/internal_allocator.c (`get_tree_item`, `set_tree_item`).
-- A cell of a `uint8_t` array is read through `u8`.
use sealloc.Base.{ℕ, ◌+◌, ◌-◌, ◌*◌, ◌/◌, ◌%◌, ◌^◌, ◌<◌, ◌≡◌, refl, Bool, true, arith}
use sealloc.Base.{
  bit_and, bit_or, u8, u64, not32, ◌∙◌, Cells, store, store_lem, if◌then◌else◌, ◌==◌, ==_iff,
}
use native.Mathlib.Nat.{zero-div}
use sealloc.Base.Bits.{ones, bit_and-ones}
use sealloc.Base.{all_below, all_below_sound}

unfoldable pub get_byte : ℕ → ℕ → ℕ
get_byte b off = bit_and (b / 2 ^ (2 * off)) 3

-- erase_bits is 3; the shifts and the complement are done in `int`, and the store cuts to 8 bits.
unfoldable pub set_byte : ℕ → ℕ → ℕ → ℕ
set_byte b off state = u8 (bit_or (bit_and b (not32 (3 * 2 ^ (off * 2)))) (state * 2 ^ (off * 2)))

unfoldable pub get_bitmap_item : Cells ℕ → ℕ → ℕ
get_bitmap_item mem idx = let word = idx / 4 in let off = idx % 4 in get_byte (u8 (mem word)) off

unfoldable pub set_bitmap_item : Cells ℕ → ℕ → ℕ → Cells ℕ
set_bitmap_item mem idx state =
    let word = idx / 4 in let off = idx % 4 in store mem word (set_byte (u8 (mem word)) off state)

-- The trees are indexed from 1: `idx - 1` on a `size_t`.
unfoldable pub before : ℕ → ℕ
before idx = u64 (idx + (2 ^ 64 - 1))

unfoldable pub get_tree_item : Cells ℕ → ℕ → ℕ
get_tree_item mem idx =
    let word = before idx / 4 in let off = before idx % 4 in get_byte (u8 (mem word)) off

unfoldable pub set_tree_item : Cells ℕ → ℕ → ℕ → Cells ℕ
set_tree_item mem idx state =
    let word = before idx / 4 in
    let off = before idx % 4 in store mem word (set_byte (u8 (mem word)) off state)

-- What a byte gives back after a write, at every byte, offset and state.
byte_law : ℕ → Bool
byte_law b = all_below 4 λ off. all_below 4 λ off'.
    all_below 4
      λ s. get_byte (set_byte b off s) off' == (if off' == off then s else get_byte b off')

byte_table : all_below 256 byte_law ≡ true
unfolding all_below byte_law get_byte set_byte
byte_table = refl

byte_law_lem :
    (b : ℕ)
    → b < 256
    → all_below 4 (λ off. all_below 4 λ off'.
      all_below 4
        λ s. get_byte (set_byte b off s) off' == (if off' == off then s else get_byte b off'))
      ≡ true
unfolding byte_law
byte_law_lem b hb = all_below_sound 256 byte_law b byte_table hb

pub set_byte-lt : (b off s : ℕ) → set_byte b off s < 256
unfolding set_byte
set_byte-lt b off s = omega arith

get_byte-set_byte :
    (b off off' s : ℕ)
    → b < 256
    → off < 4
    → off' < 4
    → s < 4
    → get_byte (set_byte b off s) off' ≡ (if off' == off then s else get_byte b off')
get_byte-set_byte b off off' s hb ho ho' hs = (==_iff _ _).0 (
    all_below_sound 4 _ s
      (all_below_sound 4 _ off' (all_below_sound 4 _ off (byte_law_lem b hb) ho) ho') hs)

-- Writing the item `i` changes that item, to what is written, and no other.
pub get-set_bitmap_item :
    (mem : Cells ℕ) (i s j : ℕ)
    → s < 4
    → get_bitmap_item (set_bitmap_item mem i s) j ≡ (if j == i then s else get_bitmap_item mem j)
unfolding get_bitmap_item set_bitmap_item
get-set_bitmap_item mem i s j hs = grind (
  arith,
  store_lem mem (i / 4) (set_byte (u8 (mem (i / 4))) (i % 4) s) (j / 4),
  get_byte-set_byte (u8 (mem (i / 4))) (i % 4) (j % 4) s,
  set_byte-lt (u8 (mem (i / 4))) (i % 4) s,
)

pub get_bitmap_item-lt : (mem : Cells ℕ) (i : ℕ) → get_bitmap_item mem i < 4
unfolding get_bitmap_item get_byte ones
get_bitmap_item-lt mem i = omega (arith, bit_and-ones 2 (u8 (mem (i / 4)) / 2 ^ (2 * (i % 4))))

before_lem : (i : ℕ) → 0 < i → i < 2 ^ 64 → before i ≡ i - 1
unfolding before
before_lem i p h = omega arith

get_tree_item_lem : (mem : Cells ℕ) (i : ℕ) → get_tree_item mem i ≡ get_bitmap_item mem (before i)
unfolding get_tree_item get_bitmap_item
get_tree_item_lem mem i = refl

pub get_tree_item-lt : (mem : Cells ℕ) (i : ℕ) → get_tree_item mem i < 4
get_tree_item-lt mem i = rw (get_tree_item_lem mem i) (get_bitmap_item-lt mem (before i))

set_tree_item_lem :
    (mem : Cells ℕ) (i s : ℕ) → set_tree_item mem i s ≡ set_bitmap_item mem (before i) s
unfolding set_tree_item set_bitmap_item
set_tree_item_lem mem i s = refl

-- Writing the node `i` of a tree changes that node and no other.
pub get-set_tree_item :
    (mem : Cells ℕ) (i s j : ℕ)
    → 0 < i
    → i < 2 ^ 64
    → 0 < j
    → j < 2 ^ 64
    → s < 4
    → get_tree_item (set_tree_item mem i s) j ≡ (if j == i then s else get_tree_item mem j)
get-set_tree_item mem i s j pi hi pj hj hs =
    rw (set_tree_item_lem, get_tree_item_lem, get_tree_item_lem)
      (get-set_bitmap_item mem (before i) s (before j) hs
        ∙ ground (arith, before_lem i, before_lem j))

-- Writing an item of a bitmap, or a node of a tree, of any of the four states changes it to what is written,
-- and changes no other item or node.
pub get-set_items :
    (mem : Cells ℕ) (i j a b s : ℕ)
    → s < 4
    → 0 < a
    → a < 2 ^ 64
    → 0 < b
    → b < 2 ^ 64
    → (get_bitmap_item (set_bitmap_item mem i s) j ≡ (if j == i then s else get_bitmap_item mem j))
      × (get_tree_item (set_tree_item mem a s) b ≡ (if b == a then s else get_tree_item mem b))
get-set_items mem i j a b s hs pa ha pb hb =
    (get-set_bitmap_item mem i s j hs, get-set_tree_item mem a s b pa ha pb hb hs)

-- A byte of zeros holds four zeros.
pub get_bitmap_item-zero : (mem : Cells ℕ) (i : ℕ) → mem (i / 4) ≡ 0 → get_bitmap_item mem i ≡ 0
unfolding get_bitmap_item get_byte
get_bitmap_item-zero mem i e = rw (e, zero-div) refl

-- So does a tree of zeros.
pub get_tree_item-zero : (mem : Cells ℕ) (i : ℕ) → ((w : ℕ) → mem w ≡ 0) → get_tree_item mem i ≡ 0
get_tree_item-zero mem i z =
    get_tree_item_lem mem i ∙ get_bitmap_item-zero mem (before i) (z (before i / 4))

-- A zero byte holds four free nodes.
pub get_tree_item-zero_at :
    (mem : Cells ℕ) (i : ℕ) → 0 < i → i < 2 ^ 64 → mem ((i - 1) / 4) ≡ 0 → get_tree_item mem i ≡ 0
get_tree_item-zero_at mem i p h z =
    get_tree_item_lem mem i ∙ get_bitmap_item-zero mem (before i) (rw (before_lem i p h) z)
