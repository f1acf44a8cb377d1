-- ===== src/World.antt =====
-- The state that the functions of src/arena.c and src/sealloc.c share: the arena (src/sealloc/arena.h),
-- the structures that it points to, each at its address, the memory of the user, and the kernel.
-- A function may abort, by se_error, abort(), a division by zero or a write through NULL.
use sealloc.Base.{
  ◌≡◌, ap, ℕ, zero, suc, ◌+◌, ◌-◌, Bool, true, false, ◌&&◌, Option, none, some, List, Cells, store,
  fill, ltb, leb, if◌then◌else◌,
}
use sealloc.Random.{Rng}
use sealloc.Bin.{Bin}
use sealloc.Run.{Run}
use sealloc.Chunk.{Chunk}
use sealloc.InternalAllocator.{IntAlloc}
use sealloc.ContainerLl.{Entry}
use sealloc.Platform.{Os, Call}

-- `struct huge_chunk`
pub record HugeChunk : Type 0 where
  pub entry : Entry
  pub len : ℕ

-- `struct arena_state`; a list is the address of its first entry, a bin its index in `bins`.
pub record Arena : Type 0 where
  pub is_initialized : ℕ
  pub secret : ℕ
  pub brk : ℕ
  pub chunk_list : ℕ
  pub huge_alloc_list : ℕ
  pub internal_alloc_list : ℕ
  pub chunk_alloc_ptr : ℕ
  pub huge_alloc_ptr : ℕ
  pub internal_alloc_ptr : ℕ
  pub bins : Cells Bin

-- `patience` bounds the rounds of arena_morecore, which has no bound of its own.
pub record World : Type 0 where
  pub arena : Arena
  pub rng : Rng
  pub runs : Cells Run
  pub chunks : Cells Chunk
  pub blocks : Cells IntAlloc
  pub huges : Cells HugeChunk
  pub memory : Cells ℕ
  pub os : Os
  pub calls : List Call
  pub patience : ℕ

pub data Outcome {ℓ} (A : Type ℓ) : Type ℓ where
  done : A → World → Outcome A
  aborts : Outcome A
  out_of_fuel : Outcome A

abbrev pub M : Type 0 → Type 0
M A = World → Outcome A

abbrev pub pure : {A : Type 0} → A → M A
pure a w = done a w

infixl 5 ◌>>=◌ ◌>>◌
abbrev pub ◌>>=◌ : {A B : Type 0} → M A → (A → M B) → M B
◌>>=◌ m f w = elim (m w) [ done a w' ↦ f a w' | aborts ↦ aborts | out_of_fuel ↦ out_of_fuel ]

abbrev pub ◌>>◌ : {B : Type 0} → M (Unit {0}) → M B → M B
m >> k = m >>= λ _. k

abbrev pub panic : {A : Type 0} → M A
panic w = aborts

abbrev pub gets : {A : Type 0} → (World → A) → M A
gets f w = done (f w) w

abbrev pub modify : (World → World) → M (Unit {0})
modify f w = done tt (f w)

-- A search whose `none` is out of fuel.
abbrev pub or_fuel : {A : Type 0} → Option A → M A
or_fuel none w = out_of_fuel
or_fuel (some a) w = done a w

-- A result whose `none` is an abort.
abbrev pub or_abort : {A : Type 0} → Option A → M A
or_abort none w = aborts
or_abort (some a) w = done a w

abbrev pub when : Bool → M (Unit {0}) → M (Unit {0})
when true m = m
when false m = pure tt

-- A write through a null pointer faults.
abbrev pub not_null : ℕ → M (Unit {0})
not_null p w = elim p [ zero ↦ aborts | suc _ ↦ done tt w ]

abbrev pub modify_arena : (Arena → Arena) → M (Unit {0})
modify_arena f = modify λ w. record w { arena = f w.arena }

abbrev pub set_run : ℕ → Run → M (Unit {0})
set_run p v = modify λ w. record w { runs = store w.runs p v }

abbrev pub set_chunk : ℕ → Chunk → M (Unit {0})
set_chunk p v = modify λ w. record w { chunks = store w.chunks p v }

abbrev pub set_block : ℕ → IntAlloc → M (Unit {0})
set_block p v = modify λ w. record w { blocks = store w.blocks p v }

abbrev pub set_huge : ℕ → HugeChunk → M (Unit {0})
set_huge p v = modify λ w. record w { huges = store w.huges p v }

abbrev pub set_bin : ℕ → Bin → M (Unit {0})
set_bin i v = modify_arena λ a. record a { bins = store a.bins i v }

-- A step that is done hands its result on.
pub bind-done :
    {A B : Type 0} (m : M A) (f : A → M B) {w w' : World} {a : A}
    → m w ≡ done a w'
    → (m >>= f) w ≡ f a w'
bind-done m f q =
    ap (λ o. elim o [ done a w' ↦ f a w' | aborts ↦ aborts | out_of_fuel ↦ out_of_fuel ]) q

-- A step that aborts ends the whole.
pub bind-aborts :
    {A B : Type 0} (m : M A) (f : A → M B) {w : World} → m w ≡ aborts → (m >>= f) w ≡ aborts
bind-aborts m f q =
    ap (λ o. elim o [ done a w' ↦ f a w' | aborts ↦ aborts | out_of_fuel ↦ out_of_fuel ]) q

-- `n` cells from `from` on, copied to `to`.
unfoldable pub copy : Cells ℕ → ℕ → ℕ → ℕ → Cells ℕ
copy mem to from n a = if leb to a && ltb a (to + n) then mem (from + (a - to)) else mem a

-- `memcpy(to, from, n)`
abbrev pub memcpy : ℕ → ℕ → ℕ → M (Unit {0})
memcpy to from n = modify λ w. record w { memory = copy w.memory to from n }

-- `memset(to, v, n)`
abbrev pub memset : ℕ → ℕ → ℕ → M (Unit {0})
memset to v n = modify λ w. record w { memory = fill w.memory to n v }
