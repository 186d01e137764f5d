-- ===== src/Cxx/Vector.antt =====
-- kernel/include/libs/libc++/vector. A block of objects has its number of places; to read or write
-- past them is `undefined`, and `panics` is the heap without memory for `new T[n]`. The objects of a
-- new block are `blank`. Moving an object copies it; iterators are indices; `delete[]` changes nothing
-- that is seen here.
pub mod Loops
pub mod Contents
pub mod Edits
pub mod Copies
pub mod Ranges
use ice.Prelude.{
  true, false, ℕ, zero, suc, ◌+◌, ◌-◌, ◌*◌, ◌/◌, ◌%◌, ◌^◌, Bool, ◌==◌, ltb, if◌then◌else◌,
}
use ice.Memory.Physical.{Pmm}
use ice.Memory.Slab.{ok, panic}
use ice.Memory.Slab.Wrappers.{operator_new}
use ice.Utils.Math.{add64, sub64}

pub data Attempt {ℓ} (A : Type ℓ) : Type ℓ where
  done : A → Attempt A
  undefined panics : Attempt A

infixl 5 ◌>>=◌
abbrev pub ◌>>=◌ {ℓ κ} : {A : Type ℓ} {B : Type κ} → Attempt A → (A → Attempt B) → Attempt B
m >>= k = elim m [ done a ↦ k a | undefined ↦ undefined | panics ↦ panics ]

pub record Block {ℓ} (A : Type ℓ) : Type ℓ where
  pub room : ℕ
  pub items : ℕ → A

pub record Vector {ℓ} (A : Type ℓ) : Type ℓ where
  pub block : Block A
  pub sz : ℕ
  pub cap : ℕ

unfoldable pub get {ℓ} : {A : Type ℓ} → Block A → ℕ → Attempt A
get b i = if ltb i b.room then done (b.items i) else undefined

unfoldable pub put {ℓ} : {A : Type ℓ} → Block A → ℕ → A → Attempt (Block A)
put b i x =
    if ltb i b.room
    then done (record b { items = λ j. if j == i then x else b.items j })
    else undefined

-- What the heap of kernel/memory/memory.cpp answers in a state, for objects of `size` bytes.
abbrev pub heap_finds : ℕ → ℕ → ℕ → Pmm → ℕ → Bool
heap_finds hhdm_offset slabs size s n =
    elim (operator_new hhdm_offset slabs (n * size % 2 ^ 64) s) [ ok p t ↦ true | panic ↦ false ]

module _ {ℓ} {A : Type ℓ} where
  -- `for (i = 0; i < sz; ++i) to[i] = from[i]`, rounds left first.
  unfoldable pub copy_items : ℕ → ℕ → Block A → Block A → Attempt (Block A)
  copy_items zero i from to = done to
  copy_items (suc left) i from to =
      get from i >>= λ x. put to i x >>= λ to'. copy_items left (i + 1) from to'

  -- `for (i = sz; i > idx; --i) ptr[i] = ptr[i - 1]`.
  unfoldable pub shift_up : ℕ → ℕ → Block A → Attempt (Block A)
  shift_up zero i b = done b
  shift_up (suc left) i b = get b (i - 1) >>= λ x. put b i x >>= λ b'. shift_up left (i - 1) b'

  -- `for (i = idx; i < sz - n; ++i) ptr[i] = ptr[i + n]`.
  unfoldable pub shift_down : ℕ → ℕ → ℕ → Block A → Attempt (Block A)
  shift_down zero i n b = done b
  shift_down (suc left) i n b =
      get b (i + n) >>= λ x. put b i x >>= λ b'. shift_down left (i + 1) n b'

  unfoldable pub at : Vector A → ℕ → Attempt A
  unfolding get
  at v n = get v.block n

  unfoldable pub front : Vector A → Attempt A
  unfolding get
  front v = get v.block 0

  unfoldable pub back : Vector A → Attempt A
  unfolding get
  back v = get v.block (sub64 v.sz 1)

  abbrev pub is_empty : Vector A → Bool
  is_empty v = v.sz == 0

  unfoldable pub pop_back : Vector A → Vector A
  pop_back v = record v { sz = sub64 v.sz 1 }

  unfoldable pub clear : Vector A → Vector A
  clear v = record v { sz = 0 }

  -- `erase(first, first + n)`, from the index on.
  unfoldable pub erase : ℕ → ℕ → Vector A → Attempt (Vector A)
  unfolding shift_down
  erase idx n v = shift_down (sub64 v.sz n - idx) idx n v.block >>= λ b.
      done (record v { block = b; sz = sub64 v.sz n })

  -- `cap == 0 ? 1 : cap * 2`.
  abbrev pub next_cap : Vector A → ℕ
  next_cap v = if v.cap == 0 then 1 else v.cap * 2 % 2 ^ 64

  module _ (blank : A) where
    abbrev pub new_block : ℕ → Block A
    new_block n = record { room = n; items = λ i. blank }

    -- `__vector()`, with a null pointer.
    abbrev pub empty_vector : Vector A
    empty_vector = record { block = new_block 0; sz = 0; cap = 0 }

  -- `finds n` tells whether the heap has memory for a new block of `n` objects.
  module _ (blank : A) (finds : ℕ → Bool) where
    unfoldable pub new_array : ℕ → Attempt (Block A)
    new_array n = if finds n then done (new_block blank n) else panics

    unfoldable pub reserve : ℕ → Vector A → Attempt (Vector A)
    unfolding copy_items new_array
    reserve n v =
        if ltb v.cap n
        then (new_array n >>= λ new.
            copy_items v.sz 0 v.block new >>= λ b. done (record v { block = b; cap = n }))
        else done v

    unfoldable pub shrink_to_fit : Vector A → Attempt (Vector A)
    unfolding copy_items new_array
    shrink_to_fit v =
        if ltb v.sz v.cap
        then (new_array v.sz >>= λ new.
            copy_items v.sz 0 v.block new >>= λ b. done (record v { block = b; cap = v.sz }))
        else done v

    unfoldable pub resize : ℕ → Vector A → Attempt (Vector A)
    unfolding reserve
    resize n v = (if ltb v.cap n then reserve n v else done v) >>= λ v'. done (record v' { sz = n })

    -- The room for one more, where `push_back`, `emplace_back` and `insert` need it.
    unfoldable pub grow : Vector A → Attempt (Vector A)
    unfolding reserve
    grow v = if v.sz == v.cap then reserve (next_cap v) v else done v

    unfoldable pub push_back : A → Vector A → Attempt (Vector A)
    unfolding grow put
    push_back x v = grow v >>= λ v'.
        put v'.block v'.sz x >>= λ b. done (record v' { block = b; sz = add64 v'.sz 1 })

    -- `insert(pos, val)`.
    unfoldable pub insert : ℕ → A → Vector A → Attempt (Vector A)
    unfolding grow put shift_up
    insert idx x v = grow v >>= λ v'. shift_up (v'.sz - idx) v'.sz v'.block >>= λ b.
        put b idx x >>= λ b'. done (record v' { block = b'; sz = add64 v'.sz 1 })

    -- The copy constructor: a block of `sz` places, but the other's capacity.
    unfoldable pub copy : Vector A → Attempt (Vector A)
    unfolding copy_items new_array
    copy other = new_array other.sz >>= λ new.
        copy_items other.sz 0 other.block new >>= λ b. done (record other { block = b })
