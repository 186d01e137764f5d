-- ===== src/Memory/Slab.antt =====
-- kernel/memory/memory.hpp and memory.cpp: the kernel's heap of slabs and whole pages.
-- A `slab_t` lies in memory: `head` at its address, `size` 8 bytes on. `slabs` is the address of the
-- allocator's array of ten, and `hhdm_offset` that of the direct map. A pointer is an address.
pub mod Layout
pub mod FreeList
pub mod Classes
pub mod Big
pub mod Pages
pub mod Wrappers
pub mod Fill
pub mod Init
pub mod Roundtrip
pub mod History
pub mod Realloc
use ice.Prelude.{
  ℕ, zero, suc, ◌+◌, ◌-◌, ◌*◌, ◌/◌, ◌%◌, ◌^◌, ◌==◌, ltb, leb, if◌then◌else◌, Bool, List, [], ◌∷◌,
  load64, store64, bit_and, bit_not,
}
use ice.Utils.Math.{add64, sub64, align_up, div_roundup, tohh, fromhh}
use ice.Libc.String.{memset, memcpy}
use ice.Memory.Physical
use ice.Memory.Physical.{Pmm, Outcome, done, out_of_memory}

-- A heap operation gives a value and the new state, or the kernel panics.
pub data Run {ℓ} (A : Type ℓ) : Type ℓ where
  ok : A → Pmm → Run A
  panic : Run A

infixl 5 ◌>>=◌ ◌>>◌
abbrev pub ◌>>=◌ {ℓ κ} : {A : Type ℓ} {B : Type κ} → (Pmm → Run A) → (A → Pmm → Run B) → Pmm → Run B
◌>>=◌ m k s = elim (m s) [ ok a s' ↦ k a s' | panic ↦ panic ]

abbrev pub ◌>>◌ {ℓ κ} : {A : Type ℓ} {B : Type κ} → (Pmm → Run A) → (Pmm → Run B) → Pmm → Run B
m >> k = m >>= λ _. k

abbrev pub pure {ℓ} : {A : Type ℓ} → A → Pmm → Run A
pure a s = ok a s

-- Reads and writes of memory.
abbrev pub read : ℕ → Pmm → Run ℕ
read a s = ok (load64 s.mem a) s

abbrev pub write : ℕ → ℕ → Pmm → Run (Unit {0})
write a v s = ok tt (record s { mem = store64 s.mem a v })

abbrev pub fill : ℕ → ℕ → ℕ → Pmm → Run (Unit {0})
fill a ch len s = ok tt (record s { mem = memset s.mem a ch len })

abbrev pub copy : ℕ → ℕ → ℕ → Pmm → Run (Unit {0})
copy dest src len s = ok tt (record s { mem = memcpy s.mem dest src len })

-- sizeof(slab_header), and where a slab's first object begins in its page.
abbrev pub header_size : ℕ
header_size = 8

pub first_offset : ℕ → ℕ
first_offset size = align_up header_size size

pub last_object : ℕ → ℕ
unfolding first_offset
last_object size = sub64 (sub64 0x1000 (first_offset size) / size) 1

-- `array[i * count] = &array[(i + 1) * count]` for the rounds left, from i on; then the last link.
pub link_objects : ℕ → ℕ → ℕ → ℕ → Pmm → Run (Unit {0})
link_objects zero array count i = write (array + i * count * 8) 0
link_objects (suc left) array count i =
    write (array + i * count * 8) (array + (i + 1) * count * 8)
    >> link_objects left array count (i + 1)

pub slab_free : ℕ → ℕ → Pmm → Run (Unit {0})
slab_free slab ptr =
    if ptr == 0 then pure tt else do head ← read slab; write ptr head; write slab ptr

-- The object sizes of the ten slabs, as the constructor `slab_allocator()` gives them.
abbrev pub sizes : List ℕ
sizes = 16 ∷ 32 ∷ 48 ∷ 80 ∷ 128 ∷ 192 ∷ 288 ∷ 448 ∷ 672 ∷ 1024 ∷ []

-- The first slab whose objects are large enough, or 0.
unfoldable pub get_slab_from : ℕ → ℕ → ℕ → Pmm → Run ℕ
get_slab_from zero slab size = pure 0
get_slab_from (suc left) slab size = do
  slab_size ← read (slab + 8)
  if leb size slab_size then pure slab else get_slab_from left (slab + 16) size

unfoldable pub get_slab : ℕ → ℕ → Pmm → Run ℕ
unfolding get_slab_from
get_slab slabs size = get_slab_from 10 slabs size

unfoldable pub big_alloc_size : ℕ → Pmm → Run ℕ
big_alloc_size ptr = read (sub64 ptr 0x1000 + 8)

-- `ptr & 0xFFF` and `ptr & ~0xFFF`.
abbrev pub is_big : ℕ → Bool
is_big ptr = bit_and ptr 0xfff == 0

abbrev pub slab_of : ℕ → Pmm → Run ℕ
slab_of ptr = read (bit_and ptr (bit_not 64 0xfff))

unfoldable pub alloc_size : ℕ → Pmm → Run ℕ
unfolding big_alloc_size
alloc_size ptr =
    if ptr == 0
    then pure 0
    else (if is_big ptr then big_alloc_size ptr else do slab ← slab_of ptr; read (slab + 8))

module _ (hhdm_offset : ℕ) where
  abbrev pub physical_alloc : ℕ → Pmm → Run ℕ
  physical_alloc count s = elim (Physical.alloc hhdm_offset count s) [
    | done ptr s' ↦ ok ptr s'
    | out_of_memory ↦ panic
  ]

  abbrev pub physical_free : ℕ → ℕ → Pmm → Run (Unit {0})
  physical_free ptr count s = ok tt (Physical.free ptr count s)

  pub slab_init : ℕ → ℕ → Pmm → Run (Unit {0})
  slab_init slab size = do
    write (slab + 8) size
    page ← physical_alloc 1
    let head = tohh hhdm_offset page
    write slab head
    write head slab
    let array = head + first_offset size
    write slab array
    link_objects (last_object size) array (size / 8) 0

  pub slab_alloc : ℕ → Pmm → Run ℕ
  slab_alloc slab = do
    head ← read slab
    size ← read (slab + 8)
    if head == 0 then slab_init slab size else pure tt
    old_free ← read slab
    next ← read old_free
    write slab next
    size' ← read (slab + 8)
    fill old_free 0 size'
    pure old_free

  pub init_all : ℕ → List ℕ → Pmm → Run (Unit {0})
  init_all slab [] = pure tt
  init_all slab (size ∷ rest) = slab_init slab size >> init_all (slab + 16) rest

  pub big_malloc : ℕ → Pmm → Run ℕ
  big_malloc size = do
    let pages = div_roundup size 0x1000
    page ← physical_alloc (add64 pages 1)
    let ptr = tohh hhdm_offset page
    write ptr pages
    write (ptr + 8) size
    pure (ptr + 0x1000)

  -- `physical::free(fromhh(meta), meta->pages + 1)`, the `big_alloc_meta` a page before `ptr`.
  pub big_free : ℕ → Pmm → Run (Unit {0})
  big_free ptr = do
    let meta = sub64 ptr 0x1000
    pages ← read meta
    physical_free (fromhh hhdm_offset meta) (add64 pages 1)

  unfoldable pub free : ℕ → Pmm → Run (Unit {0})
  unfolding big_free slab_free
  free ptr =
      if ptr == 0
      then pure tt
      else (if is_big ptr then big_free ptr else do slab ← slab_of ptr; slab_free slab ptr)

  module _ (slabs : ℕ) where
    unfoldable pub construct : Pmm → Run (Unit {0})
    unfolding init_all
    construct = init_all slabs sizes

    unfoldable pub malloc : ℕ → Pmm → Run ℕ
    malloc size = do
      slab ← get_slab slabs size
      if slab == 0 then big_malloc size else slab_alloc slab

    unfoldable pub calloc : ℕ → ℕ → Pmm → Run ℕ
    calloc num size = do
      let bytes = num * size % 2 ^ 64
      ptr ← malloc bytes
      if ptr == 0 then pure 0 else do fill ptr 0 bytes; pure ptr

    -- The part that `realloc` and `big_realloc` share from `if (size < old_size)` on.
    pub move : ℕ → ℕ → ℕ → Pmm → Run ℕ
    move old_ptr old_size size = do
      let kept = if ltb size old_size then size else old_size
      new_ptr ← malloc size
      if new_ptr == 0
          then pure old_ptr
          else do copy new_ptr old_ptr kept; free old_ptr; pure new_ptr

    pub big_realloc : ℕ → ℕ → Pmm → Run ℕ
    unfolding move
    big_realloc old_ptr size = if old_ptr == 0 then malloc size else do
      let meta = sub64 old_ptr 0x1000
      old_size ← read (meta + 8)
      if div_roundup old_size 0x1000 == div_roundup size 0x1000
          then (do write (meta + 8) size; pure 0)
          else (if size == 0 then (do free old_ptr; pure 0) else move old_ptr old_size size)

    unfoldable pub realloc : ℕ → ℕ → Pmm → Run ℕ
    unfolding move big_realloc
    realloc old_ptr size =
        if old_ptr == 0
        then malloc size
        else (if is_big old_ptr then big_realloc old_ptr size else do
          slab ← slab_of old_ptr
          old_size ← read (slab + 8)
          if size == 0 then (do free old_ptr; pure 0) else move old_ptr old_size size)
