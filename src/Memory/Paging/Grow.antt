-- ===== src/Memory/Paging/Grow.antt =====
-- A page table that is made on the way: `get_next_lvl` of kernel/arch/x86_64/memory/virtual.cpp with
-- `allocate`, on the heap of kernel/memory/memory.cpp and the pages of kernel/memory/physical.cpp.
pub mod Table
use ice.Prelude.{
  ℕ, ◌+◌, ◌-◌, ◌*◌, ◌/◌, ◌%◌, ◌^◌, ◌<◌, ◌≤◌, ◌≡◌, ◌≢◌, ◌⊎◌, ◌∙◌, inl, inr, arith, refl, sym, ap,
  Mem, load64, load_bytes_ext, store64, load64-store64, load64-store64_ne, store_bytes_outside,
  ne→==, bit_or, true, false, Bool, ltb, leb, ◌&&◌, if◌then◌else◌,
}
use ice.Utils.Math.{tohh, fromhh, ishh, div_roundup, add64}
use ice.Utils.Bitmap.{Bitmap}
use ice.Libc.String.{memset}
use ice.Libc.String.Block.{memset-IsWritten}
use ice.Memory.Physical
use ice.Memory.Physical.{Pmm, done, is_used, page_size}
use ice.Memory.Physical.Alloc.{IsValid, Allocated, page_addr, limit, tohh-page}
use ice.Memory.Physical.Retry.{alloc-Allocated}
use ice.Memory.Physical.Use.{KeepsBitmap, IsValid-KeepsBitmap, is_used-KeepsBitmap}
use ice.Memory.Slab.{Run, ok, malloc, big_malloc, sizes}
use ice.Memory.Slab.Classes.{HasSizes, malloc_lem, size-AllBelow}
use ice.Memory.Slab.Pages.{page_count, with_meta, big_malloc-with_meta}
use ice.Memory.Paging.{new_table, get_next_lvl}
use ice.Memory.Paging.Entry.{has_flags, get_address, set_address, set_flags}
use ice.Memory.Paging.Entry.Arch
use ice.Memory.Paging.Entry.Laws.{get_address-set_address, get_address-set_flags, get_address_page}
use ice.Memory.Paging.Translate.Entry.{
  present_digit, set_flags-present, set_flags-lt, set_address-lt,
}
use ice.Memory.Paging.Walk.{Leads}
use ice.Memory.Paging.Missing.{IsAbsent}
use Table.{
  Request, got, head, table, table-eq, cleared, new_table-cleared, target, table_bounds,
  cleared_kept, bitmap_apart,
}

-- The entry lies in a page `j` that is in use, off the bitmap, and is a word.
pub record IsSlot (hhdm : ℕ) (s : Pmm) (slot j : ℕ) : Type 0 where
  pub in_use : is_used s j ≡ true
  pub inside : (page_addr hhdm j ≤ slot) × (slot + 8 ≤ page_addr hhdm j + page_size)
  pub off_bitmap : (slot + 8 ≤ s.bitmap.buffer) ⊎ (s.bitmap.buffer + 256 ≤ slot)
  pub word : load64 s.mem slot < 2 ^ 64

-- The three flags of a new link.
abbrev link_flags : ℕ
link_flags = bit_or (bit_or Arch.present Arch.write) Arch.user_super

new_link :
    (old pa : ℕ)
    → old < 2 ^ 64
    → pa < 2 ^ 52
    → pa % 0x1000 ≡ 0
    → (get_address (set_flags (set_address old pa) link_flags true) ≡ pa)
      × (has_flags (set_flags (set_address old pa) link_flags true) Arch.present ≡ true)
new_link old pa h l e = (
  (get_address-set_flags (set_address old pa) link_flags (set_address-lt old pa h (omega arith))
        (omega arith) (unfold get_address in refl)).0
      ∙ (get_address-set_address old pa h (omega arith)).0
      ∙ get_address_page pa l e,
  present_digit _ (set_flags-present (set_address old pa) link_flags refl),
)

module _ {hhdm slabs : ℕ} {s : Pmm} {page : ℕ} {s' : Pmm} (q : Request hhdm slabs s page s')
    (curr entry j : ℕ) (slot : IsSlot hhdm s (curr + entry * 8) j) where
  at : ℕ
  at = curr + entry * 8

  -- The slot is outside the new pages.
  slot_apart : (at + 8 ≤ (head q)) ⊎ ((table q) + 0x1000 ≤ at)
  unfolding at head table
  slot_apart =
      omega (
        arith,
        slot.inside,
        other (got q).page (omega arith),
        other ((got q).page + 1) (omega arith),
      )
    where
      other : (k : ℕ) → ((got q).page ≤ k) × (k < (got q).page + 2) → j ≢ k
      other k l e = ground (arith, (got q).was_free k l.0 l.1, ap (is_used s) e, slot.in_use)

  old : ℕ
  old = load64 s.mem at

  word : old < 2 ^ 64
  unfolding old at
  word = slot.word

  linked : Pmm
  linked = record (cleared q) {
    mem =
        store64 (store64 (cleared q).mem at (set_address old (target q))) at
          (set_flags (set_address old (target q)) link_flags true);
  }

  cleared_word : load64 (cleared q).mem at ≡ old
  unfolding old at
  cleared_word =
      load_bytes_ext 8 (cleared q).mem s.mem at
        (λ c l u. (cleared_kept q) c (omega (arith, slot_apart)) (omega (arith, slot.off_bitmap)))

  kept_bitmap : KeepsBitmap s' linked.mem
  unfolding linked cleared head table at
  kept_bitmap c p r =
      let same : s'.bitmap.buffer ≡ s.bitmap.buffer =
        ap (λ (m : Bitmap). m.buffer) (got q).same_bitmap in
      store_bytes_outside 8 (store64 (cleared q).mem at (set_address old (target q))) at _ c
        (omega (arith, same, slot.off_bitmap))
      ∙ store_bytes_outside 8 (cleared q).mem at (set_address old (target q)) c
          (omega (arith, same, slot.off_bitmap))
      ∙ (memset-IsWritten (with_meta s'.mem (head q) 1 0x1000) (table q) 0 0x1000).outside c
          (omega (arith, same, (bitmap_apart q)))
      ∙ store_bytes_outside 8 (store64 s'.mem (head q) 1) ((head q) + 8) 0x1000 c
          (omega (arith, same, (bitmap_apart q)))
      ∙ store_bytes_outside 8 s'.mem (head q) 1 c (omega (arith, same, (bitmap_apart q)))

  get_next_lvl-linked :
      curr ≢ 0 → IsAbsent s.mem at → get_next_lvl hhdm slabs curr entry true s ≡ ok (table q) linked
  unfolding get_next_lvl linked at old
  get_next_lvl-linked c0 absent = ground (
    arith,
    ne→== curr 0 c0,
    absent,
    (new_table-cleared q),
    cleared_word,
    (table_bounds q),
    load64-store64 (cleared q).mem at (set_address old (target q))
        (set_address-lt old (target q) word (omega (arith, (table_bounds q)))),
  )

  linked_entry : load64 linked.mem at ≡ set_flags (set_address old (target q)) link_flags true
  unfolding linked
  linked_entry =
      load64-store64 _ at _ (set_flags-lt (set_address old (target q)) link_flags (omega arith))

  linked-Leads : Leads hhdm linked.mem at (table q)
  linked-Leads =
      let (address, present) =
        new_link old (target q) word (omega (arith, (table_bounds q)))
          (omega (arith, (table_bounds q))) in
      record {
        is_present = ap (λ x. has_flags x Arch.present) linked_entry ∙ present;
        target =
            ap (λ x. tohh hhdm (get_address x)) linked_entry
            ∙ ap (tohh hhdm) address
            ∙ (table_bounds q).4;
        ne_null = λ e. omega (arith, e, table-eq q);
      }

  linked_empty : (c : ℕ) → (table q) ≤ c → c < (table q) + 0x1000 → linked.mem c ≡ 0
  unfolding linked cleared
  linked_empty c l u =
      store_bytes_outside 8 (store64 (cleared q).mem at (set_address old (target q))) at _ c
        (omega (arith, slot_apart, (table-eq q)))
      ∙ store_bytes_outside 8 (cleared q).mem at (set_address old (target q)) c
          (omega (arith, slot_apart, (table-eq q)))
      ∙ (memset-IsWritten (with_meta s'.mem (head q) 1 0x1000) (table q) 0 0x1000).inside c l u

  linked_kept :
      (c : ℕ)
      → (c < (head q)) ⊎ ((table q) + 0x1000 ≤ c)
      → (c < s.bitmap.buffer) ⊎ (s.bitmap.buffer + 256 ≤ c)
      → (c < at) ⊎ (at + 8 ≤ c)
      → linked.mem c ≡ s.mem c
  unfolding linked
  linked_kept c o b d =
      store_bytes_outside 8 (store64 (cleared q).mem at (set_address old (target q))) at _ c d
      ∙ store_bytes_outside 8 (cleared q).mem at (set_address old (target q)) c d
      ∙ (cleared_kept q) c o b

  linked-IsValid : IsValid hhdm linked
  unfolding linked cleared
  linked-IsValid = IsValid-KeepsBitmap hhdm s' linked.mem kept_bitmap (got q).valid

  linked_bits :
      (k : ℕ)
      → k < 2048
      → is_used linked k
        ≡ (if leb (got q).page k && ltb k ((got q).page + 2) then true else is_used s k)
  unfolding linked cleared
  linked_bits k l = is_used-KeepsBitmap s' linked.mem k kept_bitmap ∙ (got q).bits k l

-- What a walk that had to make a table leaves: the table, on which the entry leads, in the second of
-- two pages that were free.
pub record Grown (hhdm : ℕ) (s : Pmm) (slot table : ℕ) (t : Pmm) : Type 0 where
  pub page : ℕ
  pub at : table ≡ page_addr hhdm (page + 1)
  pub was_free : (is_used s page ≡ false) × (is_used s (page + 1) ≡ false)
  pub leads : Leads hhdm t.mem slot table
  pub bytes : (c : ℕ) → table ≤ c → c < table + 0x1000 → t.mem c ≡ 0
  pub kept :
      (c : ℕ)
      → (c < page_addr hhdm page) ⊎ (table + 0x1000 ≤ c)
      → (c < s.bitmap.buffer) ⊎ (s.bitmap.buffer + 256 ≤ c)
      → (c < slot) ⊎ (slot + 8 ≤ c)
      → t.mem c ≡ s.mem c
  pub bits :
      (k : ℕ)
      → k < 2048
      → is_used t k ≡ (if leb page k && ltb k (page + 2) then true else is_used s k)
  pub valid : IsValid hhdm t

-- Let the page allocator be valid, so with at most 2048 pages, the heap have its ten sizes, the direct
-- map begin at a page below 2 ^ 63, and two pages in a row be found. For an entry that is not present,
-- lies in a page in use off the bitmap and is a word, `get_next_lvl` with `allocate` returns a new
-- table: the entry leads to it and is present, the table is empty, its page and the one before for
-- the heap were free and are in use, and of the rest of memory only the bitmap has changed. The page
-- allocator is still valid.
pub get_next_lvl-Grown :
    (hhdm slabs curr entry j : ℕ) (s : Pmm) {page : ℕ} {s' : Pmm}
    → Request hhdm slabs s page s'
    → IsSlot hhdm s (curr + entry * 8) j
    → curr ≢ 0
    → IsAbsent s.mem (curr + entry * 8)
    → (table : ℕ) × (t : Pmm) × (get_next_lvl hhdm slabs curr entry true s ≡ ok table t)
      × Grown hhdm s (curr + entry * 8) table t
get_next_lvl-Grown hhdm slabs curr entry j s q slot c0 absent =
    let had = got q in
    (
      table q,
      linked q curr entry j slot,
      get_next_lvl-linked q curr entry j slot c0 (unfold at in absent),
      record {
        page = had.page;
        at = unfold table head in omega arith;
        was_free = (
          had.was_free had.page (omega arith) (omega arith),
          had.was_free (had.page + 1) (omega arith) (omega arith),
        );
        leads = unfold at in linked-Leads q curr entry j slot;
        bytes = linked_empty q curr entry j slot;
        kept = unfold at head in linked_kept q curr entry j slot;
        bits = linked_bits q curr entry j slot;
        valid = linked-IsValid q curr entry j slot;
      },
    )
