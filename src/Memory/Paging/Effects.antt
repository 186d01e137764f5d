-- ===== src/Memory/Paging/Effects.antt =====
-- What `unmap`, `set_flags` and `remap` do to translations, kernel/arch/x86_64/memory/virtual.cpp
-- and kernel/include/memory/virtual.hpp.
use ice.Prelude.{
  ℕ, ◌+◌, ◌*◌, ◌%◌, ◌^◌, ◌≡◌, ◌<◌, refl, sym, ap, ◌∙◌, arith, Mem, load64, store64, load64-store64,
  load64-store64_ne, Bool, true, false, ne→==, ==_iff, bit_and_field, bit_or, bit_and, bit_not,
  bit_ext, bit-bit_or, bit-bit_and, bit-bit_not, bit-zero, bit-le_one, bit_or-lt,
}
use ice.Utils.Math.{add64}
use ice.Memory.Physical.{Pmm}
use ice.Memory.Slab.{ok}
use ice.Memory.Paging.{Pagemap, virtual_to_physical, table_index, get_page_size, kib4, invalid_addr}
use ice.Memory.Paging.Entry.{has_flags, get_address, set_address, set_flags, pa_mask, Caching}
use ice.Memory.Paging.Entry.Arch
use ice.Memory.Paging.Entry.Flag
use ice.Memory.Paging.Change.{unmap, set_page_flags}
use ice.Memory.Paging.Walk.{HasSizes, Tables, virtual_to_pt_entry_lem}
use ice.Memory.Paging.Unmap.{unmap_one-eq}
use ice.Memory.Paging.Translate.{
  WordsApart, Apart, entry_at, get_page_size-small, virtual_to_physical-eq, Leads-kept, add64-small,
}
use ice.Memory.Paging.Translate.Entry.{
  page_flags, mapped_entry, set_flags-lt, page_flags-lt, mapped_entry-present,
  get_address-mapped_entry, set_address-lt,
}

-- Every word apart from the one at `entry` is as before.
abbrev pub OneWord : Mem → Mem → ℕ → Type 0
OneWord m m' entry = (a : ℕ) → WordsApart a entry → load64 m' a ≡ load64 m a

-- The entries on the way to the page's own entry, and it, are apart from a word.
pub record WayApart (hhdm : ℕ) (m : Mem) (p : Pagemap) (va : ℕ) (t : Tables hhdm m p va) (entry : ℕ)
    : Type 0 where
  pub from_top : WordsApart (p.top_level + table_index va 39 * 8) entry
  pub from_pml3 : WordsApart (t.pml3 + table_index va 30 * 8) entry
  pub from_pml2 : WordsApart (t.pml2 + table_index va 21 * 8) entry

-- The same tables after a write to such a word.
abbrev pub Tables-OneWord :
    (hhdm va : ℕ) (p : Pagemap) (m m' : Mem) (entry : ℕ) (t : Tables hhdm m p va)
    → WayApart hhdm m p va t entry
    → OneWord m m' entry
    → Tables hhdm m' p va
Tables-OneWord hhdm va p m m' entry t d kept = record {
  pml3 = t.pml3;
  pml2 = t.pml2;
  pml1 = t.pml1;
  top = t.top;
  to_pml3 = Leads-kept hhdm m m' _ _ (kept _ d.from_top) t.to_pml3;
  to_pml2 = Leads-kept hhdm m m' _ _ (kept _ d.from_pml3) t.to_pml2;
  to_pml1 = Leads-kept hhdm m m' _ _ (kept _ d.from_pml2) t.to_pml1;
}

abbrev pub own_way :
    {hhdm va : ℕ} {p : Pagemap} {m : Mem} {t : Tables hhdm m p va}
    → Apart hhdm m p va t
    → WayApart hhdm m p va t (entry_at hhdm va p m t)
own_way d = record { from_top = d.from_top; from_pml3 = d.from_pml3; from_pml2 = d.from_pml2 }

-- An entry that is not present has no translation.
pub virtual_to_physical-absent :
    (hhdm slabs va flags : ℕ) (p : Pagemap) (s : Pmm)
    → HasSizes p
    → get_page_size p flags ≡ kib4
    → (t : Tables hhdm s.mem p va)
    → has_flags (load64 s.mem (entry_at hhdm va p s.mem t)) Arch.present ≡ false
    → virtual_to_physical hhdm slabs p va flags s ≡ ok invalid_addr s
unfolding virtual_to_physical
virtual_to_physical-absent hhdm slabs va flags p s z g t h =
    let entry = t.pml1 + table_index va 12 * 8 in
    ground (
      arith,
      g,
      virtual_to_pt_entry_lem hhdm slabs va p false s z t,
      ne→== entry 0 (λ e. t.to_pml1.ne_null (omega arith)),
      h,
    )

pub zero_absent : has_flags 0 Arch.present ≡ false
unfolding has_flags
zero_absent = refl

module _ (hhdm slabs va flags : ℕ) (p : Pagemap) (s : Pmm) (z : HasSizes p)
    (h : has_flags flags Flag.llpage ≡ false) (g : has_flags flags Flag.lpage ≡ false)
    (t : Tables hhdm s.mem p va) (d : Apart hhdm s.mem p va t) where
  -- Let the tables of `va` be present, the entry of its 4 KiB page apart from those above it, and
  -- `flags` without the large pages'. Then `unmap` succeeds, `virtual_to_physical` in the new state
  -- gives the invalid address, the entry is 0, and every word apart from it is as before.
  pub unmap-virtual_to_physical :
      (gib1_pages : Bool)
      → (s' : Pmm) × (unmap hhdm slabs gib1_pages p va flags s ≡ ok true s')
        × (virtual_to_physical hhdm slabs p va flags s' ≡ ok invalid_addr s')
        × (load64 s'.mem (entry_at hhdm va p s.mem t) ≡ 0)
        × ((a : ℕ) → WordsApart a (entry_at hhdm va p s.mem t) → load64 s'.mem a ≡ load64 s.mem a)
  unfolding unmap
  unmap-virtual_to_physical gib1_pages =
      let entry = entry_at hhdm va p s.mem t in
      let s' : Pmm = record s { mem = store64 s.mem entry 0 } in
      let kept : OneWord s.mem s'.mem entry = load64-store64_ne s.mem entry 0 in
      (
        s',
        ground (
          arith,
          get_page_size-small p flags z h g,
          ne→== kib4 p.llpage_size (omega (arith, z.largest)),
          unmap_one-eq hhdm slabs va p s z t,
        ),
        virtual_to_physical-absent hhdm slabs va flags p s' z (get_page_size-small p flags z h g)
            (Tables-OneWord hhdm va p s.mem s'.mem entry t (own_way d) kept)
            (ap (λ v. has_flags v Arch.present) (load64-store64 s.mem entry 0 (omega arith))
              ∙ zero_absent),
        load64-store64 s.mem entry 0 (omega arith),
        kept,
      )

  old_address : ℕ
  old_address = get_address (load64 s.mem (entry_at hhdm va p s.mem t))

  address_bounds : (old_address < 2 ^ 52) × (old_address % 0x1000 ≡ 0)
  unfolding old_address get_address
  address_bounds =
      rw (bit_and_field 40 12 (load64 s.mem (entry_at hhdm va p s.mem t)))
        (omega arith, omega arith)

  module _ (cache : Caching) where
    -- The words that are stored one after the other.
    reflagged : Mem
    reflagged =
        let entry = entry_at hhdm va p s.mem t in
        store64 (store64 (store64 s.mem entry 0) entry (set_address 0 old_address)) entry
          (mapped_entry 0 old_address flags cache)

    set_page_flags-reflagged :
        set_page_flags hhdm slabs p va flags cache s ≡ ok true (record s { mem = reflagged })
    unfolding set_page_flags reflagged old_address
    set_page_flags-reflagged =
        let entry = t.pml1 + table_index va 12 * 8 in
        ground (
          arith,
          get_page_size-small p flags z h g,
          (==_iff kib4 p.page_size).1 (sym z.small),
          virtual_to_pt_entry_lem hhdm slabs va p true s z t,
          ne→== entry 0 (λ e. t.to_pml1.ne_null (omega arith)),
          load64-store64 s.mem entry 0 (omega arith),
          load64-store64 (store64 s.mem entry 0) entry (set_address 0 old_address)
              (set_address-lt 0 old_address (omega arith) (omega (arith, address_bounds))),
        )

    new_value : mapped_entry 0 old_address flags cache ≡ bit_or old_address (page_flags flags cache)
    unfolding set_address set_flags
    new_value =
        let f = page_flags flags cache in
        let l = page_flags-lt flags cache in
        let a = bit_or (bit_and 0 (bit_not 64 pa_mask)) old_address in
        bit_ext 64 _ _ (set_flags-lt a f l)
          (bit_or-lt 64 old_address f (omega (arith, address_bounds)) l)
          λ k b. omega (
            arith,
            bit-bit_or (bit_and a (bit_not 64 f)) f k,
            bit-bit_and a (bit_not 64 f) k,
            bit-bit_or (bit_and 0 (bit_not 64 pa_mask)) old_address k,
            bit-bit_and 0 (bit_not 64 pa_mask) k,
            bit-zero k,
            bit-bit_not 64 f k l b,
            bit-bit_or old_address f k,
            bit-le_one f k,
            bit-le_one old_address k,
          )

    -- Let the tables of `va` be present, the entry of its 4 KiB page apart from those above it, and
    -- `flags` without the large pages'. Then the page map's `set_flags` succeeds, the entry has its old
    -- address with exactly the new flags, so `va` has the translation of this address with its offset
    -- in the page, and every word apart from the entry is as before.
    pub set_page_flags-virtual_to_physical :
        (s' : Pmm) × (set_page_flags hhdm slabs p va flags cache s ≡ ok true s')
        × (load64 s'.mem (entry_at hhdm va p s.mem t)
            ≡ bit_or
                (get_address (load64 s.mem (entry_at hhdm va p s.mem t)))
                (page_flags flags cache))
        × (virtual_to_physical hhdm slabs p va flags s'
            ≡ ok (get_address (load64 s.mem (entry_at hhdm va p s.mem t)) + va % 0x1000) s')
        × ((a : ℕ) → WordsApart a (entry_at hhdm va p s.mem t) → load64 s'.mem a ≡ load64 s.mem a)
    unfolding reflagged old_address
    set_page_flags-virtual_to_physical =
        let entry = entry_at hhdm va p s.mem t in
        let m1 = store64 s.mem entry 0 in
        let m2 = store64 m1 entry (set_address 0 old_address) in
        let s' : Pmm = record s { mem = reflagged } in
        let kept : OneWord s.mem s'.mem entry = λ a o.
          load64-store64_ne m2 entry _ a o
          ∙ load64-store64_ne m1 entry _ a o
          ∙ load64-store64_ne s.mem entry 0 a o in
        let value : load64 s'.mem entry ≡ mapped_entry 0 old_address flags cache =
          load64-store64 m2 entry _ (set_flags-lt _ _ (page_flags-lt flags cache)) in
        let (low, whole) = address_bounds in
        (
          s',
          set_page_flags-reflagged,
          value ∙ new_value,
          virtual_to_physical-eq hhdm slabs va flags p s' z (get_page_size-small p flags z h g)
                (Tables-OneWord hhdm va p s.mem s'.mem entry t (own_way d) kept) t.to_pml1.ne_null
                (ap (λ v. has_flags v Arch.present) value
                  ∙ mapped_entry-present 0 old_address flags cache)
              ∙ ap (λ x. ok x s')
                  (ap (λ v. add64 (get_address v) (va % kib4)) value
                    ∙ ap (λ v. add64 v (va % kib4))
                        (get_address-mapped_entry 0 old_address flags cache (omega arith) low whole)
                    ∙ add64-small old_address (va % kib4) (omega (arith, low))),
          kept,
        )
