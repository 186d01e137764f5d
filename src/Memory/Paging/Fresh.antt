-- ===== src/Memory/Paging/Fresh.antt =====
-- `map` of kernel/arch/x86_64/memory/virtual.cpp where it has to make the table of the lowest level,
-- and the translation after it.
use ice.Prelude.{
  ℕ, ◌+◌, ◌*◌, ◌%◌, ◌^◌, ◌<◌, ◌≤◌, ◌≡◌, ◌≢◌, ◌⊎◌, sym, ap, ◌∙◌, arith, Bool, true, false, load64,
  load_bytes, load_bytes_ext, ne→==,
}
use ice.Memory.Physical.{Pmm, is_used}
use ice.Memory.Physical.Alloc.{page_addr}
use ice.Memory.Slab.{ok}
use ice.Memory.Paging.{
  Pagemap, get_next_lvl, virtual_to_pt_entry, virtual_to_physical, table_index, kib4, map, map_one,
}
use ice.Memory.Paging.Entry.{has_flags, Caching}
use ice.Memory.Paging.Entry.Flag
use ice.Memory.Paging.Index.{table_index-eq}
use ice.Memory.Paging.Walk.{HasSizes, Tables, get_next_lvl-Leads, virtual_to_pt_entry_lem}
use ice.Memory.Paging.Translate.{
  WordsApart, Apart, Leads-kept, get_page_size-small, map-eq, map-virtual_to_physical,
}
use ice.Memory.Paging.Missing.{IsAbsent}
use ice.Memory.Paging.Large.{LargeTables}
use ice.Memory.Paging.Grow.{IsSlot, Grown, get_next_lvl-Grown}
use ice.Memory.Paging.Grow.Table.{Request}

-- An entry in a page that was in use is apart from a table that was made, and as before.
module _ {hhdm : ℕ} {s : Pmm} {slot table : ℕ} {u : Pmm} (g : Grown hhdm s slot table u) (x j : ℕ)
    (o : IsSlot hhdm s x j) where
  off_new : (x + 8 ≤ page_addr hhdm g.page) ⊎ (table + 0x1000 ≤ x)
  off_new =
      omega (arith, o.inside, g.at, other g.page g.was_free.0, other (g.page + 1) g.was_free.1)
    where
      other : (k : ℕ) → is_used s k ≡ false → j ≢ k
      other k f e = ground (arith, f, ap (is_used s) e, o.in_use)

  slot-kept : WordsApart x slot → load64 u.mem x ≡ load64 s.mem x
  slot-kept a =
      load_bytes_ext 8 u.mem s.mem x (λ c l h.
        g.kept c (omega (arith, off_new)) (omega (arith, o.off_bitmap)) (omega (arith, a)))

  slot-apart : (k : ℕ) → k < 512 → WordsApart x (table + k * 8)
  slot-apart k l = omega (arith, off_new, g.at)

new_entry :
    {hhdm : ℕ} {s : Pmm} {slot table : ℕ} {u : Pmm}
    → Grown hhdm s slot table u
    → (k : ℕ) → k < 512
    → load64 u.mem (table + k * 8) < 2 ^ 64
unfolding load_bytes
new_entry {table = table} {u = u} g k l =
    let zero_word =
      load_bytes_ext 8 u.mem (λ c. 0) (table + k * 8)
        (λ c a b. g.bytes c (omega arith) (omega arith)) in
    omega (arith, zero_word)

-- `map_one` goes on from the state that the walk leaves.
map_one-walk :
    (hhdm slabs va pa flags entry : ℕ) (cache : Caching) (p : Pagemap) (s u : Pmm)
    → virtual_to_pt_entry hhdm slabs p va true kib4 s ≡ ok entry u
    → virtual_to_pt_entry hhdm slabs p va true kib4 u ≡ ok entry u
    → map_one hhdm slabs p va pa flags cache kib4 s ≡ map_one hhdm slabs p va pa flags cache kib4 u
unfolding map_one
map_one-walk hhdm slabs va pa flags entry cache p s u e f = ground (arith, e, f)

module _ (hhdm slabs va pa flags : ℕ) (gib1_pages : Bool) (cache : Caching) (p : Pagemap) (s : Pmm)
    {page : ℕ} {s' : Pmm} (q : Request hhdm slabs s page s') (z : HasSizes p)
    (t : LargeTables hhdm s.mem p va) where
  abbrev top_slot : ℕ
  top_slot = p.top_level + table_index va 39 * 8

  abbrev pml3_slot : ℕ
  pml3_slot = t.pml3 + table_index va 30 * 8

  abbrev pml2_slot : ℕ
  pml2_slot = t.pml2 + table_index va 21 * 8

  index_lt : table_index va 12 < 512
  index_lt = let e = table_index-eq va 12 in omega (arith, e)

  -- The tables after the lowest one is made.
  abbrev fresh_tables :
      {j i table : ℕ} {u : Pmm}
      → Grown hhdm s pml2_slot table u
      → IsSlot hhdm s top_slot j
      → IsSlot hhdm s pml3_slot i
      → WordsApart top_slot pml2_slot
      → WordsApart pml3_slot pml2_slot
      → Tables hhdm u.mem p va
  fresh_tables {j} {i} {table} {u} g o3 o2 a3 a2 = record {
    pml3 = t.pml3;
    pml2 = t.pml2;
    pml1 = table;
    top = t.top;
    to_pml3 = Leads-kept hhdm s.mem u.mem _ _ (slot-kept g top_slot j o3 a3) t.to_pml3;
    to_pml2 = Leads-kept hhdm s.mem u.mem _ _ (slot-kept g pml3_slot i o2 a2) t.to_pml2;
    to_pml1 = g.leads;
  }

  walk_grows :
      (table : ℕ) (u : Pmm)
      → table ≢ 0
      → get_next_lvl hhdm slabs t.pml2 (table_index va 21) true s ≡ ok table u
      → virtual_to_pt_entry hhdm slabs p va true kib4 s ≡ ok (table + table_index va 12 * 8) u
  unfolding virtual_to_pt_entry
  walk_grows table u n e = ground (
    arith,
    e,
    ne→== p.top_level 0 t.top,
    get_next_lvl-Leads hhdm slabs p.top_level (table_index va 39) t.pml3 true s t.top t.to_pml3,
    ne→== t.pml3 0 t.to_pml3.ne_null,
    ne→== kib4 p.llpage_size (omega (arith, z.largest)),
    get_next_lvl-Leads hhdm slabs t.pml3 (table_index va 30) t.pml2 true s t.to_pml3.ne_null
        t.to_pml2,
    ne→== t.pml2 0 t.to_pml2.ne_null,
    ne→== kib4 p.lpage_size (omega (arith, z.large)),
    ne→== table 0 n,
  )

  -- Let the heap be able to make a table, the tables of `va` down to the one for its 2 MiB be present
  -- and the entry there be not; let the three entries on the way lie in pages in use, off the bitmap,
  -- the last one apart from the others. For `pa` the address of a 4 KiB page below 2 ^ 52 and `flags`
  -- without the large pages', `map` makes the lowest table, as `Grown` says, and succeeds;
  -- `virtual_to_physical` then gives `pa` with the offset of `va` in its page, and every word apart
  -- from the page's entry is as the new table left it.
  pub map-Grown :
      {k j i : ℕ}
      → IsSlot hhdm s pml2_slot k
      → IsSlot hhdm s top_slot j
      → IsSlot hhdm s pml3_slot i
      → WordsApart top_slot pml2_slot
      → WordsApart pml3_slot pml2_slot
      → IsAbsent s.mem pml2_slot
      → has_flags flags Flag.llpage ≡ false
      → has_flags flags Flag.lpage ≡ false
      → pa < 2 ^ 52
      → pa % 0x1000 ≡ 0
      → (table : ℕ) × (u : Pmm) × (t' : Pmm) × Grown hhdm s pml2_slot table u
        × (map hhdm slabs gib1_pages p va pa flags cache s ≡ ok true t')
        × (virtual_to_physical hhdm slabs p va flags t' ≡ ok (pa + va % 0x1000) t')
        × ((a : ℕ)
            → WordsApart a (table + table_index va 12 * 8)
            → load64 t'.mem a ≡ load64 u.mem a)
  map-Grown {k} {j} {i} o1 o3 o2 a3 a2 absent h g hp e =
      let (table, u, made, grown) =
        get_next_lvl-Grown hhdm slabs t.pml2 (table_index va 21) k s q o1 t.to_pml2.ne_null
          absent in
      let tables = fresh_tables grown o3 o2 a3 a2 in
      let apart : Apart hhdm u.mem p va tables = record {
        from_top = slot-apart grown top_slot j o3 (table_index va 12) index_lt;
        from_pml3 = slot-apart grown pml3_slot i o2 (table_index va 12) index_lt;
        from_pml2 = slot-apart grown pml2_slot k o1 (table_index va 12) index_lt;
      } in
      let (t', done, read, kept) =
        map-virtual_to_physical hhdm slabs va pa flags gib1_pages cache p u z h g tables apart
          (new_entry grown (table_index va 12) index_lt) hp e in
      let small = get_page_size-small p flags z h g in
      let same =
        map_one-walk hhdm slabs va pa flags (table + table_index va 12 * 8) cache p s u
          (walk_grows table u grown.leads.ne_null made)
          (virtual_to_pt_entry_lem hhdm slabs va p true u z tables) in
      (
        table,
        u,
        t',
        grown,
        map-eq hhdm slabs va pa flags gib1_pages cache p s z small
            ∙ same
            ∙ sym (map-eq hhdm slabs va pa flags gib1_pages cache p u z small)
            ∙ done,
        read,
        kept,
      )
