-- ===== src/Memory/Paging/Returns.antt =====
-- The operations of kernel/arch/x86_64/memory/virtual.cpp that make no tables always return.
use ice.Prelude.{
  ℕ, load64, store64, zero, suc, ◌+◌, ◌*◌, ◌≡◌, refl, arith, Bool, true, false, ◌==◌, not,
  if◌then◌else◌,
}
use ice.Memory.Physical.{Pmm}
use ice.Memory.Slab.{Run, ok}
use ice.Memory.Paging.{
  Pagemap, get_next_lvl, virtual_to_pt_entry, for_pages, must_split, mib2, get_page_size,
  table_index,
}
use ice.Utils.Math.{add64}
use ice.Memory.Paging.Entry.{has_flags}
use ice.Memory.Paging.Entry.Arch
use ice.Memory.Paging.Change.{unmap, unmap_one}

-- The result is a value, in the same state, or in some state.
abbrev Quiet : Run ℕ → Pmm → Type 0
Quiet r s = (a : ℕ) × (r ≡ ok a s)

abbrev pub Returns : Run Bool → Type 0
Returns r = (a : Bool) × (s : Pmm) × (r ≡ ok a s)

if-Quiet :
    (b : Bool) (x y : Pmm → Run ℕ) (s : Pmm)
    → Quiet (x s) s
    → Quiet (y s) s
    → Quiet ((if b then x else y) s) s
if-Quiet true x y s p q = p
if-Quiet false x y s p q = q

module _ (hhdm_offset slabs : ℕ) where
  get_next_lvl-Quiet :
      (curr entry : ℕ) (s : Pmm) → Quiet (get_next_lvl hhdm_offset slabs curr entry false s) s
  unfolding get_next_lvl
  get_next_lvl-Quiet curr entry s =
      if-Quiet (curr == 0) _ _ s (0, refl)
        (if-Quiet (has_flags (load64 s.mem (curr + entry * 8)) Arch.present) _ _ s (_, refl)
          (0, refl))

  -- A walk that may not allocate returns, and changes nothing.
  walk-Quiet :
      (p : Pagemap) (va page_size : ℕ) (s : Pmm)
      → Quiet (virtual_to_pt_entry hhdm_offset slabs p va false page_size s) s
  unfolding virtual_to_pt_entry
  walk-Quiet p va page_size s =
      let (pml3, e3) = get_next_lvl-Quiet p.top_level (table_index va 39) s in
      let (pml2, e2) = get_next_lvl-Quiet pml3 (table_index va 30) s in
      let (pml1, e1) = get_next_lvl-Quiet pml2 (table_index va 21) s in
      let lowest = if pml1 == 0 then 0 else pml1 + table_index va 12 * 8 in
      let middle = if page_size == p.lpage_size then pml2 + table_index va 21 * 8 else lowest in
      let upper =
        if page_size == p.llpage_size
        then pml3 + table_index va 30 * 8
        else (if pml2 == 0 then 0 else middle) in
      (if p.top_level == 0 then 0 else (if pml3 == 0 then 0 else upper), ground (arith, e3, e2, e1))

  unmap_one-Returns :
      (p : Pagemap) (va : ℕ) (s : Pmm) → Returns (unmap_one hhdm_offset slabs p va s)
  unfolding unmap_one
  unmap_one-Returns p va s =
      let (entry, e) = walk-Quiet p va p.page_size s in
      (
        not (entry == 0),
        if entry == 0 then s else record s { mem = store64 s.mem entry 0 },
        ground (arith, e),
      )

  pages-Returns :
      (left i step : ℕ) (body : ℕ → Pmm → Run Bool) (s : Pmm)
      → ((j : ℕ) (t : Pmm) → Returns (body j t))
      → Returns (for_pages left i step body s)
  unfolding for_pages
  pages-Returns zero i step body s r = (true, s, refl)
  pages-Returns (suc left) i step body s r =
      let (done, t, e) = r i s in
      let (rest, u, f) = pages-Returns left (i + step) step body t r in
      (if done then rest else false, if done then u else t, ground (arith, e, f))

  -- `unmap` returns, whatever the memory holds.
  pub unmap-Returns :
      (gib1_pages : Bool) (p : Pagemap) (va flags : ℕ) (s : Pmm)
      → Returns (unmap hhdm_offset slabs gib1_pages p va flags s)
  unfolding unmap
  unmap-Returns gib1_pages p va flags s =
      chosen (must_split hhdm_offset slabs gib1_pages p (get_page_size p flags))
    where
      chosen :
          (b : Bool)
          → Returns (
              (if b
                  then for_pages 512 0 mib2 (λ i. unmap_one hhdm_offset slabs p (add64 va i))
                  else unmap_one hhdm_offset slabs p va)
                s)
      chosen true = pages-Returns 512 0 mib2 _ s (λ j t. unmap_one-Returns p (add64 va j) t)
      chosen false = unmap_one-Returns p va s
