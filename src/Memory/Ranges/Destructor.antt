-- ===== src/Memory/Ranges/Destructor.antt =====
-- The end of a page map with ranges: `~pagemap_t` of kernel/memory/memmap.cpp. The loop takes fuel, and
-- `none` means that it ran out.
use ice.Prelude.{
  ℕ, ◌≤◌, ◌⊎◌, ◌≢◌, zero, suc, ◌≡◌, refl, sym, ap, ◌∙◌, arith, Bool, inl, inr, List, [], ◌∷◌,
  Option, none, some,
}
use ice.Memory.Physical.{Pmm}
use ice.Memory.Slab.{Run, ok, panic}
use ice.Memory.Paging.Change.{unmap}
use ice.Memory.Paging.Lifetime.{destroy_pagemap}
use ice.Memory.Paging.Returns.{unmap-Returns}
use ice.Memory.Ranges.{Local, Space}

module _ (hhdm_offset slabs : ℕ) (gib1_pages : Bool) where
  -- `while (ranges.size() > 0) unmap(ranges.at(0)->base, ranges.at(0)->length)`: the length is taken
  -- for flags.
  unfoldable pub unmap_ranges : ℕ → Space → Pmm → Option (Run (Unit {0}))
  unmap_ranges zero space s = none
  unmap_ranges (suc f) space s =
      let rest = unmap_ranges f space in
      elim space.ranges [
        | [] ↦ some (ok tt s)
        | l ∷ ls ↦ elim (unmap hhdm_offset slabs gib1_pages space.pagemap l.base l.length s) [
          | ok done t ↦ rest t
          | panic ↦ some panic
        ]
      ]

  unfoldable pub destructor : ℕ → Space → Pmm → Option (Run (Unit {0}))
  destructor fuel space s = elim (unmap_ranges fuel space s) [
    | none ↦ none
    | some r ↦ elim r [
      | ok x t ↦ some (destroy_pagemap hhdm_offset slabs space.pagemap t)
      | panic ↦ some panic
    ]
  ]

-- A list is empty or not.
List-cases : (ls : List Local) → (ls ≡ []) ⊎ ((l : Local) × (rest : List Local) × (ls ≡ l ∷ rest))
List-cases [] = inl refl
List-cases (l ∷ rest) = inr (l, rest, refl)

∷≢[] : {l : Local} {ls : List Local} → ¬ (l ∷ ls ≡ [])
∷≢[] e = cc e

-- A page map with a range does not come out of the loop.
module _ (hhdm_offset slabs : ℕ) (gib1_pages : Bool) where
  unmap_ranges_stuck :
      (f : ℕ) (space : Space) (l : Local) (ls : List Local) (s : Pmm)
      → space.ranges ≡ l ∷ ls
      → unmap_ranges hhdm_offset slabs gib1_pages f space s ≡ none
  unfolding unmap_ranges
  unmap_ranges_stuck zero space l ls s e = refl
  unmap_ranges_stuck (suc f) space l ls s e =
      let (done, t, r) =
        unmap-Returns hhdm_offset slabs gib1_pages space.pagemap l.base l.length s in
      ground (arith, e, r, unmap_ranges_stuck f space l ls t e)

  -- The destructor of a page map without ranges destroys its tables. With a range it never ends,
  -- whatever the memory holds: no number of rounds is enough, since the range stays on the list.
  pub destructor_lem :
      (fuel : ℕ) (space : Space) (s : Pmm)
      → 1 ≤ fuel
      → ((space.ranges ≡ [])
          × (destructor hhdm_offset slabs gib1_pages fuel space s
              ≡ some (destroy_pagemap hhdm_offset slabs space.pagemap s)))
        ⊎ ((space.ranges ≢ []) × (destructor hhdm_offset slabs gib1_pages fuel space s ≡ none))
  unfolding destructor unmap_ranges
  destructor_lem zero space s h = absurd (omega arith)
  destructor_lem (suc f) space s h = elim (List-cases space.ranges) [
    | inl e ↦ inl (e, rw e refl)
    | inr (l, ls, e) ↦ inr (
      λ q. ∷≢[] (sym e ∙ q),
      ap
          (λ (o : Option (Run (Unit {0}))). elim o as (λ x. Option (Run (Unit {0}))) [
            | none ↦ none
            | some r ↦ elim r [
              | ok x t ↦ some (destroy_pagemap hhdm_offset slabs space.pagemap t)
              | panic ↦ some panic
            ]
          ])
          (unmap_ranges_stuck (suc f) space l ls s e),
    )
  ]
