-- ===== src/Memory/Ranges/Lookup.antt =====
-- The search for the range of an address, and the page maps that `map_page` reaches,
-- kernel/memory/memmap.cpp.
use ice.Prelude.{
  ℕ, ◌/◌, ◌^◌, ◌<◌, ◌≡◌, ◌⊎◌, inl, inr, refl, ap, arith, Bool, true, false, if◌then◌else◌, List, [],
  ◌∷◌, ◌++◌, none, some, Bool-cases,
}
use ice.Utils.Math.{add64, sub64}
use ice.Memory.Physical.{Pmm}
use ice.Memory.Slab.{Run, ok, panic, pure}
use ice.Memory.Paging.{map}
use ice.Memory.Paging.Entry.{default_caching}
use ice.Memory.Ranges.{
  Local, Global, address_to_range, is_outside, map_locals, map_page, protocol_flags,
}

-- No local holds the address.
abbrev pub AllOutside : List Local → ℕ → Type 0
AllOutside [] address = Unit
AllOutside (l ∷ ls) address = (is_outside l address ≡ true) × AllOutside ls address

-- `address_to_range` gives nothing if the address lies in no range. Otherwise it gives the first
-- range that holds the address, with the number of the address's page and that page's place in the
-- range's object, counted from the range's first page and its offset in 64 bits.
pub address_to_range_lem :
    (page_size : ℕ) (ls : List Local) (address : ℕ)
    → ((address_to_range page_size ls address ≡ none) × AllOutside ls address)
      ⊎ ((before : List Local) × (l : Local) × (after : List Local) × (ls ≡ before ++ (l ∷ after))
          × AllOutside before address
          × (is_outside l address ≡ false)
          × (address_to_range page_size ls address
              ≡ some (
                l,
                address / page_size,
                add64 (l.offset / page_size) (sub64 (address / page_size) (l.base / page_size)),
              )))
unfolding address_to_range
address_to_range_lem page_size [] address = inl (refl, tt)
address_to_range_lem page_size (l ∷ ls) address = elim (Bool-cases (is_outside l address)) [
  | inr o ↦ inr ([], l, ls, refl, tt, o, rw o refl)
  | inl o ↦ elim (address_to_range_lem page_size ls address) [
    | inl (e, a) ↦ inl (rw o e, (o, a))
    | inr (before, k, after, e, a, i, f) ↦
        inr (l ∷ before, k, after, ap (λ t. l ∷ t) e, (o, a), i, rw o f)
  ]
]

-- A local of no bytes holds no address.
is_outside-empty :
    (l : Local) (address : ℕ) → l.length ≡ 0 → l.base < 2 ^ 64 → is_outside l address ≡ true
is_outside-empty l address e h = ground (arith, e)

abbrev pub AllEmpty : List Local → Type 0
AllEmpty [] = Unit
AllEmpty (l ∷ ls) = (l.length ≡ 0) × (l.base < 2 ^ 64) × AllEmpty ls

map_locals-AllEmpty :
    (hhdm slabs : ℕ) (gib1_pages : Bool) (ls : List Local) (va pa flags : ℕ) (s : Pmm)
    → AllEmpty ls
    → map_locals hhdm slabs gib1_pages ls va pa flags s ≡ ok true s
unfolding map_locals
map_locals-AllEmpty hhdm slabs gib1_pages [] va pa flags s a = refl
map_locals-AllEmpty hhdm slabs gib1_pages (l ∷ ls) va pa flags s a =
    rw (is_outside-empty l va a.0 a.1)
      (map_locals-AllEmpty hhdm slabs gib1_pages ls va pa flags s a.2)

-- Where the locals' lengths are 0, as `map_range` leaves them, `map_page` maps the page in the global's shadow only, and in no page map of a local.
pub map_page-AllEmpty :
    (hhdm slabs : ℕ) (gib1_pages : Bool) (g : Global) (va pa prot : ℕ) (s : Pmm)
    → AllEmpty g.locals
    → map_page hhdm slabs gib1_pages g va pa prot s
      ≡ map hhdm slabs gib1_pages g.shadow va pa (protocol_flags prot) default_caching s
unfolding map_page
map_page-AllEmpty hhdm slabs gib1_pages g va pa prot s a =
    after (map hhdm slabs gib1_pages g.shadow va pa (protocol_flags prot) default_caching s)
  where
    after :
        (r : Run Bool)
        → elim r as (λ x. Run Bool) [
          | ok done t ↦
              (if done
                  then map_locals hhdm slabs gib1_pages g.locals va pa (protocol_flags prot)
                  else pure false)
                t
          | panic ↦ panic
        ]
          ≡ r
    after (ok true t) =
        map_locals-AllEmpty hhdm slabs gib1_pages g.locals va pa (protocol_flags prot) t a
    after (ok false t) = refl
    after panic = refl
