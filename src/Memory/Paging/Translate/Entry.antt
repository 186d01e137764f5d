-- ===== src/Memory/Paging/Translate/Entry.antt =====
-- The entry that `map` writes for a 4 KiB page, kernel/arch/x86_64/memory/virtual.cpp.
use ice.Prelude.{
  ℕ, ◌%◌, ◌^◌, ◌<◌, ◌≡◌, ◌∙◌, arith, bit_not, bit_and, bit_and-lt, bit_not-lt, bit_and_mask,
  bit-bit_or, bit-le_one, bit-div, bit_or, bit_or-lt, true, false,
}
use ice.Memory.Paging.Entry.{
  pa_mask, has_flags, get_address, set_address, set_flags, flags_to_arch, cache_to_flags, Caching,
}
use ice.Memory.Paging.Entry.Arch
use ice.Memory.Paging.Entry.Laws.{
  get_address-set_address, get_address-set_flags, get_address_page, get_address-flags_to_arch,
  flags_to_arch-lt, get_address-cache, cache-lt, get_address-or, flags_to_arch_lem,
}

-- The flags that `map` writes for a 4 KiB page.
abbrev pub page_flags : ℕ → Caching → ℕ
page_flags flags cache = bit_or (flags_to_arch flags) (cache_to_flags cache false)

-- The entry after `map`.
abbrev pub mapped_entry : ℕ → ℕ → ℕ → Caching → ℕ
mapped_entry old pa flags cache = set_flags (set_address old pa) (page_flags flags cache) true

pub set_address-lt : (old pa : ℕ) → old < 2 ^ 64 → pa < 2 ^ 64 → set_address old pa < 2 ^ 64
unfolding set_address
set_address-lt old pa h g =
    bit_or-lt 64 _ pa (bit_and-lt 64 old (bit_not 64 pa_mask) (omega arith)) g

pub set_flags-lt : (v f : ℕ) → f < 2 ^ 64 → set_flags v f true < 2 ^ 64
unfolding set_flags
set_flags-lt v f h = bit_or-lt 64 _ f (bit_and-lt 64 v (bit_not 64 f) (bit_not-lt 64 f)) h

pub page_flags-lt : (flags : ℕ) (cache : Caching) → page_flags flags cache < 2 ^ 64
page_flags-lt flags cache =
    bit_or-lt 64 (flags_to_arch flags) _ (flags_to_arch-lt flags) (cache-lt cache)

-- An entry whose lowest digit is 1 is present.
pub present_digit : (v : ℕ) → v % 2 ≡ 1 → has_flags v Arch.present ≡ true
unfolding has_flags
present_digit v h = ground (arith, bit_and_mask 1 v)

pub set_flags-present : (v f : ℕ) → f % 2 ≡ 1 → set_flags v f true % 2 ≡ 1
unfolding set_flags
set_flags-present v f h = omega (
  arith,
  bit-bit_or (bit_and v (bit_not 64 f)) f 0,
  bit-le_one (bit_and v (bit_not 64 f)) 0,
  bit-div f 0,
  bit-div (bit_or (bit_and v (bit_not 64 f)) f) 0,
)

page_flags-present : (flags : ℕ) (cache : Caching) → page_flags flags cache % 2 ≡ 1
page_flags-present flags cache = ground (
  arith,
  bit-bit_or (flags_to_arch flags) (cache_to_flags cache false) 0,
  bit-le_one (cache_to_flags cache false) 0,
  bit-div (flags_to_arch flags) 0,
  bit-div (page_flags flags cache) 0,
  flags_to_arch_lem flags,
)

-- The new entry is present and leads to the page.
pub mapped_entry-present :
    (old pa flags : ℕ) (cache : Caching)
    → has_flags (mapped_entry old pa flags cache) Arch.present ≡ true
mapped_entry-present old pa flags cache = present_digit _ (
    set_flags-present (set_address old pa) (page_flags flags cache)
      (page_flags-present flags cache))

pub get_address-mapped_entry :
    (old pa flags : ℕ) (cache : Caching)
    → old < 2 ^ 64
    → pa < 2 ^ 52
    → pa % 0x1000 ≡ 0
    → get_address (mapped_entry old pa flags cache) ≡ pa
get_address-mapped_entry old pa flags cache h g e =
    let replaced = get_address-set_address old pa h (omega arith) in
    let no_address =
      get_address-or (flags_to_arch flags) (cache_to_flags cache false) (flags_to_arch-lt flags)
        (cache-lt cache) (get_address-flags_to_arch flags) (get_address-cache cache) in
    let kept =
      get_address-set_flags (set_address old pa) (page_flags flags cache)
        (set_address-lt old pa h (omega arith)) (page_flags-lt flags cache) no_address in
    kept.0 ∙ (replaced.0 ∙ get_address_page pa g e)
