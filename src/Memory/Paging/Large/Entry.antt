-- ===== src/Memory/Paging/Large/Entry.antt =====
-- The entry that `map` writes for a large page, kernel/arch/x86_64/memory/virtual.cpp.
use ice.Prelude.{
  ℕ, ◌+◌, ◌%◌, ◌^◌, ◌≡◌, ◌<◌, refl, ◌∙◌, arith, Bool, true, false, if◌then◌else◌, bit_or, bit_and,
  bit_not, bit_ext, bit-bit_or, bit-bit_and, bit-bit_not, bit-le_one, bit-div, bit_or-lt,
  bit_and-lt, bit_or_zero, bit_or_add, bit_or-zero,
}
use ice.Memory.Paging.{mib2}
use ice.Memory.Paging.Entry.{
  has_flags, get_address, set_address, set_flags, flags_to_arch, cache_to_flags, pa_mask, Caching,
}
use ice.Memory.Paging.Entry.Arch
use ice.Memory.Paging.Entry.Laws.{
  get_address-set_address, get_address_page, get_address-flags_to_arch, flags_to_arch-lt,
  flags_to_arch_lem,
}
use ice.Memory.Paging.Translate.Entry.{set_address-lt, present_digit, set_flags-present}

-- Bit 12, which is PAT in a large page's entry, lies in the field of the address.
abbrev pub has_pat : Caching → Bool
has_pat Caching.uncachable = false
has_pat Caching.write_combining = false
has_pat _ = true

cache_large-lt : (c : Caching) → cache_to_flags c true < 2 ^ 64
unfolding cache_to_flags
cache_large-lt Caching.uncachable = omega arith
cache_large-lt _ = omega arith

get_address-cache_large :
    (c : Caching) → get_address (cache_to_flags c true) ≡ (if has_pat c then 0x1000 else 0)
unfolding get_address cache_to_flags
get_address-cache_large Caching.uncachable = refl
get_address-cache_large _ = refl

get_address-bit_or : (x y : ℕ) → get_address (bit_or x y) ≡ bit_or (get_address x) (get_address y)
unfolding get_address
get_address-bit_or x y =
    bit_ext 64 _ _ (bit_and-lt 64 _ pa_mask (omega arith))
      (bit_or-lt 64 _ _ (bit_and-lt 64 x pa_mask (omega arith))
        (bit_and-lt 64 y pa_mask (omega arith)))
      λ k l. omega (
        arith,
        bit-bit_and (bit_or x y) pa_mask k,
        bit-bit_or x y k,
        bit-bit_or (bit_and x pa_mask) (bit_and y pa_mask) k,
        bit-bit_and x pa_mask k,
        bit-bit_and y pa_mask k,
        bit-le_one pa_mask k,
        bit-le_one x k,
        bit-le_one y k,
      )

get_address-set_flags_or :
    (v f : ℕ)
    → v < 2 ^ 64
    → f < 2 ^ 64
    → get_address (set_flags v f true) ≡ bit_or (get_address v) (get_address f)
unfolding get_address set_flags
get_address-set_flags_or v f hv hf =
    bit_ext 64 _ _ (bit_and-lt 64 _ pa_mask (omega arith))
      (bit_or-lt 64 _ _ (bit_and-lt 64 v pa_mask (omega arith))
        (bit_and-lt 64 f pa_mask (omega arith)))
      λ k l. omega (
        arith,
        bit-bit_and (bit_or (bit_and v (bit_not 64 f)) f) pa_mask k,
        bit-bit_or (bit_and v (bit_not 64 f)) f k,
        bit-bit_and v (bit_not 64 f) k,
        bit-bit_not 64 f k hf l,
        bit-bit_or (bit_and v pa_mask) (bit_and f pa_mask) k,
        bit-bit_and v pa_mask k,
        bit-bit_and f pa_mask k,
        bit-le_one pa_mask k,
        bit-le_one v k,
        bit-le_one f k,
      )

-- The flags that `map` writes for a large page, and the entry.
abbrev pub large_flags : ℕ → Caching → ℕ
large_flags flags cache = bit_or (flags_to_arch flags) (cache_to_flags cache true)

abbrev pub large_entry : ℕ → ℕ → ℕ → Caching → ℕ
large_entry old pa flags cache = set_flags (set_address old pa) (large_flags flags cache) true

pub large_flags-lt : (flags : ℕ) (c : Caching) → large_flags flags c < 2 ^ 64
large_flags-lt flags c = bit_or-lt 64 _ _ (flags_to_arch-lt flags) (cache_large-lt c)

pub get_address-large_entry :
    (old pa flags : ℕ) (c : Caching)
    → old < 2 ^ 64
    → pa < 2 ^ 52
    → pa % mib2 ≡ 0
    → get_address (large_entry old pa flags c) ≡ pa + (if has_pat c then 0x1000 else 0)
get_address-large_entry old pa flags c ho hp e =
    get_address-set_flags_or (set_address old pa) (large_flags flags c)
      (set_address-lt old pa ho (omega arith)) (large_flags-lt flags c)
    ∙ rw
        (
          (get_address-set_address old pa ho (omega arith)).0,
          get_address_page pa hp (omega (arith, e)),
          get_address-bit_or (flags_to_arch flags) (cache_to_flags c true),
          get_address-flags_to_arch flags,
          get_address-cache_large c,
          bit_or-zero (if has_pat c then 0x1000 else 0),
        )
        (joined c)
  where
    joined :
        (c : Caching)
        → bit_or pa (if has_pat c then 0x1000 else 0) ≡ pa + (if has_pat c then 0x1000 else 0)
    joined Caching.uncachable = bit_or_zero pa ∙ omega arith
    joined Caching.write_combining = bit_or_zero pa ∙ omega arith
    joined Caching.write_through = bit_or_add 12 pa (bit-div pa 12 ∙ omega (arith, e))
    joined Caching.write_protected = bit_or_add 12 pa (bit-div pa 12 ∙ omega (arith, e))
    joined Caching.write_back = bit_or_add 12 pa (bit-div pa 12 ∙ omega (arith, e))

large_flags-present : (flags : ℕ) (c : Caching) → large_flags flags c % 2 ≡ 1
large_flags-present flags c = ground (
  arith,
  bit-bit_or (flags_to_arch flags) (cache_to_flags c true) 0,
  bit-le_one (cache_to_flags c true) 0,
  bit-div (flags_to_arch flags) 0,
  bit-div (large_flags flags c) 0,
  flags_to_arch_lem flags,
)

pub large_entry-present :
    (old pa flags : ℕ) (c : Caching) → has_flags (large_entry old pa flags c) Arch.present ≡ true
large_entry-present old pa flags c =
    present_digit _
      (set_flags-present (set_address old pa) (large_flags flags c) (large_flags-present flags c))
