-- ===== src/Memory/Paging/Entry/Laws.antt =====
-- What the methods of `pt_entry_t` keep and change, and the flags of kernel/arch/x86_64/memory.
use ice.Prelude.{
  ℕ, ◌+◌, ◌%◌, ◌^◌, ◌<◌, ◌≡◌, ap, ◌∙◌, refl, arith, bit_and, bit_or, bit_not, bit, bit_ext,
  bit-bit_and, bit-bit_or, bit-bit_not, bit-le_one, bit-zero, bit_and-lt, bit_or-lt, bit_and_field,
  true, false, if◌then◌else◌,
}
use ice.Memory.Paging.Entry.{
  pa_mask, set_flags, has_flags, get_flags, get_address, set_address, flags_to_arch, is_lpage,
  Caching, cache_to_flags,
}
use ice.Memory.Paging.Entry.Flag

-- For any field mask, by digits.
module _ (v a mask : ℕ) (hv : v < 2 ^ 64) (ha : a < 2 ^ 64) (hm : mask < 2 ^ 64) where
  field_replaced : bit_and (bit_or (bit_and v (bit_not 64 mask)) a) mask ≡ bit_and a mask
  field_replaced = bit_ext 64 _ _ (bit_and-lt 64 _ mask hm) (bit_and-lt 64 a mask hm) λ k l. omega (
    arith,
    bit-bit_and (bit_or (bit_and v (bit_not 64 mask)) a) mask k,
    bit-bit_or (bit_and v (bit_not 64 mask)) a k,
    bit-bit_and v (bit_not 64 mask) k,
    bit-bit_not 64 mask k hm l,
    bit-bit_and a mask k,
    bit-le_one mask k,
    bit-le_one a k,
    bit-le_one v k,
  )

  outside_joined :
      bit_and (bit_or (bit_and v mask) a) mask ≡ bit_or (bit_and v mask) (bit_and a mask)
  outside_joined =
      bit_ext 64 _ _ (bit_and-lt 64 _ mask hm)
        (bit_or-lt 64 _ _ (bit_and-lt 64 v mask hm) (bit_and-lt 64 a mask hm))
        λ k l. omega (
          arith,
          bit-bit_and (bit_or (bit_and v mask) a) mask k,
          bit-bit_or (bit_and v mask) a k,
          bit-bit_or (bit_and v mask) (bit_and a mask) k,
          bit-bit_and v mask k,
          bit-bit_and a mask k,
          bit-le_one mask k,
          bit-le_one a k,
          bit-le_one v k,
        )

  -- A flag word outside the field does not touch it.
  field_kept :
      bit_and a mask ≡ 0 → bit_and (bit_or (bit_and v (bit_not 64 a)) a) mask ≡ bit_and v mask
  field_kept e = bit_ext 64 _ _ (bit_and-lt 64 _ mask hm) (bit_and-lt 64 v mask hm) λ k l. omega (
    arith,
    bit-bit_and (bit_or (bit_and v (bit_not 64 a)) a) mask k,
    bit-bit_or (bit_and v (bit_not 64 a)) a k,
    bit-bit_and v (bit_not 64 a) k,
    bit-bit_not 64 a k ha l,
    bit-bit_and v mask k,
    bit-bit_and a mask k,
    ap (λ t. bit t k) e,
    bit-zero k,
    bit-le_one mask k,
    bit-le_one a k,
    bit-le_one v k,
  )

  -- Every flag that was set is there.
  flags_there : bit_and (bit_or (bit_and v (bit_not 64 a)) a) a ≡ a
  flags_there = bit_ext 64 _ _ (bit_and-lt 64 _ a ha) ha λ k l. omega (
    arith,
    bit-bit_and (bit_or (bit_and v (bit_not 64 a)) a) a k,
    bit-bit_or (bit_and v (bit_not 64 a)) a k,
    bit-le_one a k,
  )

-- For 64-bit words, the address read back after `set_address` is that of the new word alone; of the
-- old entry the flags are kept, and what the new word has outside the address's field is added.
pub get_address-set_address :
    (v a : ℕ)
    → v < 2 ^ 64
    → a < 2 ^ 64
    → (get_address (set_address v a) ≡ get_address a)
      × (get_flags (set_address v a) ≡ bit_or (get_flags v) (get_flags a))
unfolding get_address set_address get_flags
get_address-set_address v a hv ha = (
  field_replaced v a pa_mask hv ha (omega arith),
  outside_joined v a (bit_not 64 pa_mask) hv ha (omega arith),
)

-- Setting flags outside the address's field keeps the address, and sets every one of them.
pub get_address-set_flags :
    (v f : ℕ)
    → v < 2 ^ 64
    → f < 2 ^ 64
    → get_address f ≡ 0
    → (get_address (set_flags v f true) ≡ get_address v) × (bit_and (set_flags v f true) f ≡ f)
unfolding get_address set_flags
get_address-set_flags v f hv hf e =
    (field_kept v f pa_mask hv hf (omega arith) e, flags_there v f pa_mask hv hf (omega arith))

-- An address of a 4 KiB page below 2 ^ 52 is its own field.
pub get_address_page : (a : ℕ) → a < 2 ^ 52 → a % 0x1000 ≡ 0 → get_address a ≡ a
unfolding get_address
get_address_page a h e = bit_and_field 40 12 a ∙ omega arith

-- The processor's flags for a mapping: always present, writable and of the user as asked, without
-- execution unless asked, global and large as asked.
pub flags_to_arch_lem :
    (flags : ℕ)
    → flags_to_arch flags
      ≡ 1
        + (if has_flags flags Flag.write then 2 else 0)
        + (if has_flags flags Flag.user then 4 else 0)
        + (if is_lpage flags then 128 else 0)
        + (if has_flags flags Flag.global then 256 else 0)
        + (if has_flags flags Flag.exec then 0 else 2 ^ 63)
unfolding flags_to_arch
flags_to_arch_lem flags = ground arith

-- No flag for the processor lies in the address's field.
pub get_address-flags_to_arch : (flags : ℕ) → get_address (flags_to_arch flags) ≡ 0
unfolding get_address flags_to_arch
get_address-flags_to_arch flags = ground arith

pub flags_to_arch-lt : (flags : ℕ) → flags_to_arch flags < 2 ^ 64
flags_to_arch-lt flags = ground (arith, flags_to_arch_lem flags)

pub get_address-cache : (c : Caching) → get_address (cache_to_flags c false) ≡ 0
unfolding get_address cache_to_flags
get_address-cache Caching.uncachable = refl
get_address-cache _ = refl

pub cache-lt : (c : Caching) → cache_to_flags c false < 2 ^ 64
unfolding cache_to_flags
cache-lt Caching.uncachable = omega arith
cache-lt _ = omega arith

pub get_address-or :
    (x y : ℕ)
    → x < 2 ^ 64
    → y < 2 ^ 64
    → get_address x ≡ 0
    → get_address y ≡ 0
    → get_address (bit_or x y) ≡ 0
unfolding get_address
get_address-or x y hx hy ex ey =
    bit_ext 64 _ _ (bit_and-lt 64 _ pa_mask (omega arith)) (omega arith) λ k l. omega (
      arith,
      bit-bit_and (bit_or x y) pa_mask k,
      bit-bit_or x y k,
      bit-bit_and x pa_mask k,
      bit-bit_and y pa_mask k,
      ap (λ t. bit t k) ex,
      ap (λ t. bit t k) ey,
      bit-zero k,
    )
