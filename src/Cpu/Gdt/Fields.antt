-- ===== src/Cpu/Gdt/Fields.antt =====
-- The fields of an entry of the global descriptor table, kernel/arch/x86_64/gdt/gdt.cpp.
use ice.Prelude.{
  ℕ, ◌+◌, ◌*◌, ◌/◌, ◌%◌, ◌^◌, ◌<◌, ◌≡◌, refl, ap, arith, bit_or-half, bit_or-zero, bit_and, bit_or,
  bit_and_mask, bit_and_field,
}
use ice.Cpu.Gdt.{create_entry}

-- A low half and a high half are joined without a carry.
nibbles : (a b : ℕ) → a < 2 ^ 4 → b % 2 ^ 4 ≡ 0 → bit_or a b ≡ a + b
nibbles a b h g =
    let rest : a / 2 / 2 / 2 / 2 ≡ 0 = omega arith in
    omega (
      arith,
      bit_or-half a b,
      bit_or-half (a / 2) (b / 2),
      bit_or-half (a / 2 / 2) (b / 2 / 2),
      bit_or-half (a / 2 / 2 / 2) (b / 2 / 2 / 2),
      ap (λ t. bit_or t (b / 2 / 2 / 2 / 2)) rest,
      bit_or-zero (b / 2 / 2 / 2 / 2),
    )

-- The entry's three base fields make up the 32-bit base, its limit fields the lowest 20 bits of the
-- limit, and the high half of the granularity byte is that of the argument.
pub create_entry_lem :
    (base limit granularity access : ℕ)
    → base < 2 ^ 32
    → granularity < 2 ^ 8
    → ((create_entry base limit granularity access).base_low
          + (create_entry base limit granularity access).base_mid * 2 ^ 16
          + (create_entry base limit granularity access).base_high * 2 ^ 24
        ≡ base)
      × ((create_entry base limit granularity access).limit_low
            + (create_entry base limit granularity access).granularity % 2 ^ 4 * 2 ^ 16
          ≡ limit % 2 ^ 20)
      × ((create_entry base limit granularity access).granularity / 2 ^ 4 ≡ granularity / 2 ^ 4)
      × ((create_entry base limit granularity access).access ≡ access)
unfolding create_entry
create_entry_lem base limit granularity access h g =
    let low = bit_and_mask 16 base in
    let joined =
      nibbles (limit / 2 ^ 16 % 2 ^ 4) (granularity / 2 ^ 4 * 2 ^ 4) (omega arith) (omega arith) in
    let halves : bit_or (bit_and (limit / 2 ^ 16) 0x0f) (bit_and granularity 0xf0)
        ≡ limit / 2 ^ 16 % 2 ^ 4 + granularity / 2 ^ 4 * 2 ^ 4 =
      rw (bit_and_mask 4 (limit / 2 ^ 16), high_half) joined in
    (
      omega (
        arith,
        bit_and_mask 16 base,
        bit_and_mask 8 (base / 2 ^ 16),
        bit_and_mask 8 (base / 2 ^ 24),
      ),
      omega (arith, halves, bit_and_mask 16 limit),
      omega (arith, halves),
      refl,
    )
  where
    high_half : bit_and granularity 0xf0 ≡ granularity / 2 ^ 4 * 2 ^ 4
    high_half = omega (arith, bit_and_field 4 4 granularity)
