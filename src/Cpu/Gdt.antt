-- ===== src/Cpu/Gdt.antt =====
-- kernel/arch/x86_64/gdt/gdt.cpp: the entries of the global descriptor table. The instruction that
-- loads the table is left out.
pub mod Fields
use ice.Prelude.{ℕ, ◌/◌, ◌%◌, ◌^◌, ◌*◌, bit_and, bit_or, List, [], ◌∷◌}

abbrev pub long_mode_granularity : ℕ
long_mode_granularity = 0x20

abbrev pub segment : ℕ
segment = 0x10

abbrev pub present : ℕ
present = 0x80

abbrev pub user : ℕ
user = 0x60

abbrev pub executable : ℕ
executable = 0x8

abbrev pub read_write : ℕ
read_write = 0x2

pub record GdtEntry : Type 0 where
  pub limit_low : ℕ
  pub base_low : ℕ
  pub base_mid : ℕ
  pub access : ℕ
  pub granularity : ℕ
  pub base_high : ℕ

-- `base` and `limit` are 32-bit words, `granularity` and `access` bytes.
pub create_entry : ℕ → ℕ → ℕ → ℕ → GdtEntry
create_entry base limit granularity access = record {
  limit_low = bit_and limit 0xffff;
  base_low = bit_and base 0xffff;
  base_mid = bit_and (base / 2 ^ 16) 0xff;
  access = access;
  granularity = bit_or (bit_and (limit / 2 ^ 16) 0x0f) (bit_and granularity 0xf0);
  base_high = bit_and (base / 2 ^ 24) 0xff;
}

abbrev pub kernel_access : ℕ
kernel_access = bit_or (bit_or present segment) read_write

-- The table after `init`.
unfoldable pub gdt : List GdtEntry
unfolding create_entry
gdt =
    create_entry 0 0 0 0
    ∷ create_entry 0 0 long_mode_granularity (bit_or kernel_access executable)
    ∷ create_entry 0 0 0 kernel_access
    ∷ create_entry 0 0 0 0
    ∷ create_entry 0 0 long_mode_granularity (bit_or kernel_access user)
    ∷ create_entry 0 0 0 (bit_or kernel_access user)
    ∷ []
