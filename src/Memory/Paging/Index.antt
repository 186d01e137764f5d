-- ===== src/Memory/Paging/Index.antt =====
-- The table indices of a virtual address, and canonical addresses, of
-- kernel/arch/x86_64/memory/virtual.cpp.
use ice.Prelude.{
  ℕ, ◌+◌, ◌-◌, ◌*◌, ◌/◌, ◌%◌, ◌^◌, ◌<◌, ◌≡◌, ◌⊎◌, ◌↔◌, ap, ◌∙◌, arith, bit_and_field, true,
}
use native.Mathlib.Nat.{mul-div_cancel, one-le-pow}
use ice.Memory.Paging.{table_index}
use ice.Memory.Paging.Entry.{is_canonical}

pub table_index-eq : (va k : ℕ) → table_index va k ≡ va / 2 ^ k % 512
unfolding table_index
table_index-eq va k =
    ap (λ t. t / 2 ^ k) (bit_and_field 9 k va) ∙ mul-div_cancel _ (one-le-pow k 2 (omega arith))

-- The four indices of a virtual address are below 512, and with the offset in a 4 KiB page they
-- make up the address's lowest 48 bits.
pub table_index_split :
    (va : ℕ)
    → (table_index va 39 < 512)
      × (table_index va 30 < 512)
      × (table_index va 21 < 512)
      × (table_index va 12 < 512)
      × (table_index va 39 * 2 ^ 39
            + table_index va 30 * 2 ^ 30
            + table_index va 21 * 2 ^ 21
            + table_index va 12 * 2 ^ 12
            + va % 2 ^ 12
          ≡ va % 2 ^ 48)
table_index_split va =
    omega (
      arith,
      table_index-eq va 39,
      table_index-eq va 30,
      table_index-eq va 21,
      table_index-eq va 12,
    )

-- A 64-bit address is canonical exactly when its bits from 47 on are all 0 or all 1.
pub is_canonical_iff :
    (va : ℕ)
    → va < 2 ^ 64
    → (is_canonical va ≡ true) ↔ ((va / 2 ^ 47 ≡ 0) ⊎ (va / 2 ^ 47 ≡ 2 ^ 17 - 1))
unfolding is_canonical
is_canonical_iff va h = (λ e. ground arith, λ e. ground arith)
