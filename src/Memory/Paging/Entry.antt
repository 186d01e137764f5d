-- ===== src/Memory/Paging/Entry.antt =====
-- Page table entries and flags: kernel/include/memory/virtual.hpp and
-- kernel/arch/x86_64/memory/virtual.cpp. All values are 64-bit words.
pub mod Flag
pub mod Arch
pub mod Laws
use ice.Prelude.{
  ℕ, ◌+◌, ◌-◌, ◌*◌, ◌/◌, ◌%◌, ◌^◌, bit_and, bit_or, bit_not, Bool, not, ◌||◌, leb, ◌==◌,
  if◌then◌else◌,
}

-- `enum caching`; MMIO is UNCACHABLE and FRAMEBUFFER is WRITE_COMBINING.
pub data Caching : Type 0 where
  uncachable write_through write_protected write_combining write_back : Caching

abbrev pub default_caching : Caching
default_caching = Caching.write_back

abbrev pub pa_mask : ℕ
pa_mask = 0x000FFFFFFFFFF000

-- The methods of `pt_entry_t`, on its `value`.
unfoldable pub set_flags : ℕ → ℕ → Bool → ℕ
set_flags value flags enabled =
    let temp = bit_and value (bit_not 64 flags) in if enabled then bit_or temp flags else temp

unfoldable pub has_flags : ℕ → ℕ → Bool
has_flags value flags = not (bit_and value flags == 0)

pub get_flags : ℕ → ℕ
get_flags value = bit_and value (bit_not 64 pa_mask)

unfoldable pub get_address : ℕ → ℕ
get_address value = bit_and value pa_mask

unfoldable pub set_address : ℕ → ℕ → ℕ
set_address value address = bit_or (bit_and value (bit_not 64 pa_mask)) address

-- The macro `is_lpage`.
abbrev pub is_lpage : ℕ → Bool
is_lpage flags = has_flags flags Flag.lpage || has_flags flags Flag.llpage

pub flags_to_arch : ℕ → ℕ
flags_to_arch flags =
    let r0 = Arch.present in
    let r1 = if has_flags flags Flag.write then bit_or r0 Arch.write else r0 in
    let r2 = if has_flags flags Flag.user then bit_or r1 Arch.user_super else r1 in
    let r3 = if not (has_flags flags Flag.exec) then bit_or r2 Arch.no_exec else r2 in
    let r4 = if has_flags flags Flag.global then bit_or r3 Arch.global else r3 in
    if is_lpage flags then bit_or r4 Arch.larger_pages else r4

abbrev pub cache_flags : Caching → ℕ → ℕ
cache_flags Caching.uncachable pat_bit = 0
cache_flags Caching.write_combining pat_bit = Arch.write_through
cache_flags Caching.write_through pat_bit = pat_bit
cache_flags Caching.write_protected pat_bit = bit_or pat_bit Arch.write_through
cache_flags Caching.write_back pat_bit = bit_or pat_bit Arch.cache_disable

unfoldable pub cache_to_flags : Caching → Bool → ℕ
cache_to_flags cache larger_pages =
    cache_flags cache (if larger_pages then Arch.patlg else Arch.pat4k)

unfoldable pub is_canonical : ℕ → Bool
is_canonical address = leb address 0x00007FFFFFFFFFFF || leb 0xFFFF800000000000 address
