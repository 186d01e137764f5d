-- ===== src/Utils/Math.antt =====
-- kernel/include/utils/math.hpp, for `size_t` and `uintptr_t` arguments.
pub mod Align
pub mod Pow2
pub mod Signed
use ice.Prelude.{
  ℕ, zero, suc, ◌+◌, ◌-◌, ◌/◌, ◌%◌, ◌^◌, bit_and, bit_not, Bool, not, ltb, leb, ◌==◌, if◌then◌else◌,
  Option, none, some,
}

-- Addition and subtraction of 64-bit words.
abbrev pub add64 : ℕ → ℕ → ℕ
add64 a b = (a + b) % 2 ^ 64

abbrev pub sub64 : ℕ → ℕ → ℕ
sub64 a b = (a + 2 ^ 64 - b) % 2 ^ 64

-- `n & ~(a - 1)`.
unfoldable pub align_down : ℕ → ℕ → ℕ
align_down n a = bit_and n (bit_not 64 (sub64 a 1))

unfoldable pub align_up : ℕ → ℕ → ℕ
unfolding align_down
align_up n a = align_down (sub64 (add64 n a) 1) a

unfoldable pub div_roundup : ℕ → ℕ → ℕ
unfolding align_down
div_roundup n a = align_down (sub64 (add64 n a) 1) a / a

-- 64 - __builtin_clzl(n): the number of binary digits of `n`, with fuel for 64 of them.
unfoldable pub digit_count : ℕ → ℕ → ℕ
digit_count zero n = 0
digit_count (suc f) n = let rest = digit_count f (n / 2) in if n == 0 then 0 else suc rest

-- `1 << k` is an `int`: `none` where the shift is undefined, from 31 on.
pub next_pow2 : ℕ → Option ℕ
unfolding digit_count
next_pow2 n =
    let k = digit_count 64 (sub64 n 1) in
    if n == 1 then some 1 else (if ltb k 31 then some (2 ^ k) else none)

-- The offset of the direct map, the kernel's global `hhdm_offset`, is a parameter.
module _ (hhdm_offset : ℕ) where
  unfoldable pub ishh : ℕ → Bool
  ishh a = leb hhdm_offset a

  unfoldable pub tohh : ℕ → ℕ
  unfolding ishh
  tohh a = if ishh a then a else add64 a hhdm_offset

  unfoldable pub fromhh : ℕ → ℕ
  unfolding ishh
  fromhh a = if not (ishh a) then a else sub64 a hhdm_offset
