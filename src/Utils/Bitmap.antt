-- ===== src/Utils/Bitmap.antt =====
-- kernel/include/utils/bitmap.hpp and kernel/utils/bitmap.cpp.
-- The buffer lies in memory. An index is a C `int` and is not negative here.
pub mod Laws
use ice.Prelude.{
  ℕ, ◌+◌, ◌/◌, ◌%◌, ◌^◌, bit_and, bit_or, bit_not, Bool, not, ◌==◌, if◌then◌else◌, Mem, store,
}

pub record Bitmap : Type 0 where
  pub buffer : ℕ
  pub size : ℕ

unfoldable pub empty : Bitmap
empty = record { buffer = 0; size = 0 }

unfoldable pub reassign : Bitmap → ℕ → ℕ → Bitmap
reassign b buff size = record b { buffer = buff; size = size }

-- `uint8_t byte = index / 8`: the byte's number is cut to 8 bits.
unfoldable pub get : Mem → Bitmap → ℕ → Bool
get m b index =
    let digit = index % 8 in
    let byte = index / 8 % 2 ^ 8 in not (bit_and (m (b.buffer + byte)) (2 ^ digit) == 0)

-- `uint16_t byte = index / 8`; what is stored is cut to a byte.
unfoldable pub set : Mem → Bitmap → ℕ → Bool → Mem
set m b index value =
    let digit = index % 8 in
    let byte = index / 8 % 2 ^ 16 in
    let a = b.buffer + byte in
    if value
    then store m a (bit_or (m a) (2 ^ digit) % 2 ^ 8)
    else store m a (bit_and (m a) (bit_not 32 (2 ^ digit)) % 2 ^ 8)
