-- ===== src/Libc/String/Overlap.antt =====
-- `memmove` of kernel/libs/libc/string.cpp: towards lower addresses, and towards higher ones.
use ice.Prelude.{ℕ, zero, suc, ◌+◌, ◌-◌, ◌^◌, ◌≤◌, ◌<◌, ◌≡◌, ◌⊎◌, refl, arith, Mem, lt→ltb, le→ltb}
use ice.Utils.Math.{add64, sub64}
use ice.Libc.String.{memmove, memmove_up_loop, memcpy_loop}
use ice.Libc.String.Block.{copied}

-- With the target below the source, overlapping or not, `memmove` puts each of the `len` bytes that
-- stood from `src` on at its place from `dest` on, and changes no other byte.
pub memmove_down :
    (m : Mem) (dest src len : ℕ)
    → dest < src
    → ((k : ℕ) → k < len → memmove m dest src len (dest + k) ≡ m (src + k))
      × ((a : ℕ) → (a < dest) ⊎ (dest + len ≤ a) → memmove m dest src len a ≡ m a)
unfolding memmove
memmove_down m dest src len h = rw (lt→ltb dest src h) (copied m dest src len (omega arith))

-- One round at `i` moves the byte before.
before_one : (p i : ℕ) → 1 ≤ p → p + i < 2 ^ 64 → add64 p (sub64 i 1) ≡ p - 1 + i
before_one p i h l = omega arith

up_loop-eq-copy :
    (left : ℕ) (m : Mem) (dest src i : ℕ)
    → 1 ≤ src
    → 1 ≤ dest
    → src + i + left ≤ 2 ^ 64
    → dest + i + left ≤ 2 ^ 64
    → memmove_up_loop left m dest src i ≡ memcpy_loop left m (dest - 1) (src - 1) i
unfolding memmove_up_loop memcpy_loop
up_loop-eq-copy zero m dest src i hs hd ls ld = refl
up_loop-eq-copy (suc left) m dest src i hs hd ls ld =
    rw (before_one dest i hd (omega arith), before_one src i hs (omega arith))
      (up_loop-eq-copy left _ dest src (i + 1) hs hd (omega arith) (omega arith))

-- With the target past the source and no overlap, what `memmove` copies is the block that begins
-- one byte before `src`, and it puts it one byte before `dest`; no other byte changes.
pub memmove_up :
    (m : Mem) (dest src len : ℕ)
    → 1 ≤ src
    → 1 ≤ len
    → src + len ≤ dest
    → dest + len ≤ 2 ^ 64
    → ((k : ℕ) → k < len → memmove m dest src len (dest - 1 + k) ≡ m (src - 1 + k))
      × ((a : ℕ) → (a < dest - 1) ⊎ (dest - 1 + len ≤ a) → memmove m dest src len a ≡ m a)
unfolding memmove
memmove_up m dest src len hs hl apart fits =
    rw
      (
        le→ltb dest src (omega arith),
        lt→ltb src dest (omega arith),
        up_loop-eq-copy len m dest src 0 hs (omega arith) (omega arith) (omega arith),
      )
      (copied m (dest - 1) (src - 1) len (omega arith))
