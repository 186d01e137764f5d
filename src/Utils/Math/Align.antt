-- ===== src/Utils/Math/Align.antt =====
-- Alignment in kernel/include/utils/math.hpp: the mask arithmetic rounds to multiples.
use ice.Prelude.{
  ℕ, ◌+◌, ◌-◌, ◌*◌, ◌/◌, ◌%◌, ◌^◌, ◌≤◌, ◌<◌, ◌≡◌, ap, ◌∙◌, arith, bit_and, bit_not, bit_and_field,
  pow_split, pow_mono,
}
use native.Mathlib.Nat.{
  one-le-pow, div-add-mod, div-add-mod', mod-lt, mod-eq_of_lt, mul-mod_left, mul-div_cancel,
}
use ice.Utils.Math.{align_down, align_up, div_roundup, tohh, fromhh, ishh, add64, sub64}
use mathlib.Core.Bool.{true}

-- The mask of `align_down` keeps the digits from k on.
mask_digits : (k : ℕ) → k < 64 → bit_not 64 (sub64 (2 ^ k) 1) ≡ (2 ^ (64 - k) - 1) * 2 ^ k
mask_digits k h = omega (
  arith,
  one-le-pow k 2,
  one-le-pow (64 - k) 2,
  pow_mono k 64 h,
  pow_split (64 - k) k 64 (omega arith),
  ap (λ (t : ℕ). t * 2 ^ k) one_less,
)
  where
    one_less : 2 ^ (64 - k) ≡ 2 ^ (64 - k) - 1 + 1
    one_less = omega (arith, one-le-pow (64 - k) 2)

-- For an alignment 2 ^ k, `align_down` gives the multiple of 2 ^ k at or below `n`.
pub align_down_lem : (k n : ℕ) → k < 64 → n < 2 ^ 64 → align_down n (2 ^ k) ≡ n / 2 ^ k * 2 ^ k
unfolding align_down
align_down_lem k n h l =
    ap (bit_and n) (mask_digits k h)
    ∙ bit_and_field (64 - k) k n
    ∙ ap (λ (t : ℕ). t * 2 ^ k) (mod-eq_of_lt fits)
  where
    fits : n / 2 ^ k < 2 ^ (64 - k)
    fits =
        grind (arith, one-le-pow k 2, pow_split (64 - k) k 64 (omega arith), div-add-mod n (2 ^ k))

-- What `align_up` and `div_roundup` hand to `align_down`.
last_address : (k n : ℕ) → n + 2 ^ k ≤ 2 ^ 64 → sub64 (add64 n (2 ^ k)) 1 ≡ n + 2 ^ k - 1
last_address k n l = omega (arith, one-le-pow k 2)

rounded :
    (k n : ℕ)
    → k < 64
    → n + 2 ^ k ≤ 2 ^ 64
    → align_down (sub64 (add64 n (2 ^ k)) 1) (2 ^ k) ≡ (n + 2 ^ k - 1) / 2 ^ k * 2 ^ k
rounded k n h l =
    rw (last_address k n l) (align_down_lem k (n + 2 ^ k - 1) h (omega (arith, one-le-pow k 2)))

block_bounds : (n p : ℕ) → 0 < p → (n ≤ (n + p - 1) / p * p) × ((n + p - 1) / p * p < n + p)
block_bounds n p h = omega (arith, div-add-mod' (n + p - 1) p, mod-lt (n + p - 1) h)

-- For an alignment 2 ^ k, and where `n + 2 ^ k` does not pass the end of the address space,
-- `align_up` gives a multiple of 2 ^ k that is at least `n` and less than `n + 2 ^ k`.
pub align_up_bounds :
    (k n : ℕ)
    → k < 64
    → n + 2 ^ k ≤ 2 ^ 64
    → (align_up n (2 ^ k) % 2 ^ k ≡ 0) × (n ≤ align_up n (2 ^ k)) × (align_up n (2 ^ k) < n + 2 ^ k)
unfolding align_up
align_up_bounds k n h l = rw (rounded k n h l) (
    let (lo, hi) = block_bounds n (2 ^ k) (one-le-pow k 2 (omega arith)) in
    (mul-mod_left _ _, lo, hi))

-- For a power of two 2 ^ k, and where `n + 2 ^ k` does not pass the end of the address space,
-- `div_roundup` counts the blocks of 2 ^ k bytes that hold `n` bytes, and no block too many.
pub div_roundup_bounds :
    (k n : ℕ)
    → k < 64
    → n + 2 ^ k ≤ 2 ^ 64
    → (n ≤ div_roundup n (2 ^ k) * 2 ^ k) × (div_roundup n (2 ^ k) * 2 ^ k < n + 2 ^ k)
unfolding div_roundup
div_roundup_bounds k n h l =
    rw (rounded k n h l, mul-div_cancel _ {n = 2 ^ k} (one-le-pow k 2 (omega arith)))
      (block_bounds n (2 ^ k) (one-le-pow k 2 (omega arith)))

-- An address below the direct map's offset goes into the direct map and comes back.
pub fromhh-tohh :
    (hhdm a : ℕ)
    → a < hhdm
    → a + hhdm < 2 ^ 64
    → (ishh hhdm (tohh hhdm a) ≡ true) × (fromhh hhdm (tohh hhdm a) ≡ a)
unfolding tohh fromhh ishh
fromhh-tohh hhdm a h l = ground arith
