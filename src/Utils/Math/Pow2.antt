-- ===== src/Utils/Math/Pow2.antt =====
-- `next_pow2` of kernel/include/utils/math.hpp.
use ice.Prelude.{
  ℕ, zero, suc, ◌*◌, ◌/◌, ◌^◌, ◌≤◌, ◌<◌, ◌≡◌, arith, max, pow_reflect, some, ◌==◌, Bool-cases, inl,
  inr, ==_iff, lt→ltb,
}
use native.Mathlib.Nat.{pow-suc}
use ice.Utils.Math.{digit_count, next_pow2, sub64}

-- Enough fuel gives the number of digits: 2 ^ (count - 1) <= n < 2 ^ count for n > 0.
digit_count_bounds :
    (f n : ℕ) → n < 2 ^ f → (n < 2 ^ digit_count f n) × (2 ^ digit_count f n ≤ max 1 (n * 2))
unfolding digit_count
digit_count_bounds zero n h = (omega arith, omega arith)
digit_count_bounds (suc f) n h = elim (Bool-cases (n == 0)) [
  | inl z ↦ rw z (let e = (==_iff n 0).0 z in (omega arith, omega arith))
  | inr p ↦
      ground (arith, pow-suc 2 f, digit_count_bounds f (n / 2), pow-suc 2 (digit_count f (n / 2)))
]

-- For 1 <= n <= 2 ^ 30 the result of `next_pow2` is a power of two that is at least `n` and less
-- than `2 * n`.
pub next_pow2_bounds :
    (n : ℕ)
    → 1 ≤ n
    → n ≤ 2 ^ 30
    → (k : ℕ) × (next_pow2 n ≡ some (2 ^ k)) × (n ≤ 2 ^ k) × (2 ^ k < n * 2)
unfolding next_pow2
next_pow2_bounds n lo hi = elim (Bool-cases (n == 1)) [
  | inl e ↦ let e' = (==_iff n 1).0 e in (0, rw e, omega arith, omega arith)
  | inr ne ↦
      let m = sub64 n 1 in
      let k = digit_count 64 m in
      let b = digit_count_bounds 64 m (omega arith) in
      let small : k < 31 = pow_reflect k 31 (ground arith) in
      (k, rw (ne, lt→ltb k 31 small), ground arith, ground arith)
]
