-- ===== src/Prelude/Bits.antt =====
-- Binary digits of native numbers, and the bit operations of a w-bit word described by them.
use Prim.Native.Nat.{
  ℕ, zero, suc, ◌+◌, ◌-◌, ◌*◌, ◌/◌, ◌%◌, ◌^◌, ◌≤◌, ◌<◌, min, max, bit_and, bit_or, digits, bitwise,
  bit_and-bitwise, bit_or-bitwise,
}
use mathlib.Core.Path.{◌≡◌, refl, ap, ◌∙◌}
use mathlib.Core.Logic.{◌≢◌, ◌⊎◌, inl, inr}
use native.Mathlib.Decide.{ℕ_discrete}
use ice.Prelude.Tests.{◌==◌, if◌then◌else◌}
use native.Mathlib.Nat.{
  le_refl, pow-suc, pow-succ', one-le-pow, div-div-eq-div-mul, add-mul-mod_self_left, mod-eq_of_lt,
  div-add-mod, mul-one, div-one,
}
use native.Mathlib.Omega.{arith}

module _ (z : ℕ → ℕ) (f : ℕ → ℕ → ℕ) where
  digits_enough : (n m a b : ℕ) → a ≤ n → a ≤ m → digits z f n a b ≡ digits z f m a b
  digits_enough zero zero a b p q = refl
  digits_enough zero (suc m) zero b p q = refl
  digits_enough zero (suc m) (suc a) b p q = absurd (omega arith)
  digits_enough (suc n) zero zero b p q = refl
  digits_enough (suc n) zero (suc a) b p q = absurd (omega arith)
  digits_enough (suc n) (suc m) zero b p q = refl
  digits_enough (suc n) (suc m) (suc a) b p q =
      rw (digits_enough n m (suc a / 2) (b / 2) (omega arith) (omega arith))

  bitwise-half :
      (a b : ℕ)
      → bitwise z f (suc a) b ≡ bitwise z f (suc a / 2) (b / 2) * 2 + f (suc a % 2) (b % 2)
  bitwise-half a b =
      omega (arith, digits_enough a (suc a / 2) (suc a / 2) (b / 2) (omega arith) (le_refl _))

pub bit_or-half : (a b : ℕ) → bit_or a b ≡ bit_or (a / 2) (b / 2) * 2 + max (a % 2) (b % 2)
bit_or-half zero b = simp bit_or-bitwise (omega arith)
bit_or-half (suc a) b = simp bit_or-bitwise (bitwise-half (λ y. y) max a b)

pub bit_and-half : (a b : ℕ) → bit_and a b ≡ bit_and (a / 2) (b / 2) * 2 + min (a % 2) (b % 2)
bit_and-half zero b = simp bit_and-bitwise (omega arith)
bit_and-half (suc a) b = simp bit_and-bitwise (bitwise-half (λ y. 0) min a b)

-- The digit of weight 2 ^ k.
pub bit : ℕ → ℕ → ℕ
bit a zero = a % 2
bit a (suc k) = bit (a / 2) k

pub bit-le_one : (a k : ℕ) → bit a k ≤ 1
unfolding bit
bit-le_one a zero = omega arith
bit-le_one a (suc k) = bit-le_one (a / 2) k

pub bit-div : (a k : ℕ) → bit a k ≡ a / 2 ^ k % 2
unfolding bit
bit-div a zero = omega arith
bit-div a (suc k) = rw (bit-div (a / 2) k, div-div-eq-div-mul a 2 (2 ^ k), pow-succ' 2 k)

pub bit-bit_and : (a b k : ℕ) → bit (bit_and a b) k ≡ min (bit a k) (bit b k)
unfolding bit
bit-bit_and a b zero = omega (arith, bit_and-half a b)
bit-bit_and a b (suc k) =
    let e : bit_and a b / 2 ≡ bit_and (a / 2) (b / 2) = omega (arith, bit_and-half a b) in
    rw e (bit-bit_and (a / 2) (b / 2) k)

pub bit-bit_or : (a b k : ℕ) → bit (bit_or a b) k ≡ max (bit a k) (bit b k)
unfolding bit
bit-bit_or a b zero = omega (arith, bit_or-half a b)
bit-bit_or a b (suc k) =
    let e : bit_or a b / 2 ≡ bit_or (a / 2) (b / 2) = omega (arith, bit_or-half a b) in
    rw e (bit-bit_or (a / 2) (b / 2) k)

-- Two w-bit words with the same digits are equal.
pub bit_ext : (w a b : ℕ) → a < 2 ^ w → b < 2 ^ w → ((k : ℕ) → k < w → bit a k ≡ bit b k) → a ≡ b
unfolding bit
bit_ext zero a b p q h = omega arith
bit_ext (suc w) a b p q h =
    let halves =
      bit_ext w (a / 2) (b / 2) (omega (arith, pow-suc 2 w)) (omega (arith, pow-suc 2 w))
        (λ k l. h (suc k) (omega arith)) in
    let low : a % 2 ≡ b % 2 = h 0 (omega arith) in omega arith

bit_and-zero_below : (n a : ℕ) → a ≤ n → bit_and a 0 ≡ 0
bit_and-zero_below n zero h = refl
bit_and-zero_below zero (suc a) h = absurd (omega arith)
bit_and-zero_below (suc n) (suc a) h =
    omega (arith, bit_and-half (suc a) 0, bit_and-zero_below n (suc a / 2) (omega arith))

pub bit_or-zero : (b : ℕ) → bit_or 0 b ≡ b
bit_or-zero b = simp bit_or-bitwise refl

pub bit_and-zero : (a : ℕ) → bit_and a 0 ≡ 0
bit_and-zero a = bit_and-zero_below a a (le_refl a)

pub bit_and-lt : (w a b : ℕ) → b < 2 ^ w → bit_and a b < 2 ^ w
bit_and-lt zero a b h = let e : b ≡ 0 = omega arith in rw (e, bit_and-zero a) (omega arith)
bit_and-lt (suc w) a b h = omega (
  arith,
  pow-suc 2 w,
  bit_and-half a b,
  bit_and-lt w (a / 2) (b / 2) (omega (arith, pow-suc 2 w)),
)

pub bit_or-lt : (w a b : ℕ) → a < 2 ^ w → b < 2 ^ w → bit_or a b < 2 ^ w
bit_or-lt zero a b p q =
    let ea : a ≡ 0 = omega arith in let eb : b ≡ 0 = omega arith in rw (ea, eb) (omega arith)
bit_or-lt (suc w) a b p q = omega (
  arith,
  pow-suc 2 w,
  bit_or-half a b,
  bit_or-lt w (a / 2) (b / 2) (omega (arith, pow-suc 2 w)) (omega (arith, pow-suc 2 w)),
)

-- `~b` in a word of w bits.
abbrev pub bit_not : ℕ → ℕ → ℕ
bit_not w b = 2 ^ w - 1 - b

pub bit_not-lt : (w b : ℕ) → bit_not w b < 2 ^ w
bit_not-lt w b = omega (arith, one-le-pow w 2)

pub bit-bit_not : (w b k : ℕ) → b < 2 ^ w → k < w → bit (bit_not w b) k ≡ 1 - bit b k
unfolding bit
bit-bit_not zero b k h l = absurd (omega arith)
bit-bit_not (suc w) b zero h l = omega (arith, pow-suc 2 w, one-le-pow w 2)
bit-bit_not (suc w) b (suc k) h l =
    let e : (2 ^ suc w - 1 - b) / 2 ≡ 2 ^ w - 1 - b / 2 =
      omega (arith, pow-suc 2 w, one-le-pow w 2) in
    rw e (bit-bit_not w (b / 2) k (omega (arith, pow-suc 2 w)) (omega arith))

-- The digits of a power of two.
pub bit-pow_self : (k : ℕ) → bit (2 ^ k) k ≡ 1
unfolding bit
bit-pow_self zero = refl
bit-pow_self (suc k) =
    let e : 2 ^ suc k / 2 ≡ 2 ^ k = omega (arith, pow-suc 2 k) in rw e (bit-pow_self k)

pub bit-zero : (k : ℕ) → bit 0 k ≡ 0
unfolding bit
bit-zero zero = refl
bit-zero (suc k) = bit-zero k

half_mod : (a m : ℕ) → 0 < m → a % (2 * m) ≡ a / 2 % m * 2 + a % 2
half_mod a m h =
    let low : ℕ = a / 2 % m * 2 + a % 2 in
    let e : a ≡ low + 2 * m * (a / 2 / m) = omega (arith, div-add-mod (a / 2) m) in
    ap (λ t. t % (2 * m)) e
    ∙ add-mul-mod_self_left low (2 * m) (a / 2 / m)
    ∙ mod-eq_of_lt (omega arith)

-- `a & (2 ^ k - 1)`.
pub bit_and_mask : (k a : ℕ) → bit_and a (2 ^ k - 1) ≡ a % 2 ^ k
bit_and_mask zero a = rw bit_and-zero (omega arith)
bit_and_mask (suc k) a = rw (pow-succ' 2 k) (
    omega (
      arith,
      one-le-pow k 2,
      bit_and-half a (2 * 2 ^ k - 1),
      ap (λ t. bit_and (a / 2) t) half_of_mask,
      bit_and_mask k (a / 2),
      half_mod a (2 ^ k) (omega (arith, one-le-pow k 2)),
    ))
  where
    half_of_mask : (2 * 2 ^ k - 1) / 2 ≡ 2 ^ k - 1
    half_of_mask = omega (arith, one-le-pow k 2)

-- `a & ((2 ^ j - 1) << k)`: the field of j digits from k on, left in place.
pub bit_and_field : (j k a : ℕ) → bit_and a ((2 ^ j - 1) * 2 ^ k) ≡ a / 2 ^ k % 2 ^ j * 2 ^ k
bit_and_field j zero a = simp (mul-one, div-one) (bit_and_mask j a)
bit_and_field j (suc k) a =
    rw (doubled (2 ^ j - 1), pow-succ' 2 k, ← div-div-eq-div-mul a 2 (2 ^ k))
      (omega (
        arith,
        bit_and-half a ((2 ^ j - 1) * 2 ^ k * 2),
        ap (λ t. bit_and (a / 2) t) halved,
        bit_and_field j k (a / 2),
      ))
  where
    doubled : (x : ℕ) → x * 2 ^ suc k ≡ x * 2 ^ k * 2
    doubled x = omega (arith, ap (λ (t : ℕ). x * t) (pow-suc 2 k))

    halved : (2 ^ j - 1) * 2 ^ k * 2 / 2 ≡ (2 ^ j - 1) * 2 ^ k
    halved = omega arith

-- Cutting to w bits keeps the digits below w.
pub bit-mod : (w a k : ℕ) → k < w → bit (a % 2 ^ w) k ≡ bit a k
unfolding bit
bit-mod zero a k h = absurd (omega arith)
bit-mod (suc w) a zero h =
    rw (pow-succ' 2 w) (omega (arith, half_mod a (2 ^ w) (omega (arith, one-le-pow w 2))))
bit-mod (suc w) a (suc k) h =
    let e : a % (2 * 2 ^ w) / 2 ≡ a / 2 % 2 ^ w =
      omega (arith, half_mod a (2 ^ w) (omega (arith, one-le-pow w 2))) in
    rw (pow-succ' 2 w, e) (bit-mod w (a / 2) k (omega arith))

pub bit-pow_ne : (k j : ℕ) → k ≢ j → bit (2 ^ k) j ≡ 0
unfolding bit
bit-pow_ne zero zero h = absurd (h refl)
bit-pow_ne zero (suc j) h = bit-zero j
bit-pow_ne (suc k) zero h = omega (arith, pow-suc 2 k)
bit-pow_ne (suc k) (suc j) h =
    let e : 2 ^ suc k / 2 ≡ 2 ^ k = omega (arith, pow-suc 2 k) in
    rw e (bit-pow_ne k j (λ q. h (ap suc q)))

pub pow_mono : (k w : ℕ) → k < w → 2 ^ k < 2 ^ w
pow_mono k zero h = absurd (omega arith)
pow_mono zero (suc w) h = omega (arith, pow-suc 2 w, one-le-pow w 2)
pow_mono (suc k) (suc w) h = omega (arith, pow-suc 2 k, pow-suc 2 w, pow_mono k w (omega arith))

pub pow_split : (j k w : ℕ) → j + k ≡ w → 2 ^ j * 2 ^ k ≡ 2 ^ w
pow_split j zero w h = let e : j ≡ w = omega arith in rw e (omega arith)
pow_split j (suc k) zero h = absurd (omega arith)
pow_split j (suc k) (suc w) h =
    omega
      (arith, ap (λ (t : ℕ). 2 ^ j * t) (pow-suc 2 k), pow-suc 2 w, pow_split j k w (omega arith))

-- Testing one digit: `a & (1 << k)`.
pub bit_and-pow : (a k : ℕ) → bit_and a (2 ^ k) ≡ bit a k * 2 ^ k
bit_and-pow a k = ap (bit_and a) one_digit ∙ bit_and_field 1 k a ∙ rw (bit-div a k)
  where
    one_digit : 2 ^ k ≡ (2 ^ 1 - 1) * 2 ^ k
    one_digit = omega arith

pub pow_reflect : (k w : ℕ) → 2 ^ k < 2 ^ w → k < w
pow_reflect zero zero h = absurd (omega arith)
pow_reflect zero (suc w) h = omega arith
pow_reflect (suc k) zero h = absurd (omega (arith, pow-suc 2 k, one-le-pow k 2))
pow_reflect (suc k) (suc w) h =
    omega (arith, pow_reflect k w (omega (arith, pow-suc 2 k, pow-suc 2 w)))

pub bit-pow : (k j : ℕ) → bit (2 ^ k) j ≡ (if k == j then 1 else 0)
bit-pow k j = ground (arith, one_digit (ℕ_discrete k j))
  where
    one_digit : Dec (k ≡ j) → ((k ≡ j) × (bit (2 ^ k) j ≡ 1)) ⊎ ((k ≢ j) × (bit (2 ^ k) j ≡ 0))
    one_digit (yes e) = inl (e, rw (← e) (bit-pow_self k))
    one_digit (no ne) = inr (ne, bit-pow_ne k j ne)

bit_or_zero_below : (n a : ℕ) → a ≤ n → bit_or a 0 ≡ a
bit_or_zero_below zero a h = let z : a ≡ 0 = omega arith in rw z (bit_or-zero 0)
bit_or_zero_below (suc n) a h =
    omega (arith, bit_or-half a 0, bit_or_zero_below n (a / 2) (omega arith))

pub bit_or_zero : (a : ℕ) → bit_or a 0 ≡ a
bit_or_zero a = bit_or_zero_below a a (le_refl a)

-- A digit that is 0 is set by adding its weight.
pub bit_or_add : (k a : ℕ) → bit a k ≡ 0 → bit_or a (2 ^ k) ≡ a + 2 ^ k
unfolding bit
bit_or_add zero a h = omega (arith, bit_or-half a 1, bit_or_zero (a / 2))
bit_or_add (suc k) a h =
    let e : 2 ^ suc k / 2 ≡ 2 ^ k = omega (arith, pow-suc 2 k) in
    omega (
      arith,
      bit_or-half a (2 ^ suc k),
      bit_or_add k (a / 2) h,
      ap (λ t. bit_or (a / 2) t) e,
      pow-suc 2 k,
    )
