-- ===== src/Libc/Stdlib/Atoi.antt =====
-- The number conversions of kernel/libs/libc/stdlib.cpp.
use ice.Prelude.{
  ℕ, zero, suc, ◌+◌, ◌-◌, ◌*◌, ◌≤◌, ◌<◌, ◌≡◌, ◌≢◌, arith, some, Mem, ℤ, pos, true, false,
  char_value, ◌-ℤ◌, ◌*ℤ◌, ne→==,
}
use native.Mathlib.Nat.{add-zero}
use native.Mathlib.Numerals.{add-one}
use ice.Libc.Ctype.{isalnum, isdigit}
use ice.Libc.Stdlib.{at_digit, atoi_loop, atoi, convert, skip_spaces, strtol, strtol_unsigned}

-- The characters at the first `n` places from `s` on are digits.
abbrev pub Digits : Mem → ℕ → ℕ → Type 0
Digits m s n = (k : ℕ) → k < n → (b'0' ≤ m (s + k)) × (m (s + k) ≤ b'9')

-- The number that the first `n` characters write in decimal.
abbrev pub decimal : Mem → ℕ → ℕ → ℕ
decimal m s zero = 0
decimal m s (suc n) = decimal m s n * 10 + (m (s + n) - b'0')

atoi_loop-decimal :
    (left f : ℕ) (m : Mem) (s n i : ℕ)
    → Digits m s n
    → at_digit m (s + n) ≡ false
    → i + left ≡ n
    → left < f
    → atoi_loop f m s i (decimal m s i) ≡ some (decimal m s n)
unfolding atoi_loop
atoi_loop-decimal left zero m s n i d e q h = absurd (omega arith)
atoi_loop-decimal zero (suc f) m s n i d e q h = let z : i ≡ n = omega arith in rw (z, e)
atoi_loop-decimal (suc left) (suc f) m s n i d e q h =
    let y : at_digit m (s + i) ≡ true = ground (arith, d i) in
    rw (y, add-one i) (atoi_loop-decimal left f m s n (suc i) d e (omega arith) (omega arith))

-- `atoi` of `n` digits that no digit follows ends, and gives the number that they write in decimal.
pub atoi_lem :
    (fuel : ℕ) (m : Mem) (s n : ℕ)
    → Digits m s n
    → at_digit m (s + n) ≡ false
    → n < fuel
    → atoi fuel m s ≡ some (decimal m s n)
unfolding atoi
atoi_lem fuel m s n d e h = atoi_loop-decimal n fuel m s n 0 d e (omega arith) h

digit_char :
    (c : ℕ)
    → (b'0' ≤ c) × (c ≤ b'9')
    → (isalnum (char_value c) ≡ true)
      × (isdigit (char_value c) ≡ true)
      × ((char_value c -ℤ pos b'0') *ℤ pos 10 ≡ pos ((c - b'0') * 10))
unfolding isalnum isdigit
digit_char c h = (ground arith, ground arith, ground arith)

module _ (m : Mem) (s n : ℕ) (d : Digits m s (suc n)) where
  first : (b'0' ≤ m s) × (m s ≤ b'9')
  first = rw add-zero at (d 0 (omega arith))

  rest : Digits m (s + 1) n
  rest k h = let e : s + 1 + k ≡ s + (k + 1) = omega arith in rw e (d (k + 1) (omega arith))

convert-last :
    (n f : ℕ) (m : Mem) (s : ℕ) (ret : ℤ)
    → Digits m s (suc n)
    → isalnum (char_value (m (s + suc n))) ≡ false
    → suc n < f
    → convert f m s (pos 10) ret ≡ some (pos ((m (s + n) - b'0') * 10))
unfolding convert
convert-last n zero m s ret d e h = absurd (omega arith)
convert-last zero (suc zero) m s ret d e h = absurd (omega arith)
convert-last zero (suc (suc f)) m s ret d e h =
    let c = digit_char (m s) (first m s 0 d) in rw (c.0, c.1, c.2, e, add-zero s)
convert-last (suc n) (suc f) m s ret d e h =
    let c = digit_char (m s) (first m s (suc n) d) in
    let last : s + suc (suc n) ≡ s + 1 + suc n = omega arith in
    let digit : s + suc n ≡ s + 1 + n = omega arith in
    rw (c.0, c.1, c.2, digit)
      (convert-last n f m (s + 1) (pos ((m s - b'0') * 10)) (rest m s (suc n) d) (rw last at e)
        (omega arith))

-- `strtol` of digits in base 10, without spaces or a sign, ends. Its value is ten times the last
-- digit, and the end pointer is the address where the digits begin.
pub strtol_lem :
    (fuel : ℕ) (m : Mem) (s n : ℕ)
    → Digits m s (suc n)
    → isalnum (char_value (m (s + suc n))) ≡ false
    → suc n < fuel
    → strtol fuel m s 10 ≡ some (pos ((m (s + n) - b'0') * 10), s)
unfolding strtol
strtol_lem zero m s n d e h = absurd (omega arith)
strtol_lem (suc f) m s n d e h =
    let minus : m s ≢ b'-' = omega (arith, first m s n d) in
    rw (
      strtol,
      no_spaces,
      ne→== (m s) b'-' minus,
      strtol_unsigned,
      convert-last n (suc f) m s (pos 0) d e h,
    )
  where
    no_spaces : skip_spaces (suc f) m s ≡ some s
    no_spaces =
        let space : m s ≢ b' ' = omega (arith, first m s n d) in
        unfold skip_spaces in rw (ne→== (m s) b' ' space)
