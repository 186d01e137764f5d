-- ===== src/Libc/Stdlib/Div.antt =====
-- `abs` and `div` of kernel/libs/libc/stdlib.cpp.
use ice.Prelude.{
  ℕ, ◌+◌, ◌*◌, ◌/◌, ◌%◌, ◌<◌, ◌≡◌, ◌≢◌, sym, arith, some, ℤ, pos, negsuc, true, false, Bool, ne→==,
}
use native.Mathlib.Nat.{div-add-mod', mod-lt}
use ice.Libc.Stdlib.{abs, div, Quotient, magnitude, signed, is_neg, opposite_signs}

magnitude-signed : (b : Bool) (n : ℕ) → magnitude (signed b n) ≡ n
magnitude-signed true n = ground arith
magnitude-signed false n = ground arith

-- `abs` has the magnitude of its argument, and is not negative.
abs_lem : (j : ℤ) → abs j ≡ pos (magnitude j)
unfolding abs
abs_lem (pos n) = ground arith
abs_lem (negsuc n) = ground arith

-- For a denominator that is not 0, the quotient and the remainder of `div` make up the numerator in
-- magnitude, and the remainder is smaller than the denominator. The remainder has the numerator's
-- sign, and the quotient is negative for opposite signs, where they are not 0.
pub div_lem :
    (n d : ℤ)
    → magnitude d ≢ 0
    → (q : Quotient) × (div n d ≡ some q)
      × (magnitude n ≡ magnitude q.quot * magnitude d + magnitude q.rem)
      × (magnitude q.rem < magnitude d)
      × (q.rem ≡ signed (is_neg n) (magnitude q.rem))
      × (q.quot ≡ signed (opposite_signs n d) (magnitude q.quot))
unfolding div
div_lem n d h =
    let k = magnitude n / magnitude d in
    let r = magnitude n % magnitude d in
    let mk = magnitude-signed (opposite_signs n d) k in
    let mr = magnitude-signed (is_neg n) r in
    (
      record { quot = signed (opposite_signs n d) k; rem = signed (is_neg n) r },
      rw (ne→== (magnitude d) 0 h),
      rw (mk, mr) (sym (div-add-mod' (magnitude n) (magnitude d))),
      rw mr (mod-lt (magnitude n) (omega arith)),
      rw mr,
      rw mk,
    )
