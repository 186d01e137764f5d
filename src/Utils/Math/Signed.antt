-- ===== src/Utils/Math/Signed.antt =====
-- The templates on signed numbers of kernel/include/utils/math.hpp, for numbers that do not overflow.
use ice.Prelude.{ℕ, zero, suc, ℤ, pos, negsuc, ◌*ℤ◌, ◌-ℤ◌}

-- `for (; exp > 0; exp--) result *= base`, for an exponent that is not negative.
unfoldable pub pow_loop : ℕ → ℤ → ℤ → ℤ
pow_loop zero base result = result
pow_loop (suc exp) base result = pow_loop exp base (result *ℤ base)

unfoldable pub pow : ℤ → ℕ → ℤ
unfolding pow_loop
pow base exp = pow_loop exp base (pos 1)

abbrev pub abs_value : ℤ → ℤ
abs_value (pos n) = pos n
abs_value (negsuc n) = pos 0 -ℤ negsuc n

abbrev pub sign : ℤ → ℤ
sign (pos zero) = pos 0
sign (pos (suc n)) = pos 1
sign (negsuc n) = negsuc 0
