-- ===== src/Tests/Numbers.antt =====
-- The arithmetic of kernel/include/utils/math.hpp, the bitmap of kernel/utils/bitmap.cpp, and
-- kernel/libs/libc/stdlib.cpp and ctype.cpp, on concrete values.
use ice.Prelude.{
  ◌%◌, zero, suc, true, false, ◌+◌, ◌^◌, ◌≡◌, refl, arith, if◌then◌else◌, Mem, pos, some, ◌==◌,
}
use ice.Utils.Math.{digit_count}
use ice.Utils.Bitmap.{Bitmap, get, set}
use ice.Utils.Bitmap.Laws.{get-set, get_wraps}
use ice.Libc.Stdlib.{strtol, srand}
use ice.Libc.Stdlib.Atoi.{Digits, strtol_lem}
use ice.Libc.Ctype.{isalnum, isxdigit, isspace, isblank}

abbrev bits : Bitmap
bits = record { buffer = 64; size = 8 }

abbrev zeros : Mem
zeros a = 0

get-set_example : get (set zeros bits 9 true) bits 10 ≡ get zeros bits 10
get-set_example = get-set zeros bits 9 10 true (omega arith) (omega arith)

get-zeros : get zeros bits 3 ≡ false
unfolding get
get-zeros = refl

get_wraps_example :
    (get zeros bits 4100 ≡ get zeros bits (4100 % 2048))
    × (get (set zeros bits 2051 true) bits 2051 ≡ false)
get_wraps_example = get_wraps zeros bits 3 4100 (omega arith) get-zeros

-- "42" at 8.
abbrev forty_two : Mem
forty_two a = if a == 8 then b'4' else (if a == 9 then b'2' else 0)

forty_two-Digits : Digits forty_two 8 2
forty_two-Digits zero h = (omega arith, omega arith)
forty_two-Digits (suc zero) h = (omega arith, omega arith)
forty_two-Digits (suc (suc k)) h = absurd (omega arith)

no_alnum : isalnum (pos 0) ≡ false
unfolding isalnum
no_alnum = refl

strtol_lem_example : strtol 3 forty_two 8 10 ≡ some (pos 20, 8)
strtol_lem_example = strtol_lem 3 forty_two 8 1 forty_two-Digits no_alnum (omega arith)

digit_count_runs : digit_count 64 8 ≡ 4
unfolding digit_count
digit_count_runs = refl

srand_runs : srand (2 ^ 32 + 5) ≡ 5
unfolding srand
srand_runs = refl

classes_run : (isxdigit (pos b'f') ≡ true) × (isspace (pos 9) ≡ true) × (isblank (pos 10) ≡ false)
unfolding isxdigit isspace isblank
classes_run = (refl, refl, refl)
