-- ===== src/Libc/Stdlib.antt =====
-- kernel/libs/libc/stdlib.cpp; its calls of the heap stand in Memory.Slab.Wrappers. Signed results
-- are exact numbers: the model is for results that fit their type, past which C leaves the behaviour
-- undefined.
-- The loops over a text take fuel, and `none` means that the fuel ran out.
pub mod Atoi
pub mod Rand
pub mod Div
use ice.Prelude.{
  ℕ, zero, suc, ◌+◌, ◌-◌, ◌*◌, ◌/◌, ◌%◌, ◌^◌, Bool, true, false, not, ◌&&◌, ◌||◌, ◌==◌, leb,
  if◌then◌else◌, Option, none, some, Mem, ℤ, pos, negsuc, pos_part, neg_part, char_value, ◌-ℤ◌,
  ◌+ℤ◌, ◌*ℤ◌, sub_ℕ,
}
use ice.Libc.Ctype.{isalnum, isdigit, tolower}

abbrev pub is_neg : ℤ → Bool
is_neg (pos n) = false
is_neg (negsuc n) = true

-- `abs`, `labs` and `llabs`.
pub abs : ℤ → ℤ
abs j = if is_neg j then pos 0 -ℤ j else j

-- `s[i] && (s[i] >= '0' && s[i] <= '9')`.
abbrev pub at_digit : Mem → ℕ → Bool
at_digit m a = not (m a == 0) && (leb b'0' (m a) && leb (m a) b'9')

pub atoi_loop : ℕ → Mem → ℕ → ℕ → ℕ → Option ℕ
atoi_loop zero m s i num = none
atoi_loop (suc f) m s i num =
    let more = atoi_loop f m s (i + 1) (num * 10 + (m (s + i) - b'0')) in
    if at_digit m (s + i) then more else some num

pub atoi : ℕ → Mem → ℕ → Option ℕ
atoi fuel m s = atoi_loop fuel m s 0 0

-- The loop of `strtol` and `strtoll`: what a character contributes replaces what came before.
pub convert : ℕ → Mem → ℕ → ℤ → ℤ → Option ℤ
convert zero m s base ret_value = none
convert (suc f) m s base ret_value =
    let c = char_value (m s) in
    let digit = (c -ℤ pos b'0') *ℤ base in
    let letter = ((tolower c -ℤ pos b'a') +ℤ pos 10) *ℤ base in
    let base10 = pos_part base == 10 in
    let base16 = pos_part base == 16 in
    let ret16 = if base16 then (if isdigit c then digit else letter) else ret_value in
    let more10 = convert f m (s + 1) base digit in
    let more = convert f m (s + 1) base ret16 in
    if isalnum c
    then (if base10 then (if isdigit c then more10 else some ret_value) else more)
    else some ret_value

pub skip_spaces : ℕ → Mem → ℕ → Option ℕ
skip_spaces zero m s = none
skip_spaces (suc f) m s = let more = skip_spaces f m (s + 1) in if m s == b' ' then more else some s

-- After a sign at `s`: the prefix `0x`, the base, the digits. The results are the value and the
-- address stored through `endptr`, that of the first digit.
pub strtol_unsigned : ℕ → Mem → ℕ → ℕ → Option (ℤ × ℕ)
strtol_unsigned fuel m s base =
    let hex =
      (base == 0 || base == 16) && (m s == b'0') && (m (s + 1) == b'x' || m (s + 1) == b'X') in
    let start = if hex then s + 2 else s in
    let base' = if hex then 16 else (if base == 0 then 10 else base) in
    elim (convert fuel m start (pos base') (pos 0)) [ none ↦ none | some v ↦ some (v, start) ]

pub strtol : ℕ → Mem → ℕ → ℕ → Option (ℤ × ℕ)
unfolding strtol_unsigned
strtol fuel m nptr base = elim (skip_spaces fuel m nptr) [
  | none ↦ none
  | some s ↦
      let negated : Option (ℤ × ℕ) = elim (strtol_unsigned fuel m (s + 1) base) [
        | none ↦ none
        | some (v, e) ↦ some (v *ℤ negsuc 0, e)
      ] in
      if m s == b'-' then negated else strtol_unsigned fuel m s base
]

-- `cseed` is an unsigned 64-bit variable.
pub rand : ℕ → ℕ × ℕ
rand cseed =
    let cseed' = (cseed * 1103515245 + 12345) % 2 ^ 64 in (cseed' / 65536 % 2 ^ 32 % 32768, cseed')

unfoldable pub srand : ℕ → ℕ
srand seed = seed % 2 ^ 32

pub record Quotient : Type 0 where
  pub quot : ℤ
  pub rem : ℤ

abbrev pub signed : Bool → ℕ → ℤ
signed true n = sub_ℕ 0 n
signed false n = pos n

abbrev pub magnitude : ℤ → ℕ
magnitude (pos n) = n
magnitude (negsuc n) = suc n

abbrev pub opposite_signs : ℤ → ℤ → Bool
opposite_signs a b = (is_neg a && not (is_neg b)) || (not (is_neg a) && is_neg b)

-- `div`, `ldiv` and `lldiv`; division in C rounds towards zero, and by zero is undefined.
pub div : ℤ → ℤ → Option Quotient
div numerator denominator =
    let q = magnitude numerator / magnitude denominator in
    let r = magnitude numerator % magnitude denominator in
    if magnitude denominator == 0
    then none
    else some (record {
      quot = signed (opposite_signs numerator denominator) q;
      rem = signed (is_neg numerator) r;
    })
