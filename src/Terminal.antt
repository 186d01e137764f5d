-- ===== src/Terminal.antt =====
-- kernel/drivers/graphics/terminal.cpp: text on the boot loader's terminals. A terminal is its
-- address, and a text the list of its characters before the NUL. The boot loader's `write` is taken
-- as a log of what was written, the last first. What the library of formatted output hands to its
-- callback for a format and its numbers is a parameter, `vfctprintf`.
pub mod Numbers
pub mod Cursor
use ice.Prelude.{
  ℕ, zero, suc, ◌+◌, ◌-◌, ◌*◌, ◌/◌, ◌%◌, ◌^◌, Bool, true, false, ◌||◌, ◌==◌, leb, not,
  if◌then◌else◌, List, [], ◌∷◌, Option, none, some, ℤ, pos, negsuc,
}
use ice.Utils.Math.{sub64}
use ice.Libc.Stdlib.{is_neg, magnitude}

-- What `write` was called for: a character, or a full refresh.
pub data Written : Type 0 where
  char : ℕ → ℕ → Written
  full_refresh : ℕ → Written

pub record Terminals : Type 0 where
  pub main_term : ℕ
  pub has_response : Bool
  pub log : List Written

unfoldable pub write : ℕ → List ℕ → List Written → List Written
write term [] log = log
write term (c ∷ cs) log = write term cs (char term c ∷ log)

unfoldable pub print : List ℕ → ℕ → Terminals → Terminals
print str term s =
    if not s.has_response || term == 0 then s else record s { log = write term str s.log }

-- A NUL makes the text empty.
unfoldable pub printc : ℕ → ℕ → Terminals → Terminals
printc c term s = print (if c == 0 then [] else c ∷ []) term s

unfoldable pub reset : ℕ → Terminals → Terminals
reset term s =
    if not s.has_response || term == 0 then s else record s { log = full_refresh term ∷ s.log }

-- The escape sequences that move the cursor home and clear the screen.
unfoldable pub clear : List ℕ → ℕ → Terminals → Terminals
clear ansii_color term s =
    print (0x1b ∷ b'[' ∷ b'H' ∷ 0x1b ∷ b'[' ∷ b'2' ∷ b'J' ∷ []) term (print ansii_color term s)

-- `while (num > 0)`: the digits that `temp` holds, the last written first.
pub fill_digits : ℕ → ℕ → List ℕ → Option (List ℕ)
fill_digits zero num temp = none
fill_digits (suc f) num temp =
    let more = fill_digits f (num / 10) ((num % 10 + b'0') ∷ temp) in
    if num == 0 then some temp else more

-- `while (--i >= 0) printc(temp[i], term)`.
unfoldable pub print_digits : List ℕ → ℕ → Terminals → Terminals
print_digits [] term s = s
print_digits (c ∷ cs) term s = print_digits cs term (printc c term s)

-- The digits for a number that is not 0. The lowest `int` is its own negative, wrapped around:
-- its last digit is written as '8', and the rest is -(num / 10).
pub digits : ℕ → Option (List ℕ)
digits n = if n == 2 ^ 31 then fill_digits 11 (n / 10) (b'8' ∷ []) else fill_digits 11 n []

-- The sign goes to `main_term`, whatever `term` is.
pub printi : ℤ → ℕ → Terminals → Option Terminals
printi num term s =
    let signed = if is_neg num then printc b'-' s.main_term s else s in
    if magnitude num == 0 then some (printc b'0' term s) else elim (digits (magnitude num)) [
      | none ↦ none
      | some temp ↦ some (print_digits temp term signed)
    ]

-- `for (i = 0; i < count; i++) printc(' ')`, rounds left first.
unfoldable pub spaces : ℕ → Terminals → Terminals
spaces zero s = s
spaces (suc left) s = spaces left (printc b' ' s.main_term s)

-- `columns` is the terminal's field, and `len` the text's length. The text goes to `main_term`.
unfoldable pub center : List ℕ → ℕ → ℕ → Terminals → Terminals
center text len columns s =
    let count = sub64 (columns / 2) (len / 2) in
    spaces count (print text s.main_term (spaces count s))

-- `init`: the boot loader's terminals, of which the first is the main one; `none` where there is none,
-- since `terminals[0]` is then not there.
unfoldable pub init : List ℕ → Option Terminals
init [] = none
init (term ∷ terms) = some record { main_term = term; has_response = true; log = [] }

unfoldable pub putchar : ℕ → Terminals → Terminals
putchar c s = printc c s.main_term s

module _ (vfctprintf : List ℕ → List ℤ → List ℕ) where
  -- The callback is `printc`, for each character in order. `printf` passes its arguments on.
  unfoldable pub vprintf : ℕ → List ℕ → List ℤ → Terminals → Terminals
  vprintf term format args s = print_digits (vfctprintf format args) term s

  -- The format of `cursor_up` lacks its `%`.
  unfoldable pub cursor_up : ℤ → ℕ → Terminals → Terminals
  unfolding vprintf
  cursor_up lines term s = vprintf term (0x1b ∷ b'[' ∷ b'd' ∷ b'A' ∷ []) (lines ∷ []) s

  unfoldable pub cursor_down : ℤ → ℕ → Terminals → Terminals
  unfolding vprintf
  cursor_down lines term s = vprintf term (0x1b ∷ b'[' ∷ b'%' ∷ b'd' ∷ b'B' ∷ []) (lines ∷ []) s

  unfoldable pub cursor_right : ℤ → ℕ → Terminals → Terminals
  unfolding vprintf
  cursor_right lines term s = vprintf term (0x1b ∷ b'[' ∷ b'%' ∷ b'd' ∷ b'C' ∷ []) (lines ∷ []) s

  unfoldable pub cursor_left : ℤ → ℕ → Terminals → Terminals
  unfolding vprintf
  cursor_left lines term s = vprintf term (0x1b ∷ b'[' ∷ b'%' ∷ b'd' ∷ b'D' ∷ []) (lines ∷ []) s
