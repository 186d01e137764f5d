-- ===== src/Libc/Ctype/Classes.antt =====
-- How the classes of kernel/libs/libc/ctype.cpp relate.
use ice.Prelude.{ℕ, ◌≡◌, ◌<◌, arith, true, false, not, ◌&&◌, ◌||◌, ℤ, pos, negsuc}
use ice.Libc.Ctype.{
  isalnum, isalpha, islower, isupper, isdigit, iscntrl, isgraph, isprint, ispunct, toupper, tolower,
}

-- Every 7-bit code is either a control character, the space, or of exactly one of the classes of
-- letters and digits, and of punctuation, and the last two make up the graphic characters.
pub class_partition :
    (n : ℕ)
    → n < 128
    → (isgraph (pos n) ≡ (isalnum (pos n) || ispunct (pos n)))
      × ((isalnum (pos n) && ispunct (pos n)) ≡ false)
      × (isprint (pos n) ≡ not (iscntrl (pos n)))
unfolding isgraph isalnum ispunct isprint iscntrl
class_partition n h = (ground arith, ground arith, ground arith)

-- For every `int`, `toupper` of a lower-case letter is an upper-case one, `tolower` brings it back,
-- and what is no lower-case letter is left alone; an alphanumeric character is a letter or a digit.
pub toupper-tolower :
    (c : ℤ)
    → (islower c ≡ true → (isupper (toupper c) ≡ true) × (tolower (toupper c) ≡ c))
      × (islower c ≡ false → toupper c ≡ c)
      × (isalnum c ≡ (isalpha c || isdigit c))
unfolding islower isupper toupper tolower isalnum isalpha isdigit
toupper-tolower (pos n) = (λ h. (ground arith, ground arith), λ h. ground arith, ground arith)
toupper-tolower (negsuc n) = (λ h. (ground arith, ground arith), λ h. ground arith, ground arith)
