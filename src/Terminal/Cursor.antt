-- ===== src/Terminal/Cursor.antt =====
-- The movements of the cursor in kernel/drivers/graphics/terminal.cpp.
use ice.Prelude.{
  ℕ, ◌≡◌, ◌≢◌, refl, ap, ◌∙◌, List, [], ◌∷◌, ◌++◌, ℤ, true, not, false, if◌then◌else◌, ne→==, ◌||◌,
  ◌==◌, arith,
}
use ice.Terminal.{
  Terminals, char, write, print, printc, print_digits, vprintf, cursor_up, cursor_down,
}

-- Text without a conversion is handed on as it is, and a number for `%d` in decimal.
pub record Renders (vfctprintf : List ℕ → List ℤ → List ℕ) (decimal : ℤ → List ℕ) : Type 0 where
  pub plain :
      (args : List ℤ)
      → vfctprintf (0x1b ∷ b'[' ∷ b'd' ∷ b'A' ∷ []) args ≡ 0x1b ∷ b'[' ∷ b'd' ∷ b'A' ∷ []
  pub number :
      (lines : ℤ)
      → vfctprintf (0x1b ∷ b'[' ∷ b'%' ∷ b'd' ∷ b'B' ∷ []) (lines ∷ [])
        ≡ 0x1b ∷ b'[' ∷ (decimal lines ++ (b'B' ∷ []))

-- None of the characters is a NUL.
abbrev pub NoNul : List ℕ → Type 0
NoNul [] = Unit
NoNul (c ∷ cs) = (c ≢ 0) × NoNul cs

-- A terminal that is there gets the character.
printc-char :
    (c term : ℕ) (s : Terminals)
    → s.has_response ≡ true
    → term ≢ 0
    → c ≢ 0
    → printc c term s ≡ record s { log = char term c ∷ s.log }
unfolding printc print write
printc-char c term s h n a =
    let there : (not s.has_response || term == 0) ≡ false = ground (arith, h, ne→== term 0 n) in
    rw (ne→== c 0 a) (ap (λ b. if b then s else record s { log = char term c ∷ s.log }) there)

-- What it gets character by character, it gets as a text.
print_digits-write :
    (cs : List ℕ) (term : ℕ) (s : Terminals)
    → s.has_response ≡ true
    → term ≢ 0
    → NoNul cs
    → print_digits cs term s ≡ record s { log = write term cs s.log }
unfolding print_digits write
print_digits-write [] term s h n a = refl
print_digits-write (c ∷ cs) term s h n a =
    ap (print_digits cs term) (printc-char c term s h n a.0)
    ∙ print_digits-write cs term (record s { log = char term c ∷ s.log }) h n a.1

NoNul-snoc : (cs : List ℕ) (c : ℕ) → NoNul cs → c ≢ 0 → NoNul (cs ++ (c ∷ []))
NoNul-snoc [] c a n = (n, tt)
NoNul-snoc (x ∷ cs) c a n = (a.0, NoNul-snoc cs c a.1 n)

-- Let the library of formatted output hand on text as it is and a number in decimal, without a NUL.
-- On a terminal that is there, `cursor_down` writes the sequence that moves the cursor down by its
-- number of lines, but `cursor_up` the letter d in place of the number, whatever the number is.
pub cursor_lem :
    (vfctprintf : List ℕ → List ℤ → List ℕ) (decimal : ℤ → List ℕ) (lines : ℤ) (term : ℕ)
    (s : Terminals)
    → Renders vfctprintf decimal
    → NoNul (decimal lines)
    → s.has_response ≡ true
    → term ≢ 0
    → (cursor_down vfctprintf lines term s
        ≡ record s { log = write term (0x1b ∷ b'[' ∷ (decimal lines ++ (b'B' ∷ []))) s.log })
      × (cursor_up vfctprintf lines term s
          ≡ record s { log = write term (0x1b ∷ b'[' ∷ b'd' ∷ b'A' ∷ []) s.log })
unfolding cursor_down cursor_up vprintf
cursor_lem vfctprintf decimal lines term s r d h n = (
  ap (λ t. print_digits t term s) (r.number lines)
      ∙ print_digits-write _ term s h n (
        λ e. omega (arith, e),
        (λ e. omega (arith, e), NoNul-snoc (decimal lines) b'B' d (λ e. omega (arith, e))),
      ),
  ap (λ t. print_digits t term s) (r.plain (lines ∷ []))
      ∙ print_digits-write _ term s h n (
        λ e. omega (arith, e),
        (λ e. omega (arith, e), (λ e. omega (arith, e), (λ e. omega (arith, e), tt))),
      ),
)
