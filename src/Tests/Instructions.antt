-- ===== src/Tests/Instructions.antt =====
-- The processor's answers, and the movements of the terminal's cursor, on concrete values.
use ice.Prelude.{
  ℕ, true, false, ◌+◌, ◌%◌, ◌^◌, ◌≡◌, refl, if◌then◌else◌, ◌==◌, List, [], ◌∷◌, ◌++◌, ℤ, pos, Bool,
  some, none,
}
use ice.Libc.Stdlib.{magnitude}
use ice.Cpu.Processor.{
  Registers, Instruction, halt, interrupts_enable, interrupts_disable, invlpg, invlpg_at, out8,
  out16, out32, out_port, in8, in16, in32,
}
use ice.Terminal.{
  Terminals, write, init, putchar, char, cursor_left, cursor_right, vprintf, print, printc,
  print_digits,
}

-- The leaf 0x80000001 is there, and its edx has bit 26.
abbrev answers : ℕ → ℕ → Registers
answers leaf subleaf = record { eax = 0x80000008; ebx = 0; ecx = 0; edx = 2 ^ 26 + 1 }

abbrev zeros : Registers
zeros = record { eax = 0; ebx = 0; ecx = 0; edx = 0 }

halt_runs :
    (halt 2 true ≡ Instruction.hlt ∷ Instruction.hlt ∷ [])
    × (halt 1 false ≡ Instruction.cli ∷ Instruction.hlt ∷ [])
    × (interrupts_enable ≡ Instruction.sti ∷ [])
    × (interrupts_disable ≡ Instruction.cli ∷ [])
    × (invlpg 0x5000 ≡ invlpg_at 0x5000 ∷ [])
unfolding halt interrupts_enable interrupts_disable invlpg
halt_runs = (refl, refl, refl, refl, refl)

ports_run :
    (out8 0x20 0x120 ≡ out_port 0x20 8 0x20 ∷ [])
    × (out16 0x20 0x120 ≡ out_port 0x20 16 0x120 ∷ [])
    × (out32 0x20 0x120 ≡ out_port 0x20 32 0x120 ∷ [])
    × (in8 (λ port bits. port + bits) 0x10020 ≡ 0x28)
    × (in16 (λ port bits. port + bits) 0x20 ≡ 0x30)
    × (in32 (λ port bits. port + bits) 0x20 ≡ 0x40)
unfolding out8 out16 out32 in8 in16 in32
ports_run = (refl, refl, refl, refl, refl, refl)

-- Formatted output of one digit for `%d`; the flag is set behind a `%`.
abbrev digit : ℤ → List ℕ
digit n = (magnitude n % 10 + b'0') ∷ []

abbrev first_digit : List ℤ → List ℕ
first_digit [] = []
first_digit (n ∷ ns) = digit n

abbrev render : Bool → List ℕ → List ℤ → List ℕ
render skip [] args = []
render true (c ∷ cs) args = render false cs args
render false (c ∷ cs) args =
    let behind = render true cs args in
    let rest = render false cs args in if c == b'%' then first_digit args ++ behind else c ∷ rest

abbrev screen : Terminals
screen = record { main_term = 7; has_response = true; log = [] }

cursor_runs :
    ((cursor_left (render false) (pos 3) 7 screen).log
      ≡ char 7 b'D' ∷ char 7 b'3' ∷ char 7 b'[' ∷ char 7 0x1b ∷ [])
    × ((cursor_right (render false) (pos 3) 7 screen).log
        ≡ char 7 b'C' ∷ char 7 b'3' ∷ char 7 b'[' ∷ char 7 0x1b ∷ [])
    × ((putchar b'x' screen).log ≡ char 7 b'x' ∷ [])
unfolding cursor_left cursor_right vprintf print_digits printc print write putchar
cursor_runs = (refl, refl, refl)

init_runs : (init [] ≡ none) × (init (7 ∷ 8 ∷ []) ≡ some screen)
unfolding init
init_runs = (refl, refl)
