-- ===== src/Tests/Devices.antt =====
-- The descriptor tables, the interrupt controllers and the terminal on concrete values.
use ice.Prelude.{
  ℕ, true, false, ◌<◌, ◌*◌, ◌+◌, ◌/◌, ◌%◌, ◌^◌, ◌≡◌, ◌↔◌, refl, arith, some, List, [], ◌∷◌, negsuc,
}
use ice.Cpu.Pic.{eoi, unmask}
use ice.Cpu.Idt.{
  Idt, descriptor, idt_entry_bytes, interrupt_handler, register_handler_arg, handled, with_args,
  unknown,
}
use ice.Cpu.Idt.Dispatch.{target, descriptor_lem, register_handler_arg_lem}
use ice.Terminal.{Terminals, char, write, printi, spaces, center, print, printc, reset, clear}
use ice.Terminal.Numbers.{AllDigits, decimal_value, printi_lem}

-- Every line but the second is masked.
abbrev ports : ℕ → ℕ
ports port = 0xfd

unmask_runs : unmask ports 9 ≡ some ((0xa1, 0xfd) ∷ [])
unfolding unmask
unmask_runs = refl

-- Both acknowledgements go to the first controller.
eoi_runs : eoi 44 ≡ (0x20, 0x20) ∷ (0x20, 0x20) ∷ []
unfolding eoi
eoi_runs = refl

descriptor_lem_example :
    (target (idt_entry_bytes (descriptor 0xffffffff80001000 0x8e 0))
      ≡ 0xffffffff80001000 % 2 ^ 24 + 0xffffffff80001000 / 2 ^ 32 * 2 ^ 24)
    × ((target (idt_entry_bytes (descriptor 0xffffffff80001000 0x8e 0)) ≡ 0xffffffff80001000)
        ↔ (0xffffffff80001000 < 2 ^ 24))
descriptor_lem_example = descriptor_lem 0xffffffff80001000 0x8e 0 (omega arith)

abbrev no_handlers : Idt
no_handlers = record {
  idt = λ v. record {
    offset_low = 0;
    selector = 0;
    ist = 0;
    type_attributes = 0;
    offset_middle = 0;
    offset_high = 0;
    zero_word = 0;
  };
  limit = 0;
  base = 0;
  interrupt_handlers = λ v. record { handler = 0; args = 0; arg = false };
}

register_handler_arg_lem_example :
    interrupt_handler (register_handler_arg no_handlers 33 4096 7) 33
    ≡ handled (some (with_args 4096 7)) (eoi 33)
register_handler_arg_lem_example =
    register_handler_arg_lem no_handlers 33 4096 7 33 (omega arith) (omega arith)
      (λ e. omega (arith, e))

unknown_runs : interrupt_handler no_handlers 256 ≡ unknown
unfolding interrupt_handler
unknown_runs = refl

abbrev terminals : Terminals
terminals = record { main_term = 1; has_response = true; log = [] }

printi_lem_example :
    (ds : List ℕ) × (printi (negsuc 41) 2 terminals
      ≡ some (record terminals { log = write 2 ds (char 1 b'-' ∷ []) }))
    × AllDigits ds
    × (decimal_value 0 ds ≡ 42)
printi_lem_example =
    printi_lem (negsuc 41) 2 terminals (omega arith) (λ e. omega (arith, e)) (λ e. omega (arith, e))
      refl

-- A text of two characters in four columns.
center_runs :
    (center (b'o' ∷ b'k' ∷ []) 2 4 terminals).log
    ≡ char 1 b' ' ∷ char 1 b'k' ∷ char 1 b'o' ∷ char 1 b' ' ∷ []
unfolding center spaces print printc write
center_runs = refl

clear_runs :
    (clear [] 3 (reset 0 terminals)).log
    ≡ write 3 (0x1b ∷ b'[' ∷ b'H' ∷ 0x1b ∷ b'[' ∷ b'2' ∷ b'J' ∷ []) []
unfolding clear print reset write
clear_runs = refl
