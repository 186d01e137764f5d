-- ===== src/Cpu/Idt/Dispatch.antt =====
-- The addresses in the descriptors and the choice of the handler, kernel/arch/x86_64/idt/idt.cpp.
use ice.Prelude.{
  ℕ, List, [], ◌∷◌, ◌+◌, ◌*◌, ◌/◌, ◌%◌, ◌^◌, ◌<◌, ◌≤◌, ◌≡◌, ◌≢◌, ◌↔◌, arith, ap, ◌∙◌, ==_iff, ◌-◌,
  ◌==◌, ne→==, if◌then◌else◌, leb, ltb, ◌&&◌, some, zero, suc,
}
use native.Mathlib.Decide.{ℕ_discrete}
use ice.Cpu.Pic.{eoi}
use ice.Cpu.Idt.{
  Idt, descriptor, idt_entry_bytes, set_all, idt_set_descriptor, init, register_handler,
  register_handler_arg, interrupt_handler, handled, with_args, plain,
}

abbrev byte_at : List ℕ → ℕ → ℕ
byte_at [] k = 0
byte_at (b ∷ bs) zero = b
byte_at (b ∷ bs) (suc k) = byte_at bs k

-- The routine's address that the processor reads from the gate that begins with these bytes: the
-- bytes 0 and 1, then 6 to 11.
abbrev pub target : List ℕ → ℕ
target bs =
    byte_at bs 0
    + byte_at bs 1 * 2 ^ 8
    + byte_at bs 6 * 2 ^ 16
    + byte_at bs 7 * 2 ^ 24
    + byte_at bs 8 * 2 ^ 32
    + byte_at bs 9 * 2 ^ 40
    + byte_at bs 10 * 2 ^ 48
    + byte_at bs 11 * 2 ^ 56

-- From a gate that begins with the bytes of a descriptor, as that of vector 0 does, the processor
-- reads the lowest 24 bits of the routine's 64-bit address, and behind them those from bit 32 on: the
-- middle field has 8 bits in place of 16, so the bits 24 to 31 are lost and the higher ones stand a
-- byte too low. It reads the address exactly if that is below 2 ^ 24.
pub descriptor_lem :
    (isr attributes stack : ℕ)
    → isr < 2 ^ 64
    → (target (idt_entry_bytes (descriptor isr attributes stack))
        ≡ isr % 2 ^ 24 + isr / 2 ^ 32 * 2 ^ 24)
      × ((target (idt_entry_bytes (descriptor isr attributes stack)) ≡ isr) ↔ (isr < 2 ^ 24))
unfolding descriptor
descriptor_lem isr attributes stack h =
    (omega arith, (λ e. omega (arith, e), λ l. omega (arith, l)))

-- After a handler was registered with an argument for a vector from 32 to 255, its interrupt calls
-- it with that argument and acknowledges; another vector's interrupt is handled as before.
pub register_handler_arg_lem :
    (s : Idt) (vector h a w : ℕ)
    → 32 ≤ vector
    → vector < 256
    → h ≢ 0
    → interrupt_handler (register_handler_arg s vector h a) w
      ≡ (if w == vector then handled (some (with_args h a)) (eoi vector) else interrupt_handler s w)
unfolding register_handler_arg interrupt_handler
register_handler_arg_lem s vector h a w lo hi n = elim (ℕ_discrete w vector) [
  | yes e ↦ ground (arith, ap eoi e, (==_iff w vector).1 e, ne→== h 0 n)
  | no e ↦ ground (arith, ne→== w vector e)
]

-- The same for a handler without an argument.
pub register_handler_lem :
    (s : Idt) (vector h w : ℕ)
    → 32 ≤ vector
    → vector < 256
    → h ≢ 0
    → interrupt_handler (register_handler s vector h) w
      ≡ (if w == vector then handled (some (plain h)) (eoi vector) else interrupt_handler s w)
unfolding register_handler interrupt_handler
register_handler_lem s vector h w lo hi n = elim (ℕ_discrete w vector) [
  | yes e ↦ ground (arith, ap eoi e, (==_iff w vector).1 e, ne→== h 0 n)
  | no e ↦ ground (arith, ne→== w vector e)
]

set_all-idt :
    (left i : ℕ) (interrupt_table : ℕ → ℕ) (s : Idt) (v : ℕ)
    → (set_all left i interrupt_table s).idt v
      ≡ (if leb i v && ltb v (i + left) then descriptor (interrupt_table v) 0x8e 0 else s.idt v)
unfolding set_all idt_set_descriptor
set_all-idt zero i interrupt_table s v = ground arith
set_all-idt (suc left) i interrupt_table s v = ground (
  arith,
  set_all-idt left (i + 1) interrupt_table (idt_set_descriptor s i (interrupt_table i) 0x8e 0) v,
)

-- `init` fills every vector below 256 with the descriptor of its routine, as an interrupt gate
-- without a stack of its own, and keeps the handlers.
pub init_lem :
    (address : ℕ) (interrupt_table : ℕ → ℕ) (s : Idt) (v : ℕ)
    → v < 256
    → ((init address interrupt_table s).idt v ≡ descriptor (interrupt_table v) 0x8e 0)
unfolding init
init_lem address interrupt_table s v h =
    set_all-idt 256 0 interrupt_table (record s { limit = 15 * 256 - 1; base = address }) v
    ∙ ground (arith, h)
