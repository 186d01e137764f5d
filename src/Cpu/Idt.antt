-- ===== src/Cpu/Idt.antt =====
-- kernel/arch/x86_64/idt/idt.cpp: the interrupt descriptors and the dispatch of interrupts. The
-- tables are functions of the vector. What an exception prints stands in Exception; it ends in `halt`.
pub mod Dispatch
pub mod Exception
use ice.Prelude.{
  ℕ, zero, suc, ◌+◌, ◌-◌, ◌*◌, ◌/◌, ◌%◌, ◌^◌, Bool, true, false, ◌==◌, ltb, leb, ◌&&◌,
  if◌then◌else◌, List, [], ◌∷◌, Option, none, some,
}
use ice.Cpu.Pic.{eoi}

pub record IdtEntry : Type 0 where
  pub offset_low : ℕ
  pub selector : ℕ
  pub ist : ℕ
  pub type_attributes : ℕ
  pub offset_middle : ℕ
  pub offset_high : ℕ
  pub zero_word : ℕ

pub record InterruptHandler : Type 0 where
  pub handler : ℕ
  pub args : ℕ
  pub arg : Bool

pub record Idt : Type 0 where
  pub idt : ℕ → IdtEntry
  pub limit : ℕ
  pub base : ℕ
  pub interrupt_handlers : ℕ → InterruptHandler

-- The fields for a routine's 64-bit address; `offset_middle` is a byte.
pub descriptor : ℕ → ℕ → ℕ → IdtEntry
descriptor isr attributes stack = record {
  offset_low = isr % 2 ^ 16;
  selector = 0x08;
  ist = stack;
  type_attributes = attributes;
  offset_middle = isr / 2 ^ 16 % 2 ^ 8;
  offset_high = isr / 2 ^ 32 % 2 ^ 32;
  zero_word = 0;
}

-- The 15 bytes of the packed entry.
abbrev pub idt_entry_bytes : IdtEntry → List ℕ
idt_entry_bytes e =
    e.offset_low % 2 ^ 8
    ∷ e.offset_low / 2 ^ 8
    ∷ e.selector % 2 ^ 8
    ∷ e.selector / 2 ^ 8
    ∷ e.ist
    ∷ e.type_attributes
    ∷ e.offset_middle
    ∷ e.offset_high % 2 ^ 8
    ∷ e.offset_high / 2 ^ 8 % 2 ^ 8
    ∷ e.offset_high / 2 ^ 16 % 2 ^ 8
    ∷ e.offset_high / 2 ^ 24
    ∷ e.zero_word % 2 ^ 8
    ∷ e.zero_word / 2 ^ 8 % 2 ^ 8
    ∷ e.zero_word / 2 ^ 16 % 2 ^ 8
    ∷ e.zero_word / 2 ^ 24
    ∷ []

pub idt_set_descriptor : Idt → ℕ → ℕ → ℕ → ℕ → Idt
idt_set_descriptor s vector isr attributes stack = record s {
  idt = λ v. if v == vector then descriptor isr attributes stack else s.idt v;
}

-- `for (i = 0; i < 256; i++) idt_set_descriptor(i, interrupt_table[i])`, rounds left first.
pub set_all : ℕ → ℕ → (ℕ → ℕ) → Idt → Idt
set_all zero i interrupt_table s = s
set_all (suc left) i interrupt_table s =
    set_all left (i + 1) interrupt_table (idt_set_descriptor s i (interrupt_table i) 0x8e 0)

-- The packed entry takes 15 bytes. The address of `idt` is an argument.
pub init : ℕ → (ℕ → ℕ) → Idt → Idt
init address interrupt_table s =
    set_all 256 0 interrupt_table (record s { limit = 15 * 256 - 1; base = address })

abbrev pub next_free : ℕ
next_free = 48

abbrev pub alloc_vector : ℕ
alloc_vector = next_free

-- The two overloads of `register_interrupt_handler`.
pub register_handler : Idt → ℕ → ℕ → Idt
register_handler s vector h = record s {
  interrupt_handlers = λ v.
      if v == vector
      then record (s.interrupt_handlers v) { handler = h; arg = false }
      else s.interrupt_handlers v;
}

pub register_handler_arg : Idt → ℕ → ℕ → ℕ → Idt
register_handler_arg s vector h a = record s {
  interrupt_handlers = λ v.
      if v == vector then record { handler = h; args = a; arg = true } else s.interrupt_handlers v;
}

-- The call of a handler, with the registers, and with its argument where it has one.
pub data Call : Type 0 where
  plain : ℕ → Call
  with_args : ℕ → ℕ → Call

-- An interrupt halts the processor after an exception, runs a handler and writes to the
-- controllers, or panics.
pub data Response : Type 0 where
  halted : ℕ → Response
  handled : Option Call → List (ℕ × ℕ) → Response
  unknown : Response

pub irq_handler : Idt → ℕ → Response
irq_handler s int_no =
    let h = s.interrupt_handlers int_no in
    let call =
      if h.handler == 0
      then none
      else (if h.arg then some (with_args h.handler h.args) else some (plain h.handler)) in
    handled call (eoi int_no)

unfoldable pub interrupt_handler : Idt → ℕ → Response
unfolding irq_handler
interrupt_handler s int_no =
    if ltb int_no 32
    then halted int_no
    else (if leb 32 int_no && ltb int_no 256 then irq_handler s int_no else unknown)
