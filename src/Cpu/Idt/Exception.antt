-- ===== src/Cpu/Idt/Exception.antt =====
-- What an exception prints before it halts the processor, kernel/arch/x86_64/idt/idt.cpp.
use ice.Prelude.{ℕ, ◌+◌, zero, suc, Bool, ◌||◌, ◌==◌, ◌&&◌, leb, if◌then◌else◌, List, [], ◌∷◌, ◌++◌}
use Prim.Native.String.{String}
use ice.Sys.Logger.{Fragment, text, number, log_error}

-- cpu_interrupt_state_t: the registers, the vector and the error code.
pub record InterruptState : Type 0 where
  pub r15 : ℕ
  pub r14 : ℕ
  pub r13 : ℕ
  pub r12 : ℕ
  pub r11 : ℕ
  pub r10 : ℕ
  pub r9 : ℕ
  pub r8 : ℕ
  pub rbp : ℕ
  pub rdi : ℕ
  pub rsi : ℕ
  pub rdx : ℕ
  pub rcx : ℕ
  pub rbx : ℕ
  pub rax : ℕ
  pub int_no : ℕ
  pub error_code : ℕ
  pub rip : ℕ
  pub cs : ℕ
  pub rflags : ℕ
  pub rsp : ℕ
  pub ss : ℕ

-- The vector of a line: IRQ0 is 32, IRQ15 is 47.
abbrev pub irq : ℕ → ℕ
irq line = 32 + line

-- The messages for the vectors 0 to 18; from 19 to 31 they are "Reserved".
abbrev pub exception_messages : List String
exception_messages =
    "Division by zero" ∷ "Debug" ∷ "Non-maskable interrupt" ∷ "Breakpoint" ∷ "Detected overflow"
    ∷ "Out-of-bounds" ∷ "Invalid opcode" ∷ "No coprocessor" ∷ "Double fault"
    ∷ "Coprocessor segment overrun" ∷ "Bad TSS" ∷ "Segment not present" ∷ "Stack fault"
    ∷ "General protection fault" ∷ "Page fault" ∷ "Unknown interrupt" ∷ "Coprocessor fault"
    ∷ "Alignment check" ∷ "Machine check" ∷ []

unfoldable pub message_at : List String → ℕ → String
message_at [] n = "Reserved"
message_at (m ∷ ms) zero = m
message_at (m ∷ ms) (suc n) = message_at ms n

-- The exceptions that push an error code, as the handler's `switch` names them.
unfoldable pub prints_code : ℕ → Bool
prints_code int_no = int_no == 8 || (leb 10 int_no && leb int_no 14)

abbrev pub panic_mark : Fragment
panic_mark = text "[\u{1b}[31mPANIC\u{1b}[0m] "

-- The log and the console. The log's address is the text "0x1X", without the number.
unfoldable pub exception_handler : InterruptState → List Fragment
exception_handler regs =
    let message = text (message_at exception_messages regs.int_no) in
    let code =
      if prints_code regs.int_no
      then panic_mark ∷ text "Error code: 0x" ∷ number 16 regs.error_code ∷ text "\n" ∷ []
      else [] in
    log_error (text "System exception" ∷ [])
    ++ log_error (text "Exception: " ∷ message ∷ [])
    ++ log_error (text "Address: 0x1X" ∷ [])
    ++ log_error (
        text "Error Code: 0x"
        ∷ number 16 regs.error_code
        ∷ text ", 0b"
        ∷ number 2 regs.error_code
        ∷ [])
    ++ (text "\n" ∷ panic_mark ∷ text "System Exception!\n" ∷ [])
    ++ (panic_mark ∷ text "Exception: " ∷ message ∷ text "\n" ∷ [])
    ++ (panic_mark ∷ text "Address: 0x" ∷ number 16 regs.rip ∷ text "\n" ∷ [])
    ++ code
    ++ (panic_mark ∷ text "System halted!\n" ∷ [])
    ++ log_error (text "System halted!\n" ∷ [])
