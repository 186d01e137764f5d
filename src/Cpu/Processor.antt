-- ===== src/Cpu/Processor.antt =====
-- kernel/arch/x86_64/cpu/cpu.cpp, the port instructions of cpu.hpp, and `arch_init` of
-- kernel/arch/x86_64/memory/virtual.cpp. What the processor answers is a parameter; a function that
-- only runs instructions gives them, in order.
pub mod Features
use ice.Prelude.{
  ℕ, zero, suc, ◌+◌, ◌*◌, ◌/◌, ◌%◌, ◌^◌, bit_and, Bool, true, false, ◌&&◌, ◌==◌, ltb, if◌then◌else◌,
  List, [], ◌∷◌,
}

pub data Instruction : Type 0 where
  sti cli hlt : Instruction
  invlpg_at : ℕ → Instruction
  -- The port, the number of bits, and the value.
  out_port : ℕ → ℕ → ℕ → Instruction

unfoldable pub interrupts_enable : List Instruction
interrupts_enable = Instruction.sti ∷ []

unfoldable pub interrupts_disable : List Instruction
interrupts_disable = Instruction.cli ∷ []

-- The first rounds of the endless loop.
unfoldable pub halt : ℕ → Bool → List Instruction
halt zero idt = []
halt (suc rounds) idt =
    let rest = halt rounds idt in
    if idt then Instruction.hlt ∷ rest else Instruction.cli ∷ Instruction.hlt ∷ rest

unfoldable pub invlpg : ℕ → List Instruction
invlpg addr = invlpg_at addr ∷ []

unfoldable pub out8 : ℕ → ℕ → List Instruction
out8 port value = out_port (port % 2 ^ 16) 8 (value % 2 ^ 8) ∷ []

unfoldable pub out16 : ℕ → ℕ → List Instruction
out16 port value = out_port (port % 2 ^ 16) 16 (value % 2 ^ 16) ∷ []

unfoldable pub out32 : ℕ → ℕ → List Instruction
out32 port value = out_port (port % 2 ^ 16) 32 (value % 2 ^ 32) ∷ []

-- What a port gives, by its number and the number of bits, is a parameter.
unfoldable pub in8 : (ℕ → ℕ → ℕ) → ℕ → ℕ
in8 ports port = ports (port % 2 ^ 16) 8

unfoldable pub in16 : (ℕ → ℕ → ℕ) → ℕ → ℕ
in16 ports port = ports (port % 2 ^ 16) 16

unfoldable pub in32 : (ℕ → ℕ → ℕ) → ℕ → ℕ
in32 ports port = ports (port % 2 ^ 16) 32

-- The four registers that `cpuid` sets.
pub record Registers : Type 0 where
  pub eax : ℕ
  pub ebx : ℕ
  pub ecx : ℕ
  pub edx : ℕ

-- `cpuid` by the values of eax and ecx. The first call leaves ecx as it is, at `ecx`.
module _ (cpuid : ℕ → ℕ → Registers) (ecx : ℕ) where
  unfoldable pub id : ℕ → ℕ → Registers → Bool × Registers
  id leaf subleaf regs =
      let cpuid_max = (cpuid (bit_and leaf 0x80000000) ecx).eax in
      if ltb cpuid_max leaf then (false, regs) else (true, cpuid leaf subleaf)

  -- The new value of `gib1_pages`; the registers are not set before.
  unfoldable pub arch_init : Registers → Bool
  unfolding id
  arch_init regs =
      let (done, r) = id 0x80000001 0 regs in done && (bit_and r.edx (2 ^ 26) == 2 ^ 26)
