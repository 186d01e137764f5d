-- ===== src/Cpu/Processor/Features.antt =====
-- The feature that kernel/arch/x86_64/memory/virtual.cpp asks the processor for.
use ice.Prelude.{ℕ, ◌/◌, ◌%◌, ◌^◌, ◌≤◌, ◌≡◌, ◌↔◌, arith, bit_and-pow, bit-div, true}
use ice.Cpu.Processor.{Registers, id, arch_init}

-- `arch_init` takes pages of 1 GiB to be there exactly if the processor has the extended leaf
-- 0x80000001 and bit 26 of its edx is 1, whatever stood in the registers before.
pub arch_init_iff :
    (cpuid : ℕ → ℕ → Registers) (ecx : ℕ) (regs : Registers)
    → (arch_init cpuid ecx regs ≡ true)
      ↔ ((0x80000001 ≤ (cpuid 0x80000000 ecx).eax) × ((cpuid 0x80000001 0).edx / 2 ^ 26 % 2 ≡ 1))
unfolding arch_init id
arch_init_iff cpuid ecx regs =
    ground (arith, bit_and-pow (cpuid 0x80000001 0).edx 26, bit-div (cpuid 0x80000001 0).edx 26)
