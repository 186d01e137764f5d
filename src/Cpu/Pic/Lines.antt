-- ===== src/Cpu/Pic/Lines.antt =====
-- Masking one line of an interrupt controller, kernel/arch/x86_64/cpu/pic.cpp.
use ice.Prelude.{
  ℕ, ◌%◌, ◌^◌, ◌<◌, ◌≡◌, arith, bit_and, bit_or, bit_not, bit, bit-bit_and, bit-bit_or, bit-bit_not,
  bit-pow, bit-mod, bit-le_one, pow_mono, ◌==◌, ltb, if◌then◌else◌, [], ◌∷◌, some,
}
use ice.Cpu.Pic.{mask, unmask, port_line}

-- The data port of the controller that has the line.
abbrev pub data_port : ℕ → ℕ
data_port irq = if ltb irq 8 then 0x21 else 0xa1

port_line-eq : (irq : ℕ) → irq < 16 → port_line irq ≡ (data_port irq, irq % 8)
unfolding port_line
port_line-eq irq h = ground arith

-- For an interrupt line below 16, `mask` writes one byte, to the data port of the line's
-- controller: what was read there with the line's bit set and the other seven bits kept.
pub mask_lem :
    (in8 : ℕ → ℕ) (irq : ℕ)
    → irq < 16
    → (v : ℕ) × (mask in8 irq ≡ some ((data_port irq, v) ∷ []))
      × ((k : ℕ) → k < 8 → bit v k ≡ (if irq % 8 == k then 1 else bit (in8 (data_port irq)) k))
unfolding mask
mask_lem in8 irq h =
    let port = data_port irq in
    (
      bit_or (in8 port) (2 ^ (irq % 8)) % 2 ^ 8,
      ground (arith, port_line-eq irq h),
      λ k l. ground (
        arith,
        bit-mod 8 (bit_or (in8 port) (2 ^ (irq % 8))) k l,
        bit-bit_or (in8 port) (2 ^ (irq % 8)) k,
        bit-pow (irq % 8) k,
        bit-le_one (in8 port) k,
      ),
    )

-- `unmask` clears the line's bit, and keeps the other seven.
pub unmask_lem :
    (in8 : ℕ → ℕ) (irq : ℕ)
    → irq < 16
    → (v : ℕ) × (unmask in8 irq ≡ some ((data_port irq, v) ∷ []))
      × ((k : ℕ) → k < 8 → bit v k ≡ (if irq % 8 == k then 0 else bit (in8 (data_port irq)) k))
unfolding unmask
unmask_lem in8 irq h =
    let port = data_port irq in
    (
      bit_and (in8 port) (bit_not 32 (2 ^ (irq % 8))) % 2 ^ 8,
      ground (arith, port_line-eq irq h),
      λ k l. ground (
        arith,
        bit-mod 8 (bit_and (in8 port) (bit_not 32 (2 ^ (irq % 8)))) k l,
        bit-bit_and (in8 port) (bit_not 32 (2 ^ (irq % 8))) k,
        bit-bit_not 32 (2 ^ (irq % 8)) k (pow_mono (irq % 8) 32 (omega arith)) (omega arith),
        bit-pow (irq % 8) k,
        bit-le_one (in8 port) k,
      ),
    )
