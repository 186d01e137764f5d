-- ===== src/Cpu/Pic.antt =====
-- kernel/arch/x86_64/cpu/pic.cpp: the two interrupt controllers. What a port gives when it is read
-- is a parameter, `in8`; an operation gives the bytes that it writes, in order, each with its port.
pub mod Lines
use ice.Prelude.{
  ℕ, ◌-◌, ◌%◌, ◌^◌, bit_and, bit_or, bit_not, Bool, if◌then◌else◌, leb, List, [], ◌∷◌, Option, none,
  some,
}

abbrev pub pic1 : ℕ
pic1 = 0x20

abbrev pub pic1_command : ℕ
pic1_command = pic1

abbrev pub pic2_command : ℕ
pic2_command = pic1

abbrev pub pic_eoi : ℕ
pic_eoi = 0x20

unfoldable pub eoi : ℕ → List (ℕ × ℕ)
eoi int_no =
    let first = (pic1_command, pic_eoi) ∷ [] in
    if leb 40 int_no then (pic2_command, pic_eoi) ∷ first else first

-- The port and the line on it.
pub port_line : ℕ → ℕ × ℕ
port_line irq = if leb 8 irq then (0xa1, irq - 8) else (0x21, irq)

-- `none` where the shift of the `int` 1 is undefined, for lines from 32 on.
pub mask : (ℕ → ℕ) → ℕ → Option (List (ℕ × ℕ))
unfolding port_line
mask in8 irq =
    let (port, line) = port_line irq in
    if leb 32 line then none else some ((port, bit_or (in8 port) (2 ^ line) % 2 ^ 8) ∷ [])

unfoldable pub unmask : (ℕ → ℕ) → ℕ → Option (List (ℕ × ℕ))
unfolding port_line
unmask in8 irq =
    let (port, line) = port_line irq in
    if leb 32 line
    then none
    else some ((port, bit_and (in8 port) (bit_not 32 (2 ^ line)) % 2 ^ 8) ∷ [])

unfoldable pub disable : List (ℕ × ℕ)
disable = (0xa1, 0xff) ∷ (0x21, 0xff) ∷ []

-- The masks are read before the writes.
unfoldable pub init : (ℕ → ℕ) → List (ℕ × ℕ)
init in8 =
    let a1 = in8 0x21 in
    let a2 = in8 0xa1 in
    (0x20, 0x11)
    ∷ (0xa0, 0x11)
    ∷ (0x21, 0x20)
    ∷ (0xa1, 0x28)
    ∷ (0x21, 0x04)
    ∷ (0xa1, 0x02)
    ∷ (0x21, 0x01)
    ∷ (0xa1, 0x01)
    ∷ (0x21, a1)
    ∷ (0xa1, a2)
    ∷ []
