-- ===== src/Instr/Jtype.antt =====
-- src/rv32i_instr.hpp, the jump format `Jtype`.
use bigassm.Prelude.{ℕ, ◌+◌, ◌*◌, ◌/◌, ◌%◌, ◌^◌, ◌≡◌, arith, bit_or, ◌==◌, if◌then◌else◌}
use bigassm.Prelude.Bits.{bit_or_disjoint}
use bigassm.Instr.{Instruction, get_bits, set_bits}

unfoldable pub set_rd : ℕ → Instruction → Instruction
unfolding set_bits
set_rd = set_bits 7 5

unfoldable pub set_imm1 : ℕ → Instruction → Instruction
unfolding set_bits
set_imm1 = set_bits 12 8

unfoldable pub set_imm2 : ℕ → Instruction → Instruction
unfolding set_bits
set_imm2 = set_bits 20 1

unfoldable pub set_imm3 : ℕ → Instruction → Instruction
unfolding set_bits
set_imm3 = set_bits 21 10

unfoldable pub set_imm4 : ℕ → Instruction → Instruction
unfolding set_bits
set_imm4 = set_bits 31 1

-- `jo | (sign() ? 0xFFF00000 : 0)` for `jo = (imm3 << 1) | (imm2 << 11) | (imm1 << 12)`, where
-- `sign()` is `imm4`
unfoldable pub jump_offset : Instruction → ℕ
unfolding get_bits
jump_offset i =
    bit_or
      (bit_or (bit_or (get_bits 21 10 i * 2 ^ 1) (get_bits 20 1 i * 2 ^ 11))
        (get_bits 12 8 i * 2 ^ 12))
      (if get_bits 31 1 i == 1 then 0xFFF00000 else 0)

pub jump_offset-eq-add :
    (i : Instruction)
    → jump_offset i
      ≡ i / 2 ^ 21 % 2 ^ 10 * 2
        + i / 2 ^ 20 % 2 * 2 ^ 11
        + i / 2 ^ 12 % 2 ^ 8 * 2 ^ 12
        + (if i / 2 ^ 31 % 2 == 1 then 0xFFF00000 else 0)
unfolding jump_offset
jump_offset-eq-add i =
    let low = i / 2 ^ 21 % 2 ^ 10 * 2 in
    let mid = i / 2 ^ 20 % 2 in
    let top = i / 2 ^ 12 % 2 ^ 8 in
    rw
      (
        bit_or_disjoint 11 low mid (omega arith),
        bit_or_disjoint 12 (low + mid * 2 ^ 11) top (omega arith),
      )
      (ground (
        arith,
        bit_or_disjoint 20 (low + mid * 2 ^ 11 + top * 2 ^ 12) 0xFFF,
        bit_or_disjoint 20 (low + mid * 2 ^ 11 + top * 2 ^ 12) 0,
      ))
