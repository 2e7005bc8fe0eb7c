-- ===== src/Instr/Btype.antt =====
-- src/rv32i_instr.hpp, the branch format `Btype`.
use bigassm.Prelude.{ℕ, ◌+◌, ◌*◌, ◌/◌, ◌%◌, ◌^◌, ◌≡◌, arith, bit_or, ◌==◌, if◌then◌else◌}
use bigassm.Prelude.Bits.{bit_or_disjoint}
use bigassm.Instr.{Instruction, get_bits, set_bits}

unfoldable pub set_imm1 : ℕ → Instruction → Instruction
unfolding set_bits
set_imm1 = set_bits 7 1

unfoldable pub set_imm2 : ℕ → Instruction → Instruction
unfolding set_bits
set_imm2 = set_bits 8 4

unfoldable pub set_funct3 : ℕ → Instruction → Instruction
unfolding set_bits
set_funct3 = set_bits 12 3

unfoldable pub set_rs1 : ℕ → Instruction → Instruction
unfolding set_bits
set_rs1 = set_bits 15 5

unfoldable pub set_rs2 : ℕ → Instruction → Instruction
unfolding set_bits
set_rs2 = set_bits 20 5

unfoldable pub set_imm3 : ℕ → Instruction → Instruction
unfolding set_bits
set_imm3 = set_bits 25 6

unfoldable pub set_imm4 : ℕ → Instruction → Instruction
unfolding set_bits
set_imm4 = set_bits 31 1

-- `(imm2 << 1) | (imm3 << 5) | (imm1 << 11) | (sign() ? 0xFFFFF000 : 0)`, where `sign()` is `imm4`
unfoldable pub signed_imm : Instruction → ℕ
unfolding get_bits
signed_imm i =
    bit_or
      (bit_or (bit_or (get_bits 8 4 i * 2 ^ 1) (get_bits 25 6 i * 2 ^ 5)) (get_bits 7 1 i * 2 ^ 11))
      (if get_bits 31 1 i == 1 then 0xFFFFF000 else 0)

pub signed_imm-eq-add :
    (i : Instruction)
    → signed_imm i
      ≡ i / 2 ^ 8 % 2 ^ 4 * 2
        + i / 2 ^ 25 % 2 ^ 6 * 2 ^ 5
        + i / 2 ^ 7 % 2 * 2 ^ 11
        + (if i / 2 ^ 31 % 2 == 1 then 0xFFFFF000 else 0)
unfolding signed_imm
signed_imm-eq-add i =
    let low = i / 2 ^ 8 % 2 ^ 4 * 2 in
    let mid = i / 2 ^ 25 % 2 ^ 6 in
    let top = i / 2 ^ 7 % 2 in
    rw
      (
        bit_or_disjoint 5 low mid (omega arith),
        bit_or_disjoint 11 (low + mid * 2 ^ 5) top (omega arith),
      )
      (ground (
        arith,
        bit_or_disjoint 12 (low + mid * 2 ^ 5 + top * 2 ^ 11) 0xFFFFF,
        bit_or_disjoint 12 (low + mid * 2 ^ 5 + top * 2 ^ 11) 0,
      ))
