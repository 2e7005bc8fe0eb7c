-- ===== src/Instr/Stype.antt =====
-- src/rv32i_instr.hpp, the store format `Stype`.
use bigassm.Prelude.{ℕ, ◌+◌, ◌*◌, ◌/◌, ◌%◌, ◌^◌, ◌≡◌, arith, bit_or, ltb, ◌==◌, if◌then◌else◌}
use bigassm.Prelude.Bits.{bit_or_disjoint}
use bigassm.Instr.{Instruction, get_bits, set_bits}

unfoldable pub set_imm1 : ℕ → Instruction → Instruction
unfolding set_bits
set_imm1 = set_bits 7 5

unfoldable pub set_funct3 : ℕ → Instruction → Instruction
unfolding set_bits
set_funct3 = set_bits 12 3

unfoldable pub set_rs1 : ℕ → Instruction → Instruction
unfolding set_bits
set_rs1 = set_bits 15 5

unfoldable pub set_rs2 : ℕ → Instruction → Instruction
unfolding set_bits
set_rs2 = set_bits 20 5

unfoldable pub set_imm2 : ℕ → Instruction → Instruction
unfolding set_bits
set_imm2 = set_bits 25 7

-- `imm1 | (imm2 << 5) | (sign() ? 0xFFFFF000 : 0)`, where `sign()` is `imm2 & 0x40`
unfoldable pub signed_imm : Instruction → ℕ
unfolding get_bits
signed_imm i =
    bit_or (bit_or (get_bits 7 5 i) (get_bits 25 7 i * 2 ^ 5))
      (if get_bits 25 7 i / 2 ^ 6 % 2 == 1 then 0xFFFFF000 else 0)

pub signed_imm-eq-add :
    (i : Instruction)
    → signed_imm i
      ≡ i / 2 ^ 7 % 2 ^ 5
        + i / 2 ^ 25 % 2 ^ 7 * 2 ^ 5
        + (if ltb (i / 2 ^ 25 % 2 ^ 7) 64 then 0 else 0xFFFFF000)
unfolding signed_imm
signed_imm-eq-add i =
    rw (bit_or_disjoint 5 (i / 2 ^ 7 % 2 ^ 5) (i / 2 ^ 25 % 2 ^ 7) (omega arith)) (
      ground (
        arith,
        bit_or_disjoint 12 (i / 2 ^ 7 % 2 ^ 5 + i / 2 ^ 25 % 2 ^ 7 * 2 ^ 5) 0xFFFFF,
        bit_or_disjoint 12 (i / 2 ^ 7 % 2 ^ 5 + i / 2 ^ 25 % 2 ^ 7 * 2 ^ 5) 0,
      ))
