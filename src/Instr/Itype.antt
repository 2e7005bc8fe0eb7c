-- ===== src/Instr/Itype.antt =====
-- src/rv32i_instr.hpp, the immediate format `Itype`. An `int32_t` is its bit pattern.
use bigassm.Prelude.{
  bit_and, not, Bool, ℕ, ◌+◌, ◌/◌, ◌%◌, ◌^◌, ◌≡◌, arith, bit_or, ltb, ◌==◌, if◌then◌else◌,
}
use bigassm.Prelude.Bits.{bit_or_disjoint}
use bigassm.Instr.{Instruction, get_bits, set_bits}

unfoldable pub set_rd : ℕ → Instruction → Instruction
unfolding set_bits
set_rd = set_bits 7 5

unfoldable pub set_funct3 : ℕ → Instruction → Instruction
unfolding set_bits
set_funct3 = set_bits 12 3

unfoldable pub set_rs1 : ℕ → Instruction → Instruction
unfolding set_bits
set_rs1 = set_bits 15 5

unfoldable pub set_imm : ℕ → Instruction → Instruction
unfolding set_bits
set_imm = set_bits 20 12

unfoldable pub opcode : Instruction → ℕ
unfolding get_bits
opcode = get_bits 0 7

unfoldable pub rd : Instruction → ℕ
unfolding get_bits
rd = get_bits 7 5

unfoldable pub funct3 : Instruction → ℕ
unfolding get_bits
funct3 = get_bits 12 3

unfoldable pub rs1 : Instruction → ℕ
unfolding get_bits
rs1 = get_bits 15 5

unfoldable pub imm : Instruction → ℕ
unfolding get_bits
imm = get_bits 20 12

-- `imm | (sign() ? 0xFFFFF000 : 0)`, where `sign()` is `imm & 0x800`
unfoldable pub signed_imm : Instruction → ℕ
unfolding imm
signed_imm i = bit_or (imm i) (if imm i / 2 ^ 11 % 2 == 1 then 0xFFFFF000 else 0)

pub signed_imm-eq-add :
    (i : Instruction) → signed_imm i ≡ imm i + (if ltb (imm i) 2048 then 0 else 0xFFFFF000)
unfolding signed_imm
signed_imm-eq-add i =
    ground (arith, bit_or_disjoint 12 (imm i) 0xFFFFF, bit_or_disjoint 12 (imm i) 0)

unfoldable shift_imm : Instruction → ℕ
unfolding imm
shift_imm i = bit_and (imm i) 0x1F

unfoldable shift64_imm : Instruction → ℕ
unfolding imm
shift64_imm i = bit_and (imm i) 0x3F

unfoldable shift128_imm : Instruction → ℕ
unfolding imm
shift128_imm i = bit_and (imm i) 0x7F

unfoldable is_srai : Instruction → Bool
unfolding imm
is_srai i = not (bit_and (imm i) 0x400 == 0)
