-- ===== src/Instr/Rtype.antt =====
-- src/rv32i_instr.hpp, the register format `Rtype`.
use bigassm.Prelude.{bit_and, bit_or, ◌^◌, ◌*◌, ◌==◌, Bool, ℕ}
use bigassm.Instr.{Instruction, get_bits, set_bits}

unfoldable pub set_opcode : ℕ → Instruction → Instruction
unfolding set_bits
set_opcode = set_bits 0 7

unfoldable pub set_rd : ℕ → Instruction → Instruction
unfolding set_bits
set_rd = set_bits 7 5

unfoldable pub set_funct3 : ℕ → Instruction → Instruction
unfolding set_bits
set_funct3 = set_bits 12 3

unfoldable pub set_rs1 : ℕ → Instruction → Instruction
unfolding set_bits
set_rs1 = set_bits 15 5

unfoldable pub set_rs2 : ℕ → Instruction → Instruction
unfolding set_bits
set_rs2 = set_bits 20 5

unfoldable pub set_funct7 : ℕ → Instruction → Instruction
unfolding set_bits
set_funct7 = set_bits 25 7

unfoldable pub rs2 : Instruction → ℕ
unfolding get_bits
rs2 = get_bits 20 5

unfoldable funct3 : Instruction → ℕ
unfolding get_bits
funct3 = get_bits 12 3

unfoldable funct7 : Instruction → ℕ
unfolding get_bits
funct7 = get_bits 25 7

unfoldable is_f7 : Instruction → Bool
unfolding funct7
is_f7 i = funct7 i == 0b0100000

unfoldable is_32_m : Instruction → Bool
unfolding funct7
is_32_m i = funct7 i == 0b0000001

-- `funct3 | ((funct7 & 1) << 4)`
unfoldable jumptable_friendly_op : Instruction → ℕ
unfolding funct3 funct7
jumptable_friendly_op i = bit_or (funct3 i) (bit_and (funct7 i) 1 * 2 ^ 4)
