-- ===== src/Instr/Atype.antt =====
-- src/rv32i_instr.hpp, the atomic format `Atype`.
use bigassm.Prelude.{ℕ}
use bigassm.Instr.{Instruction, get_bits, set_bits}

unfoldable set_opcode : ℕ → Instruction → Instruction
unfolding set_bits
set_opcode = set_bits 0 7

unfoldable opcode : Instruction → ℕ
unfolding get_bits
opcode = get_bits 0 7

unfoldable set_rd : ℕ → Instruction → Instruction
unfolding set_bits
set_rd = set_bits 7 5

unfoldable rd : Instruction → ℕ
unfolding get_bits
rd = get_bits 7 5

unfoldable set_funct3 : ℕ → Instruction → Instruction
unfolding set_bits
set_funct3 = set_bits 12 3

unfoldable funct3 : Instruction → ℕ
unfolding get_bits
funct3 = get_bits 12 3

unfoldable set_rs1 : ℕ → Instruction → Instruction
unfolding set_bits
set_rs1 = set_bits 15 5

unfoldable rs1 : Instruction → ℕ
unfolding get_bits
rs1 = get_bits 15 5

unfoldable set_rs2 : ℕ → Instruction → Instruction
unfolding set_bits
set_rs2 = set_bits 20 5

unfoldable rs2 : Instruction → ℕ
unfolding get_bits
rs2 = get_bits 20 5

unfoldable set_rl : ℕ → Instruction → Instruction
unfolding set_bits
set_rl = set_bits 25 1

unfoldable rl : Instruction → ℕ
unfolding get_bits
rl = get_bits 25 1

unfoldable set_aq : ℕ → Instruction → Instruction
unfolding set_bits
set_aq = set_bits 26 1

unfoldable aq : Instruction → ℕ
unfolding get_bits
aq = get_bits 26 1

unfoldable set_funct5 : ℕ → Instruction → Instruction
unfolding set_bits
set_funct5 = set_bits 27 5

unfoldable funct5 : Instruction → ℕ
unfolding get_bits
funct5 = get_bits 27 5
