-- ===== src/Instr/Utype.antt =====
-- src/rv32i_instr.hpp, the upper immediate format `Utype`.
use bigassm.Prelude.{if◌then◌else◌, ◌==◌, bit_and, bit_or, ℕ, ◌*◌, ◌%◌, ◌^◌}
use bigassm.Instr.{Instruction, get_bits, set_bits}

unfoldable pub set_opcode : ℕ → Instruction → Instruction
unfolding set_bits
set_opcode = set_bits 0 7

unfoldable pub set_rd : ℕ → Instruction → Instruction
unfolding set_bits
set_rd = set_bits 7 5

unfoldable pub set_imm : ℕ → Instruction → Instruction
unfolding set_bits
set_imm = set_bits 12 20

unfoldable pub imm : Instruction → ℕ
unfolding get_bits
imm = get_bits 12 20

-- `imm << 12u`, an `int32_t`
unfoldable pub upper_imm : Instruction → ℕ
unfolding imm
upper_imm i = imm i * 2 ^ 12 % 2 ^ 32

-- `imm | (sign() ? 0xFFF00000 : 0)`, where `sign()` is `imm & 0x80000`
unfoldable signed_imm : Instruction → ℕ
unfolding imm
signed_imm i = bit_or (imm i) (if bit_and (imm i) 0x80000 == 0 then 0 else 0xFFF00000)
