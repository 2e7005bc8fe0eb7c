-- ===== src/Instr.antt =====
-- src/rv32i_instr.hpp and src/instruction_list.hpp: the union `rv32i_instruction`, its bit fields
-- under each of its formats, and the opcodes.
pub mod Rtype
pub mod Itype
pub mod Stype
pub mod Utype
pub mod Btype
pub mod Jtype
pub mod Atype
pub mod Words
use bigassm.Prelude.{ℕ, ◌+◌, ◌*◌, ◌/◌, ◌%◌, ◌^◌, ◌-◌}

-- The 32 bits of an instruction: `whole`. The formats are views of them.
abbrev pub Instruction : Type 0
Instruction = ℕ

-- The value of the bit field of `w` bits at bit `lo`.
unfoldable pub get_bits : ℕ → ℕ → Instruction → ℕ
get_bits lo w i = i / 2 ^ lo % 2 ^ w

-- An assignment to that bit field: it keeps the low `w` bits of the value.
unfoldable pub set_bits : ℕ → ℕ → ℕ → Instruction → Instruction
set_bits lo w v i = i % 2 ^ lo + v % 2 ^ w * 2 ^ lo + i / (2 ^ lo * 2 ^ w) * (2 ^ lo * 2 ^ w)

unfoldable opcode : Instruction → ℕ
unfolding get_bits
opcode = get_bits 0 7

-- `whole >> (32 - 5)`
unfoldable fpfunc : Instruction → ℕ
fpfunc i = i / 2 ^ (32 - 5)

-- The opcodes of src/instruction_list.hpp that the handlers use.
abbrev pub rv32i_load : ℕ
rv32i_load = 0b0000011

abbrev pub rv32i_store : ℕ
rv32i_store = 0b0100011

abbrev pub rv32i_branch : ℕ
rv32i_branch = 0b1100011

abbrev pub rv32i_jalr : ℕ
rv32i_jalr = 0b1100111

abbrev pub rv32i_jal : ℕ
rv32i_jal = 0b1101111

abbrev pub rv32i_op_imm : ℕ
rv32i_op_imm = 0b0010011

abbrev pub rv32i_op : ℕ
rv32i_op = 0b0110011

abbrev pub rv32i_system : ℕ
rv32i_system = 0b1110011

abbrev pub rv32i_lui : ℕ
rv32i_lui = 0b0110111

abbrev pub rv32i_auipc : ℕ
rv32i_auipc = 0b0010111

abbrev pub rv64i_op_imm32 : ℕ
rv64i_op_imm32 = 0b0011011

abbrev pub rv64i_op32 : ℕ
rv64i_op32 = 0b0111011

abbrev pub rv128i_op_imm64 : ℕ
rv128i_op_imm64 = 0b1011011

abbrev pub rv128i_op64 : ℕ
rv128i_op64 = 0b1111011
