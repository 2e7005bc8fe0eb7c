-- ===== src/Opcodes/Table.antt =====
-- src/opcodes.cpp: `opcode_list` and `Opcodes::opcode`.
use bigassm.Prelude.{none, some, [], ◌∷◌, Bytes, codes, Map, find}
use bigassm.Types.{
  Opcode, op_nop, op_li, op_set, op_la, op_laq, op_mov, op_lb, op_lh, op_lw, op_ld, op_lq, op_lbu,
  op_lhu, op_lwu, op_ldu, op_sb, op_sh, op_sw, op_sd, op_sq, op_beq, op_bne, op_blt, op_bge,
  op_bltu, op_bgeu, op_farcall, op_call, op_jalr, op_ret, op_jmp, op_inc, op_add, op_sll, op_slt,
  op_sltu, op_srl, op_and, op_or, op_xor, op_sub, op_mul, op_div, op_divu, op_rem, op_remu,
  op_syscall, op_ecall, op_ebreak, op_wfi, op_system, Token, opcode, new_token, tk_unspec,
  tk_opcode, tk_symbol,
}
use bigassm.Instr.{rv32i_op_imm, rv32i_op, rv64i_op_imm32, rv64i_op32, rv128i_op_imm64, rv128i_op64}

abbrev pub opcode_list : Map Opcode
opcode_list =
    (codes "nop", op_nop)
    ∷ (codes "set", op_set)
    ∷ (codes "li", op_li)
    ∷ (codes "la", op_la)
    ∷ (codes "laq", op_laq)
    ∷ (codes "mv", op_mov)
    ∷ (codes "mov", op_mov)
    ∷ (codes "lb", op_lb)
    ∷ (codes "lh", op_lh)
    ∷ (codes "lw", op_lw)
    ∷ (codes "ld", op_ld)
    ∷ (codes "lq", op_lq)
    ∷ (codes "lbu", op_lbu)
    ∷ (codes "lhu", op_lhu)
    ∷ (codes "lwu", op_lwu)
    ∷ (codes "ldu", op_ldu)
    ∷ (codes "sb", op_sb)
    ∷ (codes "sh", op_sh)
    ∷ (codes "sw", op_sw)
    ∷ (codes "sd", op_sd)
    ∷ (codes "sq", op_sq)
    ∷ (codes "beq", op_beq)
    ∷ (codes "bne", op_bne)
    ∷ (codes "blt", op_blt)
    ∷ (codes "bge", op_bge)
    ∷ (codes "bltu", op_bltu)
    ∷ (codes "bgeu", op_bgeu)
    ∷ (codes "farcall", op_farcall)
    ∷ (codes "call", op_call)
    ∷ (codes "jal", op_call)
    ∷ (codes "jalr", op_jalr)
    ∷ (codes "ret", op_ret)
    ∷ (codes "jmp", op_jmp)
    ∷ (codes "inc", op_inc)
    ∷ (codes "add", op_add rv32i_op_imm)
    ∷ (codes "sub", op_sub rv32i_op)
    ∷ (codes "sll", op_sll rv32i_op_imm)
    ∷ (codes "slt", op_slt rv32i_op_imm)
    ∷ (codes "sltu", op_sltu rv32i_op_imm)
    ∷ (codes "srl", op_srl rv32i_op_imm)
    ∷ (codes "and", op_and rv32i_op_imm)
    ∷ (codes "or", op_or rv32i_op_imm)
    ∷ (codes "xor", op_xor rv32i_op_imm)
    ∷ (codes "addw", op_add rv64i_op_imm32)
    ∷ (codes "subw", op_sub rv64i_op32)
    ∷ (codes "sllw", op_sll rv64i_op_imm32)
    ∷ (codes "sltw", op_slt rv64i_op_imm32)
    ∷ (codes "sltuw", op_sltu rv64i_op_imm32)
    ∷ (codes "srlw", op_srl rv64i_op_imm32)
    ∷ (codes "andw", op_and rv64i_op_imm32)
    ∷ (codes "orw", op_or rv64i_op_imm32)
    ∷ (codes "xorw", op_xor rv64i_op_imm32)
    ∷ (codes "addd", op_add rv128i_op_imm64)
    ∷ (codes "subd", op_sub rv128i_op64)
    ∷ (codes "slld", op_sll rv128i_op_imm64)
    ∷ (codes "sltd", op_slt rv128i_op_imm64)
    ∷ (codes "sltud", op_sltu rv128i_op_imm64)
    ∷ (codes "srld", op_srl rv128i_op_imm64)
    ∷ (codes "andd", op_and rv128i_op_imm64)
    ∷ (codes "ord", op_or rv128i_op_imm64)
    ∷ (codes "xord", op_xor rv128i_op_imm64)
    ∷ (codes "mul", op_mul rv32i_op)
    ∷ (codes "div", op_div rv32i_op)
    ∷ (codes "divu", op_divu rv32i_op)
    ∷ (codes "rem", op_rem rv32i_op)
    ∷ (codes "remu", op_remu rv32i_op)
    ∷ (codes "mulw", op_mul rv64i_op32)
    ∷ (codes "divw", op_div rv64i_op32)
    ∷ (codes "divuw", op_divu rv64i_op32)
    ∷ (codes "remw", op_rem rv64i_op32)
    ∷ (codes "remuw", op_remu rv64i_op32)
    ∷ (codes "muld", op_mul rv128i_op64)
    ∷ (codes "divd", op_div rv128i_op64)
    ∷ (codes "divud", op_divu rv128i_op64)
    ∷ (codes "remd", op_rem rv128i_op64)
    ∷ (codes "remud", op_remu rv128i_op64)
    ∷ (codes "syscall", op_syscall)
    ∷ (codes "ecall", op_ecall)
    ∷ (codes "ebreak", op_ebreak)
    ∷ (codes "wfi", op_wfi)
    ∷ (codes "system", op_system)
    ∷ []

-- `Opcodes::opcode(value)`
unfoldable pub lookup_opcode : Bytes → Token
unfolding find new_token
lookup_opcode value =
    let tk = record (new_token tk_unspec) { value = value } in
    elim (find value opcode_list) [
      | some o ↦ record tk { type = tk_opcode; payload = opcode o }
      | none ↦ record tk { type = tk_symbol }
    ]
