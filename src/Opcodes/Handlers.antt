-- ===== src/Opcodes/Handlers.antt =====
-- src/opcodes.cpp: the handler of each opcode.
use bigassm.Types.{
  Opcode, op_nop, op_li, op_set, op_la, op_laq, op_mov, op_lb, op_lh, op_lw, op_ld, op_lq, op_lbu,
  op_lhu, op_lwu, op_ldu, op_sb, op_sh, op_sw, op_sd, op_sq, op_beq, op_bne, op_blt, op_bge,
  op_bltu, op_bgeu, op_farcall, op_call, op_jalr, op_ret, op_jmp, op_inc, op_add, op_sll, op_slt,
  op_sltu, op_srl, op_and, op_or, op_xor, op_sub, op_mul, op_div, op_divu, op_rem, op_remu,
  op_syscall, op_ecall, op_ebreak, op_wfi, op_system,
}
use bigassm.Assembler.{Asm}
use bigassm.Opcodes.Build
use bigassm.Opcodes.Build.{InstructionList}
use bigassm.Opcodes.Memory
use bigassm.Opcodes.Memory.{load_helper, store_helper}
use bigassm.Opcodes.Jumps
use bigassm.Opcodes.Jumps.{branch_helper}
use bigassm.Opcodes.Arithmetic
use bigassm.Opcodes.Arithmetic.{op_imm_helper, op_f7_helper}

-- `token.opcode->handler`
unfoldable pub handler : Opcode → Asm InstructionList
unfolding load_helper store_helper branch_helper op_imm_helper op_f7_helper Build.op_nop Build.op_li
    Build.op_set Jumps.op_la Jumps.op_laq Jumps.op_farcall Jumps.op_call Jumps.op_jalr Jumps.op_ret
    Jumps.op_jmp Arithmetic.op_mov Arithmetic.op_inc Arithmetic.op_syscall Arithmetic.op_ecall
    Arithmetic.op_ebreak Arithmetic.op_wfi Arithmetic.op_system
handler op_nop = Build.op_nop
handler op_li = Build.op_li
handler op_set = Build.op_set
handler op_la = Jumps.op_la
handler op_laq = Jumps.op_laq
handler op_mov = Arithmetic.op_mov
handler op_lb = Memory.op_lb
handler op_lh = Memory.op_lh
handler op_lw = Memory.op_lw
handler op_ld = Memory.op_ld
handler op_lq = Memory.op_lq
handler op_lbu = Memory.op_lbu
handler op_lhu = Memory.op_lhu
handler op_lwu = Memory.op_lwu
handler op_ldu = Memory.op_ldu
handler op_sb = Memory.op_sb
handler op_sh = Memory.op_sh
handler op_sw = Memory.op_sw
handler op_sd = Memory.op_sd
handler op_sq = Memory.op_sq
handler op_beq = Jumps.op_beq
handler op_bne = Jumps.op_bne
handler op_blt = Jumps.op_blt
handler op_bge = Jumps.op_bge
handler op_bltu = Jumps.op_bltu
handler op_bgeu = Jumps.op_bgeu
handler op_farcall = Jumps.op_farcall
handler op_call = Jumps.op_call
handler op_jalr = Jumps.op_jalr
handler op_ret = Jumps.op_ret
handler op_jmp = Jumps.op_jmp
handler op_inc = Arithmetic.op_inc
handler (op_add opcode) = Arithmetic.op_add opcode
handler (op_sll opcode) = Arithmetic.op_sll opcode
handler (op_slt opcode) = Arithmetic.op_slt opcode
handler (op_sltu opcode) = Arithmetic.op_sltu opcode
handler (op_srl opcode) = Arithmetic.op_srl opcode
handler (op_and opcode) = Arithmetic.op_and opcode
handler (op_or opcode) = Arithmetic.op_or opcode
handler (op_xor opcode) = Arithmetic.op_xor opcode
handler (op_sub opcode) = Arithmetic.op_sub opcode
handler (op_mul opcode) = Arithmetic.op_mul opcode
handler (op_div opcode) = Arithmetic.op_div opcode
handler (op_divu opcode) = Arithmetic.op_divu opcode
handler (op_rem opcode) = Arithmetic.op_rem opcode
handler (op_remu opcode) = Arithmetic.op_remu opcode
handler op_syscall = Arithmetic.op_syscall
handler op_ecall = Arithmetic.op_ecall
handler op_ebreak = Arithmetic.op_ebreak
handler op_wfi = Arithmetic.op_wfi
handler op_system = Arithmetic.op_system
