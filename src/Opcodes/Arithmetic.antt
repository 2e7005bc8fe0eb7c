-- ===== src/Opcodes/Arithmetic.antt =====
-- src/opcodes.cpp: arithmetic on registers, and the system instructions.
pub mod Immediates
pub mod Sources
use bigassm.Prelude.{ℕ, ◌||◌, [], ◌∷◌, codes, ◌==◌, if◌then◌else◌}
use bigassm.Prelude.Words.{neg, slt}
use bigassm.Types.{i64, tk_register, tk_constant, token_exception}
use bigassm.Assembler.{Asm, pure, throw, get, ◌>>=◌, next_token, next, next_is, argument_mismatch}
use bigassm.Constants.{resolve_constants}
use bigassm.Instr.{
  Instruction, rv32i_op_imm, rv32i_op, rv32i_system, rv64i_op_imm32, rv64i_op32, rv128i_op_imm64,
}
use bigassm.Instr.Rtype
use bigassm.Instr.Itype
use bigassm.Opcodes.Build.{InstructionList}

-- The register form's second and third operand: with one, the first is also the destination's.
unfoldable pub set_sources : ℕ → ℕ → Instruction → Asm Instruction
unfolding next next_is i64 Rtype.set_rs1 Rtype.set_rs2
set_sources reg reg2 instr = do
  a ← get
  if next_is tk_register a
      then (do reg3 ← next tk_register; pure (Rtype.set_rs2 (i64 reg3) (Rtype.set_rs1 reg2 instr)))
      else pure (Rtype.set_rs2 reg2 (Rtype.set_rs1 reg instr))

-- The opcode of the register form.
unfoldable pub register_opcode : ℕ → ℕ
register_opcode opcode =
    if opcode == rv32i_op_imm
    then rv32i_op
    else if opcode == rv64i_op_imm32
    then rv64i_op32
    else rv128i_op_imm64

unfoldable pub op_imm_constant : ℕ → ℕ → ℕ → Asm Instruction
unfolding resolve_constants i64 Itype.set_rd Itype.set_funct3 Itype.set_rs1 Itype.set_imm
op_imm_constant opcode funct3 reg = do
  imm ← resolve_constants
  if slt 64 0x7FF (i64 imm) || slt 64 (i64 imm) (neg 64 2048)
      then throw (token_exception imm (codes "Out of bounds immediate value"))
      else pure (
          Itype.set_imm (i64 imm)
            (Itype.set_rs1 reg (Itype.set_funct3 funct3 (Itype.set_rd reg opcode))))

unfoldable pub op_imm_register : ℕ → ℕ → ℕ → Asm Instruction
unfolding next i64 register_opcode set_sources Rtype.set_opcode Rtype.set_rd Rtype.set_funct3
op_imm_register opcode funct3 reg = do
  reg2 ← next tk_register
  set_sources reg (i64 reg2) (
      Rtype.set_funct3 funct3 (Rtype.set_rd reg (Rtype.set_opcode (register_opcode opcode) opcode)))

unfoldable pub op_imm_helper : ℕ → ℕ → Asm InstructionList
unfolding next next_is next_token argument_mismatch op_imm_constant op_imm_register i64
op_imm_helper opcode funct3 = do
  reg ← next tk_register
  a ← get
  instr ←
      if next_is tk_constant a
      then op_imm_constant opcode funct3 (i64 reg)
      else if next_is tk_register a
      then op_imm_register opcode funct3 (i64 reg)
      else (do tk ← next_token; argument_mismatch tk tk_register (codes "Unexpected token"))
  pure (instr ∷ [])

unfoldable pub op_f7_helper : ℕ → ℕ → ℕ → Asm InstructionList
unfolding next i64 set_sources Rtype.set_rd Rtype.set_funct3 Rtype.set_funct7
op_f7_helper opcode f3 f7 = do
  reg ← next tk_register
  reg2 ← next tk_register
  instr ← set_sources (i64 reg) (i64 reg2) (Rtype.set_funct3 f3 (Rtype.set_rd (i64 reg) opcode))
  pure (Rtype.set_funct7 f7 instr ∷ [])

abbrev pub op_add : ℕ → Asm InstructionList
op_add opcode = op_imm_helper opcode 0

abbrev pub op_sll : ℕ → Asm InstructionList
op_sll opcode = op_imm_helper opcode 1

abbrev pub op_slt : ℕ → Asm InstructionList
op_slt opcode = op_imm_helper opcode 2

abbrev pub op_sltu : ℕ → Asm InstructionList
op_sltu opcode = op_imm_helper opcode 3

abbrev pub op_srl : ℕ → Asm InstructionList
op_srl opcode = op_imm_helper opcode 5

abbrev pub op_and : ℕ → Asm InstructionList
op_and opcode = op_imm_helper opcode 7

abbrev pub op_or : ℕ → Asm InstructionList
op_or opcode = op_imm_helper opcode 6

abbrev pub op_xor : ℕ → Asm InstructionList
op_xor opcode = op_imm_helper opcode 4

abbrev pub op_sub : ℕ → Asm InstructionList
op_sub opcode = op_f7_helper opcode 0 0b0100000

abbrev pub op_mul : ℕ → Asm InstructionList
op_mul opcode = op_f7_helper opcode 0 1

abbrev pub op_div : ℕ → Asm InstructionList
op_div opcode = op_f7_helper opcode 4 1

abbrev pub op_divu : ℕ → Asm InstructionList
op_divu opcode = op_f7_helper opcode 5 1

abbrev pub op_rem : ℕ → Asm InstructionList
op_rem opcode = op_f7_helper opcode 6 1

abbrev pub op_remu : ℕ → Asm InstructionList
op_remu opcode = op_f7_helper opcode 7 1

unfoldable pub op_mov : Asm InstructionList
unfolding next i64 Itype.set_rd Itype.set_funct3 Itype.set_rs1
op_mov = do
  reg ← next tk_register
  reg2 ← next tk_register
  pure (Itype.set_rs1 (i64 reg2) (Itype.set_rd (i64 reg) (Itype.set_funct3 0 rv32i_op_imm)) ∷ [])

unfoldable pub op_inc : Asm InstructionList
unfolding next i64 Itype.set_rd Itype.set_funct3 Itype.set_rs1 Itype.set_imm
op_inc = do
  reg ← next tk_register
  pure (
      Itype.set_imm 1
        (Itype.set_rs1 (i64 reg) (Itype.set_funct3 0 (Itype.set_rd (i64 reg) rv32i_op_imm)))
      ∷ [])

unfoldable pub op_syscall : Asm InstructionList
unfolding resolve_constants i64 Itype.set_rd Itype.set_imm Itype.set_funct3
op_syscall = do
  imm ← resolve_constants
  pure (
      Itype.set_imm (i64 imm) (Itype.set_rd 17 rv32i_op_imm)
      ∷ Itype.set_imm 0 (Itype.set_funct3 0 rv32i_system)
      ∷ [])

unfoldable pub op_ecall : Asm InstructionList
unfolding Itype.set_funct3 Itype.set_imm
op_ecall = pure (Itype.set_imm 0 (Itype.set_funct3 0 rv32i_system) ∷ [])

unfoldable pub op_ebreak : Asm InstructionList
unfolding Itype.set_imm
op_ebreak = pure (Itype.set_imm 1 rv32i_system ∷ [])

unfoldable pub op_wfi : Asm InstructionList
unfolding Itype.set_imm
op_wfi = pure (Itype.set_imm 0x105 rv32i_system ∷ [])

unfoldable pub op_system : Asm InstructionList
unfolding resolve_constants i64 Itype.set_funct3 Itype.set_imm
op_system = do
  f3 ← resolve_constants
  imm ← resolve_constants
  pure (Itype.set_imm (i64 imm) (Itype.set_funct3 (i64 f3) rv32i_system) ∷ [])
