-- ===== src/Opcodes/Memory.antt =====
-- src/opcodes.cpp: the loads and the stores.
pub mod Stores
pub mod Loads
use bigassm.Prelude.{codes, ℕ, [], ◌∷◌, if◌then◌else◌}
use bigassm.Prelude.Words.{asr}
use bigassm.Types.{runtime_error, i64, tk_register, tk_constant}
use bigassm.Assembler.{Asm, throw, pure, get, ◌>>=◌, next, next_is}
use bigassm.Constants.{resolve_constants}
use bigassm.Instr.{Instruction, rv32i_load, rv32i_store}
use bigassm.Instr.Itype
use bigassm.Instr.Stype
use bigassm.Opcodes.Build.{InstructionList}

-- `if (a.next_is(TK_CONSTANT)) { … }` on the instruction, with the constant behind it
unfoldable pub with_constant : (ℕ → Instruction → Instruction) → Instruction → Asm Instruction
unfolding next_is resolve_constants i64
with_constant f i = do
  a ← get
  if next_is tk_constant a then (do imm ← resolve_constants; pure (f (i64 imm) i)) else pure i

unfoldable pub load_helper : ℕ → Asm InstructionList
unfolding next with_constant i64 Itype.set_rd Itype.set_funct3 Itype.set_imm Itype.set_rs1
load_helper f3 = do
  dst ← next tk_register
  i1 ← with_constant Itype.set_imm (Itype.set_funct3 f3 (Itype.set_rd (i64 dst) rv32i_load))
  src ← next tk_register
  pure (Itype.set_rs1 (i64 src) i1 ∷ [])

abbrev pub op_lb : Asm InstructionList
op_lb = load_helper 0

abbrev pub op_lh : Asm InstructionList
op_lh = load_helper 1

abbrev pub op_lw : Asm InstructionList
op_lw = load_helper 2

abbrev pub op_ld : Asm InstructionList
op_ld = load_helper 3

abbrev pub op_lq : Asm InstructionList
op_lq = load_helper 7

abbrev pub op_lbu : Asm InstructionList
op_lbu = load_helper 4

abbrev pub op_lhu : Asm InstructionList
op_lhu = load_helper 5

abbrev pub op_lwu : Asm InstructionList
op_lwu = load_helper 6

abbrev pub op_ldu : Asm InstructionList
op_ldu = throw (runtime_error (codes "Unimplemented"))

unfoldable pub set_store_imm : ℕ → Instruction → Instruction
unfolding Stype.set_imm1 Stype.set_imm2
set_store_imm imm i = Stype.set_imm2 (asr 64 imm 5) (Stype.set_imm1 imm i)

unfoldable pub store_helper : ℕ → Asm InstructionList
unfolding next with_constant set_store_imm i64 Stype.set_funct3 Stype.set_rs1 Stype.set_rs2
store_helper f3 = do
  dst ← next tk_register
  src ← next tk_register
  i1 ←
      with_constant set_store_imm
        (Stype.set_rs2 (i64 src) (Stype.set_rs1 (i64 dst) (Stype.set_funct3 f3 rv32i_store)))
  pure (i1 ∷ [])

abbrev pub op_sb : Asm InstructionList
op_sb = store_helper 0

abbrev pub op_sh : Asm InstructionList
op_sh = store_helper 1

abbrev pub op_sw : Asm InstructionList
op_sw = store_helper 2

abbrev pub op_sd : Asm InstructionList
op_sd = store_helper 3

abbrev pub op_sq : Asm InstructionList
op_sq = store_helper 4
