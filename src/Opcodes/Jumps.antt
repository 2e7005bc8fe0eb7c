-- ===== src/Opcodes/Jumps.antt =====
-- src/opcodes.cpp: the opcodes that name a label, and the jumps. Each schedules the patch of the
-- instructions that it is about to output, at the current location.
use bigassm.Prelude.{ℕ, zero, suc, [], ◌∷◌, ◌++◌, codes, if◌then◌else◌}
use bigassm.Types.{i64, Token, tk_register, tk_symbol, tk_constant, token_exception}
use bigassm.Assembler.{
  SymbolLocation, Scheduled, patch_la, patch_laq, patch_branch, patch_farcall, patch_jump, Asm,
  pure, throw, get, ◌>>=◌, ◌>>◌, next_token, next, next_is, current_location, schedule,
}
use bigassm.Patch.{set_jump}
use bigassm.Instr.{Instruction, rv32i_op_imm, rv32i_lui, rv32i_branch, rv32i_jal, rv32i_jalr}
use bigassm.Instr.Rtype
use bigassm.Instr.Itype
use bigassm.Instr.Utype
use bigassm.Instr.Btype
use bigassm.Instr.Jtype
use bigassm.Opcodes.Build.{InstructionList, build_uint32, shift_32, add_temp}

-- `a.schedule(lbl, [loc = a.current_location()] …)`
unfoldable pub schedule_here : Token → (SymbolLocation → Scheduled) → Asm (Unit {0})
unfolding current_location schedule
schedule_here lbl op = do loc ← current_location; schedule lbl.value (op loc)

unfoldable pub op_la : Asm InstructionList
unfolding next schedule_here i64 Itype.set_rd Itype.set_rs1
op_la = do
  reg ← next tk_register
  lbl ← next tk_symbol
  let i1 = Itype.set_rd (i64 reg) rv32i_lui
  let i2 = Itype.set_rs1 (i64 reg) (Itype.set_rd (i64 reg) rv32i_op_imm)
  schedule_here lbl patch_la
  pure (i1 ∷ i2 ∷ [])

-- The loop of OP_LAQ, `n` rounds.
unfoldable pub laq_words : ℕ → ℕ → ℕ → InstructionList → Asm InstructionList
unfolding build_uint32 Itype.set_funct3 Rtype.set_rd Rtype.set_rs1 Rtype.set_rs2
laq_words zero dst temp res = pure res
laq_words (suc n) dst temp res = do
  res' ← build_uint32 res temp 0x7FFFFFFF
  laq_words n dst temp (res' ++ shift_32 dst ∷ add_temp dst temp ∷ [])

unfoldable pub op_laq : Asm InstructionList
unfolding next schedule_here i64 laq_words
op_laq = do
  dst ← next tk_register
  temp ← next tk_register
  label ← next tk_symbol
  schedule_here label patch_laq
  res ← build_uint32 [] (i64 dst) 0x7FFFFFFF
  laq_words 3 (i64 dst) (i64 temp) res

unfoldable pub branch_helper : ℕ → Asm InstructionList
unfolding next schedule_here i64 Btype.set_rs1 Btype.set_rs2 Btype.set_funct3
branch_helper f3 = do
  reg1 ← next tk_register
  reg2 ← next tk_register
  lbl ← next tk_symbol
  let instr = Btype.set_funct3 f3 (Btype.set_rs2 (i64 reg2) (Btype.set_rs1 (i64 reg1) rv32i_branch))
  schedule_here lbl patch_branch
  pure (instr ∷ [])

abbrev pub op_beq : Asm InstructionList
op_beq = branch_helper 0

abbrev pub op_bne : Asm InstructionList
op_bne = branch_helper 1

abbrev pub op_blt : Asm InstructionList
op_blt = branch_helper 4

abbrev pub op_bge : Asm InstructionList
op_bge = branch_helper 5

abbrev pub op_bltu : Asm InstructionList
op_bltu = branch_helper 6

abbrev pub op_bgeu : Asm InstructionList
op_bgeu = branch_helper 7

unfoldable pub op_farcall : Asm InstructionList
unfolding next schedule_here i64 Utype.set_rd Itype.set_rs1 Itype.set_rd
op_farcall = do
  reg ← next tk_register
  lbl ← next tk_symbol
  let i1 = Utype.set_rd (i64 reg) rv32i_lui
  let i2 = Itype.set_rd 1 (Itype.set_rs1 (i64 reg) rv32i_jalr)
  schedule_here lbl patch_farcall
  pure (i1 ∷ i2 ∷ [])

-- The operand of OP_CALL: a label, or a constant that is encoded as it stands.
unfoldable pub call_operand : Instruction → Asm Instruction
unfolding next next_is next_token schedule_here set_jump i64
call_operand instr = do
  a ← get
  if next_is tk_symbol a
      then (do lbl ← next tk_symbol; schedule_here lbl patch_jump; pure instr)
      else if next_is tk_constant a
      then (do imm ← next tk_constant; pure (set_jump (i64 imm) instr))
      else (do tk ← next_token; throw (token_exception tk (codes "Unexpected next token")))

-- `if (a.next_is(T)) { auto& tk = a.next<T>(); … }` on the instruction
unfoldable pub with_register : (ℕ → Instruction → Instruction) → Instruction → Asm Instruction
unfolding next next_is i64
with_register f i = do
  a ← get
  if next_is tk_register a then (do reg ← next tk_register; pure (f (i64 reg) i)) else pure i

unfoldable pub op_call : Asm InstructionList
unfolding call_operand with_register Jtype.set_rd
op_call = do
  instr ← call_operand (Jtype.set_rd 1 rv32i_jal)
  instr' ← with_register Jtype.set_rd instr
  pure (instr' ∷ [])

unfoldable pub op_jalr : Asm InstructionList
unfolding with_register next next_is i64 Itype.set_rs1 Itype.set_imm Itype.set_rd
op_jalr = do
  i₁ ← with_register Itype.set_rs1 rv32i_jalr
  a ← get
  i₂ ←
      if next_is tk_constant a
      then (do imm ← next tk_constant; pure (Itype.set_imm (i64 imm) i₁))
      else pure i₁
  i₃ ← with_register Itype.set_rd i₂
  pure (i₃ ∷ [])

unfoldable pub op_ret : Asm InstructionList
unfolding Itype.set_rs1
op_ret = pure (Itype.set_rs1 1 rv32i_jalr ∷ [])

unfoldable pub op_jmp : Asm InstructionList
unfolding next schedule_here
op_jmp = do lbl ← next tk_symbol; schedule_here lbl patch_jump; pure (rv32i_jal ∷ [])
