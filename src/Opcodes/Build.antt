-- ===== src/Opcodes/Build.antt =====
-- src/opcodes.cpp: instruction sequences that build constants, for OP_LI and OP_SET.
pub mod Fields
pub mod Load
pub mod Set
pub mod Li
use bigassm.Prelude.{
  ℕ, ◌*◌, ◌/◌, ◌%◌, ◌^◌, bit_or, not, List, [], ◌∷◌, ◌++◌, ltb, ◌==◌, if◌then◌else◌,
}
use bigassm.Prelude.Words.{add_word, asr, sext}
use bigassm.Types.{u128, i64, tk_register}
use bigassm.Assembler.{Asm, pure, ◌>>=◌, next, int_sum}
use bigassm.Constants.{resolve_constants}
use bigassm.Instr.{Instruction, rv32i_op_imm, rv32i_op, rv32i_lui}
use bigassm.Instr.Rtype
use bigassm.Instr.Itype
use bigassm.Instr.Utype

abbrev pub InstructionList : Type 0
InstructionList = List Instruction

-- The two instructions of `build_uint32`, for the value, an `int32_t`, and for its sum with the
-- immediate.
abbrev pub build_low : ℕ → ℕ → Instruction
build_low reg value = Itype.set_imm value (Itype.set_rd reg rv32i_op_imm)

abbrev pub build_high : ℕ → ℕ → Instruction
build_high reg sum = Utype.set_imm (asr 32 sum 12) (Utype.set_rd reg rv32i_lui)

unfoldable pub build_uint32 : InstructionList → ℕ → ℕ → Asm InstructionList
unfolding int_sum Itype.set_imm Itype.set_rd Itype.set_rs1 Itype.imm Utype.set_imm Utype.set_rd
    Utype.imm
build_uint32 res reg value = do
  let i1 = build_low reg value
  sum ← int_sum value (Itype.imm i1)
  let i2 = build_high reg sum
  pure (
      if not (Utype.imm i2 == 0)
      then (let res' = res ++ i2 ∷ [] in
          if not (value % 2 ^ 12 == 0) then res' ++ Itype.set_rs1 reg i1 ∷ [] else res')
      else res ++ i1 ∷ [])

unfoldable pub op_nop : Asm InstructionList
op_nop = pure (rv32i_op_imm ∷ [])

unfoldable pub op_li : Asm InstructionList
unfolding next resolve_constants build_uint32 i64
op_li = do
  reg ← next tk_register
  imm ← resolve_constants
  build_uint32 [] (i64 reg) (i64 imm % 2 ^ 32)

-- `dst <<= 32` and `dst += temp`
abbrev pub shift_32 : ℕ → Instruction
shift_32 dst =
    Itype.set_imm 32 (Itype.set_funct3 1 (Itype.set_rs1 dst (Itype.set_rd dst rv32i_op_imm)))

abbrev pub add_temp : ℕ → ℕ → Instruction
add_temp dst temp = Rtype.set_rs2 temp (Rtype.set_rs1 dst (Rtype.set_rd dst rv32i_op))

-- One round of OP_SET's loop over the words of the constant, with `value_so_far`.
unfoldable pub set_word : ℕ → ℕ → ℕ → InstructionList × ℕ → Asm (InstructionList × ℕ)
unfolding build_uint32 Itype.set_funct3 Rtype.set_rd Rtype.set_rs1 Rtype.set_rs2
set_word dst temp imm (res, value_so_far) = do
  res₁ ← build_uint32 res temp imm
  let res₂ = if not (value_so_far == 0) then res₁ ++ shift_32 dst ∷ [] else res₁
  pure (res₂ ++ add_temp dst temp ∷ [], bit_or (value_so_far * 2 ^ 32 % 2 ^ 128) (sext 32 128 imm))

-- The part of OP_SET behind its operands.
unfoldable pub build_set : ℕ → ℕ → ℕ → Asm InstructionList
unfolding build_uint32 set_word
build_set dst temp imm = if ltb imm 0x100000000 then build_uint32 [] dst (imm % 2 ^ 32) else (do
  let word = λ (i : ℕ). imm / 2 ^ (32 * i) % 2 ^ 32
  res₃ ← build_uint32 [] dst (word 3)
  res₂ ← set_word dst temp (word 2) (res₃, sext 32 128 (word 3))
  res₁ ← set_word dst temp (word 1) res₂
  res₀ ← set_word dst temp (word 0) res₁
  pure (res₀.0))

unfoldable pub op_set : Asm InstructionList
unfolding next resolve_constants build_set i64 u128
op_set = do
  dst ← next tk_register
  temp ← next tk_register
  imm ← resolve_constants
  build_set (i64 dst) (i64 temp) (u128 imm)
