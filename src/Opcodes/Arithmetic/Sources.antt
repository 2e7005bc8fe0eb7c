-- ===== src/Opcodes/Arithmetic/Sources.antt =====
-- The register forms of `op_f7_helper` in src/opcodes.cpp: OP_SUB, OP_MUL and the divisions.
use bigassm.Prelude.{ℕ, ◌/◌, ◌%◌, ◌^◌, ◌≡◌, false, Bool, List, [], ◌∷◌, if◌then◌else◌}
use bigassm.Types.{Token, tk_register, i64}
use bigassm.Types.Print.{is_type}
use bigassm.Assembler.{Assembler}
use bigassm.Constants.Termination.{advance}
use bigassm.Instr.{Instruction}
use bigassm.Instr.Itype
use bigassm.Instr.Rtype

-- Whether a third register follows; the two sources then, and else; and the state behind them.
abbrev pub has_third : List Token → Bool
has_third [] = false
has_third (tk ∷ tks) = is_type tk.type tk_register

abbrev third : List Token → ℕ
third [] = 0
third (tk ∷ tks) = i64 tk

abbrev pub source1 : Token → Token → List Token → ℕ
source1 reg reg2 rest = if has_third rest then i64 reg2 else i64 reg

abbrev pub source2 : Token → List Token → ℕ
source2 reg2 rest = if has_third rest then third rest else i64 reg2

abbrev pub behind : List Token → Assembler → Assembler
behind rest a = if has_third rest then advance a else a

abbrev form : ℕ → ℕ → ℕ → ℕ → ℕ → ℕ → Instruction
form opcode f3 f7 dst s₁ s₂ =
    Rtype.set_funct7 f7
      (Rtype.set_rs2 s₂ (Rtype.set_rs1 s₁ (Rtype.set_funct3 f3 (Rtype.set_rd dst opcode))))

record IsForm (opcode f3 f7 dst s₁ s₂ : ℕ) (i : Instruction) : Type 0 where
  opcode_at : Itype.opcode i ≡ opcode
  funct3_at : Itype.funct3 i ≡ f3
  funct7_at : i / 2 ^ 25 % 2 ^ 7 ≡ f7
  rd_at : Itype.rd i ≡ dst
  rs1_at : Itype.rs1 i ≡ s₁
  rs2_at : Rtype.rs2 i ≡ s₂
