-- ===== src/Opcodes/Memory/Loads.antt =====
-- The loads of src/opcodes.cpp from their tokens to the fields of the instruction.
use bigassm.Prelude.{
  ℕ, ◌+◌, ◌%◌, ◌≡◌, ◌<◌, ◌∙◌, ap, refl, true, ◌||◌, not, List, [], ◌∷◌, ltb, if◌then◌else◌, arith,
}
use bigassm.Prelude.Words.{sext}
use bigassm.Types.{
  Token, TokenType, Opcode, op_lb, op_lh, op_lw, op_ld, op_lq, op_lbu, op_lhu, op_lwu, ok,
  tk_register, tk_constant, tk_operator, i64,
}
use bigassm.Types.Print.{is_type}
use bigassm.Assembler.{Assembler, Asm}
use bigassm.Opcodes.Build.{InstructionList}
use bigassm.Opcodes.Handlers.{handler}
use bigassm.Constants.Termination.{advance}
use bigassm.Constants.Chains.{resolve_constants-single}
use bigassm.Constants.Ahead.{ahead, stops, next_here, next_is_here, drop-suc}
use bigassm.Instr.{Instruction, rv32i_load}
use bigassm.Instr.Itype
use bigassm.Opcodes.Memory.{with_constant, load_helper}

register-stops :
    (tk : Token) (rest : List Token) → is_type tk.type tk_register ≡ true → stops (tk ∷ rest) ≡ true
unfolding is_type
register-stops tk rest e = go tk.type e
  where
    go :
        (t : TokenType)
        → is_type t tk_register ≡ true
        → not (is_type t tk_constant || is_type t tk_operator) ≡ true
    go t e = ground arith

-- The instruction that a load builds.
abbrev load : ℕ → ℕ → ℕ → ℕ → Instruction
load f3 dst imm src =
    Itype.set_rs1 src (Itype.set_imm imm (Itype.set_funct3 f3 (Itype.set_rd dst rv32i_load)))

record IsLoad (f3 dst imm src : ℕ) (i : Instruction) : Type 0 where
  opcode : Itype.opcode i ≡ 0x03
  funct3 : Itype.funct3 i ≡ f3
  rd : Itype.rd i ≡ dst
  rs1 : Itype.rs1 i ≡ src
  imm_at : Itype.imm i ≡ imm % 4096

load-IsLoad :
    (f3 dst imm src : ℕ)
    → f3 < 8
    → dst < 32
    → src < 32
    → IsLoad f3 dst imm src (load f3 dst imm src)
unfolding Itype.opcode Itype.funct3 Itype.rd Itype.rs1 Itype.imm Itype.set_imm Itype.set_rs1
    Itype.set_funct3 Itype.set_rd
load-IsLoad f3 dst imm src hf hd hs = omega arith

signed_value :
    (v imm : ℕ) → imm ≡ v % 4096 → imm + (if ltb imm 2048 then 0 else 0xFFFFF000) ≡ sext 12 32 v
signed_value v imm e = ground arith

load_helper-encodes :
    (f3 : ℕ) (dst imm src : Token) (rest : List Token) (a : Assembler)
    → ahead a ≡ dst ∷ imm ∷ src ∷ rest
    → is_type dst.type tk_register ≡ true
    → is_type imm.type tk_constant ≡ true
    → is_type src.type tk_register ≡ true
    → f3 < 8
    → i64 dst < 32
    → i64 src < 32
    → (i : Instruction) × (load_helper f3 a ≡ ok (i ∷ [], advance (advance (advance a))))
      × (Itype.opcode i ≡ 0x03)
      × (Itype.funct3 i ≡ f3)
      × (Itype.rd i ≡ i64 dst)
      × (Itype.rs1 i ≡ i64 src)
      × (Itype.signed_imm i ≡ sext 12 32 (i64 imm))
unfolding load_helper with_constant
load_helper-encodes f3 dst imm src rest a h dt it st hf hd hs =
    let h₁ = drop-suc a.index a.tokens h in
    let h₂ = drop-suc (advance a).index a.tokens h₁ in
    let f = load-IsLoad f3 (i64 dst) (i64 imm) (i64 src) hf hd hs in
    (
      load f3 (i64 dst) (i64 imm) (i64 src),
      rw
          (
            load_helper,
            next_here a h tk_register dt,
            with_constant,
            next_is_here (advance a) h₁ tk_constant ∙ it,
            resolve_constants-single imm (src ∷ rest) (advance a) h₁ it
                (register-stops src rest st),
            next_here (advance (advance a)) h₂ tk_register st,
          )
          refl,
      f.opcode,
      f.funct3,
      f.rd,
      f.rs1,
      Itype.signed_imm-eq-add _ ∙ signed_value (i64 imm) _ f.imm_at,
    )

-- The loads, and their codes for the width and the sign: the manual's up to 64 bits, and 7 for LQ.
pub data Loads : Opcode → ℕ → Type 0 where
  byte : Loads op_lb 0
  half : Loads op_lh 1
  word : Loads op_lw 2
  double : Loads op_ld 3
  byte_unsigned : Loads op_lbu 4
  half_unsigned : Loads op_lhu 5
  word_unsigned : Loads op_lwu 6
  quad : Loads op_lq 7

load_code : {o : Opcode} {f3 : ℕ} (l : Loads o f3) → (f3 < 8) × (handler o ≡ load_helper f3)
unfolding handler
load_code byte = (omega arith, refl)
load_code half = (omega arith, refl)
load_code word = (omega arith, refl)
load_code double = (omega arith, refl)
load_code byte_unsigned = (omega arith, refl)
load_code half_unsigned = (omega arith, refl)
load_code word_unsigned = (omega arith, refl)
load_code quad = (omega arith, refl)

-- From a register, a constant and another register, OP_LB and the other loads take the three tokens
-- and return one instruction: a load with the opcode's code for the width and the sign, to the first
-- register, with the second one as the address, whose offset reads back as the low 12 bits of the
-- constant with their sign.
pub load-encodes :
    (o : Opcode) (f3 : ℕ) (dst imm src : Token) (rest : List Token) (a : Assembler)
    → Loads o f3
    → ahead a ≡ dst ∷ imm ∷ src ∷ rest
    → is_type dst.type tk_register ≡ true
    → is_type imm.type tk_constant ≡ true
    → is_type src.type tk_register ≡ true
    → i64 dst < 32
    → i64 src < 32
    → (i : Instruction) × (handler o a ≡ ok (i ∷ [], advance (advance (advance a))))
      × (Itype.opcode i ≡ 0x03)
      × (Itype.funct3 i ≡ f3)
      × (Itype.rd i ≡ i64 dst)
      × (Itype.rs1 i ≡ i64 src)
      × (Itype.signed_imm i ≡ sext 12 32 (i64 imm))
load-encodes o f3 dst imm src rest a known h dt it st hd hs =
    let (small, same) = load_code known in
    let (i, done, opcode, funct3, rd, rs1, offset) =
      load_helper-encodes f3 dst imm src rest a h dt it st small hd hs in
    (i, ap (λ (m : Asm InstructionList). m a) same ∙ done, opcode, funct3, rd, rs1, offset)
