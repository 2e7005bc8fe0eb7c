-- ===== src/Opcodes/Arithmetic/Immediates.antt =====
-- The immediate forms of `op_imm_helper` in src/opcodes.cpp: what is encoded, and what is refused.
use bigassm.Prelude.{
  ℕ, ◌+◌, ◌-◌, ◌%◌, ◌^◌, ◌≡◌, ◌≤◌, ◌<◌, ◌⊎◌, refl, ◌∙◌, true, false, ◌||◌, List, ◌∷◌, codes, ltb,
  if◌then◌else◌, arith,
}
use bigassm.Prelude.Words.{slt, neg}
use bigassm.Types.{Token, ok, err, tk_constant, token_exception, i64}
use bigassm.Types.Print.{is_type}
use bigassm.Assembler.{Assembler}
use bigassm.Constants.Termination.{advance}
use bigassm.Constants.Chains.{resolve_constants-single}
use bigassm.Constants.Ahead.{ahead, stops}
use bigassm.Instr.{Instruction}
use bigassm.Instr.Itype
use bigassm.Opcodes.Arithmetic.{op_imm_constant}

-- The instruction of a register, an operation and an immediate.
record IsImmediate (opcode funct3 reg imm : ℕ) (i : Instruction) : Type 0 where
  pub opcode_at : Itype.opcode i ≡ opcode
  pub funct3_at : Itype.funct3 i ≡ funct3
  pub rd_at : Itype.rd i ≡ reg
  pub rs1_at : Itype.rs1 i ≡ reg
  pub imm_at : Itype.imm i ≡ imm

in_range :
    (v : ℕ)
    → (v < 2048) ⊎ (2 ^ 64 - 2048 ≤ v)
    → v < 2 ^ 64
    → slt 64 0x7FF v || slt 64 v (neg 64 2048) ≡ false
in_range v h k = ground arith

beyond_range :
    (v : ℕ) → 2048 ≤ v → v < 2 ^ 64 - 2048 → slt 64 0x7FF v || slt 64 v (neg 64 2048) ≡ true
beyond_range v h k = ground arith

built :
    (opcode funct3 reg v : ℕ)
    → opcode < 128
    → funct3 < 8
    → reg < 32
    → IsImmediate opcode funct3 reg
        (v % 4096)
        (Itype.set_imm v (Itype.set_rs1 reg (Itype.set_funct3 funct3 (Itype.set_rd reg opcode))))
unfolding Itype.opcode Itype.funct3 Itype.rd Itype.rs1 Itype.imm Itype.set_imm Itype.set_rs1
    Itype.set_funct3 Itype.set_rd
built opcode funct3 reg v ho hf hr = omega arith

i64-lt : (tk : Token) → i64 tk < 2 ^ 64
unfolding i64
i64-lt tk = omega arith

signed_value :
    (v imm : ℕ)
    → (v < 2048) ⊎ (2 ^ 64 - 2048 ≤ v)
    → v < 2 ^ 64
    → imm ≡ v % 4096
    → imm + (if ltb imm 2048 then 0 else 0xFFFFF000) ≡ v % 2 ^ 32
signed_value v imm h k e = ground arith

module _ (opcode funct3 reg : ℕ) (imm : Token) (rest : List Token) (a : Assembler)
    (h : ahead a ≡ imm ∷ rest) (ct : is_type imm.type tk_constant ≡ true)
    (e : stops rest ≡ true) where
  -- On a constant of -2048 to 2047 that no constant and no operator follows, the immediate form of
  -- the arithmetic opcodes returns an instruction with its opcode and operation, the register as
  -- source and destination, and the constant as Itype::signed_imm.
  pub op_imm_constant-encodes :
      opcode < 128
      → funct3 < 8
      → reg < 32
      → (i64 imm < 2048) ⊎ (2 ^ 64 - 2048 ≤ i64 imm)
      → (i : Instruction) × (op_imm_constant opcode funct3 reg a ≡ ok (i, advance a))
        × (Itype.opcode i ≡ opcode)
        × (Itype.funct3 i ≡ funct3)
        × (Itype.rd i ≡ reg)
        × (Itype.rs1 i ≡ reg)
        × (Itype.signed_imm i ≡ i64 imm % 2 ^ 32)
  unfolding op_imm_constant
  op_imm_constant-encodes ho hf hr range =
      let v = i64 imm in
      let small : v < 2 ^ 64 = i64-lt imm in
      let f = built opcode funct3 reg v ho hf hr in
      (
        _,
        rw (op_imm_constant, resolve_constants-single imm rest a h ct e, in_range v range small)
            refl,
        f.opcode_at,
        f.funct3_at,
        f.rd_at,
        f.rs1_at,
        Itype.signed_imm-eq-add _ ∙ signed_value v _ range small f.imm_at,
      )

  -- A constant of 2048 or more or of less than -2048 that no constant and no operator follows is
  -- refused by the immediate form as out of bounds.
  pub op_imm_constant-refuses :
      2048 ≤ i64 imm
      → i64 imm < 2 ^ 64 - 2048
      → op_imm_constant opcode funct3 reg a
        ≡ err (token_exception imm (codes "Out of bounds immediate value"))
  unfolding op_imm_constant
  op_imm_constant-refuses lo hi =
      rw (op_imm_constant, resolve_constants-single imm rest a h ct e, beyond_range (i64 imm) lo hi)
        refl
