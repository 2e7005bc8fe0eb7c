-- ===== src/Opcodes/Memory/Stores.antt =====
-- The stores of src/opcodes.cpp from their tokens to the fields of the instruction.
use bigassm.Prelude.{
  refl, sym, ap, true, List, [], ◌∷◌, ℕ, ◌+◌, ◌*◌, ◌/◌, ◌%◌, ◌^◌, ◌≡◌, ◌<◌, ◌∙◌, arith, ltb,
  if◌then◌else◌,
}
use bigassm.Prelude.Words.{sext}
use bigassm.Types.{
  Token, Opcode, op_sb, op_sh, op_sw, op_sd, op_sq, ok, tk_register, tk_constant, i64,
}
use bigassm.Types.Print.{is_type}
use bigassm.Assembler.{Assembler, Asm}
use bigassm.Opcodes.Build.{InstructionList}
use bigassm.Opcodes.Handlers.{handler}
use bigassm.Constants.Termination.{advance}
use bigassm.Constants.Chains.{resolve_constants-single}
use bigassm.Constants.Ahead.{ahead, stops, next_here, next_is_here, drop-suc}
use bigassm.Instr.{Instruction, rv32i_store}
use bigassm.Instr.Stype
use bigassm.Opcodes.Memory.{with_constant, set_store_imm, store_helper}

joined :
    (imm : ℕ)
    → imm % 2 ^ 5
        + imm / 2 ^ 5 % 2 ^ 7 * 2 ^ 5
        + (if ltb (imm / 2 ^ 5 % 2 ^ 7) 64 then 0 else 0xFFFFF000)
      ≡ sext 12 32 imm
joined imm = ground arith

module _ (i : Instruction) where
  low_field : (imm : ℕ) → set_store_imm imm i % 2 ^ 32 / 2 ^ 7 % 2 ^ 5 ≡ imm % 2 ^ 5
  unfolding set_store_imm Stype.set_imm1 Stype.set_imm2
  low_field imm = omega arith

  high_field :
      (imm : ℕ) → imm < 2 ^ 64 → set_store_imm imm i % 2 ^ 32 / 2 ^ 25 % 2 ^ 7 ≡ imm / 2 ^ 5 % 2 ^ 7
  unfolding set_store_imm Stype.set_imm1 Stype.set_imm2
  high_field imm h = ground arith

  opcode_field : (imm : ℕ) → set_store_imm imm i % 2 ^ 32 % 2 ^ 7 ≡ i % 2 ^ 7
  unfolding set_store_imm Stype.set_imm1 Stype.set_imm2
  opcode_field imm = omega arith

  middle_fields : (imm : ℕ) → set_store_imm imm i % 2 ^ 32 / 2 ^ 12 % 2 ^ 13 ≡ i / 2 ^ 12 % 2 ^ 13
  unfolding set_store_imm Stype.set_imm1 Stype.set_imm2
  middle_fields imm = omega arith

  -- The offset is read back from its two fields; the opcode, the width and both registers stay.
  set_store_imm-signed_imm :
      (imm : ℕ)
      → imm < 2 ^ 64
      → let i' = set_store_imm imm i % 2 ^ 32 in
        (Stype.signed_imm i' ≡ sext 12 32 imm)
        × (i' % 2 ^ 7 ≡ i % 2 ^ 7)
        × (i' / 2 ^ 12 % 2 ^ 13 ≡ i / 2 ^ 12 % 2 ^ 13)
  set_store_imm-signed_imm imm h =
      let i' = set_store_imm imm i % 2 ^ 32 in
      (
        Stype.signed_imm-eq-add i' ∙ rw (low_field imm, high_field imm h) (joined imm),
        opcode_field imm,
        middle_fields imm,
      )

i64-small : (tk : Token) → i64 tk < 2 ^ 64
unfolding i64
i64-small tk = omega arith

small_mod : (i : ℕ) → i < 2 ^ 32 → i % 2 ^ 32 ≡ i
small_mod i h = omega (arith, h)

-- The instruction of a store without an offset.
abbrev bare_store : ℕ → ℕ → ℕ → Instruction
bare_store f3 dst src = Stype.set_rs2 src (Stype.set_rs1 dst (Stype.set_funct3 f3 rv32i_store))

record IsStore (f3 dst src : ℕ) (i : Instruction) : Type 0 where
  opcode : i % 2 ^ 7 ≡ 0x23
  funct3 : i / 2 ^ 12 % 2 ^ 3 ≡ f3
  rs1 : i / 2 ^ 15 % 2 ^ 5 ≡ dst
  rs2 : i / 2 ^ 20 % 2 ^ 5 ≡ src

bare_store-IsStore :
    (f3 dst src : ℕ) → f3 < 8 → dst < 32 → src < 32 → IsStore f3 dst src (bare_store f3 dst src)
unfolding Stype.set_funct3 Stype.set_rs1 Stype.set_rs2
bare_store-IsStore f3 dst src hf hd hs = omega arith

-- The fields stay where the opcode's and those of the middle do.
IsStore-fields :
    (f3 dst src : ℕ) (i j : Instruction)
    → j % 2 ^ 7 ≡ i % 2 ^ 7
    → j / 2 ^ 12 % 2 ^ 13 ≡ i / 2 ^ 12 % 2 ^ 13
    → IsStore f3 dst src i
    → IsStore f3 dst src j
IsStore-fields f3 dst src i j e m s = record {
  opcode = omega (arith, e, s.opcode);
  funct3 = omega (arith, m, s.funct3);
  rs1 = omega (arith, m, s.rs1);
  rs2 = omega (arith, m, s.rs2);
}

set_store_imm-small : (imm : ℕ) (i : Instruction) → i < 2 ^ 32 → set_store_imm imm i < 2 ^ 32
unfolding set_store_imm Stype.set_imm1 Stype.set_imm2
set_store_imm-small imm i h = omega (arith, h)

bare_store-small : (f3 dst src : ℕ) → bare_store f3 dst src < 2 ^ 32
unfolding Stype.set_funct3 Stype.set_rs1 Stype.set_rs2
bare_store-small f3 dst src = omega arith

store_helper-encodes :
    (f3 : ℕ) (dst src imm : Token) (rest : List Token) (a : Assembler)
    → ahead a ≡ dst ∷ src ∷ imm ∷ rest
    → is_type dst.type tk_register ≡ true
    → is_type src.type tk_register ≡ true
    → is_type imm.type tk_constant ≡ true
    → stops rest ≡ true
    → f3 < 8
    → i64 dst < 32
    → i64 src < 32
    → (i : Instruction) × (store_helper f3 a ≡ ok (i ∷ [], advance (advance (advance a))))
      × (i % 2 ^ 7 ≡ 0x23)
      × (i / 2 ^ 12 % 2 ^ 3 ≡ f3)
      × (i / 2 ^ 15 % 2 ^ 5 ≡ i64 dst)
      × (i / 2 ^ 20 % 2 ^ 5 ≡ i64 src)
      × (Stype.signed_imm i ≡ sext 12 32 (i64 imm))
unfolding store_helper with_constant
store_helper-encodes f3 dst src imm rest a h dt st it last hf hd hs =
    let h₁ = drop-suc a.index a.tokens h in
    let h₂ = drop-suc (advance a).index a.tokens h₁ in
    let bare = bare_store f3 (i64 dst) (i64 src) in
    let i = set_store_imm (i64 imm) bare in
    let (signed, low, middle) = set_store_imm-signed_imm bare (i64 imm) (i64-small imm) in
    let whole : i % 2 ^ 32 ≡ i =
      small_mod i (set_store_imm-small (i64 imm) bare (bare_store-small f3 (i64 dst) (i64 src))) in
    let f =
      IsStore-fields f3 (i64 dst) (i64 src) bare i (ap (λ (j : ℕ). j % 2 ^ 7) (sym whole) ∙ low)
        (ap (λ (j : ℕ). j / 2 ^ 12 % 2 ^ 13) (sym whole) ∙ middle)
        (bare_store-IsStore f3 (i64 dst) (i64 src) hf hd hs) in
    (
      i,
      rw
          (
            store_helper,
            next_here a h tk_register dt,
            next_here (advance a) h₁ tk_register st,
            with_constant,
            next_is_here (advance (advance a)) h₂ tk_constant ∙ it,
            resolve_constants-single imm rest (advance (advance a)) h₂ it last,
          )
          refl,
      f.opcode,
      f.funct3,
      f.rs1,
      f.rs2,
      ap Stype.signed_imm (sym whole) ∙ signed,
    )

-- The stores and how many bits they store.
pub data Stores : Opcode → ℕ → Type 0 where
  byte : Stores op_sb 8
  half : Stores op_sh 16
  word : Stores op_sw 32
  double : Stores op_sd 64
  quad : Stores op_sq 128

-- By the manual, the width field of a store is the power of two of its bytes.
width_code :
    {o : Opcode} {bits : ℕ} (s : Stores o bits)
    → (f3 : ℕ) × (f3 < 8) × (bits ≡ 8 * 2 ^ f3) × (handler o ≡ store_helper f3)
unfolding handler
width_code byte = (0, omega arith, refl, refl)
width_code half = (1, omega arith, refl, refl)
width_code word = (2, omega arith, refl, refl)
width_code double = (3, omega arith, refl, refl)
width_code quad = (4, omega arith, refl, refl)

-- From a register, another one and a constant that no constant and no operator follows, OP_SB and
-- the other stores take the three tokens and return one instruction: a store of as many bits as the
-- opcode says, with the first register as the address and the second one as the value, whose offset
-- reads back from its two fields as the low 12 bits of the constant with their sign.
pub store-encodes :
    (o : Opcode) (bits : ℕ) (dst src imm : Token) (rest : List Token) (a : Assembler)
    → Stores o bits
    → ahead a ≡ dst ∷ src ∷ imm ∷ rest
    → is_type dst.type tk_register ≡ true
    → is_type src.type tk_register ≡ true
    → is_type imm.type tk_constant ≡ true
    → stops rest ≡ true
    → i64 dst < 32
    → i64 src < 32
    → (i : Instruction) × (handler o a ≡ ok (i ∷ [], advance (advance (advance a))))
      × (i % 2 ^ 7 ≡ 0x23)
      × (8 * 2 ^ (i / 2 ^ 12 % 2 ^ 3) ≡ bits)
      × (i / 2 ^ 15 % 2 ^ 5 ≡ i64 dst)
      × (i / 2 ^ 20 % 2 ^ 5 ≡ i64 src)
      × (Stype.signed_imm i ≡ sext 12 32 (i64 imm))
store-encodes o bits dst src imm rest a known h dt st it last hd hs =
    let (f3, small, wide, same) = width_code known in
    let (i, done, opcode, funct3, rs1, rs2, offset) =
      store_helper-encodes f3 dst src imm rest a h dt st it last small hd hs in
    (
      i,
      ap (λ (m : Asm InstructionList). m a) same ∙ done,
      opcode,
      ap (λ (n : ℕ). 8 * 2 ^ n) funct3 ∙ sym wide,
      rs1,
      rs2,
      offset,
    )
