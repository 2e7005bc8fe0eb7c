-- ===== src/Rv128/Forms.antt =====
-- The specification's value for each form of instruction.
use bigassm.Prelude.{
  ℕ, ◌+◌, ◌-◌, ◌*◌, ◌/◌, ◌%◌, ◌^◌, ◌≡◌, ◌<◌, refl, some, arith, ltb, if◌then◌else◌,
}
use bigassm.Prelude.Words.{sext}
use bigassm.Instr.{Instruction}
use bigassm.Instr.Itype
use bigassm.Instr.Rtype
use bigassm.Instr.Utype
use bigassm.Rv128.{Registers, read, write, bits_of, result, jump}

-- A 12-bit immediate and a 20-bit upper immediate, widened to 128 bits.
abbrev pub imm_value : ℕ → ℕ
imm_value imm = if ltb imm 2048 then imm else imm + (2 ^ 128 - 4096)

abbrev pub upper_value : ℕ → ℕ
upper_value imm = if ltb imm (2 ^ 19) then imm * 4096 else imm * 4096 + (2 ^ 128 - 2 ^ 32)

imm_widened : (n : ℕ) → n < 4096 → sext 12 128 n ≡ imm_value n
imm_widened n h = ground arith

upper_widened : (n : ℕ) → n < 2 ^ 20 → sext 32 128 (n * 2 ^ 12) ≡ upper_value n
upper_widened n h = ground arith

module _ (pc : ℕ) (i : Instruction) (r : Registers) where
  pub result_addi :
      Itype.opcode i ≡ 0x13
      → Itype.funct3 i ≡ 0
      → result pc i r ≡ some (read r (Itype.rs1 i) + imm_value (Itype.imm i))
  unfolding result Itype.opcode Itype.funct3 Itype.rs1 Itype.imm
  result_addi ho hf = rw (ho, hf, imm_widened (bits_of 20 12 i) (omega arith)) refl

  pub jump_jalr :
      Itype.opcode i ≡ 0x67
      → Itype.funct3 i ≡ 0
      → jump pc i r
        ≡ some (
          (read r (Itype.rs1 i) + imm_value (Itype.imm i)) % 2 ^ 128 / 2 * 2,
          write (Itype.rd i) (pc + 4) r,
        )
  unfolding jump Itype.opcode Itype.funct3 Itype.rs1 Itype.rd Itype.imm
  jump_jalr ho hf = rw (ho, hf, imm_widened (bits_of 20 12 i) (omega arith)) refl

  pub result_lui : Itype.opcode i ≡ 0x37 → result pc i r ≡ some (upper_value (Utype.imm i))
  unfolding result Itype.opcode Utype.imm
  result_lui ho = rw (ho, upper_widened (bits_of 12 20 i) (omega arith)) refl

  pub result_auipc : Itype.opcode i ≡ 0x17 → result pc i r ≡ some (pc + upper_value (Utype.imm i))
  unfolding result Itype.opcode Utype.imm
  result_auipc ho = rw (ho, upper_widened (bits_of 12 20 i) (omega arith)) refl

  pub result_slli :
      Itype.opcode i ≡ 0x13
      → Itype.funct3 i ≡ 1
      → Itype.imm i ≡ 32
      → result pc i r ≡ some (read r (Itype.rs1 i) * 2 ^ 32)
  unfolding result Itype.opcode Itype.funct3 Itype.rs1 Itype.imm
  result_slli ho hf hi =
      let top : bits_of 27 5 i ≡ 0 = omega (arith, hi) in
      let low : bits_of 20 7 i ≡ 32 = omega (arith, hi) in rw (ho, hf, top, low) refl

  pub result_add :
      Itype.opcode i ≡ 0x33
      → Itype.funct3 i ≡ 0
      → bits_of 25 7 i ≡ 0
      → result pc i r ≡ some (read r (Itype.rs1 i) + read r (Rtype.rs2 i))
  unfolding result Itype.opcode Itype.funct3 Itype.rs1 Rtype.rs2
  result_add ho hf h7 = rw (ho, hf, h7) refl
