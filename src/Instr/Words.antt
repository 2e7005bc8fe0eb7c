-- ===== src/Instr/Words.antt =====
-- Assignments to the bit fields of src/rv32i_instr.hpp keep an instruction of 32 bits one.
use bigassm.Prelude.{refl, ℕ, ◌%◌, ◌^◌, ◌≡◌, ◌<◌, arith}
use bigassm.Instr.{
  Instruction, set_bits, rv32i_load, rv32i_store, rv32i_branch, rv32i_jalr, rv32i_jal, rv32i_op_imm,
  rv32i_op, rv32i_system, rv32i_lui,
}
use bigassm.Instr.Rtype
use bigassm.Instr.Itype
use bigassm.Instr.Stype
use bigassm.Instr.Utype
use bigassm.Instr.Btype
use bigassm.Instr.Jtype

-- An instruction of 32 bits, with the two low bits that `is_long` asks for.
pub record IsWord (i : Instruction) : Type 0 where
  pub small : i < 2 ^ 32
  pub long : i % 4 ≡ 3

-- The bit fields that the handlers assign to, less the opcode.
pub data IsField : ℕ → ℕ → Type 0 where
  rd_bits : IsField 7 5
  funct3_bits : IsField 12 3
  rs1_bits : IsField 15 5
  rs2_bits : IsField 20 5
  funct7_bits : IsField 25 7
  imm_bits : IsField 20 12
  upper_bits : IsField 12 20
  jump_low : IsField 21 10
  jump_11 : IsField 20 1
  jump_middle : IsField 12 8
  jump_sign : IsField 31 1

-- The proof is the same for each of the fields, whose bits are numbers only then.
pub set_bits-IsWord :
    (lo w v : ℕ) (i : Instruction) → IsField lo w → IsWord i → IsWord (set_bits lo w v i)
unfolding set_bits
set_bits-IsWord _ _ v i rd_bits h = record {
  small = omega (arith, h.small);
  long = omega (arith, h.long);
}
set_bits-IsWord _ _ v i funct3_bits h = record {
  small = omega (arith, h.small);
  long = omega (arith, h.long);
}
set_bits-IsWord _ _ v i rs1_bits h = record {
  small = omega (arith, h.small);
  long = omega (arith, h.long);
}
set_bits-IsWord _ _ v i rs2_bits h = record {
  small = omega (arith, h.small);
  long = omega (arith, h.long);
}
set_bits-IsWord _ _ v i funct7_bits h = record {
  small = omega (arith, h.small);
  long = omega (arith, h.long);
}
set_bits-IsWord _ _ v i imm_bits h = record {
  small = omega (arith, h.small);
  long = omega (arith, h.long);
}
set_bits-IsWord _ _ v i upper_bits h = record {
  small = omega (arith, h.small);
  long = omega (arith, h.long);
}
set_bits-IsWord _ _ v i jump_low h = record {
  small = omega (arith, h.small);
  long = omega (arith, h.long);
}
set_bits-IsWord _ _ v i jump_11 h = record {
  small = omega (arith, h.small);
  long = omega (arith, h.long);
}
set_bits-IsWord _ _ v i jump_middle h = record {
  small = omega (arith, h.small);
  long = omega (arith, h.long);
}
set_bits-IsWord _ _ v i jump_sign h = record {
  small = omega (arith, h.small);
  long = omega (arith, h.long);
}

module _ (v : ℕ) (i : Instruction) (h : IsWord i) where
  pub rtype_set_rd-IsWord : IsWord (Rtype.set_rd v i)
  unfolding Rtype.set_rd
  rtype_set_rd-IsWord = set_bits-IsWord 7 5 v i rd_bits h

  pub rtype_set_funct3-IsWord : IsWord (Rtype.set_funct3 v i)
  unfolding Rtype.set_funct3
  rtype_set_funct3-IsWord = set_bits-IsWord 12 3 v i funct3_bits h

  pub rtype_set_rs1-IsWord : IsWord (Rtype.set_rs1 v i)
  unfolding Rtype.set_rs1
  rtype_set_rs1-IsWord = set_bits-IsWord 15 5 v i rs1_bits h

  pub rtype_set_rs2-IsWord : IsWord (Rtype.set_rs2 v i)
  unfolding Rtype.set_rs2
  rtype_set_rs2-IsWord = set_bits-IsWord 20 5 v i rs2_bits h

  pub rtype_set_funct7-IsWord : IsWord (Rtype.set_funct7 v i)
  unfolding Rtype.set_funct7
  rtype_set_funct7-IsWord = set_bits-IsWord 25 7 v i funct7_bits h

  pub itype_set_rd-IsWord : IsWord (Itype.set_rd v i)
  unfolding Itype.set_rd
  itype_set_rd-IsWord = set_bits-IsWord 7 5 v i rd_bits h

  pub itype_set_funct3-IsWord : IsWord (Itype.set_funct3 v i)
  unfolding Itype.set_funct3
  itype_set_funct3-IsWord = set_bits-IsWord 12 3 v i funct3_bits h

  pub itype_set_rs1-IsWord : IsWord (Itype.set_rs1 v i)
  unfolding Itype.set_rs1
  itype_set_rs1-IsWord = set_bits-IsWord 15 5 v i rs1_bits h

  pub itype_set_imm-IsWord : IsWord (Itype.set_imm v i)
  unfolding Itype.set_imm
  itype_set_imm-IsWord = set_bits-IsWord 20 12 v i imm_bits h

  pub stype_set_imm1-IsWord : IsWord (Stype.set_imm1 v i)
  unfolding Stype.set_imm1
  stype_set_imm1-IsWord = set_bits-IsWord 7 5 v i rd_bits h

  pub stype_set_funct3-IsWord : IsWord (Stype.set_funct3 v i)
  unfolding Stype.set_funct3
  stype_set_funct3-IsWord = set_bits-IsWord 12 3 v i funct3_bits h

  pub stype_set_rs1-IsWord : IsWord (Stype.set_rs1 v i)
  unfolding Stype.set_rs1
  stype_set_rs1-IsWord = set_bits-IsWord 15 5 v i rs1_bits h

  pub stype_set_rs2-IsWord : IsWord (Stype.set_rs2 v i)
  unfolding Stype.set_rs2
  stype_set_rs2-IsWord = set_bits-IsWord 20 5 v i rs2_bits h

  pub stype_set_imm2-IsWord : IsWord (Stype.set_imm2 v i)
  unfolding Stype.set_imm2
  stype_set_imm2-IsWord = set_bits-IsWord 25 7 v i funct7_bits h

  pub utype_set_rd-IsWord : IsWord (Utype.set_rd v i)
  unfolding Utype.set_rd
  utype_set_rd-IsWord = set_bits-IsWord 7 5 v i rd_bits h

  pub utype_set_imm-IsWord : IsWord (Utype.set_imm v i)
  unfolding Utype.set_imm
  utype_set_imm-IsWord = set_bits-IsWord 12 20 v i upper_bits h

  pub btype_set_funct3-IsWord : IsWord (Btype.set_funct3 v i)
  unfolding Btype.set_funct3
  btype_set_funct3-IsWord = set_bits-IsWord 12 3 v i funct3_bits h

  pub btype_set_rs1-IsWord : IsWord (Btype.set_rs1 v i)
  unfolding Btype.set_rs1
  btype_set_rs1-IsWord = set_bits-IsWord 15 5 v i rs1_bits h

  pub btype_set_rs2-IsWord : IsWord (Btype.set_rs2 v i)
  unfolding Btype.set_rs2
  btype_set_rs2-IsWord = set_bits-IsWord 20 5 v i rs2_bits h

  pub jtype_set_rd-IsWord : IsWord (Jtype.set_rd v i)
  unfolding Jtype.set_rd
  jtype_set_rd-IsWord = set_bits-IsWord 7 5 v i rd_bits h

  pub jtype_set_imm1-IsWord : IsWord (Jtype.set_imm1 v i)
  unfolding Jtype.set_imm1
  jtype_set_imm1-IsWord = set_bits-IsWord 12 8 v i jump_middle h

  pub jtype_set_imm2-IsWord : IsWord (Jtype.set_imm2 v i)
  unfolding Jtype.set_imm2
  jtype_set_imm2-IsWord = set_bits-IsWord 20 1 v i jump_11 h

  pub jtype_set_imm3-IsWord : IsWord (Jtype.set_imm3 v i)
  unfolding Jtype.set_imm3
  jtype_set_imm3-IsWord = set_bits-IsWord 21 10 v i jump_low h

  pub jtype_set_imm4-IsWord : IsWord (Jtype.set_imm4 v i)
  unfolding Jtype.set_imm4
  jtype_set_imm4-IsWord = set_bits-IsWord 31 1 v i jump_sign h

-- The opcodes.
pub rv32i_load-IsWord : IsWord rv32i_load
rv32i_load-IsWord = record { small = omega arith; long = refl }

pub rv32i_store-IsWord : IsWord rv32i_store
rv32i_store-IsWord = record { small = omega arith; long = refl }

pub rv32i_branch-IsWord : IsWord rv32i_branch
rv32i_branch-IsWord = record { small = omega arith; long = refl }

pub rv32i_jalr-IsWord : IsWord rv32i_jalr
rv32i_jalr-IsWord = record { small = omega arith; long = refl }

pub rv32i_jal-IsWord : IsWord rv32i_jal
rv32i_jal-IsWord = record { small = omega arith; long = refl }

pub rv32i_op_imm-IsWord : IsWord rv32i_op_imm
rv32i_op_imm-IsWord = record { small = omega arith; long = refl }

pub rv32i_op-IsWord : IsWord rv32i_op
rv32i_op-IsWord = record { small = omega arith; long = refl }

pub rv32i_system-IsWord : IsWord rv32i_system
rv32i_system-IsWord = record { small = omega arith; long = refl }

pub rv32i_lui-IsWord : IsWord rv32i_lui
rv32i_lui-IsWord = record { small = omega arith; long = refl }

pub ruleset word_rules = (
  rtype_set_rd-IsWord, rtype_set_funct3-IsWord, rtype_set_rs1-IsWord, rtype_set_rs2-IsWord,
  rtype_set_funct7-IsWord, itype_set_rd-IsWord, itype_set_funct3-IsWord, itype_set_rs1-IsWord,
  itype_set_imm-IsWord, stype_set_imm1-IsWord, stype_set_funct3-IsWord, stype_set_rs1-IsWord,
  stype_set_rs2-IsWord, stype_set_imm2-IsWord, utype_set_rd-IsWord, utype_set_imm-IsWord,
  btype_set_funct3-IsWord, btype_set_rs1-IsWord, btype_set_rs2-IsWord, jtype_set_rd-IsWord,
  jtype_set_imm1-IsWord, jtype_set_imm2-IsWord, jtype_set_imm3-IsWord, jtype_set_imm4-IsWord,
  rv32i_load-IsWord, rv32i_store-IsWord, rv32i_branch-IsWord, rv32i_jalr-IsWord, rv32i_jal-IsWord,
  rv32i_op_imm-IsWord, rv32i_op-IsWord, rv32i_system-IsWord, rv32i_lui-IsWord,
)
