-- ===== src/Opcodes/Build/Fields.antt =====
-- The fields of the instructions that src/opcodes.cpp builds constants with.
use bigassm.Prelude.{ℕ, ◌/◌, ◌%◌, ◌^◌, ◌≡◌, ◌<◌, arith}
use bigassm.Instr.{Instruction}
use bigassm.Instr.Itype
use bigassm.Instr.Rtype
use bigassm.Instr.Utype
use bigassm.Rv128.{bits_of}
use bigassm.Opcodes.Build.{build_low, build_high, shift_32, add_temp}

-- ADDI of an immediate, to a source.
pub record IsAddi (reg src low : ℕ) (i : Instruction) : Type 0 where
  pub opcode : Itype.opcode i ≡ 0x13
  pub funct3 : Itype.funct3 i ≡ 0
  pub rd : Itype.rd i ≡ reg
  pub rs1 : Itype.rs1 i ≡ src
  pub imm : Itype.imm i ≡ low

pub record IsLui (reg high : ℕ) (i : Instruction) : Type 0 where
  pub opcode : Itype.opcode i ≡ 0x37
  pub rd : Itype.rd i ≡ reg
  pub imm : Utype.imm i ≡ high

module _ (reg value : ℕ) (h : reg < 32) where
  pub build_low-IsAddi : IsAddi reg 0 (value % 4096) (build_low reg value)
  unfolding Itype.set_imm Itype.set_rd Itype.opcode Itype.funct3 Itype.rd Itype.rs1 Itype.imm
  build_low-IsAddi = omega arith

  pub set_rs1-IsAddi : IsAddi reg reg (value % 4096) (Itype.set_rs1 reg (build_low reg value))
  unfolding Itype.set_imm Itype.set_rd Itype.set_rs1 Itype.opcode Itype.funct3 Itype.rd Itype.rs1
      Itype.imm
  set_rs1-IsAddi = omega arith

  pub build_high-IsLui : value < 2 ^ 32 → IsLui reg (value / 4096) (build_high reg value)
  unfolding Itype.opcode Itype.rd Utype.set_imm Utype.set_rd Utype.imm
  build_high-IsLui hv = ground arith

-- SLLI by 32 of a register in place, and ADD of another register to it.
pub record IsShift (reg : ℕ) (i : Instruction) : Type 0 where
  pub opcode : Itype.opcode i ≡ 0x13
  pub funct3 : Itype.funct3 i ≡ 1
  pub rd : Itype.rd i ≡ reg
  pub rs1 : Itype.rs1 i ≡ reg
  pub imm : Itype.imm i ≡ 32

pub record IsAdd (reg src : ℕ) (i : Instruction) : Type 0 where
  pub opcode : Itype.opcode i ≡ 0x33
  pub funct3 : Itype.funct3 i ≡ 0
  pub funct7 : bits_of 25 7 i ≡ 0
  pub rd : Itype.rd i ≡ reg
  pub rs1 : Itype.rs1 i ≡ reg
  pub rs2 : Rtype.rs2 i ≡ src

pub shift_32-IsShift : (reg : ℕ) → reg < 32 → IsShift reg (shift_32 reg)
unfolding Itype.set_imm Itype.set_rd Itype.set_rs1 Itype.set_funct3 Itype.opcode Itype.funct3
    Itype.rd Itype.rs1 Itype.imm
shift_32-IsShift reg h = omega arith

pub add_temp-IsAdd : (reg temp : ℕ) → reg < 32 → temp < 32 → IsAdd reg temp (add_temp reg temp)
unfolding Rtype.set_rd Rtype.set_rs1 Rtype.set_rs2 Itype.opcode Itype.funct3 Itype.rd Itype.rs1
    Rtype.rs2
add_temp-IsAdd reg temp h k = omega arith
