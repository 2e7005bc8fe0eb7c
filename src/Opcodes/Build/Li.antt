-- ===== src/Opcodes/Build/Li.antt =====
-- OP_LI and OP_SET of src/opcodes.cpp from their tokens to the registers.
use bigassm.Prelude.{ℕ, ◌≡◌, ◌≤◌, ◌<◌, ◌%◌, ◌^◌, ◌⊎◌, true, some, List, ◌∷◌, arith}
use bigassm.Prelude.Words.{sext}
use bigassm.Types.{Token, ok, tk_register, tk_constant, i64}
use bigassm.Types.Print.{is_type}
use bigassm.Assembler.{Assembler}
use bigassm.Constants.Termination.{advance}
use bigassm.Constants.Chains.{resolve_constants-single}
use bigassm.Constants.Ahead.{ahead, stops, next_here, drop-suc}
use bigassm.Instr.{Instruction}
use bigassm.Rv128.{Registers, write, run}
use bigassm.Opcodes.Build.{op_li}
use bigassm.Opcodes.Build.Load.{build_uint32-loads}

-- OP_LI on a register of 1 to 31 and a constant that no constant or operator follows takes both
-- tokens and returns code that puts the constant's low 32 bits, sign-extended, into the register,
-- where they are below 0x7FFFF800 or negative.
pub op_li-loads :
    (reg imm : Token) (rest : List Token) (a : Assembler) (pc : ℕ) (r : Registers)
    → ahead a ≡ reg ∷ imm ∷ rest
    → is_type reg.type tk_register ≡ true
    → is_type imm.type tk_constant ≡ true
    → stops rest ≡ true
    → i64 reg < 32
    → 0 < i64 reg
    → (i64 imm % 2 ^ 32 < 0x7FFFF800) ⊎ (0x80000000 ≤ i64 imm % 2 ^ 32)
    → (code : List Instruction) × (op_li a ≡ ok (code, advance (advance a)))
      × (run pc code r ≡ some (write (i64 reg) (sext 32 128 (i64 imm % 2 ^ 32)) r))
unfolding op_li
op_li-loads reg imm rest a pc r h rt ct e hr h₀ range =
    let (code, built, ran) =
      build_uint32-loads (i64 reg) (i64 imm % 2 ^ 32) pc r (advance (advance a)) hr h₀ (omega arith)
        range in
    (
      code,
      rw
          (
            next_here a h tk_register rt,
            resolve_constants-single imm rest (advance a) (drop-suc a.index a.tokens h) ct e,
          )
          built,
      ran,
    )
