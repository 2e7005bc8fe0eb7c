-- ===== src/Tests/Loading.antt =====
-- The sequences of src/opcodes.cpp for constants, run from registers that are all zero, and the
-- instructions of its helpers for loads, stores and arithmetic.
use bigassm.Prelude.{
  ◌↔◌, ◌≤◌, ◌<◌, codes, find, bytes_eq, ◌/◌, ◌%◌, ◌^◌, ◌*◌, ◌-◌, ◌≡◌, refl, inl, inr, some, List,
  [], ◌∷◌, codes, arith,
}
use bigassm.Prelude.Words.{sext}
use bigassm.Types.{op_add, op_lw, op_sq, ok, err, undefined, token_exception, i64}
use bigassm.Types.Print.{is_type}
use bigassm.Assembler.{Assembler}
use bigassm.Constants.Termination.{advance}
use bigassm.Instr.{Instruction}
use bigassm.Instr.Itype
use bigassm.Instr.Rtype
use bigassm.Instr.Stype
use bigassm.Rv128.{Registers, write, run}
use bigassm.Opcodes.Build.{build_uint32, build_set, op_li}
use bigassm.Opcodes.Build.Load.{build_uint32-loads, build_uint32-undefined}
use bigassm.Opcodes.Build.Set.{build_set-loads}
use bigassm.Opcodes.Build.Li.{op_li-loads}
use bigassm.Opcodes.Memory.Loads.{word, load-encodes}
use bigassm.Opcodes.Arithmetic.{op_imm_constant}
use bigassm.Opcodes.Arithmetic.Immediates.{op_imm_constant-encodes, op_imm_constant-refuses}
use bigassm.Opcodes.Memory.Stores.{quad, store-encodes}
use bigassm.Opcodes.Words.{AreWords, handler-AreWords}
use bigassm.Opcodes.Handlers.{handler}
use bigassm.Tests.Samples.{text_with, data_with, sample, constant, register}

abbrev zeros : Registers
zeros n = 0

abbrev any_state : Assembler
any_state = sample [] (text_with [] []) (data_with [])

-- `li a0, 0x12345FFF`
build_uint32-loads_example :
    (code : List Instruction) × (build_uint32 [] 10 0x12345FFF any_state ≡ ok (code, any_state))
    × (run 0x100000 code zeros ≡ some (write 10 (sext 32 128 0x12345FFF) zeros))
build_uint32-loads_example =
    build_uint32-loads 10 0x12345FFF 0x100000 zeros any_state (omega arith) (omega arith)
      (omega arith) (inl (omega arith))

build_uint32-undefined_example :
    (build_uint32 [] 10 0x7FFFFFFF any_state ≡ err undefined)
    ↔ ((0x7FFFF800 ≤ 0x7FFFFFFF) × (0x7FFFFFFF < 0x80000000))
build_uint32-undefined_example =
    build_uint32-undefined [] 10 0x7FFFFFFF any_state (omega arith) (omega arith)

-- `set a0, a1, 0x11223344556677000111222233334444`
build_set-loads_example :
    (code : List Instruction) × (build_set 10 11 0x11223344556677000111222233334444 any_state
      ≡ ok (code, any_state))
    × (run 0x100000 code zeros
        ≡ some (
            write 10 0x11223344556677000111222233334444
              (write 11 (0x11223344556677000111222233334444 % 2 ^ 32) zeros)))
build_set-loads_example =
    build_set-loads 10 11 0x11223344556677000111222233334444 0x100000 zeros any_state (omega arith)
      (omega arith) (omega arith) (omega arith) (λ e. absurd (omega (arith, e))) (omega arith)
      (omega arith) (omega arith) (omega arith) (omega arith) (inl (omega arith))

-- `li a0, 666`
abbrev li_state : Assembler
li_state = sample (register 10 ∷ constant 666 ∷ register 11 ∷ []) (text_with [] []) (data_with [])

op_li-loads_example :
    (code : List Instruction) × (op_li li_state ≡ ok (code, advance (advance li_state)))
    × (run 0x100000 code zeros ≡ some (write 10 (sext 32 128 666) zeros))
unfolding is_type i64
op_li-loads_example =
    op_li-loads (register 10) (constant 666) (register 11 ∷ []) li_state 0x100000 zeros refl refl
      refl refl (omega arith) (omega arith) (inl (omega arith))

-- `sq sp, a0, -8`
abbrev store_state : Assembler
store_state =
    sample (register 2 ∷ register 10 ∷ constant (2 ^ 64 - 8) ∷ []) (text_with [] []) (data_with [])

store-encodes_example :
    (i : Instruction) × (handler op_sq store_state
      ≡ ok (i ∷ [], advance (advance (advance store_state))))
    × (i % 2 ^ 7 ≡ 0x23)
    × (8 * 2 ^ (i / 2 ^ 12 % 2 ^ 3) ≡ 128)
    × (i / 2 ^ 15 % 2 ^ 5 ≡ 2)
    × (i / 2 ^ 20 % 2 ^ 5 ≡ 10)
    × (Stype.signed_imm i ≡ sext 12 32 (2 ^ 64 - 8))
unfolding is_type i64
store-encodes_example =
    store-encodes op_sq 128 (register 2) (register 10) (constant (2 ^ 64 - 8)) [] store_state quad
      refl refl refl refl refl (omega arith) (omega arith)

-- `add a0, 5`
abbrev add_state : Assembler
add_state = sample (register 10 ∷ constant 5 ∷ []) (text_with [] []) (data_with [])

handler-AreWords_example : AreWords (0x00550513 ∷ [])
unfolding find bytes_eq handler
handler-AreWords_example =
    handler-AreWords (codes "add") (op_add 0b0010011) add_state (advance (advance add_state)) _ refl
      refl

-- `lw a0, -8, sp`
abbrev load_state : Assembler
load_state =
    sample (register 10 ∷ constant (2 ^ 64 - 8) ∷ register 2 ∷ []) (text_with [] []) (data_with [])

load-encodes_example :
    (i : Instruction) × (handler op_lw load_state
      ≡ ok (i ∷ [], advance (advance (advance load_state))))
    × (Itype.opcode i ≡ 0x03)
    × (Itype.funct3 i ≡ 2)
    × (Itype.rd i ≡ 10)
    × (Itype.rs1 i ≡ 2)
    × (Itype.signed_imm i ≡ sext 12 32 (2 ^ 64 - 8))
unfolding is_type i64
load-encodes_example =
    load-encodes op_lw 2 (register 10) (constant (2 ^ 64 - 8)) (register 2) [] load_state word refl
      refl refl refl (omega arith) (omega arith)

-- `sub a0, a1, a2`
abbrev sub_state : Assembler
sub_state = sample (register 10 ∷ register 11 ∷ register 12 ∷ []) (text_with [] []) (data_with [])

-- The constants of `add sp, -16` and `add sp, 4000`.
abbrev small_state : Assembler
small_state = sample (constant (2 ^ 64 - 16) ∷ []) (text_with [] []) (data_with [])

abbrev large_state : Assembler
large_state = sample (constant 4000 ∷ []) (text_with [] []) (data_with [])

op_imm_constant-encodes_example :
    (i : Instruction) × (op_imm_constant 0x13 0 2 small_state ≡ ok (i, advance small_state))
    × (Itype.opcode i ≡ 0x13)
    × (Itype.funct3 i ≡ 0)
    × (Itype.rd i ≡ 2)
    × (Itype.rs1 i ≡ 2)
    × (Itype.signed_imm i ≡ 2 ^ 32 - 16)
unfolding is_type i64
op_imm_constant-encodes_example =
    op_imm_constant-encodes 0x13 0 2 (constant (2 ^ 64 - 16)) [] small_state refl refl refl
      (omega arith) (omega arith) (omega arith) (inr (omega arith))

op_imm_constant-refuses_example :
    op_imm_constant 0x13 0 2 large_state
    ≡ err (token_exception (constant 4000) (codes "Out of bounds immediate value"))
unfolding is_type i64
op_imm_constant-refuses_example =
    op_imm_constant-refuses 0x13 0 2 (constant 4000) [] large_state refl refl refl (omega arith)
      (omega arith)
