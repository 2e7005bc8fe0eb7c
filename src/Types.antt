-- ===== src/Types.antt =====
-- src/types.hpp and src/token.cpp: tokens; the opcodes and pseudo-ops that a token points to (the
-- static objects of src/opcodes.cpp and src/pseudo_ops.cpp); errors as values.
pub mod Print
use bigassm.Prelude.{ℕ, zero, suc, ◌-◌, ◌*◌, ◌/◌, ◌%◌, ◌^◌, ◌+◌, Bytes, []}

pub data TokenType : Type 0 where
  tk_directive tk_label tk_string tk_symbol tk_opcode tk_pseudoop tk_register : TokenType
  tk_constant tk_operator tk_unspec : TokenType

-- The `static struct Opcode` objects. The templates `OP_ADD<Opcode>` take their opcode.
pub data Opcode : Type 0 where
  op_nop op_li op_set op_la op_laq op_mov : Opcode
  op_lb op_lh op_lw op_ld op_lq op_lbu op_lhu op_lwu op_ldu : Opcode
  op_sb op_sh op_sw op_sd op_sq : Opcode
  op_beq op_bne op_blt op_bge op_bltu op_bgeu : Opcode
  op_farcall op_call op_jalr op_ret op_jmp op_inc : Opcode
  op_add op_sll op_slt op_sltu op_srl op_and op_or op_xor : ℕ → Opcode
  op_sub op_mul op_div op_divu op_rem op_remu : ℕ → Opcode
  op_syscall op_ecall op_ebreak op_wfi op_system : Opcode

-- The `static PseudoOp` objects.
pub data PseudoOp : Type 0 where
  data_8 data_16 data_32 data_64 data_128 : PseudoOp
  resv_8 resv_16 resv_32 resv_64 resv_128 : PseudoOp
  incbin : PseudoOp

-- The union of a token: its 16 bytes as a number, or a pointer to a static object.
pub data Payload : Type 0 where
  bits : ℕ → Payload
  opcode : Opcode → Payload
  pseudoop : PseudoOp → Payload

pub record Token : Type 0 where
  pub type : TokenType
  pub line : ℕ
  pub value : Bytes
  pub payload : Payload

pub record RawToken : Type 0 where
  pub name : Bytes
  pub line : ℕ

-- `Token(TokenType tt = TK_UNSPEC, uint32_t ln = 0)`: the union starts as zero
unfoldable pub new_token : TokenType → Token
new_token tt = record { type = tt; line = 0; value = []; payload = bits 0 }

-- The union read as a number. No code reads a pointer so.
abbrev pub number : Payload → ℕ
number (bits n) = n
number (opcode o) = 0
number (pseudoop p) = 0

unfoldable pub u128 : Token → ℕ
u128 t = number t.payload % 2 ^ 128

unfoldable pub u64 : Token → ℕ
u64 t = number t.payload % 2 ^ 64

-- The signed member has the bits of the unsigned one.
unfoldable pub i64 : Token → ℕ
unfolding u64
i64 t = u64 t

-- `t.u128 = x`
unfoldable pub set_u128 : ℕ → Token → Token
set_u128 x t = record t { payload = bits (x % 2 ^ 128) }

-- `t.u64 = x` and `t.i64 = x` write the low eight bytes of the union.
unfoldable pub set_u64 : ℕ → Token → Token
unfolding u128
set_u64 x t = record t { payload = bits (x % 2 ^ 64 + u128 t / 2 ^ 64 * 2 ^ 64) }

-- What the code throws, and what it has no answer for.
pub data Error : Type 0 where
  -- `std::out_of_range`, of `vector::at` and of `std::stoull`
  out_of_range : Error
  -- `std::invalid_argument`, of `std::stoull`
  invalid_argument : Error
  -- `token_exception(tk, info)`
  token_exception : Token → Bytes → Error
  -- `std::runtime_error(what)`
  runtime_error : Bytes → Error
  -- a failed `assert`, a division by zero, undefined behaviour
  assertion division_by_zero undefined : Error
  -- the model's fuel ran out
  out_of_fuel : Error

pub data Result {ℓ} (A : Type ℓ) : Type ℓ where
  err : Error → Result A
  ok : A → Result A

infixl 5 ◌>>=◌
abbrev pub ◌>>=◌ {ℓ κ} : {A : Type ℓ} {B : Type κ} → Result A → (A → Result B) → Result B
err why >>= rest = err why
ok value >>= rest = rest value

infixl 5 ◌>>◌
abbrev pub ◌>>◌ {ℓ} : {B : Type ℓ} → Result (Unit {0}) → Result B → Result B
first >> rest = first >>= λ done. rest
