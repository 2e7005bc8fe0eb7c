-- ===== src/Opcodes/Words.antt =====
-- What the handlers of src/opcodes.cpp return: instructions of 32 bits, which
-- `rv32i_instruction::length` of src/rv32i_instr.hpp gives four bytes.
use bigassm.Prelude.{
  ltb, ltb→lt, ◌&&◌, ◌==◌, ==_iff, every, every-find, and-true, ℕ, zero, suc, ◌%◌, ◌≡◌, refl, Bool,
  true, false, Bytes, find, some, [], ◌∷◌, ◌++◌, arith, if◌then◌else◌,
}
use bigassm.Types.{
  ok, Opcode, op_add, op_sll, op_slt, op_sltu, op_srl, op_and, op_or, op_xor, op_sub, op_mul,
  op_div, op_divu, op_rem, op_remu,
}
use bigassm.Assembler.{Assembler, Asm, ◌>>=◌, int_sum}
use bigassm.Assembler.Yields.{
  Yields, pure-Yields, throw-Yields, bind-Yields, after-Yields, then-Yields, if-Yields,
}
use bigassm.Instr.{Instruction}
use bigassm.Instr.Rtype
use bigassm.Instr.Words.{IsWord, word_rules}
use bigassm.Patch.{set_jump}
use bigassm.Opcodes.Handlers.{handler}
use bigassm.Opcodes.Table.{opcode_list}
use bigassm.Opcodes.Build
use bigassm.Opcodes.Build.{
  InstructionList, build_low, build_high, build_uint32, set_word, build_set,
}
use bigassm.Opcodes.Memory.{with_constant, load_helper, set_store_imm, store_helper}
use bigassm.Opcodes.Jumps
use bigassm.Opcodes.Jumps.{branch_helper, call_operand, with_register, laq_words}
use bigassm.Opcodes.Arithmetic
use bigassm.Opcodes.Arithmetic.{
  set_sources, register_opcode, op_imm_constant, op_imm_register, op_imm_helper, op_f7_helper,
}

pub data AreWords : InstructionList → Type 0 where
  no_word : AreWords []
  more_words : {i : Instruction} {il : InstructionList} → IsWord i → AreWords il → AreWords (i ∷ il)

append-AreWords : (il jl : InstructionList) → AreWords il → AreWords jl → AreWords (il ++ jl)
append-AreWords [] jl p q = q
append-AreWords (i ∷ il) jl (more_words w p) q = more_words w (append-AreWords il jl p q)

if-AreWords :
    (t : Bool) (il jl : InstructionList)
    → AreWords il
    → AreWords jl
    → AreWords (if t then il else jl)
if-AreWords true il jl p q = p
if-AreWords false il jl p q = q

-- A step that returns an instruction, and what follows it.
list-Yields :
    {P : InstructionList → Type 0} (m : Asm Instruction) (f : Instruction → Asm InstructionList)
    → Yields IsWord m
    → ((i : Instruction) → IsWord i → Yields P (f i))
    → Yields P (m >>= f)
list-Yields m f q k = bind-Yields m f q k

ruleset words = (
  list-Yields, pure-Yields, throw-Yields, after-Yields, then-Yields, if-Yields, no_word, more_words,
  word_rules,
)

build_uint32-AreWords :
    (res : InstructionList) (reg value : ℕ)
    → AreWords res
    → Yields AreWords (build_uint32 res reg value)
unfolding build_uint32
build_uint32-AreWords res reg value p =
    after-Yields (int_sum value _) _
      λ sum. pure-Yields _ (search (words, append-AreWords, if-AreWords) depth 12)

with_constant-IsWord :
    (f : ℕ → Instruction → Instruction) (i : Instruction)
    → IsWord i
    → ((v : ℕ) (j : Instruction) → IsWord j → IsWord (f v j))
    → Yields IsWord (with_constant f i)
unfolding with_constant
with_constant-IsWord f i w k = search words depth 8

load_helper-AreWords : (f3 : ℕ) → Yields AreWords (load_helper f3)
unfolding load_helper
load_helper-AreWords f3 = search (words, with_constant-IsWord) depth 12

set_store_imm-IsWord : (imm : ℕ) (i : Instruction) → IsWord i → IsWord (set_store_imm imm i)
unfolding set_store_imm
set_store_imm-IsWord imm i w = search words

store_helper-AreWords : (f3 : ℕ) → Yields AreWords (store_helper f3)
unfolding store_helper
store_helper-AreWords f3 = search (words, with_constant-IsWord, set_store_imm-IsWord) depth 12

branch_helper-AreWords : (f3 : ℕ) → Yields AreWords (branch_helper f3)
unfolding branch_helper
branch_helper-AreWords f3 = search words depth 12

with_register-IsWord :
    (f : ℕ → Instruction → Instruction) (i : Instruction)
    → IsWord i
    → ((v : ℕ) (j : Instruction) → IsWord j → IsWord (f v j))
    → Yields IsWord (with_register f i)
unfolding with_register
with_register-IsWord f i w k = search words depth 8

set_jump-IsWord : (diff : ℕ) (i : Instruction) → IsWord i → IsWord (set_jump diff i)
unfolding set_jump
set_jump-IsWord diff i w = search words

call_operand-IsWord : (i : Instruction) → IsWord i → Yields IsWord (call_operand i)
unfolding call_operand
call_operand-IsWord i w = search (words, set_jump-IsWord) depth 8

set_sources-IsWord :
    (reg reg2 : ℕ) (i : Instruction) → IsWord i → Yields IsWord (set_sources reg reg2 i)
unfolding set_sources
set_sources-IsWord reg reg2 i w = search words depth 8

op_imm_constant-IsWord :
    (opcode f3 reg : ℕ) → IsWord opcode → Yields IsWord (op_imm_constant opcode f3 reg)
unfolding op_imm_constant
op_imm_constant-IsWord opcode f3 reg w = search words depth 8

-- The opcode of the register form is that of an instruction of 32 bits, whatever it is made of.
register_opcode-IsWord :
    (opcode : ℕ) → IsWord opcode → IsWord (Rtype.set_opcode (register_opcode opcode) opcode)
unfolding register_opcode Rtype.set_opcode
register_opcode-IsWord opcode w = record {
  small = ground (arith, w.small);
  long = ground (arith, w.long);
}

op_imm_register-IsWord :
    (opcode f3 reg : ℕ) → IsWord opcode → Yields IsWord (op_imm_register opcode f3 reg)
unfolding op_imm_register
op_imm_register-IsWord opcode f3 reg w =
    search (words, set_sources-IsWord, register_opcode-IsWord) depth 10

op_imm_helper-AreWords : (opcode f3 : ℕ) → IsWord opcode → Yields AreWords (op_imm_helper opcode f3)
unfolding op_imm_helper
op_imm_helper-AreWords opcode f3 w =
    search (words, op_imm_constant-IsWord, op_imm_register-IsWord) depth 10

op_f7_helper-AreWords :
    (opcode f3 f7 : ℕ) → IsWord opcode → Yields AreWords (op_f7_helper opcode f3 f7)
unfolding op_f7_helper
op_f7_helper-AreWords opcode f3 f7 w = search (words, set_sources-IsWord) depth 12

-- The instructions of a round of OP_SET's loop, then of all of its code.
abbrev FirstAreWords : InstructionList × ℕ → Type 0
FirstAreWords (il, n) = AreWords il

set_word-AreWords :
    (dst temp imm : ℕ) (r : InstructionList × ℕ)
    → FirstAreWords r
    → Yields FirstAreWords (set_word dst temp imm r)
unfolding set_word
set_word-AreWords dst temp imm (res, n) p =
    bind-Yields (build_uint32 res temp imm) _ (build_uint32-AreWords res temp imm p)
      λ il q. pure-Yields _ (search (words, append-AreWords, if-AreWords) depth 12)

-- Each of the two, and what follows it.
built-Yields :
    (m : Asm InstructionList) (f : InstructionList → Asm InstructionList)
    → Yields AreWords m
    → ((il : InstructionList) → AreWords il → Yields AreWords (f il))
    → Yields AreWords (m >>= f)
built-Yields m f q k = bind-Yields m f q k

round-Yields :
    (m : Asm (InstructionList × ℕ)) (f : InstructionList × ℕ → Asm InstructionList)
    → Yields FirstAreWords m
    → ((r : InstructionList × ℕ) → FirstAreWords r → Yields AreWords (f r))
    → Yields AreWords (m >>= f)
round-Yields m f q k = bind-Yields m f q k

build_set-AreWords : (dst temp imm : ℕ) → Yields AreWords (build_set dst temp imm)
unfolding build_set
build_set-AreWords dst temp imm =
    search
      (
        pure-Yields, no_word, if-Yields, build_uint32-AreWords, set_word-AreWords, built-Yields,
        round-Yields,
      )
      depth 12

laq_words-AreWords :
    (n dst temp : ℕ) (res : InstructionList)
    → AreWords res
    → Yields AreWords (laq_words n dst temp res)
unfolding laq_words
laq_words-AreWords zero dst temp res p = pure-Yields res p
laq_words-AreWords (suc n) dst temp res p =
    bind-Yields (build_uint32 res temp 0x7FFFFFFF) _ (build_uint32-AreWords res temp 0x7FFFFFFF p)
      λ il q. laq_words-AreWords n dst temp _ (append-AreWords il _ q (search words depth 8))

abbrev is_opcode : ℕ → Bool
is_opcode opcode = ltb opcode 128 && opcode % 4 == 3

is_opcode-IsWord : (opcode : ℕ) → is_opcode opcode ≡ true → IsWord opcode
is_opcode-IsWord opcode e =
    let (small, long) = and-true e in
    let lt = ltb→lt opcode 128 small in
    record { small = omega (arith, lt); long = (==_iff (opcode % 4) 3).0 long }

-- The opcode that a template of src/opcodes.cpp is given is that of an instruction of 32 bits.
abbrev has_opcode : Opcode → Bool
has_opcode (op_add opcode) = is_opcode opcode
has_opcode (op_sll opcode) = is_opcode opcode
has_opcode (op_slt opcode) = is_opcode opcode
has_opcode (op_sltu opcode) = is_opcode opcode
has_opcode (op_srl opcode) = is_opcode opcode
has_opcode (op_and opcode) = is_opcode opcode
has_opcode (op_or opcode) = is_opcode opcode
has_opcode (op_xor opcode) = is_opcode opcode
has_opcode (op_sub opcode) = is_opcode opcode
has_opcode (op_mul opcode) = is_opcode opcode
has_opcode (op_div opcode) = is_opcode opcode
has_opcode (op_divu opcode) = is_opcode opcode
has_opcode (op_rem opcode) = is_opcode opcode
has_opcode (op_remu opcode) = is_opcode opcode
has_opcode _ = true

ruleset helpers = (
  words, load_helper-AreWords, store_helper-AreWords, branch_helper-AreWords, with_register-IsWord,
  call_operand-IsWord, built-Yields, build_uint32-AreWords, build_set-AreWords, laq_words-AreWords,
)

handler-Yields : (o : Opcode) → has_opcode o ≡ true → Yields AreWords (handler o)
unfolding handler Build.op_nop Build.op_li Build.op_set Jumps.op_la Jumps.op_laq Jumps.op_farcall
    Jumps.op_call Jumps.op_jalr Jumps.op_ret Jumps.op_jmp Arithmetic.op_mov Arithmetic.op_inc
    Arithmetic.op_syscall Arithmetic.op_ecall Arithmetic.op_ebreak Arithmetic.op_wfi
    Arithmetic.op_system
handler-Yields (op_add opcode) e = op_imm_helper-AreWords opcode 0 (is_opcode-IsWord opcode e)
handler-Yields (op_sll opcode) e = op_imm_helper-AreWords opcode 1 (is_opcode-IsWord opcode e)
handler-Yields (op_slt opcode) e = op_imm_helper-AreWords opcode 2 (is_opcode-IsWord opcode e)
handler-Yields (op_sltu opcode) e = op_imm_helper-AreWords opcode 3 (is_opcode-IsWord opcode e)
handler-Yields (op_srl opcode) e = op_imm_helper-AreWords opcode 5 (is_opcode-IsWord opcode e)
handler-Yields (op_and opcode) e = op_imm_helper-AreWords opcode 7 (is_opcode-IsWord opcode e)
handler-Yields (op_or opcode) e = op_imm_helper-AreWords opcode 6 (is_opcode-IsWord opcode e)
handler-Yields (op_xor opcode) e = op_imm_helper-AreWords opcode 4 (is_opcode-IsWord opcode e)
handler-Yields (op_sub opcode) e = op_f7_helper-AreWords opcode 0 32 (is_opcode-IsWord opcode e)
handler-Yields (op_mul opcode) e = op_f7_helper-AreWords opcode 0 1 (is_opcode-IsWord opcode e)
handler-Yields (op_div opcode) e = op_f7_helper-AreWords opcode 4 1 (is_opcode-IsWord opcode e)
handler-Yields (op_divu opcode) e = op_f7_helper-AreWords opcode 5 1 (is_opcode-IsWord opcode e)
handler-Yields (op_rem opcode) e = op_f7_helper-AreWords opcode 6 1 (is_opcode-IsWord opcode e)
handler-Yields (op_remu opcode) e = op_f7_helper-AreWords opcode 7 1 (is_opcode-IsWord opcode e)
handler-Yields _ e = search helpers depth 12

entries : every (λ name o. has_opcode o) opcode_list ≡ true
entries = refl

-- Every name of the opcode table: where its handler returns, it returns instructions of 32 bits,
-- with the two low bits that are those of no shorter one.
pub handler-AreWords :
    (name : Bytes) (o : Opcode) (a b : Assembler) (il : InstructionList)
    → find name opcode_list ≡ some o
    → handler o a ≡ ok (il, b)
    → AreWords il
handler-AreWords name o a b il h e =
    (handler-Yields o (every-find (λ name o. has_opcode o) opcode_list entries h)).at a b il e
