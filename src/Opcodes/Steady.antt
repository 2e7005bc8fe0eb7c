-- ===== src/Opcodes/Steady.antt =====
-- The handlers of src/opcodes.cpp: each changes the state in steps, or throws.
use bigassm.Prelude.{ℕ, zero, suc, ◌+◌, ◌≤◌, inl, inr, Bool-cases, length, arith}
use bigassm.Types.{Token, Opcode, op_nop, tk_constant, Result}
use bigassm.Assembler.{Assembler, Asm, SymbolLocation, Scheduled, and_then, next, int_sum}
use bigassm.Assembler.Steps.{stay, step_on, take_token}
use bigassm.Assembler.Steady.{
  Steady, Moves, moved, thrown, genuine, Moves-trans, bind-Moves, monad_rules,
}
use bigassm.Assembler.Methods.{
  next_token-Steady, next-Steady, argument_mismatch-Steady, current_location-Steady,
  schedule-Steady,
}
use bigassm.Instr.{Instruction}
use bigassm.Constants.{Chain, chain_more, chain_step, chain_loop, resolve_constants}
use bigassm.Constants.Termination.{
  advance, LeavesAt, leaves, throws, chain_step-LeavesAt, chain_more-before,
}
use bigassm.Opcodes.Build
use bigassm.Opcodes.Memory.{with_constant, load_helper, store_helper}
use bigassm.Opcodes.Jumps
use bigassm.Opcodes.Jumps.{schedule_here, branch_helper, call_operand, with_register, laq_words}
use bigassm.Opcodes.Arithmetic
use bigassm.Opcodes.Arithmetic.{
  set_sources, op_imm_constant, op_imm_register, op_imm_helper, op_f7_helper,
}
use bigassm.Opcodes.Handlers.{handler}

-- A call that takes one token, and what follows it.
step-Moves {ℓ κ} :
    {A : Type ℓ} {B : Type κ} (a : Assembler) (r : Result (A × Assembler)) (f : A → Asm B)
    → LeavesAt (advance a) r
    → ((x : A) → Moves (advance a) (f x (advance a)))
    → Moves a (and_then r f)
step-Moves a _ f (leaves x) k =
    Moves-trans a (advance a) (f x (advance a)) (step_on stay take_token) (k x)
step-Moves a _ f (throws e g) k = thrown (genuine e g)

chain_loop-Moves :
    (fuel : ℕ) (c : Chain) (a : Assembler)
    → length a.tokens ≤ fuel + a.index
    → Moves a (chain_loop fuel c a)
unfolding chain_loop
chain_loop-Moves zero c a h = elim (Bool-cases (chain_more a)) [
  | inl e ↦ absurd (omega (arith, chain_more-before a e))
  | inr e ↦ rw (chain_loop, e) (moved c.sum a stay)
]
chain_loop-Moves (suc fuel) c a h = elim (Bool-cases (chain_more a)) [
  | inl e ↦
      rw (chain_loop, e)
        (step-Moves a (chain_step c a) (chain_loop fuel) (chain_step-LeavesAt c a)
          λ c'. chain_loop-Moves fuel c' (advance a) (omega arith))
  | inr e ↦ rw (chain_loop, e) (moved c.sum a stay)
]

resolve_constants-Steady : Steady resolve_constants
unfolding resolve_constants
resolve_constants-Steady = record {
  at = λ a.
      bind-Moves a (next tk_constant a) _ ((next-Steady tk_constant).at a)
        λ imm. record { at = λ b. chain_loop-Moves (length b.tokens) _ b (omega arith) };
}

ruleset steps = (
  monad_rules, next_token-Steady, next-Steady, argument_mismatch-Steady, resolve_constants-Steady,
)

with_constant-Steady :
    (f : ℕ → Instruction → Instruction) (i : Instruction) → Steady (with_constant f i)
unfolding with_constant
with_constant-Steady f i = search steps

load_helper-Steady : (f3 : ℕ) → Steady (load_helper f3)
unfolding load_helper
load_helper-Steady f3 = search (steps, with_constant-Steady) depth 8

store_helper-Steady : (f3 : ℕ) → Steady (store_helper f3)
unfolding store_helper
store_helper-Steady f3 = search (steps, with_constant-Steady) depth 8

schedule_here-Steady :
    (lbl : Token) (op : SymbolLocation → Scheduled) → Steady (schedule_here lbl op)
unfolding schedule_here
schedule_here-Steady lbl op = search (steps, current_location-Steady, schedule-Steady)

branch_helper-Steady : (f3 : ℕ) → Steady (branch_helper f3)
unfolding branch_helper
branch_helper-Steady f3 = search (steps, schedule_here-Steady) depth 8

call_operand-Steady : (i : Instruction) → Steady (call_operand i)
unfolding call_operand
call_operand-Steady i = search (steps, schedule_here-Steady) depth 8

with_register-Steady :
    (f : ℕ → Instruction → Instruction) (i : Instruction) → Steady (with_register f i)
unfolding with_register
with_register-Steady f i = search steps depth 8

set_sources-Steady : (reg reg2 : ℕ) (i : Instruction) → Steady (set_sources reg reg2 i)
unfolding set_sources
set_sources-Steady reg reg2 i = search steps depth 8

op_imm_constant-Steady : (opcode f3 reg : ℕ) → Steady (op_imm_constant opcode f3 reg)
unfolding op_imm_constant
op_imm_constant-Steady opcode f3 reg = search steps depth 8

op_imm_register-Steady : (opcode f3 reg : ℕ) → Steady (op_imm_register opcode f3 reg)
unfolding op_imm_register
op_imm_register-Steady opcode f3 reg = search (steps, set_sources-Steady) depth 8

op_imm_helper-Steady : (opcode f3 : ℕ) → Steady (op_imm_helper opcode f3)
unfolding op_imm_helper
op_imm_helper-Steady opcode f3 =
    search (steps, op_imm_constant-Steady, op_imm_register-Steady) depth 8

op_f7_helper-Steady : (opcode f3 f7 : ℕ) → Steady (op_f7_helper opcode f3 f7)
unfolding op_f7_helper
op_f7_helper-Steady opcode f3 f7 = search (steps, set_sources-Steady) depth 8

int_sum-Steady : (value imm : ℕ) → Steady (int_sum value imm)
unfolding int_sum
int_sum-Steady value imm = search steps depth 8

build_uint32-Steady :
    (res : Build.InstructionList) (reg value : ℕ) → Steady (Build.build_uint32 res reg value)
unfolding Build.build_uint32
build_uint32-Steady res reg value = search (steps, int_sum-Steady) depth 8

set_word-Steady :
    (dst temp imm : ℕ) (r : Build.InstructionList × ℕ) → Steady (Build.set_word dst temp imm r)
unfolding Build.set_word
set_word-Steady dst temp imm r = search (steps, build_uint32-Steady) depth 8

build_set-Steady : (dst temp imm : ℕ) → Steady (Build.build_set dst temp imm)
unfolding Build.build_set
build_set-Steady dst temp imm = search (steps, build_uint32-Steady, set_word-Steady) depth 12

laq_words-Steady :
    (n dst temp : ℕ) (res : Build.InstructionList) → Steady (laq_words n dst temp res)
unfolding laq_words
laq_words-Steady zero dst temp res = search steps
laq_words-Steady (suc n) dst temp res =
    search (steps, build_uint32-Steady, laq_words-Steady n dst temp) depth 8

ruleset helpers = (
  steps, build_uint32-Steady, build_set-Steady, laq_words-Steady, load_helper-Steady,
  store_helper-Steady, schedule_here-Steady, branch_helper-Steady, call_operand-Steady,
  with_register-Steady, op_imm_helper-Steady, op_f7_helper-Steady,
)

-- Every handler.
pub handler-Steady : (o : Opcode) → Steady (handler o)
unfolding handler Build.op_nop Build.op_li Build.op_set Jumps.op_la Jumps.op_laq Jumps.op_farcall
    Jumps.op_call Jumps.op_jalr Jumps.op_ret Jumps.op_jmp Arithmetic.op_mov Arithmetic.op_inc
    Arithmetic.op_syscall Arithmetic.op_ecall Arithmetic.op_ebreak Arithmetic.op_wfi
    Arithmetic.op_system
handler-Steady op_nop = search helpers
handler-Steady _ = search helpers depth 9
