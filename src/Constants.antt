-- ===== src/Constants.antt =====
-- src/assemble.cpp: `Assembler::resolve_constants`, a constant with the chain behind it.
pub mod Termination
pub mod Ahead
pub mod Chains
pub mod Operators
use bigassm.Prelude.{
  ℕ, zero, suc, ◌+◌, ◌-◌, ◌*◌, ◌/◌, ◌%◌, ◌^◌, bit_and, bit_or, bit_xor, Bool, true, false, not,
  ◌||◌, codes, length, bytes_eq, ltb, ◌==◌, if◌then◌else◌, ◌++◌,
}
use bigassm.Types.{
  Token, u128, set_u128, tk_constant, tk_operator, token_exception, division_by_zero, undefined,
  out_of_fuel,
}
use bigassm.Assembler.{Assembler, Asm, pure, throw, get, ◌>>=◌, next, next_is}

-- The local enumeration; the operator that the loop has seen.
pub data ConstantOp : Type 0 where
  none add sub mul div shr shl mod' and or xor : ConstantOp

-- The first switch. Division by zero traps; a shift by 128 or more is undefined.
unfoldable pub apply_op : ConstantOp → Token → ℕ → ℕ → Asm ℕ
apply_op none tk sum value = throw (token_exception tk (codes "Unexpected constant"))
apply_op add tk sum value = pure ((sum + value) % 2 ^ 128)
apply_op sub tk sum value = pure ((sum + 2 ^ 128 - value) % 2 ^ 128)
apply_op mul tk sum value = pure (sum * value % 2 ^ 128)
apply_op div tk sum value = if value == 0 then throw division_by_zero else pure (sum / value)
apply_op shr tk sum value = if ltb value 128 then pure (sum / 2 ^ value) else throw undefined
apply_op shl tk sum value =
    if ltb value 128 then pure (sum * 2 ^ value % 2 ^ 128) else throw undefined
apply_op mod' tk sum value = if value == 0 then throw division_by_zero else pure (sum % value)
apply_op and tk sum value = pure (bit_and sum value)
apply_op or tk sum value = pure (bit_or sum value)
apply_op xor tk sum value = pure (bit_xor sum value)

-- The ladder that reads an operator other than `~`.
unfoldable pub read_op : Token → Asm ConstantOp
unfolding bytes_eq
read_op tk =
    if bytes_eq tk.value (codes "+")
    then pure add
    else if bytes_eq tk.value (codes "-")
    then pure sub
    else if bytes_eq tk.value (codes "*")
    then pure mul
    else if bytes_eq tk.value (codes "/")
    then pure div
    else if bytes_eq tk.value (codes ">>")
    then pure shr
    else if bytes_eq tk.value (codes "<<")
    then pure shl
    else if bytes_eq tk.value (codes "%")
    then pure mod'
    else if bytes_eq tk.value (codes "&")
    then pure and
    else if bytes_eq tk.value (codes "|")
    then pure or
    else if bytes_eq tk.value (codes "^")
    then pure xor
    else throw (token_exception tk (codes "Unknown operator: " ++ tk.value))

-- The variables of the loop.
pub record Chain : Type 0 where
  pub sum : Token
  pub ops : ConstantOp
  pub is_negated : Bool

abbrev pub is_none : ConstantOp → Bool
is_none none = true
is_none _ = false

-- The branch of a constant: `~` before it applies once, and `ops` stays.
unfoldable pub take_constant : Chain → Asm Chain
unfolding next apply_op u128 set_u128
take_constant c = do
  tk ← next tk_constant
  let value = if c.is_negated then 2 ^ 128 - 1 - u128 tk else u128 tk
  sum ← apply_op c.ops tk (u128 c.sum) value
  pure (record c { sum = set_u128 sum c.sum; is_negated = false })

-- The branch of an operator.
unfoldable pub take_operator : Chain → Asm Chain
unfolding next read_op bytes_eq
take_operator c = do
  tk ← next tk_operator
  if bytes_eq tk.value (codes "~")
      then pure (record c { is_negated = not c.is_negated })
      else if is_none c.ops
      then (do ops ← read_op tk; pure (record c { ops = ops }))
      else throw (token_exception tk (codes "Unexpected operator"))

-- One round of the loop.
unfoldable pub chain_step : Chain → Asm Chain
unfolding take_constant take_operator next_is
chain_step c a = if next_is tk_constant a then take_constant c a else take_operator c a

unfoldable pub chain_more : Assembler → Bool
unfolding next_is
chain_more a = next_is tk_constant a || next_is tk_operator a

-- Each round takes a token, so as many rounds as there are tokens are enough.
unfoldable pub chain_loop : ℕ → Chain → Asm Token
unfolding chain_more chain_step
chain_loop zero c a = if chain_more a then throw out_of_fuel a else pure c.sum a
chain_loop (suc fuel) c a = elim (chain_more a) [
  | true ↦ (do c' ← chain_step c; chain_loop fuel c') a
  | false ↦ pure c.sum a
]

unfoldable pub resolve_constants : Asm Token
unfolding next chain_loop
resolve_constants = do
  imm ← next tk_constant
  a ← get
  chain_loop (length a.tokens) (record { sum = imm; ops = none; is_negated = false })
