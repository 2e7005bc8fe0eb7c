-- ===== src/Constants/Termination.antt =====
-- `Assembler::resolve_constants` of src/assemble.cpp and its fuel: each round of the
-- loop takes a token.
use bigassm.Prelude.{
  ℕ, zero, suc, ◌+◌, ◌≤◌, ◌<◌, ◌≡◌, ◌≢◌, Bool, true, false, not, none, some, Option, Bytes, codes,
  length, get_elem?, if◌then◌else◌, arith, Bool-cases, inl, inr, if-intro, bytes_eq, ◌==◌, ltb,
  ◌||◌,
}
use Prim.Native.String.{String}
use bigassm.Types.{
  TokenType, Token, Error, Result, ok, err, out_of_fuel, out_of_range, token_exception, tk_constant,
  tk_operator,
}
use bigassm.Types.Print.{is_type}
use bigassm.Assembler.{
  Assembler, Asm, pure, throw, ◌>>=◌, from_option, and_then, next_token, next, next_is, done,
  argument_mismatch,
}
use bigassm.Constants.{
  ConstantOp, add, sub, mul, div, shr, shl, mod', and, or, xor, Chain, apply_op, read_op,
  take_constant, take_operator, is_none, chain_step, chain_more, chain_loop, resolve_constants,
}

abbrev pub advance : Assembler → Assembler
advance a = record a { index = suc a.index }

-- A result that leaves the state at `b`, or an error of the code.
pub data LeavesAt {ℓ} {A : Type ℓ} (b : Assembler) : Result (A × Assembler) → Type ℓ where
  leaves : (x : A) → LeavesAt b (ok (x, b))
  throws : (e : Error) → e ≢ out_of_fuel → LeavesAt b (err e)

bind-LeavesAt {ℓ κ} :
    {A : Type ℓ} {B : Type κ} (b c : Assembler) (m : Result (A × Assembler)) (f : A → Asm B)
    → LeavesAt b m
    → ((x : A) → LeavesAt c (f x b))
    → LeavesAt c (and_then m f)
bind-LeavesAt b c _ f (leaves x) k = k x
bind-LeavesAt b c _ f (throws e h) k = throws e h

if-LeavesAt {ℓ} :
    {A : Type ℓ} (b : Assembler) (t : Bool) (m n : Asm A)
    → LeavesAt b (m b)
    → LeavesAt b (n b)
    → LeavesAt b ((if t then m else n) b)
if-LeavesAt b true m n p q = p
if-LeavesAt b false m n p q = q

next_token-LeavesAt : (a : Assembler) → LeavesAt (advance a) (next_token a)
unfolding next_token
next_token-LeavesAt a = go (get_elem? a.tokens a.index)
  where
    go : (o : Option Token) → LeavesAt (advance a) (from_option out_of_range o (advance a))
    go (some tk) = leaves tk
    go none = throws _ (λ e. absurd cc)

next-LeavesAt : (t : TokenType) (a : Assembler) → LeavesAt (advance a) (next t a)
unfolding next argument_mismatch
next-LeavesAt t a =
    bind-LeavesAt (advance a) (advance a) (next_token a) _ (next_token-LeavesAt a)
      λ tk. if-LeavesAt (advance a) (is_type tk.type t) _ _ (leaves tk) (throws _ (λ e. absurd cc))

not_fuel : (tk : Token) (info : Bytes) → token_exception tk info ≢ out_of_fuel
not_fuel tk info e = absurd cc

module _ (tk : Token) (a : Assembler) where
  pub apply_op-LeavesAt :
      (op : ConstantOp) (sum value : ℕ) → LeavesAt a (apply_op op tk sum value a)
  unfolding apply_op
  apply_op-LeavesAt ConstantOp.none sum value = throws _ (λ e. absurd cc)
  apply_op-LeavesAt add sum value = leaves _
  apply_op-LeavesAt sub sum value = leaves _
  apply_op-LeavesAt mul sum value = leaves _
  apply_op-LeavesAt div sum value =
      if-LeavesAt a (value == 0) _ _ (throws _ (λ e. absurd cc)) (leaves _)
  apply_op-LeavesAt shr sum value =
      if-LeavesAt a (ltb value 128) _ _ (leaves _) (throws _ (λ e. absurd cc))
  apply_op-LeavesAt shl sum value =
      if-LeavesAt a (ltb value 128) _ _ (leaves _) (throws _ (λ e. absurd cc))
  apply_op-LeavesAt mod' sum value =
      if-LeavesAt a (value == 0) _ _ (throws _ (λ e. absurd cc)) (leaves _)
  apply_op-LeavesAt and sum value = leaves _
  apply_op-LeavesAt or sum value = leaves _
  apply_op-LeavesAt xor sum value = leaves _

  read_op-LeavesAt : LeavesAt a (read_op tk a)
  unfolding read_op
  read_op-LeavesAt = test (is "+") add _ (
      test (is "-") sub _ (
        test (is "*") mul _ (
          test (is "/") div _ (
            test (is ">>") shr _ (
              test (is "<<") shl _ (
                test (is "%") mod' _ (
                  test (is "&") and _
                    (test (is "|") or _ (test (is "^") xor _ (throws _ (not_fuel tk _)))))))))))
    where
      is : String → Bool
      is s = bytes_eq tk.value (codes s)

      test :
          (t : Bool) (x : ConstantOp) (m : Asm ConstantOp)
          → LeavesAt a (m a)
          → LeavesAt a ((if t then (λ s. ok (x, s)) else m) a)
      test t x m = if-LeavesAt a t _ m (leaves x)

take_constant-LeavesAt : (c : Chain) (a : Assembler) → LeavesAt (advance a) (take_constant c a)
unfolding take_constant
take_constant-LeavesAt c a =
    bind-LeavesAt (advance a) (advance a) (next tk_constant a) _ (next-LeavesAt tk_constant a) λ tk.
      bind-LeavesAt (advance a) (advance a) _ _ (apply_op-LeavesAt tk (advance a) c.ops _ _)
        λ sum. leaves _

take_operator-LeavesAt : (c : Chain) (a : Assembler) → LeavesAt (advance a) (take_operator c a)
unfolding take_operator
take_operator-LeavesAt c a =
    let b = advance a in
    bind-LeavesAt b b (next tk_operator a) _ (next-LeavesAt tk_operator a) λ tk.
      let plain : Asm Chain = read_op tk >>= λ ops. pure (record c { ops = ops }) in
      let second : Asm Chain = throw (token_exception tk (codes "Unexpected operator")) in
      if-LeavesAt b (bytes_eq tk.value (codes "~"))
        (pure (record c { is_negated = not c.is_negated }))
        (if is_none c.ops then plain else second) (leaves _)
        (if-LeavesAt b (is_none c.ops) plain second
          (bind-LeavesAt b b (read_op tk b) (λ ops. pure (record c { ops = ops }))
            (read_op-LeavesAt tk b) λ ops. leaves _)
          (throws _ (not_fuel tk _)))

pub chain_step-LeavesAt : (c : Chain) (a : Assembler) → LeavesAt (advance a) (chain_step c a)
unfolding chain_step
chain_step-LeavesAt c a =
    if-intro (LeavesAt (advance a)) (next_is tk_constant a) (take_constant c a) (take_operator c a)
      (take_constant-LeavesAt c a) (take_operator-LeavesAt c a)

next_is-before : (t : TokenType) (a : Assembler) → next_is t a ≡ true → a.index < length a.tokens
unfolding next_is done
next_is-before t a h = ground arith

pub chain_more-before : (a : Assembler) → chain_more a ≡ true → a.index < length a.tokens
unfolding chain_more
chain_more-before a h = elim (Bool-cases (next_is tk_constant a)) [
  | inl e ↦ next_is-before tk_constant a e
  | inr e ↦ next_is-before tk_operator a (or_right e h)
]
  where
    or_right : {p q : Bool} → p ≡ false → p || q ≡ true → q ≡ true
    or_right {p = true} e h = absurd cc
    or_right {p = false} e h = h

-- A result, or an error of the code.
data Answers {ℓ} {A : Type ℓ} : Result A → Type ℓ where
  answers : (x : A) → Answers (ok x)
  fails : (e : Error) → e ≢ out_of_fuel → Answers (err e)

bind-Answers {ℓ κ} :
    {A : Type ℓ} {B : Type κ} (b : Assembler) (m : Result (A × Assembler)) (f : A → Asm B)
    → LeavesAt b m
    → ((x : A) → Answers (f x b))
    → Answers (and_then m f)
bind-Answers b _ f (leaves x) k = k x
bind-Answers b _ f (throws e h) k = fails e h

Answers-no_fuel {ℓ} : {A : Type ℓ} (r : Result A) → Answers r → r ≢ err out_of_fuel
Answers-no_fuel _ (answers x) e = absurd cc
Answers-no_fuel _ (fails e h) eq = h (cc)

chain_loop-Answers :
    (fuel : ℕ) (c : Chain) (a : Assembler)
    → length a.tokens ≤ fuel + a.index
    → Answers (chain_loop fuel c a)
unfolding chain_loop
chain_loop-Answers zero c a h = elim (Bool-cases (chain_more a)) [
  | inl e ↦ absurd (omega (arith, chain_more-before a e))
  | inr e ↦ rw (chain_loop, e) (answers _)
]
chain_loop-Answers (suc fuel) c a h = elim (Bool-cases (chain_more a)) [
  | inl e ↦
      rw (chain_loop, e)
        (bind-Answers (advance a) (chain_step c a) (chain_loop fuel) (chain_step-LeavesAt c a)
          (λ c'. chain_loop-Answers fuel c' (advance a) (omega arith)))
  | inr e ↦ rw (chain_loop, e) (answers _)
]

-- From every state resolve_constants returns a token or throws: the fuel that stands for its loop
-- never runs out.
pub resolve_constants-Answers : (a : Assembler) → resolve_constants a ≢ err out_of_fuel
unfolding resolve_constants
resolve_constants-Answers a e =
    Answers-no_fuel _
      (bind-Answers (advance a) (next tk_constant a) _ (next-LeavesAt tk_constant a)
        (λ imm. chain_loop-Answers (length a.tokens) _ (advance a) (omega arith)))
      e
