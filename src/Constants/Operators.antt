-- ===== src/Constants/Operators.antt =====
-- `Assembler::resolve_constants` of src/assemble.cpp held to what its operators stand for.
use bigassm.Prelude.{
  ℕ, zero, suc, ◌+◌, ◌-◌, ◌*◌, ◌/◌, ◌%◌, ◌^◌, ◌≡◌, refl, bit_and, bit_or, bit_xor, Bool, true,
  false, List, [], ◌∷◌, ◌++◌, Bytes, codes, bytes_eq, length, ltb, ◌==◌, if◌then◌else◌, arith,
}
use bigassm.Types.{
  Token, Error, Result, ok, err, tk_constant, tk_operator, division_by_zero, undefined, u128,
  set_u128,
}
use bigassm.Types.Print.{is_type}
use bigassm.Assembler.{Assembler, Asm, and_then}
use bigassm.Constants.{
  ConstantOp, add, sub, mul, div, shr, shl, mod', and, or, xor, apply_op, read_op,
  resolve_constants,
}
use bigassm.Constants.Termination.{advance}
use bigassm.Constants.Ahead.{ahead, stops, all_constants, fold_constants}
use bigassm.Constants.Chains.{resolve_constants-folds}

-- The operators, as they are written, and what they make of two numbers of 128 bits. A division by
-- zero traps, and a shift by all the bits or more is undefined.
pub data Operator : Bytes → (ℕ → ℕ → Result ℕ) → Type 0 where
  plus : Operator (codes "+") (λ x y. ok (x + y))
  minus : Operator (codes "-") (λ x y. ok (x + 2 ^ 128 - y))
  times : Operator (codes "*") (λ x y. ok (x * y))
  over : Operator (codes "/") (λ x y. if y == 0 then err division_by_zero else ok (x / y))
  remainder : Operator (codes "%") (λ x y. if y == 0 then err division_by_zero else ok (x % y))
  left : Operator (codes "<<") (λ x y. if ltb y 128 then ok (x * 2 ^ y) else err undefined)
  right : Operator (codes ">>") (λ x y. if ltb y 128 then ok (x / 2 ^ y) else err undefined)
  bits_and : Operator (codes "&") (λ x y. ok (bit_and x y))
  bits_or : Operator (codes "|") (λ x y. ok (bit_or x y))
  bits_xor : Operator (codes "^") (λ x y. ok (bit_xor x y))

-- The operation from the left on all the numbers, the low 128 bits of each result.
abbrev pub fold_operator : (ℕ → ℕ → Result ℕ) → ℕ → List Token → Result ℕ
fold_operator f x [] = ok x
fold_operator f x (tk ∷ tks) = elim (f x (u128 tk)) [
  | ok v ↦ fold_operator f (v % 2 ^ 128) tks
  | err e ↦ err e
]

-- A token with the number, and the state behind it; or the error.
pub data Resolves (b : Assembler) : Result (Token × Assembler) → Result ℕ → Type 0 where
  number : (t : Token) (v : ℕ) → u128 t ≡ v → Resolves b (ok (t, b)) (ok v)
  failure : (e : Error) → Resolves b (err e) (err e)

data Agrees (b : Assembler) : Result (ℕ × Assembler) → Result ℕ → Type 0 where
  same : (w v : ℕ) → w % 2 ^ 128 ≡ v % 2 ^ 128 → Agrees b (ok (w, b)) (ok v)
  fails : (e : Error) → Agrees b (err e) (err e)

if-Agrees :
    {b : Assembler} {r r' : Result ℕ} (t : Bool) (m m' : Asm ℕ)
    → Agrees b (m b) r
    → Agrees b (m' b) r'
    → Agrees b ((if t then m else m') b) (if t then r else r')
if-Agrees true m m' p q = p
if-Agrees false m m' p q = q

-- What the operator's text is read as.
record IsRead (f : ℕ → ℕ → Result ℕ) (tk : Token) (op : ConstantOp) : Type 0 where
  not_tilde : bytes_eq tk.value (codes "~") ≡ false
  reads : (b : Assembler) → read_op tk b ≡ ok (op, b)
  applies : (t : Token) (x y : ℕ) (b : Assembler) → Agrees b (apply_op op t x y b) (f x y)

twice : (n : ℕ) → n % 2 ^ 128 % 2 ^ 128 ≡ n % 2 ^ 128
twice n = omega arith

Operator-IsRead :
    {f : ℕ → ℕ → Result ℕ} (text : Bytes) (tk : Token)
    → Operator text f
    → tk.value ≡ text
    → (op : ConstantOp) × IsRead f tk op
unfolding read_op apply_op bytes_eq
Operator-IsRead _ tk plus e = (
  add,
  record {
    not_tilde = rw e refl;
    reads = λ b. rw e refl;
    applies = λ t x y b. same _ _ (twice (x + y));
  },
)
Operator-IsRead _ tk minus e = (
  sub,
  record {
    not_tilde = rw e refl;
    reads = λ b. rw e refl;
    applies = λ t x y b. same _ _ (twice (x + 2 ^ 128 - y));
  },
)
Operator-IsRead _ tk times e = (
  mul,
  record {
    not_tilde = rw e refl;
    reads = λ b. rw e refl;
    applies = λ t x y b. same _ _ (twice (x * y));
  },
)
Operator-IsRead _ tk over e = (
  div,
  record {
    not_tilde = rw e refl;
    reads = λ b. rw e refl;
    applies = λ t x y b. if-Agrees (y == 0) _ _ (fails division_by_zero) (same _ _ refl);
  },
)
Operator-IsRead _ tk remainder e = (
  mod',
  record {
    not_tilde = rw e refl;
    reads = λ b. rw e refl;
    applies = λ t x y b. if-Agrees (y == 0) _ _ (fails division_by_zero) (same _ _ refl);
  },
)
Operator-IsRead _ tk left e = (
  shl,
  record {
    not_tilde = rw e refl;
    reads = λ b. rw e refl;
    applies = λ t x y b. if-Agrees (ltb y 128) _ _ (same _ _ (twice (x * 2 ^ y))) (fails undefined);
  },
)
Operator-IsRead _ tk right e = (
  shr,
  record {
    not_tilde = rw e refl;
    reads = λ b. rw e refl;
    applies = λ t x y b. if-Agrees (ltb y 128) _ _ (same _ _ refl) (fails undefined);
  },
)
Operator-IsRead _ tk bits_and e = (
  and,
  record { not_tilde = rw e refl; reads = λ b. rw e refl; applies = λ t x y b. same _ _ refl },
)
Operator-IsRead _ tk bits_or e = (
  or,
  record { not_tilde = rw e refl; reads = λ b. rw e refl; applies = λ t x y b. same _ _ refl },
)
Operator-IsRead _ tk bits_xor e = (
  xor,
  record { not_tilde = rw e refl; reads = λ b. rw e refl; applies = λ t x y b. same _ _ refl },
)

-- The state behind `n` more tokens.
abbrev pub behind : ℕ → Assembler → Assembler
behind zero a = a
behind (suc n) a = behind n (advance a)

u128-set : (w v : ℕ) (t : Token) → w % 2 ^ 128 ≡ v % 2 ^ 128 → u128 (set_u128 w t) ≡ v % 2 ^ 128
unfolding u128 set_u128
u128-set w v t e = omega (arith, e)

module _ {f : ℕ → ℕ → Result ℕ} (op : ConstantOp)
    (applies : (t : Token) (x y : ℕ) (b : Assembler) → Agrees b (apply_op op t x y b) (f x y)) where
  -- One operation, and those behind it.
  step-Resolves :
      (b c : Assembler) (sum : Token) (tks : List Token) {r : Result (ℕ × Assembler)}
      {r' : Result ℕ}
      → Agrees b r r'
      → ((s : Token) (x : ℕ)
          → u128 s ≡ x
          → Resolves c (fold_constants op s tks b) (fold_operator f x tks))
      → Resolves c
          (and_then r (λ n. fold_constants op (set_u128 n sum) tks))
          (elim r' [ ok v ↦ fold_operator f (v % 2 ^ 128) tks | err e ↦ err e ])
  step-Resolves b c sum tks (same w v e) k = k (set_u128 w sum) (v % 2 ^ 128) (u128-set w v sum e)
  step-Resolves b c sum tks (fails e) k = failure e

  fold-Resolves :
      (sum : Token) (x : ℕ) (tks : List Token) (a : Assembler)
      → u128 sum ≡ x
      → Resolves (behind (length tks) a) (fold_constants op sum tks a) (fold_operator f x tks)
  fold-Resolves sum x [] a e = number sum x e
  fold-Resolves sum x (tk ∷ tks) a e = rw e (
      step-Resolves (advance a) (behind (length tks) (advance a)) sum tks
        (applies tk x (u128 tk) (advance a)) (λ s y e'. fold-Resolves s y tks (advance a) e'))

-- A constant, an operator other than ~, constants, and then the end or a token that is neither
-- resolve to what the operator stands for, folded over the constants from the left: behind all of
-- these tokens, to a token with the low 128 bits of the result, and with a division by zero or a
-- shift by 128 or more, to that error.
pub resolve_constants-computes :
    (f : ℕ → ℕ → Result ℕ) (first tk : Token) (tks rest : List Token) (a : Assembler)
    → ahead a ≡ first ∷ tk ∷ tks ++ rest
    → is_type first.type tk_constant ≡ true
    → is_type tk.type tk_operator ≡ true
    → Operator tk.value f
    → all_constants tks ≡ true
    → stops rest ≡ true
    → Resolves
        (behind (suc (suc (length tks))) a)
        (resolve_constants a)
        (fold_operator f (u128 first) tks)
resolve_constants-computes f first tk tks rest a h ct ot known cs e =
    let (op, read) = Operator-IsRead tk.value tk known refl in
    rw
      (resolve_constants-folds op first tk tks rest a h ct ot read.not_tilde
        (read.reads (advance (advance a))) cs e)
      (fold-Resolves op read.applies first (u128 first) tks (advance (advance a)) refl)
