-- ===== src/Constants/Chains.antt =====
-- What `Assembler::resolve_constants` of src/assemble.cpp makes of a chain of constants.
use bigassm.Prelude.{
  and-true, ℕ, zero, suc, ◌+◌, ◌-◌, ◌≤◌, ◌≡◌, refl, ap, ◌∙◌, true, false, List, [], ◌∷◌, ◌++◌,
  codes, length, arith, bytes_eq, length-append, length-drop,
}
use bigassm.Types.{
  TokenType, Token, Result, ok, err, tk_constant, tk_operator, token_exception, u128, set_u128,
}
use bigassm.Types.Print.{is_type}
use bigassm.Assembler.{Assembler, Asm, pure, and_then, next_is}
use bigassm.Constants.{
  ConstantOp, apply_op, read_op, take_constant, take_operator, is_none, chain_step, chain_more,
  chain_loop, resolve_constants,
}
use bigassm.Constants.Termination.{advance, LeavesAt, leaves, throws, apply_op-LeavesAt}
use bigassm.Constants.Ahead.{
  drop-suc, ahead, stops, all_constants, fold_constants, next_here, next_is_here, chain_more-stops,
  chain_loop-stops,
}

same_results :
    {A B C : Type 0} (b : Assembler) {r : Result (A × Assembler)} {h : A → B} (f : B → Asm C)
    (g : A → Asm C)
    → LeavesAt b r
    → ((x : A) → f (h x) b ≡ g x b)
    → and_then (and_then r (λ x. pure (h x))) f ≡ and_then r g
same_results b f g (leaves x) k = k x
same_results b f g (throws e h) k = refl

-- One round for a constant, in front of what the others do.
chain_loop-constant :
    (fuel : ℕ) (op : ConstantOp) (sum tk : Token) (tks : List Token) (a : Assembler)
    → ahead a ≡ tk ∷ tks
    → is_type tk.type tk_constant ≡ true
    → (k : ℕ → Asm Token)
    → ((v : ℕ)
        → chain_loop fuel
            (record { sum = set_u128 v sum; ops = op; is_negated = false })
            (advance a)
          ≡ k v (advance a))
    → chain_loop (suc fuel) (record { sum = sum; ops = op; is_negated = false }) a
      ≡ and_then (apply_op op tk (u128 sum) (u128 tk) (advance a)) k
unfolding chain_loop chain_step take_constant
chain_loop-constant fuel op sum tk tks a h c k rest =
    let here : next_is tk_constant a ≡ true = next_is_here a h tk_constant ∙ c in
    let more : chain_more a ≡ true = rw (chain_more, here) refl in
    rw (chain_loop, more, chain_step, here, take_constant, next_here a h tk_constant c)
      (same_results (advance a) (chain_loop fuel) k
        (apply_op-LeavesAt tk (advance a) op (u128 sum) (u128 tk)) rest)

chain_loop-constants :
    (fuel : ℕ) (op : ConstantOp) (sum : Token) (tks rest : List Token) (a : Assembler)
    → ahead a ≡ tks ++ rest
    → all_constants tks ≡ true
    → stops rest ≡ true
    → length tks ≤ fuel
    → chain_loop fuel (record { sum = sum; ops = op; is_negated = false }) a
      ≡ fold_constants op sum tks a
chain_loop-constants fuel op sum [] rest a h cs e n =
    chain_loop-stops fuel _ a (chain_more-stops a rest h e)
chain_loop-constants zero op sum (tk ∷ tks) rest a h cs e n = absurd (omega arith)
chain_loop-constants (suc fuel) op sum (tk ∷ tks) rest a h cs e n =
    let (c, cs') = and-true cs in
    chain_loop-constant fuel op sum tk (tks ++ rest) a h c
      (λ v. fold_constants op (set_u128 v sum) tks)
      λ v.
        chain_loop-constants fuel op (set_u128 v sum) tks rest (advance a)
          (drop-suc a.index a.tokens h) cs' e (omega arith)

one_type : (t : TokenType) → is_type t tk_operator ≡ true → is_type t tk_constant ≡ false
unfolding is_type
one_type t e = ground arith

chain_loop-operator :
    (fuel : ℕ) (op : ConstantOp) (sum tk : Token) (tks : List Token) (a : Assembler)
    → ahead a ≡ tk ∷ tks
    → is_type tk.type tk_operator ≡ true
    → bytes_eq tk.value (codes "~") ≡ false
    → read_op tk (advance a) ≡ ok (op, advance a)
    → chain_loop (suc fuel) (record { sum = sum; ops = ConstantOp.none; is_negated = false }) a
      ≡ chain_loop fuel (record { sum = sum; ops = op; is_negated = false }) (advance a)
unfolding chain_loop chain_step take_operator
chain_loop-operator fuel op sum tk tks a h ot nt ro =
    let constant : next_is tk_constant a ≡ false =
      next_is_here a h tk_constant ∙ one_type tk.type ot in
    let operator : next_is tk_operator a ≡ true = next_is_here a h tk_operator ∙ ot in
    let more : chain_more a ≡ true = rw (chain_more, constant, operator) refl in
    rw (chain_loop, more, chain_step, constant, take_operator, next_here a h tk_operator ot, nt, ro)
      refl

-- A constant, an operator other than ~, constants, and then the end or a token of another kind
-- resolve to the operator's operation folded over the constants from the left, its errors included.
pub resolve_constants-folds :
    (op : ConstantOp) (first tk : Token) (tks rest : List Token) (a : Assembler)
    → ahead a ≡ first ∷ tk ∷ tks ++ rest
    → is_type first.type tk_constant ≡ true
    → is_type tk.type tk_operator ≡ true
    → bytes_eq tk.value (codes "~") ≡ false
    → read_op tk (advance (advance a)) ≡ ok (op, advance (advance a))
    → all_constants tks ≡ true
    → stops rest ≡ true
    → resolve_constants a ≡ fold_constants op first tks (advance (advance a))
unfolding resolve_constants chain_loop
resolve_constants-folds op first tk tks rest a h ct ot nt ro cs e =
    let h₁ = drop-suc a.index a.tokens h in
    let h₂ = drop-suc (suc a.index) a.tokens h₁ in
    let long : 2 + (length tks + length rest) + a.index ≤ length a.tokens = omega (
      arith,
      length-drop a.index a.tokens,
      ap (λ (ts : List Token). length ts) h,
      length-append tks rest,
    ) in
    rw (resolve_constants, next_here a h tk_constant ct)
      (ap
          (λ (n : ℕ).
            chain_loop n (record { sum = first; ops = ConstantOp.none; is_negated = false })
              (advance a))
          {y = suc (length a.tokens - 1)} (omega arith)
        ∙ chain_loop-operator (length a.tokens - 1) op first tk (tks ++ rest) (advance a) h₁ ot nt
            ro
        ∙ chain_loop-constants (length a.tokens - 1) op first tks rest (advance (advance a)) h₂ cs e
            (omega arith))

chain_loop-second :
    (fuel : ℕ) (op : ConstantOp) (sum tk : Token) (tks : List Token) (a : Assembler)
    → ahead a ≡ tk ∷ tks
    → is_type tk.type tk_operator ≡ true
    → bytes_eq tk.value (codes "~") ≡ false
    → is_none op ≡ false
    → chain_loop (suc fuel) (record { sum = sum; ops = op; is_negated = false }) a
      ≡ err (token_exception tk (codes "Unexpected operator"))
unfolding chain_loop chain_step take_operator
chain_loop-second fuel op sum tk tks a h ot nt some_op =
    let constant : next_is tk_constant a ≡ false =
      next_is_here a h tk_constant ∙ one_type tk.type ot in
    let operator : next_is tk_operator a ≡ true = next_is_here a h tk_operator ∙ ot in
    let more : chain_more a ≡ true = rw (chain_more, constant, operator) refl in
    rw
      (
        chain_loop,
        more,
        chain_step,
        constant,
        take_operator,
        next_here a h tk_operator ot,
        nt,
        some_op,
      )
      refl

-- A second operator other than ~ behind a constant, an operator and a constant is refused as
-- unexpected, once the first operation is done.
pub resolve_constants-refuses :
    (op : ConstantOp) (first tk second tk₂ : Token) (rest : List Token) (a : Assembler)
    → ahead a ≡ first ∷ tk ∷ second ∷ tk₂ ∷ rest
    → is_type first.type tk_constant ≡ true
    → is_type tk.type tk_operator ≡ true
    → bytes_eq tk.value (codes "~") ≡ false
    → read_op tk (advance (advance a)) ≡ ok (op, advance (advance a))
    → is_none op ≡ false
    → is_type second.type tk_constant ≡ true
    → is_type tk₂.type tk_operator ≡ true
    → bytes_eq tk₂.value (codes "~") ≡ false
    → resolve_constants a
      ≡ and_then
          (apply_op op second (u128 first) (u128 second) (advance (advance (advance a))))
          λ v b. err (token_exception tk₂ (codes "Unexpected operator"))
unfolding resolve_constants chain_loop
resolve_constants-refuses op first tk second tk₂ rest a h ct ot nt ro some_op ct₂ ot₂ nt₂ =
    let h₁ = drop-suc a.index a.tokens h in
    let h₂ = drop-suc (suc a.index) a.tokens h₁ in
    let h₃ = drop-suc (suc (suc a.index)) a.tokens h₂ in
    let n = length a.tokens - 3 in
    let long : 4 + length rest + a.index ≤ length a.tokens =
      omega (arith, length-drop a.index a.tokens, ap (λ (ts : List Token). length ts) h) in
    rw (resolve_constants, next_here a h tk_constant ct)
      (ap
          (λ (n : ℕ).
            chain_loop n (record { sum = first; ops = ConstantOp.none; is_negated = false })
              (advance a))
          {y = suc (suc (suc n))} (omega arith)
        ∙ chain_loop-operator (suc (suc n)) op first tk (second ∷ tk₂ ∷ rest) (advance a) h₁ ot nt
            ro
        ∙ chain_loop-constant (suc n) op first second (tk₂ ∷ rest) (advance (advance a)) h₂ ct₂
            (λ v b. err (token_exception tk₂ (codes "Unexpected operator")))
            λ v.
              chain_loop-second n op (set_u128 v first) tk₂ rest (advance (advance (advance a))) h₃
                ot₂ nt₂ some_op)

-- A constant that no constant and no operator follows is returned as it is.
pub resolve_constants-single :
    (first : Token) (rest : List Token) (a : Assembler)
    → ahead a ≡ first ∷ rest
    → is_type first.type tk_constant ≡ true
    → stops rest ≡ true
    → resolve_constants a ≡ ok (first, advance a)
unfolding resolve_constants
resolve_constants-single first rest a h ct e =
    rw (resolve_constants, next_here a h tk_constant ct)
      (chain_loop-stops (length a.tokens) _ (advance a)
        (chain_more-stops (advance a) rest (drop-suc a.index a.tokens h) e))
