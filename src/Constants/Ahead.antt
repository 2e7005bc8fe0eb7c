-- ===== src/Constants/Ahead.antt =====
-- The tokens in front of the cursor of src/assembler.hpp, and where the loop of
-- `Assembler::resolve_constants` of src/assemble.cpp ends.
use bigassm.Prelude.{
  ℕ, zero, suc, ◌≤◌, ◌<◌, ◌≡◌, refl, ap, Bool, true, false, not, ◌&&◌, ◌||◌, some, List, [], ◌∷◌,
  length, get_elem?, drop, leb, arith, length-drop,
}
use bigassm.Types.{TokenType, Token, ok, tk_constant, tk_operator, u128, set_u128}
use bigassm.Types.Print.{is_type}
use bigassm.Assembler.{Assembler, Asm, and_then, next_token, next, next_is, done}
use bigassm.Constants.{ConstantOp, Chain, apply_op, chain_more, chain_loop}
use bigassm.Constants.Termination.{advance}

module _ {A : Type 0} where
  get_elem?-drop :
      (i : ℕ) (xs : List A) {x : A} {ys : List A} → drop i xs ≡ x ∷ ys → get_elem? xs i ≡ some x
  get_elem?-drop zero [] e = absurd cc
  get_elem?-drop zero (x ∷ xs) e = cc
  get_elem?-drop (suc i) [] e = absurd cc
  get_elem?-drop (suc i) (x ∷ xs) e = get_elem?-drop i xs e

  pub drop-suc :
      (i : ℕ) (xs : List A) {x : A} {ys : List A} → drop i xs ≡ x ∷ ys → drop (suc i) xs ≡ ys
  drop-suc zero [] e = absurd cc
  drop-suc zero (x ∷ xs) e = cc
  drop-suc (suc i) [] e = absurd cc
  drop-suc (suc i) (x ∷ xs) e = drop-suc i xs e

-- The tokens that the cursor has in front of it.
abbrev pub ahead : Assembler → List Token
ahead a = drop a.index a.tokens

-- Behind the chain: the end, or a token that is neither a constant nor an operator.
abbrev pub stops : List Token → Bool
stops [] = true
stops (tk ∷ tks) = not (is_type tk.type tk_constant || is_type tk.type tk_operator)

abbrev pub all_constants : List Token → Bool
all_constants [] = true
all_constants (tk ∷ tks) = is_type tk.type tk_constant && all_constants tks

-- One operation, from the left, for all the constants.
abbrev pub fold_constants : ConstantOp → Token → List Token → Asm Token
fold_constants op sum [] a = ok (sum, a)
fold_constants op sum (tk ∷ tks) a =
    and_then (apply_op op tk (u128 sum) (u128 tk) (advance a))
      λ n. fold_constants op (set_u128 n sum) tks

module _ (a : Assembler) {tk : Token} {tks : List Token} (h : ahead a ≡ tk ∷ tks) where
  not_done : done a ≡ false
  unfolding done
  not_done =
      below (length a.tokens) a.index
        (omega (arith, length-drop a.index a.tokens, ap (λ (ts : List Token). length ts) h))
    where
      below : (n i : ℕ) → i < n → leb n i ≡ false
      below n i h = ground arith

  pub next_here : (t : TokenType) → is_type tk.type t ≡ true → next t a ≡ ok (tk, advance a)
  unfolding next next_token
  next_here t e = rw (get_elem?-drop a.index a.tokens h, e) refl

  pub next_is_here : (t : TokenType) → next_is t a ≡ is_type tk.type t
  unfolding next_is
  next_is_here t = rw (not_done, get_elem?-drop a.index a.tokens h) refl

pub next_is_end : (t : TokenType) (a : Assembler) → ahead a ≡ [] → next_is t a ≡ false
unfolding next_is done
next_is_end t a h =
    rw
      (past (length a.tokens) a.index
        (omega (arith, length-drop a.index a.tokens, ap (λ (ts : List Token). length ts) h)))
      refl
  where
    past : (n i : ℕ) → n ≤ i → leb n i ≡ true
    past n i h = ground arith

pub chain_more-stops :
    (a : Assembler) (tks : List Token) → ahead a ≡ tks → stops tks ≡ true → chain_more a ≡ false
unfolding chain_more
chain_more-stops a [] h e = rw (next_is_end tk_constant a h, next_is_end tk_operator a h) refl
chain_more-stops a (tk ∷ tks) h e =
    rw (next_is_here a h tk_constant, next_is_here a h tk_operator) (not_true e)
  where
    not_true : {b : Bool} → not b ≡ true → b ≡ false
    not_true {b = true} e = absurd cc
    not_true {b = false} e = refl

pub chain_loop-stops :
    (fuel : ℕ) (c : Chain) (a : Assembler)
    → chain_more a ≡ false
    → chain_loop fuel c a ≡ ok (c.sum, a)
unfolding chain_loop
chain_loop-stops zero c a e = rw (chain_loop, e) refl
chain_loop-stops (suc fuel) c a e = rw (chain_loop, e) refl
