-- ===== src/Assemble/Termination.antt =====
-- `Assembler::assemble` of src/assemble.cpp on a file without `.include`: as many rounds as there
-- are tokens are enough.
use mathlib.Core.Path.{subst}
use bigassm.Prelude.{
  ℕ, zero, suc, ◌+◌, ◌%◌, ◌≤◌, ◌≡◌, sym, ap, Bool, false, Option, some, List, [], ◌∷◌, Bytes, codes,
  bytes_eq, Map, find, length, take, get_elem?, leb, le→leb, Bool-cases, Option-cases, inl, inr,
  ◌==◌, arith,
}
use bigassm.Types.{
  Token, TokenType, tk_directive, tk_label, tk_opcode, tk_pseudoop, Payload, opcode, pseudoop,
  Error, Result, ok, err,
}
use mathlib.Core.Option.{some-injective}
use bigassm.Patch.{word_bytes}
use bigassm.Section.{Section, ot_code, add_label_soon}
use bigassm.Assembler.{Options, Assembler, SymbolLocation, Asm, and_then, next_token, done}
use bigassm.Assembler.Steps.{
  Reach, stay, step_on, take_token, Reach-trans, Reach-tokens, Reach-lookup, Numbered,
  Reach-Numbered, Reach-options,
}
use bigassm.Assembler.Sound.{IsSound, Reach-IsSound, Present, Reach-Present}
use bigassm.Assembler.Steady.{
  Steady, Moves, moved, thrown, Genuine, range, assert, Moves-trans, monad_rules, then-Steady,
}
use bigassm.Assembler.Methods.{
  on_current-Steady, add_label_soon-SameKey, add_output-Steady, align_with_labels-Steady,
}
use bigassm.Host.{Host}
use bigassm.Opcodes.Build.{InstructionList}
use bigassm.Opcodes.Steady.{handler-Steady}
use bigassm.PseudoOps.Steady.{pseudo_handler-Steady}
use bigassm.Directive.Steady.{directive-Steady}
use bigassm.Assemble.{
  instr_length, output_list, assemble_opcode, assemble_pseudoop, assemble_token, assemble_with,
  assemble_loop, assemble,
}

-- A round, behind its token, and the rounds that follow.
rest :
    (a : Assembler) (r : Result (Unit {0} × Assembler)) {loop : Asm (Unit {0})}
    → Moves (record a { index = suc a.index }) r
    → ((b : Assembler) → b.tokens ≡ a.tokens → suc a.index ≤ b.index → Moves b (loop b))
    → Moves a (and_then r (λ done. loop))
rest a _ (moved x b s) k =
    let next = record a { index = suc a.index } in
    let (t, i) = Reach-tokens next b s in
    Moves-trans a b _ (Reach-trans a next b (step_on stay take_token) s) (k b t i)
rest a _ (thrown g) k = thrown g

-- An `.include`.
abbrev pub is_include : Token → Bool
is_include token = elim token.type [
  | tk_directive ↦ bytes_eq token.value (codes ".include")
  | _ ↦ false
]

pub data NoInclude : List Token → Type 0 where
  no_token : NoInclude []
  other_token :
      {token : Token} {tokens : List Token}
      → is_include token ≡ false
      → NoInclude tokens
      → NoInclude (token ∷ tokens)

NoInclude-get_elem? :
    (tokens : List Token) (i : ℕ) (token : Token)
    → NoInclude tokens
    → get_elem? tokens i ≡ some token
    → is_include token ≡ false
NoInclude-get_elem? [] i token no_token e = absurd cc
NoInclude-get_elem? (t ∷ tokens) zero token (other_token h free) e =
    rw (sym (some-injective t token e)) h
NoInclude-get_elem? (t ∷ tokens) (suc i) token (other_token h free) e =
    NoInclude-get_elem? tokens i token free e

output_list-Steady : (il : InstructionList) → Steady (output_list il)
unfolding output_list
output_list-Steady [] = search monad_rules
output_list-Steady (i ∷ il) =
    then-Steady (add_output-Steady ot_code (take (instr_length i) (word_bytes i)))
      (output_list-Steady il)

assemble_opcode-Steady : (p : Payload) → Steady (assemble_opcode p)
unfolding assemble_opcode
assemble_opcode-Steady (opcode o) =
    search (monad_rules, align_with_labels-Steady, handler-Steady, output_list-Steady)
assemble_opcode-Steady _ = search monad_rules

assemble_pseudoop-Steady : (host : Host) (p : Payload) → Steady (assemble_pseudoop host p)
unfolding assemble_pseudoop
assemble_pseudoop-Steady host (pseudoop p) = pseudo_handler-Steady host p
assemble_pseudoop-Steady host _ = search monad_rules

module _ (host : Host) where
  by_type :
      (again : List Token → Option Bytes → Asm (Unit {0})) (t : TokenType) (line : ℕ)
      (value : Bytes) (payload : Payload)
      → is_include (record { type = t; line = line; value = value; payload = payload }) ≡ false
      → Steady (
          assemble_token host again
            (record { type = t; line = line; value = value; payload = payload }))
  unfolding assemble_token
  by_type again tk_directive line value payload h =
      directive-Steady host again
        (record { type = tk_directive; line = line; value = value; payload = payload }) h
  by_type again tk_label line value payload h =
      on_current-Steady (add_label_soon value) (add_label_soon-SameKey value)
  by_type again tk_opcode line value payload h = assemble_opcode-Steady payload
  by_type again tk_pseudoop line value payload h = assemble_pseudoop-Steady host payload
  by_type again _ line value payload h = search monad_rules

  assemble_token-Steady :
      (again : List Token → Option Bytes → Asm (Unit {0})) (token : Token)
      → is_include token ≡ false
      → Steady (assemble_token host again token)
  assemble_token-Steady again token h =
      by_type again token.type token.line token.value token.payload h

  -- With as many rounds as there are tokens left, the loop comes to their end or throws.
  assemble_loop-Moves :
      (fuel : ℕ) (a : Assembler)
      → NoInclude a.tokens
      → length a.tokens ≤ fuel + a.index
      → Moves a (assemble_loop host fuel a)
  unfolding assemble_loop done next_token
  assemble_loop-Moves zero a free h =
      rw (assemble_loop, le→leb (length a.tokens) a.index (omega arith)) (moved tt a stay)
  assemble_loop-Moves (suc fuel) a free h = elim (Bool-cases (leb (length a.tokens) a.index)) [
    | inl e ↦ rw (assemble_loop, e) (moved tt a stay)
    | inr e ↦ elim (Option-cases (get_elem? a.tokens a.index)) [
      | inl e' ↦ rw (assemble_loop, e, e') (thrown range)
      | inr (token, e') ↦
          let next = record a { index = suc a.index } in
          let again = assemble_with (assemble_loop host fuel) in
          let known = NoInclude-get_elem? a.tokens a.index token free e' in
          rw (assemble_loop, e, e')
            (rest a _ ((assemble_token-Steady again token known).at next)
              (λ b t i. assemble_loop-Moves fuel b (rw t free) (omega (arith, ap length t))))
    ]
  ]

-- The outcome of a file, begun in a state with its tokens: an error of the code, or what steps lead
-- to, with the tokens, the cursor and the path of before.
pub data Restores (a begun : Assembler) : Result (Unit {0} × Assembler) → Type 0 where
  restored :
      (c : Assembler)
      → Reach begun c
      → Restores a begun
          (ok (tt, record c { tokens = a.tokens; index = a.index; realpath = a.realpath }))
  refused : {e : Error} → Genuine e → Restores a begun (err e)

restores :
    (a : Assembler) (begun : Assembler) (r : Result (Unit {0} × Assembler))
    → Moves begun r
    → Restores a begun (
        and_then r (λ done b.
          ok (tt, record b { tokens = a.tokens; index = a.index; realpath = a.realpath })))
restores a begun _ (moved x c s) = restored c s
restores a begun _ (thrown g) = refused g

-- The state in which the loop begins.
abbrev pub begin : List Token → Option Bytes → Assembler → Assembler
begin tokens rpath a = record a { tokens = tokens; index = 0; realpath = rpath }

-- On tokens without an .include, and with a round for each of them, assemble throws one of the
-- code's exceptions or returns, after changes of the kinds of Step, with the tokens, the cursor and
-- the path of before: its fuel does not run out, whatever the tokens are.
pub assemble-Restores :
    (host : Host) (fuel : ℕ) (tokens : List Token) (rpath : Option Bytes) (a : Assembler)
    → NoInclude tokens
    → length tokens ≤ fuel
    → Restores a (begin tokens rpath a) (assemble host fuel tokens rpath a)
unfolding assemble assemble_with
assemble-Restores host fuel tokens rpath a free h =
    let begun = begin tokens rpath a in
    elim (Bool-cases (a.options.base % 16 == 0)) [
      | inl e ↦
          rw (assemble, assemble_with, e)
            (restores a begun (assemble_loop host fuel begun)
              (assemble_loop-Moves host fuel begun free (omega arith)))
      | inr e ↦ rw (assemble, assemble_with, e) (refused assert)
    ]

abbrev state_of : Assembler → Result (Unit {0} × Assembler) → Assembler
state_of b (ok (u, c)) = c
state_of b (err e) = b

-- What holds of all that steps lead to, of the sections and the symbols, holds of the result.
returned :
    (P : Options → Map Section → Map SymbolLocation → Type 0) (a begun b : Assembler)
    (r : Result (Unit {0} × Assembler))
    → Restores a begun r
    → ((c : Assembler) → Reach begun c → P c.options c.sections c.lookup)
    → r ≡ ok (tt, b)
    → P b.options b.sections b.lookup
returned P a begun b _ (restored c s) k e =
    subst (λ (t : Assembler). P t.options t.sections t.lookup) (ap (state_of b) e) (k c s)
returned P a begun b _ (refused g) k e = absurd cc

module _ (host : Host) (fuel : ℕ) (tokens : List Token) (rpath : Option Bytes) (a b : Assembler)
    (free : NoInclude tokens) (enough : length tokens ≤ fuel)
    (done : assemble host fuel tokens rpath a ≡ ok (tt, b)) where
  -- Where the assembly of tokens without an .include returns, with a round for each of them as the
  -- fuel, a symbol that had a location before has the same location after it.
  pub assemble-find :
      (name : Bytes) (loc : SymbolLocation)
      → find name a.lookup ≡ some loc
      → find name b.lookup ≡ some loc
  assemble-find name loc known =
      returned (λ options sections lookup. find name lookup ≡ some loc) a (begin tokens rpath a) b _
        (assemble-Restores host fuel tokens rpath a free enough)
        (λ c s. Reach-lookup (begin tokens rpath a) c name loc s known) done

  -- Where the assembly of tokens without an `.include` returns, the sections have the indices from
  -- zero on, if they had them before.
  pub assemble-Numbered : Numbered a.sections → Numbered b.sections
  assemble-Numbered numbered =
      returned (λ options sections lookup. Numbered sections) a (begin tokens rpath a) b _
        (assemble-Restores host fuel tokens rpath a free enough)
        (λ c s. Reach-Numbered (begin tokens rpath a) c s numbered) done

  -- A section that there was is there still.
  pub assemble-Present : (n : Bytes) → Present a.sections n → Present b.sections n
  assemble-Present n there =
      returned (λ options sections lookup. Present sections n) a (begin tokens rpath a) b _
        (assemble-Restores host fuel tokens rpath a free enough)
        (λ c s. Reach-Present (begin tokens rpath a) c n s there) done

  -- Where the assembly of tokens without an `.include` returns, with a round for each of them as
  -- the fuel, what held of the state before still holds: the sections have the indices from zero
  -- on, each section is under its name and under no other one, and each symbol is in a section
  -- that there is. The options stay.
  pub assemble-IsSound :
      IsSound a.sections a.lookup → IsSound b.sections b.lookup × (b.options ≡ a.options)
  assemble-IsSound sound =
      returned (λ options sections lookup. IsSound sections lookup × (options ≡ a.options)) a
        (begin tokens rpath a) b _ (assemble-Restores host fuel tokens rpath a free enough)
        (λ c s. (
          Reach-IsSound (begin tokens rpath a) c s sound,
          Reach-options (begin tokens rpath a) c s,
        ))
        done
