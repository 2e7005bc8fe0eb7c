-- ===== src/Assembler/State.antt =====
-- src/assembler.hpp: `struct Options`, `struct Assembler` and the closures that it keeps, with the
-- monad in which the methods run.
use bigassm.Prelude.{
  ◌+◌, ◌^◌, ◌&&◌, ltb, leb, if◌then◌else◌, ℕ, Bool, true, false, Option, none, some, List, Bytes,
  codes, Map,
}
use bigassm.Prelude.Words.{add_word}
use bigassm.Types.{undefined, Token, Error, Result, ok, err}
use bigassm.Section.{Section}

-- `struct Options`
pub record Options : Type 0 where
  pub base : ℕ
  pub entry : Bytes
  pub section_attr_page_separation : Bool
  pub verbose_labels : Bool

unfoldable pub default_options : Options
default_options = record {
  base = 0x100000;
  entry = codes "_start";
  section_attr_page_separation = true;
  verbose_labels = false;
}

-- `struct SymbolLocation`; the pointer to the section is the section's key.
pub record SymbolLocation : Type 0 where
  pub section : Bytes
  pub offset : ℕ
  pub type : ℕ
  pub size : ℕ

-- The closures that the code schedules, each with what it captures.
pub data Scheduled : Type 0 where
  -- of `.endfunc`, `.size` (with `loc` and `dataloc`) and `symbol_set_type`
  end_function : SymbolLocation → Scheduled
  set_size : SymbolLocation → SymbolLocation → Scheduled
  set_type : ℕ → Scheduled
  -- of OP_LA, OP_LAQ, the branches, OP_FARCALL, and of OP_CALL and OP_JMP alike
  patch_la patch_laq patch_branch patch_farcall patch_jump : SymbolLocation → Scheduled

-- `struct Assembler`; `m_current_section` is the key of the section.
pub record Assembler : Type 0 where
  pub options : Options
  pub tokens : List Token
  pub index : ℕ
  pub current_section : Bytes
  pub sections : Map Section
  pub lookup : Map SymbolLocation
  pub schedule : Map (List Scheduled)
  pub globals : List Bytes
  pub realpath : Option Bytes

-- A method returns its result and the new state, or what it throws.
abbrev pub Asm {ℓ} : Type ℓ → Type ℓ
Asm A = Assembler → Result (A × Assembler)

abbrev pub pure {ℓ} : {A : Type ℓ} → A → Asm A
pure x a = ok (x, a)

abbrev pub throw {ℓ} : {A : Type ℓ} → Error → Asm A
throw e a = err e

abbrev pub and_then {ℓ κ} :
    {A : Type ℓ} {B : Type κ} → Result (A × Assembler) → (A → Asm B) → Result (B × Assembler)
and_then (ok (x, a)) f = f x a
and_then (err e) f = err e

infixl 5 ◌>>=◌
abbrev pub ◌>>=◌ {ℓ κ} : {A : Type ℓ} {B : Type κ} → Asm A → (A → Asm B) → Asm B
◌>>=◌ m f a = and_then (m a) f

infixl 5 ◌>>◌
abbrev pub ◌>>◌ {ℓ} : {B : Type ℓ} → Asm (Unit {0}) → Asm B → Asm B
first >> rest = first >>= λ done. rest

abbrev pub get : Asm Assembler
get a = ok (a, a)

abbrev pub modify : (Assembler → Assembler) → Asm (Unit {0})
modify f a = ok (tt, f a)

abbrev pub from_option {ℓ} : {A : Type ℓ} → Error → Option A → Asm A
from_option e none = throw e
from_option e (some x) = pure x

-- A call that does not touch the assembler.
abbrev pub lift {ℓ} : {A : Type ℓ} → Result A → Asm A
lift (ok x) = pure x
lift (err e) = throw e

-- `value + imm` for an `int32_t` and a bit-field of 12 bits, which is promoted to `int`: a sum above
-- the greatest `int` is undefined.
unfoldable pub int_sum : ℕ → ℕ → Asm ℕ
int_sum value imm =
    if ltb value (2 ^ 31) && leb (2 ^ 31) (value + imm)
    then throw undefined
    else pure (add_word 32 value imm)
