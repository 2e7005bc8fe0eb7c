-- ===== src/Assembler/Steady.antt =====
-- Methods of src/assemble.cpp and handlers that change the state in steps, or throw.
use bigassm.Prelude.{
  ℕ, zero, suc, ◌+◌, ◌≤◌, ◌≡◌, ◌≢◌, refl, ap, ◌∙◌, Bool, true, false, Option, none, some, List, [],
  ◌∷◌, Bytes, length, get_elem?, if◌then◌else◌, find, update, Option-cases, inl, inr, if-intro,
  ◌==◌, ◌++◌, arith,
}
use mathlib.Core.Path.{subst}
use bigassm.Types.{
  Token, Error, Result, ok, err, out_of_range, invalid_argument, token_exception, runtime_error,
  assertion, division_by_zero, undefined, out_of_fuel,
}
use bigassm.Assembler.State.{
  Assembler, Asm, pure, throw, get, modify, from_option, and_then, ◌>>=◌, ◌>>◌,
}
use bigassm.Assembler.Steps.{
  SameKey, same-SameKey, Step, take_token, edit_section, create_section, enter_section,
  place_symbol, schedule_work, export_name, Reach, stay, step_on, Reach-trans,
}

-- What the code throws, as against the end of the model's fuel.
pub data Genuine : Error → Type 0 where
  range : Genuine out_of_range
  argument : Genuine invalid_argument
  exception : (tk : Token) (info : Bytes) → Genuine (token_exception tk info)
  runtime : (what : Bytes) → Genuine (runtime_error what)
  assert : Genuine assertion
  zero_division : Genuine division_by_zero
  undefined_behaviour : Genuine undefined

pub genuine : (e : Error) → e ≢ out_of_fuel → Genuine e
genuine out_of_range h = range
genuine invalid_argument h = argument
genuine (token_exception tk info) h = exception tk info
genuine (runtime_error what) h = runtime what
genuine assertion h = assert
genuine division_by_zero h = zero_division
genuine undefined h = undefined_behaviour
genuine out_of_fuel h = absurd (h refl)

-- A result in a state that steps lead to, or an error of the code.
pub data Moves {ℓ} {A : Type ℓ} (a : Assembler) : Result (A × Assembler) → Type ℓ where
  moved : (x : A) (b : Assembler) → Reach a b → Moves a (ok (x, b))
  thrown : {e : Error} → Genuine e → Moves a (err e)

pub record Steady {ℓ} {A : Type ℓ} (m : Asm A) : Type ℓ where
  pub at : (a : Assembler) → Moves a (m a)

pub Moves-trans {ℓ} :
    {A : Type ℓ} (a b : Assembler) (r : Result (A × Assembler)) → Reach a b → Moves b r → Moves a r
Moves-trans a b _ r (moved x c s) = moved x c (Reach-trans a b c r s)
Moves-trans a b _ r (thrown g) = thrown g

-- The steps to a result.
pub Moves-Reach {ℓ} :
    {A : Type ℓ} (a b : Assembler) (x : A) (r : Result (A × Assembler))
    → Moves a r
    → r ≡ ok (x, b)
    → Reach a b
Moves-Reach {A} a b x _ (moved y c s) e = subst (Reach a) (ap (state_of b) e) s
  where
    state_of : Assembler → Result (A × Assembler) → Assembler
    state_of b (ok (u, c)) = c
    state_of b (err e) = b
Moves-Reach a b x _ (thrown g) e = absurd cc

pub bind-Moves {ℓ κ} :
    {A : Type ℓ} {B : Type κ} (a : Assembler) (r : Result (A × Assembler)) (f : A → Asm B)
    → Moves a r
    → ((x : A) → Steady (f x))
    → Moves a (and_then r f)
bind-Moves a _ f (moved x b t) k = Moves-trans a b (f x b) t ((k x).at b)
bind-Moves a _ f (thrown g) k = thrown g

pub pure-Steady {ℓ} : {A : Type ℓ} (x : A) → Steady (pure x)
pure-Steady x = record { at = λ a. moved x a stay }

pub throw-Steady {ℓ} : {A : Type ℓ} {e : Error} → Genuine e → Steady {A = A} (throw e)
throw-Steady g = record { at = λ a. thrown g }

pub bind-Steady {ℓ κ} :
    {A : Type ℓ} {B : Type κ} {m : Asm A} {f : A → Asm B}
    → Steady m
    → ((x : A) → Steady (f x))
    → Steady (m >>= f)
bind-Steady {m = m} {f = f} p q = record { at = λ a. bind-Moves a (m a) f (p.at a) q }

pub then-Steady {ℓ} :
    {B : Type ℓ} {m : Asm (Unit {0})} {n : Asm B} → Steady m → Steady n → Steady (m >> n)
then-Steady p q = bind-Steady p (λ done. q)

pub if-Steady {ℓ} :
    {A : Type ℓ} (t : Bool) (m n : Asm A) → Steady m → Steady n → Steady (if t then m else n)
if-Steady true m n p q = p
if-Steady false m n p q = q

pub get-Steady : Steady get
get-Steady = record { at = λ a. moved a a stay }

pub from_option-Steady {ℓ} :
    {A : Type ℓ} {e : Error} (o : Option A) → Genuine e → Steady (from_option e o)
from_option-Steady none g = throw-Steady g
from_option-Steady (some x) g = pure-Steady x

pub modify-Steady :
    (f : Assembler → Assembler) → ((a : Assembler) → Step a (f a)) → Steady (modify f)
modify-Steady f t = record { at = λ a. moved tt (f a) (step_on stay (t a)) }

pub option-Steady {ℓ κ} :
    {A : Type ℓ} {B : Type κ} (o : Option A) (f : A → Asm B) (n : Asm B)
    → ((x : A) → Steady (f x))
    → Steady n
    → Steady (elim o [ some x ↦ f x | none ↦ n ])
option-Steady none f n p q = q
option-Steady (some x) f n p q = p x

-- The same at one state, with what the option is.
pub option-Moves {ℓ κ} :
    {A : Type ℓ} {B : Type κ} (a : Assembler) (o : Option A) (f : A → Asm B) (n : Asm B)
    → ((x : A) → o ≡ some x → Moves a (f x a))
    → (o ≡ none → Moves a (n a))
    → Moves a ((elim o as (λ o. Asm B) [ some x ↦ f x | none ↦ n ]) a)
option-Moves a none f n p q = q refl
option-Moves a (some x) f n p q = p x refl

pub ruleset monad_rules = (
  pure-Steady, throw-Steady, bind-Steady, then-Steady, if-Steady, get-Steady, from_option-Steady,
  modify-Steady, option-Steady, refl, edit_section, enter_section, schedule_work, export_name,
  range, argument, exception, runtime, assert, zero_division, undefined_behaviour,
)
