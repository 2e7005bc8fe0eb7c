-- ===== src/Assembler/Yields.antt =====
-- What the methods of src/assembler.hpp return, where they return.
use bigassm.Prelude.{◌≡◌, refl, Bool, true, false, if◌then◌else◌}
use mathlib.Core.Path.{subst}
use bigassm.Types.{ok, err, Error, Result}
use bigassm.Assembler.{Assembler, Asm, pure, throw, ◌>>=◌, ◌>>◌, and_then}

-- What a method returns, where it returns.
pub record Yields {ℓ} {A : Type ℓ} (P : A → Type 0) (m : Asm A) : Type ℓ where
  pub at : (a b : Assembler) (x : A) → m a ≡ ok (x, b) → P x

ok_eq {ℓ} :
    {A : Type ℓ} {x y : A} {a b : Assembler}
    → ◌≡◌ {A = Result (A × Assembler)} (ok (x, a)) (ok (y, b))
    → x ≡ y
ok_eq e = cc

pub pure-Yields {ℓ} : {A : Type ℓ} {P : A → Type 0} (x : A) → P x → Yields P (pure x)
pure-Yields {P = P} x p = record { at = λ a b y e. subst P (ok_eq e) p }

pub throw-Yields {ℓ} : {A : Type ℓ} {P : A → Type 0} (e : Error) → Yields P (throw e)
throw-Yields e = record { at = λ a b x h. absurd cc }

and_then-Yields {ℓ κ} :
    {A : Type ℓ} {B : Type κ} {Q : A → Type 0} {P : B → Type 0} (r : Result (A × Assembler))
    (f : A → Asm B)
    → ((x : A) (b : Assembler) → r ≡ ok (x, b) → Q x)
    → ((x : A) → Q x → Yields P (f x))
    → (b : Assembler) (y : B) → and_then r f ≡ ok (y, b)
    → P y
and_then-Yields (ok (x, a)) f q k b y e = (k x (q x a refl)).at a b y e
and_then-Yields (err g) f q k b y e = absurd cc

-- A step whose result has Q, and what follows it.
pub bind-Yields {ℓ κ} :
    {A : Type ℓ} {B : Type κ} {Q : A → Type 0} {P : B → Type 0} (m : Asm A) (f : A → Asm B)
    → Yields Q m
    → ((x : A) → Q x → Yields P (f x))
    → Yields P (m >>= f)
bind-Yields m f q k = record {
  at = λ a b y e. and_then-Yields (m a) f (λ x c h. q.at a c x h) k b y e;
}

-- A step with any result.
pub after-Yields {ℓ κ} :
    {A : Type ℓ} {B : Type κ} {P : B → Type 0} (m : Asm A) (f : A → Asm B)
    → ((x : A) → Yields P (f x))
    → Yields P (m >>= f)
after-Yields m f k =
    bind-Yields {Q = λ x. Unit {0}} m f (record { at = λ a b x e. tt }) (λ x q. k x)

pub then-Yields {ℓ} :
    {B : Type ℓ} {P : B → Type 0} (m : Asm (Unit {0})) (n : Asm B) → Yields P n → Yields P (m >> n)
then-Yields m n k = after-Yields m (λ x. n) (λ x. k)

pub if-Yields {ℓ} :
    {A : Type ℓ} {P : A → Type 0} (t : Bool) (m n : Asm A)
    → Yields P m
    → Yields P n
    → Yields P (if t then m else n)
if-Yields true m n p q = p
if-Yields false m n p q = q
