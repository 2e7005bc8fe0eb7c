-- ===== src/Elf/Vector.antt =====
-- `elfbin` of src/elfwriter.cpp, the vector that the writer fills while it holds references into
-- its beginning.
use bigassm.Prelude.{ℕ, ◌+◌, Option, none, some, ◌++◌, Bytes, length, leb, if◌then◌else◌}
use Prim.Native.Nat.{max}
use bigassm.Types.{Error, Result, ok, err, undefined}
use bigassm.Assembler.{Assembler}

-- The `head` bytes of the headers, which the writer changes through references and which stand in
-- records of their own here, and the bytes behind them.
pub record Vector : Type 0 where
  pub head : ℕ
  pub body : Bytes

-- A step of the writer returns its result and the new vector, or what it throws.
abbrev pub Out {ℓ} : Type ℓ → Type ℓ
Out A = Vector → Result (A × Vector)

abbrev pub pure {ℓ} : {A : Type ℓ} → A → Out A
pure x v = ok (x, v)

abbrev pub and_then {ℓ κ} :
    {A : Type ℓ} {B : Type κ} → Result (A × Vector) → (A → Out B) → Result (B × Vector)
and_then (ok (x, v)) f = f x v
and_then (err e) f = err e

infixl 5 ◌>>=◌
abbrev pub ◌>>=◌ {ℓ κ} : {A : Type ℓ} {B : Type κ} → Out A → (A → Out B) → Out B
◌>>=◌ m f v = and_then (m v) f

infixl 5 ◌>>◌
abbrev pub ◌>>◌ {ℓ} : {B : Type ℓ} → Out (Unit {0}) → Out B → Out B
first >> rest = first >>= λ done. rest

abbrev pub lift {ℓ} : {A : Type ℓ} → Result A → Out A
lift (ok x) = pure x
lift (err e) = λ v. err e

abbrev pub from_option {ℓ} : {A : Type ℓ} → Error → Option A → Out A
from_option e none = λ v. err e
from_option e (some x) = pure x

-- The result of a method that leaves the assembler as it is.
abbrev pub result {ℓ} : {A : Type ℓ} → Result (A × Assembler) → Result A
result (ok (x, a)) = ok x
result (err e) = err e

-- `elfbin.size()`
abbrev pub position : Out ℕ
position v = ok (v.head + length v.body, v)

-- `elfbin.insert(elfbin.end(), ...)`
abbrev pub append : Bytes → Out (Unit {0})
append bytes v = ok (tt, record v { body = v.body ++ bytes })

-- What `reserve(262144)` and `resize(head)` leave as the capacity.
abbrev pub capacity : Vector → ℕ
capacity v = max 262144 v.head

-- An access through a reference into the headers. Once the vector has outgrown its capacity it has
-- moved, and the access is undefined.
abbrev pub access : Out (Unit {0})
access v = if leb (v.head + length v.body) (capacity v) then ok (tt, v) else err undefined
