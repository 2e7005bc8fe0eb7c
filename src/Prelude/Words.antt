-- ===== src/Prelude/Words.antt =====
-- Machine words as native numbers: a w-bit word is its bit pattern below 2 ^ w.
use Prim.Native.Nat.{ℕ, ◌+◌, ◌-◌, ◌/◌, ◌%◌, ◌^◌}
use mathlib.Core.Bool.{Bool}
use bigassm.Prelude.Tests.{ltb, if◌then◌else◌}

-- a + b and a - b on w-bit words
abbrev pub add_word : ℕ → ℕ → ℕ → ℕ
add_word w a b = (a + b) % 2 ^ w

abbrev pub sub_word : ℕ → ℕ → ℕ → ℕ
sub_word w a b = (a + 2 ^ w - b) % 2 ^ w

-- -n as a w-bit word, for 0 < n ≤ 2 ^ w
abbrev pub neg : ℕ → ℕ → ℕ
neg w n = 2 ^ w - n

-- A signed w-bit value widened to v bits, w ≤ v.
abbrev pub sext : ℕ → ℕ → ℕ → ℕ
sext w v x = if ltb (x % 2 ^ w) (2 ^ (w - 1)) then x % 2 ^ w else x % 2 ^ w + (2 ^ v - 2 ^ w)

-- `x >> k` on a signed w-bit word: the sign fills from the left.
abbrev pub asr : ℕ → ℕ → ℕ → ℕ
asr w x k = if ltb x (2 ^ (w - 1)) then x / 2 ^ k else x / 2 ^ k + (2 ^ w - 2 ^ w / 2 ^ k)

-- a < b on signed w-bit words
abbrev pub slt : ℕ → ℕ → ℕ → Bool
slt w a b = ltb ((a + 2 ^ (w - 1)) % 2 ^ w) ((b + 2 ^ (w - 1)) % 2 ^ w)
