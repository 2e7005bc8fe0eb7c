-- ===== src/Prelude/Bits.antt =====
-- Laws of `bit_and` and `bit_or` at variables, from the digit recursion that they stand for.
use Prim.Native.Nat.{
  ℕ, zero, suc, ◌+◌, ◌-◌, ◌*◌, ◌/◌, ◌%◌, ◌^◌, ◌≤◌, ◌<◌, min, max, digits, bitwise, bit_and, bit_or,
  bit_and-bitwise, bit_or-bitwise,
}
use mathlib.Core.Path.{◌≡◌, refl, sym, ap, ◌∙◌}
use native.Mathlib.Omega.{arith}
use Prim.Native.Nat.add
use native.Mathlib.Nat.{
  pow-suc, pow-zero, pow-succ', mul-one, div-one, mod-eq_of_lt, div-div-eq-div-mul,
}

no_digits : (g : ℕ → ℕ) (f : ℕ → ℕ → ℕ) (fuel y : ℕ) → digits g f fuel 0 y ≡ g y
no_digits g f zero y = refl
no_digits g f (suc fuel) y = refl

-- Beyond the number itself, more fuel changes nothing.
spare_digits :
    (g : ℕ → ℕ) (f : ℕ → ℕ → ℕ) (extra fuel x y : ℕ)
    → x ≤ fuel
    → digits g f (fuel + extra) x y ≡ digits g f fuel x y
spare_digits g f extra fuel zero y h = no_digits g f (fuel + extra) y ∙ sym (no_digits g f fuel y)
spare_digits g f extra zero (suc x) y h = absurd (omega arith)
spare_digits g f extra (suc fuel) (suc x) y h =
    let lower = spare_digits g f extra fuel (suc x / 2) (y / 2) (omega arith) in
    rw add.suc (ap (λ (t : ℕ). t * 2 + f (suc x % 2) (y % 2)) lower)

lowest_digit :
    (g : ℕ → ℕ) (f : ℕ → ℕ → ℕ) (x y : ℕ)
    → bitwise g f (suc x) y ≡ f (suc x % 2) (y % 2) + 2 * bitwise g f (suc x / 2) (y / 2)
lowest_digit g f x y =
    let half = suc x / 2 in
    let enough : digits g f x half (y / 2) ≡ bitwise g f half (y / 2) =
      ap (λ (fuel : ℕ). digits g f fuel half (y / 2)) {y = half + (x - half)} (omega arith)
      ∙ spare_digits g f (x - half) half half (y / 2) (omega arith) in
    omega (arith, enough)

pub bit_and_digit : (x y : ℕ) → bit_and x y ≡ min (x % 2) (y % 2) + 2 * bit_and (x / 2) (y / 2)
bit_and_digit x y = rw (bit_and-bitwise, bit_and-bitwise) (by_digit x)
  where
    by_digit :
        (x : ℕ)
        → bitwise (λ _. 0) min x y ≡ min (x % 2) (y % 2) + 2 * bitwise (λ _. 0) min (x / 2) (y / 2)
    by_digit zero = omega arith
    by_digit (suc x) = lowest_digit (λ _. 0) min x y

pub bit_or_digit : (x y : ℕ) → bit_or x y ≡ max (x % 2) (y % 2) + 2 * bit_or (x / 2) (y / 2)
bit_or_digit x y = rw (bit_or-bitwise, bit_or-bitwise) (by_digit x)
  where
    by_digit :
        (x : ℕ)
        → bitwise (λ b. b) max x y ≡ max (x % 2) (y % 2) + 2 * bitwise (λ b. b) max (x / 2) (y / 2)
    by_digit zero = omega arith
    by_digit (suc x) = lowest_digit (λ b. b) max x y

pub pow_add : (n a b : ℕ) → n ^ (a + b) ≡ n ^ a * n ^ b
pow_add n zero b = rw (add.zero, pow-zero) (omega arith)
pow_add n (suc a) b = rw (add.suc, pow-suc, pow-suc, pow_add n a b) (omega arith)

double_power : (k b : ℕ) → b * 2 ^ suc k ≡ b * 2 ^ k * 2
double_power k b = rw pow-suc (omega arith)

-- Numbers with no common bit: `|` is `+`.
pub bit_or_disjoint : (k a b : ℕ) → a < 2 ^ k → bit_or a (b * 2 ^ k) ≡ a + b * 2 ^ k
bit_or_disjoint zero zero b h = rw bit_or-bitwise (omega arith)
bit_or_disjoint zero (suc a) b h = absurd (omega arith)
bit_or_disjoint (suc k) a b h = rw (double_power k b) (
    omega (
      arith,
      bit_or_digit a (b * 2 ^ k * 2),
      ap (bit_or (a / 2)) (halve (b * 2 ^ k)),
      bit_or_disjoint k (a / 2) b (omega (arith, pow-suc 2 k)),
    ))
  where
    halve : (t : ℕ) → t * 2 / 2 ≡ t
    halve t = omega arith

halve : (t : ℕ) → t * 2 / 2 ≡ t
halve t = omega arith

bit_and-zero_below : (bound x : ℕ) → x < bound → bit_and x 0 ≡ 0
bit_and-zero_below zero x h = absurd (omega arith)
bit_and-zero_below (suc bound) zero h = refl
bit_and-zero_below (suc bound) (suc x) h =
    omega (arith, bit_and_digit (suc x) 0, bit_and-zero_below bound (suc x / 2) (omega arith))

pub bit_and-zero : (x : ℕ) → bit_and x 0 ≡ 0
bit_and-zero x = bit_and-zero_below (suc x) x (omega arith)

pub pow_pos : (n : ℕ) → 0 < 2 ^ n
pow_pos zero = omega arith
pow_pos (suc n) = omega (arith, pow-suc 2 n, pow_pos n)

pub mod_double : (a p : ℕ) → 0 < p → a % (p * 2) ≡ a / 2 % p * 2 + a % 2
mod_double a p h = grind arith

ones_halve : (p : ℕ) → 0 < p → (p * 2 - 1) / 2 ≡ p - 1
ones_halve p h = omega arith

-- A mask of n ones keeps the low n bits.
pub bit_and_ones : (n a : ℕ) → bit_and a (2 ^ n - 1) ≡ a % 2 ^ n
bit_and_ones zero a = omega (arith, bit_and-zero a)
bit_and_ones (suc n) a = rw pow-suc (
    omega (
      arith,
      bit_and_digit a (2 ^ n * 2 - 1),
      pow_pos n,
      ap (bit_and (a / 2)) (ones_halve (2 ^ n) (pow_pos n)),
      bit_and_ones n (a / 2),
      mod_double a (2 ^ n) (pow_pos n),
    ))

div_double : (a k : ℕ) → a / 2 / 2 ^ k ≡ a / 2 ^ suc k
div_double a k = rw pow-succ' (div-div-eq-div-mul a 2 (2 ^ k))

-- A mask whose low k bits are clear clears the low k bits.
pub bit_and_shifted : (k a m : ℕ) → bit_and a (m * 2 ^ k) ≡ bit_and (a / 2 ^ k) m * 2 ^ k
bit_and_shifted zero a m = rw (mul-one, div-one) (omega arith)
bit_and_shifted (suc k) a m = rw (double_power k m) (
    omega (
      arith,
      bit_and_digit a (m * 2 ^ k * 2),
      ap (bit_and (a / 2)) (halve (m * 2 ^ k)),
      bit_and_shifted k (a / 2) m,
      ap (λ (t : ℕ). bit_and t m * 2 ^ k) (div_double a k),
      double_power k (bit_and (a / 2 ^ suc k) m),
    ))

bit_or_comm_fuel : (n a b : ℕ) → a ≤ n → b ≤ n → bit_or a b ≡ bit_or b a
bit_or_comm_fuel zero zero zero h k = refl
bit_or_comm_fuel zero (suc a) b h k = absurd (omega arith)
bit_or_comm_fuel zero zero (suc b) h k = absurd (omega arith)
bit_or_comm_fuel (suc n) a b h k = omega (
  arith,
  bit_or_digit a b,
  bit_or_digit b a,
  bit_or_comm_fuel n (a / 2) (b / 2) (omega arith) (omega arith),
)

pub bit_or_comm : (a b : ℕ) → bit_or a b ≡ bit_or b a
bit_or_comm a b = bit_or_comm_fuel (a + b) a b (omega arith) (omega arith)

-- `x & ~(2 ^ k - 1)` on a word of `w` bits.
pub bit_and_clear : (w k x : ℕ) → k ≤ w → x < 2 ^ w → bit_and x (2 ^ w - 2 ^ k) ≡ x / 2 ^ k * 2 ^ k
bit_and_clear w k x h hx =
    let whole : 2 ^ w ≡ 2 ^ (w - k) * 2 ^ k =
      ap (λ (n : ℕ). 2 ^ n) (omega arith) ∙ pow_add 2 (w - k) k in
    ap (bit_and x) (mask (2 ^ w) (2 ^ k) (2 ^ (w - k)) whole (pow_pos (w - k)))
    ∙ bit_and_shifted k x (2 ^ (w - k) - 1)
    ∙ ap (λ (t : ℕ). t * 2 ^ k)
        (bit_and_ones (w - k) (x / 2 ^ k)
          ∙ mod-eq_of_lt (quotient (2 ^ w) (2 ^ k) (2 ^ (w - k)) x whole hx))
  where
    less : (m : ℕ) → suc m - 1 ≡ m
    less m = omega arith

    mask : (W K M : ℕ) → W ≡ M * K → 0 < M → W - K ≡ (M - 1) * K
    mask W K zero e h = absurd (omega arith)
    mask W K (suc m) e h = omega (arith, ap (λ (t : ℕ). t * K) (less m))

    quotient : (W K M x : ℕ) → W ≡ M * K → x < W → x / K < M
    quotient W K M x e h = grind arith
