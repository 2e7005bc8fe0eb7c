-- ===== src/Hex/Digits.antt =====
-- The digits that src/hex128.cpp writes, read back.
use bigassm.Prelude.{
  and-true, ℕ, zero, suc, ◌+◌, ◌-◌, ◌*◌, ◌/◌, ◌%◌, ◌^◌, ◌≡◌, ◌<◌, [], ◌∷◌, Bytes, ltb, Bool, true,
  ◌&&◌, ◌⊎◌, if◌then◌else◌, arith, ap, ◌∙◌, refl, ◌==◌, Bool-cases, inl, inr, ==_iff, length, ◌≤◌,
  false,
}
use bigassm.Hex.{lut, scan_length, write_digits, to_hex}
use bigassm.Prelude.Bits.{pow_add, pow_pos}
use native.Mathlib.Nat.{div-eq_of_lt, div-div-eq-div-mul, mod-eq_of_lt, mod-eq-sub-mul-div}

-- The value of an upper-case hexadecimal digit.
abbrev pub digit_value : ℕ → ℕ
digit_value c = if ltb c 0x3A then c - 0x30 else c - 0x37

-- The number that digits write, after those of `acc`.
abbrev pub read_hex : ℕ → Bytes → ℕ
read_hex acc [] = acc
read_hex acc (c ∷ cs) = read_hex (acc * 16 + digit_value c) cs

abbrev all_below : (ℕ → Bool) → ℕ → Bool
all_below f zero = true
all_below f (suc n) = f n && all_below f n

all_below-elim : (f : ℕ → Bool) (n : ℕ) → all_below f n ≡ true → (d : ℕ) → d < n → f d ≡ true
all_below-elim f zero e d h = absurd (omega arith)
all_below-elim f (suc n) e d h =
    let (here, rest) = and-true e in
    elim (eq_or_lt d n (omega arith)) [
      | inl same ↦ ap f same ∙ here
      | inr less ↦ all_below-elim f n rest d less
    ]
  where
    eq_or_lt : (d n : ℕ) → d < suc n → (d ≡ n) ⊎ (d < n)
    eq_or_lt d n h = grind arith

lut_value : (d : ℕ) → d < 16 → digit_value (lut d) ≡ d
unfolding lut
lut_value d h = (==_iff _ _).0 (all_below-elim (λ d. digit_value (lut d) == d) 16 refl d h)

byte_value :
    (acc v n : ℕ)
    → (acc * 16 + v / 2 ^ (n * 8 + 4) % 16) * 16 + v / 2 ^ (n * 8) % 16
      ≡ acc * 256 + v / 2 ^ (n * 8) % 256
byte_value acc v n = rw (pow_add 2 (n * 8) 4, ← div-div-eq-div-mul v (2 ^ (n * 8)) 16) (omega arith)

mod_bytes : (v p : ℕ) → 0 < p → v % (p * 256) ≡ v / p % 256 * p + v % p
mod_bytes v p h = omega (
  arith,
  mod-eq-sub-mul-div v (p * 256),
  ap (λ (t : ℕ). p * 256 * t) (div-div-eq-div-mul v p 256),
  ap (λ (t : ℕ). t * p) (digits_256 (v / p)),
  div_mod v p h,
)
  where
    digits_256 : (q : ℕ) → q ≡ q / 256 * 256 + q % 256
    digits_256 q = omega arith

    div_mod : (v p : ℕ) → 0 < p → v ≡ v / p * p + v % p
    div_mod v p h = omega (arith)

read-write_digits :
    (n acc value : ℕ)
    → read_hex acc (write_digits n value) ≡ acc * 2 ^ (n * 8) + value % 2 ^ (n * 8)
unfolding write_digits
read-write_digits zero acc value = omega arith
read-write_digits (suc n) acc value =
    let high = value / 2 ^ (n * 8 + 4) % 16 in
    let low = value / 2 ^ (n * 8) % 16 in
    let byte : (acc * 16 + digit_value (lut high)) * 16 + digit_value (lut low)
        ≡ acc * 256 + value / 2 ^ (n * 8) % 256 =
      omega (
        arith,
        lut_value high (omega arith),
        lut_value low (omega arith),
        byte_value acc value n,
      ) in
    let power : 2 ^ (suc n * 8) ≡ 2 ^ (n * 8) * 256 =
      ap (λ (k : ℕ). 2 ^ k) (omega arith) ∙ pow_add 2 (n * 8) 8 in
    ap (λ (t : ℕ). read_hex t (write_digits n value)) byte
    ∙ read-write_digits n (acc * 256 + value / 2 ^ (n * 8) % 256) value
    ∙ rw (power, mod_bytes value (2 ^ (n * 8)) (pow_pos (n * 8))) (omega arith)

twelve : (i : ℕ) → 0 + i ≡ 12 → 2 ^ ((16 - i) * 8) ≡ 2 ^ 32
twelve i e = ap (λ (k : ℕ). 2 ^ k) {y = 32} (omega arith)

quotient : (v p : ℕ) → 0 < p → v < p * 256 → v / p % 256 ≡ 0 → v < p
quotient v p h lt e = grind arith

top_zero :
    (i v : ℕ)
    → i < 12
    → v < 2 ^ ((16 - i) * 8)
    → v / 2 ^ ((15 - i) * 8) % 256 ≡ 0
    → v < 2 ^ ((16 - suc i) * 8)
top_zero i v h lt e =
    let power : 2 ^ ((16 - i) * 8) ≡ 2 ^ ((15 - i) * 8) * 256 =
      ap (λ (k : ℕ). 2 ^ k) (omega arith) ∙ pow_add 2 ((15 - i) * 8) 8 in
    let same : 2 ^ ((15 - i) * 8) ≡ 2 ^ ((16 - suc i) * 8) = ap (λ (k : ℕ). 2 ^ k) (omega arith) in
    omega (arith, quotient v (2 ^ ((15 - i) * 8)) (pow_pos ((15 - i) * 8)) (omega arith) e)

scan_fits :
    (n i value : ℕ)
    → n + i ≡ 12
    → value < 2 ^ ((16 - i) * 8)
    → value < 2 ^ (scan_length n i value / 2 * 8)
unfolding scan_length
scan_fits zero i value e h = omega (arith, h, twelve i e)
scan_fits (suc n) i value e h = elim (Bool-cases (value / 2 ^ ((15 - i) * 8) % 256 == 0)) [
  | inl z ↦ rw z (
      scan_fits n (suc i) value (omega arith) (top_zero i value (omega arith) h ((==_iff _ _).0 z)))
  | inr z ↦ rw z (omega (arith, h, ap (λ (k : ℕ). 2 ^ (k * 8)) (half i)))
]
  where
    half : (i : ℕ) → (32 - i * 2) / 2 ≡ 16 - i
    half i = omega arith

length-write_digits : (n value : ℕ) → length (write_digits n value) ≡ 2 * n
unfolding write_digits
length-write_digits zero value = refl
length-write_digits (suc n) value = omega (arith, length-write_digits n value)

-- The length is 8, or as long as the first byte that is not zero demands.
abbrev IsLeast : ℕ → ℕ → Type 0
IsLeast value len =
    (len % 2 ≡ 0) × (8 ≤ len) × (len ≤ 32) × ((8 < len) → 2 ^ ((len / 2 - 1) * 8) ≤ value)

scan-IsLeast : (n i value : ℕ) → n + i ≡ 12 → IsLeast value (scan_length n i value)
unfolding scan_length
scan-IsLeast zero i value e = (refl, omega arith, omega arith, λ h. absurd (omega arith))
scan-IsLeast (suc n) i value e = elim (Bool-cases (value / 2 ^ ((15 - i) * 8) % 256 == 0)) [
  | inl z ↦ rw z (scan-IsLeast n (suc i) value (omega arith))
  | inr z ↦ rw z (
    even i,
    omega arith,
    omega arith,
    λ h. omega (
      arith,
      ap (λ (k : ℕ). 2 ^ (k * 8)) (half i),
      reached value (2 ^ ((15 - i) * 8)) (pow_pos ((15 - i) * 8)) z,
    ),
  )
]
  where
    lt_or_le : (v p : ℕ) → (v < p) ⊎ (p ≤ v)
    lt_or_le v p = ground arith

    no_byte : {q : ℕ} → (q % 256 == 0) ≡ false → q ≡ 0 → ⊥
    no_byte e z = ground arith

    even : (i : ℕ) → (32 - i * 2) % 2 ≡ 0
    even i = omega arith

    half : (i : ℕ) → (32 - i * 2) / 2 - 1 ≡ 15 - i
    half i = omega arith

    reached : (v p : ℕ) → 0 < p → (v / p % 256 == 0) ≡ false → p ≤ v
    reached v p h e = elim (lt_or_le v p) [
      | inl lt ↦ absurd (no_byte e (div-eq_of_lt lt))
      | inr le ↦ le
    ]

-- The digits that to_hex writes for a 128-bit number read back as the number. They are as many as
-- the length that it returns, an even one from 8 to 32, and where they are more than 8 the first
-- byte that they write is not zero.
pub to_hex-reads :
    (value : ℕ)
    → value < 2 ^ 128
    → (read_hex 0 (to_hex value).1 ≡ value)
      × (length (to_hex value).1 ≡ (to_hex value).0)
      × ((to_hex value).0 % 2 ≡ 0)
      × (8 ≤ (to_hex value).0)
      × ((to_hex value).0 ≤ 32)
      × (8 < (to_hex value).0 → 2 ^ (((to_hex value).0 / 2 - 1) * 8) ≤ value)
unfolding to_hex
to_hex-reads value h =
    let len = scan_length 12 0 value in
    let n = len / 2 in
    let (even, least, most, top) = scan-IsLeast 12 0 value refl in
    (
      omega (arith, read-write_digits n 0 value, mod-eq_of_lt (scan_fits 12 0 value refl h)),
      omega (arith, length-write_digits n value, even),
      even,
      least,
      most,
      top,
    )
