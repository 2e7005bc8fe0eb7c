-- ===== src/Section/Align.antt =====
-- `Section::align` of src/section.cpp for alignments that are powers of two, and for zero.
use bigassm.Prelude.{
  ℕ, zero, suc, ◌+◌, ◌-◌, ◌*◌, ◌/◌, ◌%◌, ◌^◌, ◌≡◌, ◌≤◌, ◌<◌, [], ◌∷◌, ◌++◌, List, Bytes, ap, refl,
  arith, length, resize, take, replicate, ◌==◌, Bool-cases, inl, inr, ==_iff,
}
use mathlib.Core.List.{append-nil}
use native.Mathlib.Nat.{pow-le-pow_right, mul-mod_left}
use bigassm.Prelude.Bits.{bit_and_clear, bit_and-zero, pow_pos}
use bigassm.Section.{Section, size, align, aligned_size}

aligned_size-power :
    (s k : ℕ)
    → k ≤ 63
    → s + 2 ^ k ≤ 2 ^ 64
    → aligned_size s (2 ^ k) ≡ (s + 2 ^ k - 1) / 2 ^ k * 2 ^ k
unfolding aligned_size
aligned_size-power s k h fits =
    let below : 2 ^ k ≤ 2 ^ 63 = pow-le-pow_right (omega arith) h in
    let pos : 0 < 2 ^ k = pow_pos k in
    rw (mask_value (2 ^ k) pos below, sum_value s (2 ^ k) pos fits, complement (2 ^ k) pos below)
      (bit_and_clear 64 k (s + 2 ^ k - 1) (omega arith) (omega arith))
  where
    mask_value : (p : ℕ) → 0 < p → p ≤ 2 ^ 63 → (p + 2 ^ 64 - 1) % 2 ^ 64 ≡ p - 1
    mask_value p h k = omega arith

    sum_value : (s p : ℕ) → 0 < p → s + p ≤ 2 ^ 64 → (s + (p - 1)) % 2 ^ 64 ≡ s + p - 1
    sum_value s p h k = omega arith

    complement : (p : ℕ) → 0 < p → p ≤ 2 ^ 63 → 2 ^ 64 - 1 - (p - 1) ≡ 2 ^ 64 - p
    complement p h k = omega arith

rounded : (s p : ℕ) → 0 < p → (s ≤ (s + p - 1) / p * p) × ((s + p - 1) / p * p < s + p)
rounded s p h = (grind arith, grind arith)

-- The aligned size for a power of two up to 2 ^ 63 is the least multiple of it that is not less
-- than the size, where it is below 2 ^ 64.
pub aligned_size-least :
    (s k : ℕ)
    → k ≤ 63
    → s + 2 ^ k ≤ 2 ^ 64
    → (aligned_size s (2 ^ k) % 2 ^ k ≡ 0)
      × (s ≤ aligned_size s (2 ^ k))
      × (aligned_size s (2 ^ k) < s + 2 ^ k)
aligned_size-least s k h fits =
    let e = aligned_size-power s k h fits in
    let (lo, hi) = rounded s (2 ^ k) (pow_pos k) in
    (rw e (mul-mod_left _ (2 ^ k)), rw e lo, rw e hi)

take_all : {A : Type 0} (n : ℕ) (xs : List A) → length xs ≤ n → take n xs ≡ xs
take_all zero [] h = refl
take_all zero (x ∷ xs) h = absurd (omega arith)
take_all (suc n) [] h = refl
take_all (suc n) (x ∷ xs) h = ap (λ (t : List _). x ∷ t) (take_all n xs (omega arith))

resize_up : (n : ℕ) (xs : Bytes) → length xs ≤ n → resize n xs ≡ xs ++ replicate (n - length xs) 0
unfolding resize
resize_up n xs h = rw (take_all n xs h) refl

-- Aligning a section to a power of two up to 2 ^ 63 keeps its output, puts zeros behind it up to
-- the aligned size and changes nothing else, where that size is below 2 ^ 64.
pub align-output :
    (s : Section) (k : ℕ)
    → k ≤ 63
    → size s + 2 ^ k ≤ 2 ^ 64
    → align (2 ^ k) s
      ≡ record s { output = s.output ++ replicate (aligned_size (size s) (2 ^ k) - size s) 0 }
unfolding align size
align-output s k h fits =
    let (_, more, _) = aligned_size-least (length s.output) k h fits in
    elim (Bool-cases (length s.output == aligned_size (length s.output) (2 ^ k))) [
      | inl e ↦
          let none : aligned_size (length s.output) (2 ^ k) - length s.output ≡ 0 =
            omega (arith, (==_iff _ _).0 e) in
          rw (e, none, append-nil) refl
      | inr e ↦ rw (e, resize_up (aligned_size (length s.output) (2 ^ k)) s.output more) refl
    ]

-- An alignment of zero empties the section: `& ~(0 - 1)` leaves nothing of the size.
pub align_zero : (s : Section) → align 0 s ≡ record s { output = [] }
unfolding align size aligned_size
align_zero s = rw bit_and-zero (elim (Bool-cases (length s.output == 0)) [
  | inl e ↦
      rw e (ap (λ (out : Bytes). record s { output = out }) (no_bytes s.output ((==_iff _ _).0 e)))
  | inr e ↦ rw e (ap (λ (n : ℕ). record s { output = replicate n 0 }) (sub_left (length s.output)))
])
  where
    no_bytes : (xs : Bytes) → length xs ≡ 0 → xs ≡ []
    no_bytes [] h = refl
    no_bytes (x ∷ xs) h = absurd (omega arith)

    sub_left : (n : ℕ) → 0 - n ≡ 0
    sub_left n = omega arith
