-- ===== src/Tokenizer/Numbers.antt =====
-- The functions of the C++ library by which src/tokenizer.cpp reads numbers: `std::stoull` to the
-- bases 16 and 2, and `atoi`.
use bigassm.Prelude.{
  ℕ, ◌+◌, ◌-◌, ◌*◌, ◌%◌, ◌^◌, Bool, true, false, ◌&&◌, ◌||◌, Option, none, some, [], ◌∷◌, Bytes,
  ltb, leb, ◌==◌, if◌then◌else◌,
}
use bigassm.Types.{Result, ok, err, out_of_range, invalid_argument, undefined}

unfoldable pub is_space : ℕ → Bool
is_space c = c == b' ' || (leb 9 c && leb c 13)

unfoldable pub skip_space : Bytes → Bytes
unfolding is_space
skip_space [] = []
skip_space (c ∷ s) = if is_space c then skip_space s else c ∷ s

unfoldable pub digit_value : ℕ → Option ℕ
digit_value c =
    if leb b'0' c && leb c b'9'
    then some (c - b'0')
    else if leb b'a' c && leb c b'f'
    then some (c - b'a' + 10)
    else if leb b'A' c && leb c b'F'
    then some (c - b'A' + 10)
    else none

unfoldable pub digit_of_base : ℕ → ℕ → Option ℕ
unfolding digit_value
digit_of_base base c = elim (digit_value c) [
  | some d ↦ if ltb d base then some d else none
  | none ↦ none
]

-- The value of the digits in front, behind those that gave `acc`; `none` if there is no digit.
unfoldable pub read_digits : ℕ → Option ℕ → Bytes → Option ℕ
read_digits base acc [] = acc
read_digits base acc (c ∷ s) =
    let more =
      λ (d : ℕ). read_digits base (some (elim acc [ some n ↦ n * base + d | none ↦ d ])) s in
    elim (digit_of_base base c) [ some d ↦ more d | none ↦ acc ]

-- A sign, and what follows it; `true` is minus.
abbrev pub read_sign : Bytes → Bool × Bytes
read_sign [] = (false, [])
read_sign (c ∷ s) =
    if c == b'-' then (true, s) else if c == b'+' then (false, s) else (false, c ∷ s)

abbrev starts_with_digit : ℕ → Bytes → Bool
starts_with_digit base [] = false
starts_with_digit base (c ∷ s) = elim (digit_of_base base c) [ some d ↦ true | none ↦ false ]

-- To the base 16, `0x` before a digit is passed over.
abbrev pub skip_prefix : ℕ → Bytes → Bytes
skip_prefix base (z ∷ x ∷ s) =
    if base == 16 && (z == b'0' && ((x == b'x' || x == b'X') && starts_with_digit base s))
    then s
    else z ∷ x ∷ s
skip_prefix base s = s

-- `std::stoull(s, nullptr, base)`: a negative number wraps.
unfoldable pub stoull : ℕ → Bytes → Result ℕ
unfolding skip_space read_digits digit_of_base
stoull base s =
    let (negative, digits) = read_sign (skip_space s) in
    elim (read_digits base none (skip_prefix base digits)) [
      | none ↦ err invalid_argument
      | some n ↦
          if ltb n (2 ^ 64)
          then ok (if negative then (2 ^ 64 - n) % 2 ^ 64 else n)
          else err out_of_range
    ]

-- `atoi(s)` as an `int64_t`; a number that is no `int` is undefined.
unfoldable pub atoi : Bytes → Result ℕ
unfolding skip_space read_digits digit_of_base
atoi s =
    let (negative, digits) = read_sign (skip_space s) in
    elim (read_digits 10 none digits) [
      | none ↦ ok 0
      | some n ↦
          if negative
          then if leb n (2 ^ 31) then ok ((2 ^ 64 - n) % 2 ^ 64) else err undefined
          else if ltb n (2 ^ 31)
          then ok n
          else err undefined
    ]
