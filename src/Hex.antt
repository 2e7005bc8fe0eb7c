-- ===== src/Hex.antt =====
-- src/hex128.cpp: a 128-bit number in hexadecimal digits.
pub mod Digits
use bigassm.Prelude.{
  ℕ, zero, suc, ◌+◌, ◌-◌, ◌*◌, ◌/◌, ◌%◌, ◌^◌, [], ◌∷◌, ◌++◌, Bytes, codes, get_elem?, ◌==◌,
  if◌then◌else◌, replicate, none, some,
}

-- `lut[d]`
unfoldable pub lut : ℕ → ℕ
lut d = elim (get_elem? (codes "0123456789ABCDEF") d) [ some c ↦ c | none ↦ 0 ]

-- The first loop, in round `i` with `n` rounds left: the length without leading zero bytes.
unfoldable pub scan_length : ℕ → ℕ → ℕ → ℕ
scan_length zero i value = 8
scan_length (suc n) i value =
    let rest = scan_length n (suc i) value in
    if value / 2 ^ ((15 - i) * 8) % 256 == 0 then rest else 32 - i * 2

-- The second loop, with `n` bytes left: the two digits of each byte.
unfoldable pub write_digits : ℕ → ℕ → Bytes
unfolding lut
write_digits zero value = []
write_digits (suc n) value =
    lut (value / 2 ^ (n * 8 + 4) % 16) ∷ lut (value / 2 ^ (n * 8) % 16) ∷ write_digits n value

-- `to_hex` of a buffer of 32 bytes: the length that it returns, and what it writes.
unfoldable pub to_hex : ℕ → ℕ × Bytes
unfolding scan_length write_digits
to_hex value = let len = scan_length 12 0 value in (len, write_digits (len / 2) value)

-- The string keeps its 32 bytes: zeros behind the digits.
unfoldable pub to_hex_string : ℕ → Bytes
unfolding to_hex
to_hex_string value = let (len, digits) = to_hex value in digits ++ replicate (32 - len) 0
