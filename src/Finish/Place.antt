-- ===== src/Finish/Place.antt =====
-- Where src/assemble.cpp's `resolve_base_addresses` puts a section.
use bigassm.Prelude.{
  ℕ, ◌+◌, ◌*◌, ◌/◌, ◌%◌, ◌^◌, ◌≡◌, ◌≤◌, ◌<◌, true, false, refl, ap, ◌∙◌, arith, if-intro,
  Bool-cases, inl, inr,
}
use bigassm.Prelude.Bits.{bit_and_clear}
use native.Mathlib.Nat.{mod-eq_of_lt}
use bigassm.Section.{Section, size}
use bigassm.Assembler.{Options}
use bigassm.Finish.{Layout, round_up, realign, place}

round_up-page : (x : ℕ) → x + 0xFFF < 2 ^ 128 → round_up 0xFFF x ≡ (x + 0xFFF) / 4096 * 4096
unfolding round_up
round_up-page x h = rw (no_wrap x h) (bit_and_clear 128 12 (x + 0xFFF) (omega arith) h)
  where
    no_wrap : (x : ℕ) → x + 0xFFF < 2 ^ 128 → (x + 0xFFF) % 2 ^ 128 ≡ x + 0xFFF
    no_wrap x h = omega arith

round_up-sixteen : (x : ℕ) → x + 0xF < 2 ^ 128 → round_up 0xF x ≡ (x + 0xF) / 16 * 16
unfolding round_up
round_up-sixteen x h = rw (no_wrap x h) (bit_and_clear 128 4 (x + 0xF) (omega arith) h)
  where
    no_wrap : (x : ℕ) → x + 0xF < 2 ^ 128 → (x + 0xF) % 2 ^ 128 ≡ x + 0xF
    no_wrap x h = omega arith

rounded_page :
    (x : ℕ) → x + 0xFFF < 2 ^ 128 → (x ≤ round_up 0xFFF x) × (round_up 0xFFF x ≤ x + 0xFFF)
rounded_page x h = rw (round_up-page x h) (omega arith, omega arith)

pub next_base :
    (x : ℕ)
    → x + 0xF < 2 ^ 128
    → (round_up 0xF (x % 2 ^ 128) % 16 ≡ 0)
      × (x ≤ round_up 0xF (x % 2 ^ 128))
      × (round_up 0xF (x % 2 ^ 128) < x + 16)
next_base x h =
    rw (mod-eq_of_lt (below x h), round_up-sixteen x h) (omega arith, omega arith, omega arith)
  where
    below : (x : ℕ) → x + 0xF < 2 ^ 128 → x < 2 ^ 128
    below x h = omega arith

fixed_next : (x : ℕ) → x + 0xF < 2 ^ 128 → round_up 0xF (x % 2 ^ 128) ≡ (x + 15) / 16 * 16
fixed_next x h =
    ap (round_up 0xF) (mod-eq_of_lt {n = x} {m = 2 ^ 128} (omega arith)) ∙ round_up-sixteen x h

-- What holds of the three layouts that `realign` may return holds of the one it does.
realign-elim {ℓ} :
    (P : Layout → Type ℓ) (options : Options) (s : Section) (l : Layout)
    → P l
    → P (record l { was_executable = false; base_addr = round_up 0xFFF l.base_addr })
    → P (record l { was_readonly = false; base_addr = round_up 0xFFF l.base_addr })
    → P (realign options s l)
unfolding realign
realign-elim P options s l p q r = if-intro P _ _ _ (if-intro P _ _ _ q (if-intro P _ _ _ r p)) p

pub realign-forward :
    (options : Options) (s : Section) (l : Layout)
    → l.base_addr + 0xFFF < 2 ^ 128
    → (l.base_addr ≤ (realign options s l).base_addr)
      × ((realign options s l).base_addr ≤ l.base_addr + 0xFFF)
unfolding realign
realign-forward options s l h =
    let page : Within (record l { base_addr = round_up 0xFFF l.base_addr }) =
      rounded_page l.base_addr h in
    realign-elim Within options s l (omega arith, omega arith) page page
  where
    Within : Layout → Type 0
    Within l' = (l.base_addr ≤ l'.base_addr) × (l'.base_addr ≤ l.base_addr + 0xFFF)

-- A section that asks for no base address gets one that is not below the end of the sections in
-- front of it and at most a page above it; the base for the next section is a multiple of 16, not
-- below this one's end and at most 15 above it, where all of it is far enough below 2 ^ 128.
pub place-forward :
    (options : Options) (s : Section) (l : Layout)
    → s.has_base_address ≡ false
    → l.base_addr + size s + 0x100E < 2 ^ 128
    → (l.base_addr ≤ (place options s l).0)
      × ((place options s l).0 ≤ l.base_addr + 0xFFF)
      × ((place options s l).1.base_addr % 16 ≡ 0)
      × ((place options s l).0 + size s ≤ (place options s l).1.base_addr)
      × ((place options s l).1.base_addr < (place options s l).0 + size s + 16)
unfolding place
place-forward options s l free h =
    let (lo, hi) = realign-forward options s l (omega arith) in
    let (m, a, b) = next_base ((realign options s l).base_addr + size s) (omega arith) in
    rw free (lo, hi, m, a, b)

-- A section that asks for a base address gets it, and the same of the next one's base.
pub place-fixed :
    (options : Options) (s : Section) (l : Layout)
    → s.has_base_address ≡ true
    → s.base_address + size s + 0xF < 2 ^ 128
    → ((place options s l).0 ≡ s.base_address)
      × ((place options s l).1.base_addr ≡ (s.base_address + size s + 15) / 16 * 16)
      × ((place options s l).1.was_executable ≡ s.code)
unfolding place
place-fixed options s l own h = rw own (refl, fixed_next (s.base_address + size s) h, refl)

-- The flag for the way from read-only to writable data stays clear over every section.
pub place-was_readonly :
    (options : Options) (s : Section) (l : Layout)
    → l.was_readonly ≡ false
    → (place options s l).1.was_readonly ≡ false
unfolding place
place-was_readonly options s l h = elim (Bool-cases s.has_base_address) [
  | inl e ↦ rw e h
  | inr e ↦ rw e (realign-elim Clear options s l h h refl)
]
  where
    Clear : Layout → Type 0
    Clear l' = l'.was_readonly ≡ false
