-- ===== src/Rv128.antt =====
-- What the instructions that the assembler emits for constants and addresses do, by the RISC-V
-- manual's RV128I: ADDI, SLLI, ADD, LUI and AUIPC on 128-bit registers. Fields and opcodes are the
-- manual's, read from the word; any other word is no such instruction and has no run. This is the
-- specification that the output is held to.
pub mod Forms
use bigassm.Prelude.{
  ℕ, ◌+◌, ◌*◌, ◌/◌, ◌%◌, ◌^◌, ◌&&◌, Bool, Option, some, none, List, [], ◌∷◌, ◌==◌, ◌≡◌, refl,
  if◌then◌else◌,
}
use bigassm.Prelude.Words.{sext}
use bigassm.Instr.{Instruction}

-- The registers; register 0 reads as zero.
abbrev pub Registers : Type 0
Registers = ℕ → ℕ

abbrev pub read : Registers → ℕ → ℕ
read r n = if n == 0 then 0 else r n

abbrev pub write : ℕ → ℕ → Registers → Registers
write n v r m = if m == n then v % 2 ^ 128 else r m

-- The `w` bits from bit `lo` on.
abbrev pub bits_of : ℕ → ℕ → Instruction → ℕ
bits_of lo w i = i / 2 ^ lo % 2 ^ w

-- The opcode, with the function bits of ADDI, of SLLI and of ADD.
abbrev pub is_op : ℕ → Instruction → Bool
is_op opcode i = bits_of 0 7 i == opcode

abbrev pub is_addi : Instruction → Bool
is_addi i = is_op 0b0010011 i && bits_of 12 3 i == 0

abbrev pub is_slli : Instruction → Bool
is_slli i = is_op 0b0010011 i && (bits_of 12 3 i == 1 && bits_of 27 5 i == 0)

abbrev pub is_add : Instruction → Bool
is_add i = is_op 0b0110011 i && (bits_of 12 3 i == 0 && bits_of 25 7 i == 0)

-- The value that an instruction at address `pc` writes to its destination.
unfoldable pub result : ℕ → Instruction → Registers → Option ℕ
result pc i r =
    let a = read r (bits_of 15 5 i) in
    let upper = sext 32 128 (bits_of 12 20 i * 2 ^ 12) in
    if is_addi i
    then some (a + sext 12 128 (bits_of 20 12 i))
    else if is_slli i
    then some (a * 2 ^ bits_of 20 7 i)
    else if is_add i
    then some (a + read r (bits_of 20 5 i))
    else if is_op 0b0110111 i
    then some upper
    else if is_op 0b0010111 i
    then some (pc + upper)
    else none

-- One instruction, then the ones behind it, four bytes further on.
unfoldable pub run : ℕ → List Instruction → Registers → Option Registers
run pc [] r = some r
run pc (i ∷ is) r = elim (result pc i r) [
  | some v ↦ run ((pc + 4) % 2 ^ 128) is (write (bits_of 7 5 i) v r)
  | none ↦ none
]

-- A run whose first instruction writes `v`.
pub run-step :
    (pc : ℕ) (i : Instruction) (is : List Instruction) (r : Registers) (v : ℕ)
    → result pc i r ≡ some v
    → run pc (i ∷ is) r ≡ run ((pc + 4) % 2 ^ 128) is (write (bits_of 7 5 i) v r)
unfolding run
run-step pc i is r v e = rw (run, e) refl

-- JALR at address `pc`: where it jumps to, and the registers behind it.
unfoldable pub jump : ℕ → Instruction → Registers → Option (ℕ × Registers)
jump pc i r =
    if is_op 0b1100111 i && bits_of 12 3 i == 0
    then some (
      (read r (bits_of 15 5 i) + sext 12 128 (bits_of 20 12 i)) % 2 ^ 128 / 2 * 2,
      write (bits_of 7 5 i) (pc + 4) r,
    )
    else none
