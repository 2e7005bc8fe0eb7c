-- ===== src/Opcodes/Build/Load.antt =====
-- `build_uint32` of src/opcodes.cpp held to the specification of the instructions: what OP_LI loads.
use bigassm.Prelude.{
  refl, some, false, ℕ, ◌+◌, ◌/◌, ◌%◌, ◌^◌, ap, ◌≡◌, ◌≤◌, ◌<◌, ◌&&◌, ◌⊎◌, true, [], ◌∷◌, ◌++◌, List,
  arith, ltb, leb, ◌==◌, Bool-cases, inl, inr, ◌↔◌, ==_iff,
}
use bigassm.Prelude.Words.{sext}
use mathlib.Core.List.{append_assoc, append-nil}
use mathlib.Core.Path.{fun_ext, ◌∙◌}
use bigassm.Types.{ok, err, undefined}
use bigassm.Assembler.{Assembler, int_sum}
use bigassm.Instr.{Instruction}
use bigassm.Instr.Itype
use bigassm.Instr.Utype
use bigassm.Rv128.{Registers, read, write, run, run-step}
use bigassm.Rv128.Forms.{imm_value, upper_value, result_addi, result_lui}
use bigassm.Opcodes.Build.{build_low, build_high, build_uint32}
use bigassm.Opcodes.Build.Fields.{IsAddi, IsLui, build_low-IsAddi, set_rs1-IsAddi, build_high-IsLui}

-- The values whose sum with the low immediate, read as an unsigned number, is an `int`.
abbrev pub Sums : ℕ → Type 0
Sums v = (v < 0x7FFFF800) ⊎ (0x80000000 ≤ v)

-- The sum, and its upper part, which is rounded, so that the lower one makes up for its sign.
abbrev pub rounded : ℕ → ℕ
rounded v = (v + v % 4096) % 2 ^ 32

abbrev pub high_part : ℕ → ℕ
high_part v = rounded v / 4096

pub int_sum-Sums :
    (v : ℕ) (a : Assembler) → v < 2 ^ 32 → Sums v → int_sum v (v % 4096) a ≡ ok (rounded v, a)
unfolding int_sum
int_sum-Sums v a hv range = rw fits refl
  where
    fits : ltb v (2 ^ 31) && leb (2 ^ 31) (v + v % 4096) ≡ false
    fits = ground arith

module _ (v : ℕ) (hv : v < 2 ^ 32) (range : Sums v) where
  low_only : high_part v ≡ 0 → imm_value (v % 4096) ≡ sext 32 128 v
  low_only h = ground arith

  high_only : v % 4096 ≡ 0 → upper_value (high_part v) % 2 ^ 128 ≡ sext 32 128 v
  high_only h = ground arith

  both_parts :
      (upper_value (high_part v) % 2 ^ 128 + imm_value (v % 4096)) % 2 ^ 128 ≡ sext 32 128 v
  both_parts = ground arith

module _ (pc reg : ℕ) (i : Instruction) (r : Registers) where
  pub run_addi :
      {src low : ℕ}
      → IsAddi reg src low i
      → (is : List Instruction)
      → run pc (i ∷ is) r ≡ run ((pc + 4) % 2 ^ 128) is (write reg (read r src + imm_value low) r)
  unfolding Itype.rd
  run_addi f is =
      run-step pc i is r _ (result_addi pc i r f.opcode f.funct3) ∙ rw (f.rd, f.rs1, f.imm) refl

  pub run_lui :
      {high : ℕ}
      → IsLui reg high i
      → (is : List Instruction)
      → run pc (i ∷ is) r ≡ run ((pc + 4) % 2 ^ 128) is (write reg (upper_value high) r)
  unfolding Itype.rd
  run_lui f is = run-step pc i is r _ (result_lui pc i r f.opcode) ∙ rw (f.rd, f.imm) refl

module _ (n : ℕ) (r : Registers) where
  pub write_congr : (a b : ℕ) → a % 2 ^ 128 ≡ b % 2 ^ 128 → write n a r ≡ write n b r
  write_congr a b e = fun_ext λ m. rw e

  pub write_twice : (a b : ℕ) → write n a (write n b r) ≡ write n a r
  write_twice a b = fun_ext λ m. ground arith

pub read_written : (n a : ℕ) (r : Registers) → 0 < n → read (write n a r) n ≡ a % 2 ^ 128
read_written n a r h = ground arith

-- The three shapes of the sequence.
abbrev Appends : ℕ → ℕ → List Instruction → Type 0
Appends reg v is =
    (res : List Instruction) (a : Assembler) → build_uint32 res reg v a ≡ ok (res ++ is, a)

high_part-imm :
    (reg v : ℕ)
    → reg < 32
    → v < 2 ^ 32
    → (Utype.imm (build_high reg (rounded v)) == 0) ≡ true
    → high_part v ≡ 0
high_part-imm reg v hr hv e =
    omega (arith, (==_iff _ _).0 e, (build_high-IsLui reg (rounded v) hr (omega arith)).imm)

build_uint32_shape :
    (reg v : ℕ)
    → reg < 32
    → v < 2 ^ 32
    → Sums v
    → (high_part v ≡ 0) × Appends reg v (build_low reg v ∷ [])
      ⊎ (v % 4096 ≡ 0) × Appends reg v (build_high reg (rounded v) ∷ [])
      ⊎ Appends reg v (build_high reg (rounded v) ∷ Itype.set_rs1 reg (build_low reg v) ∷ [])
unfolding build_uint32
build_uint32_shape reg v hr hv range =
    let low = (build_low-IsAddi reg v hr).imm in
    let sum = λ (a : Assembler). int_sum-Sums v a hv range in
    elim (Bool-cases (Utype.imm (build_high reg (rounded v)) == 0)) [
      | inl e ↦ inl (high_part-imm reg v hr hv e, λ res a. rw (build_uint32, low, sum a, e) refl)
      | inr e ↦ elim (Bool-cases (v % 2 ^ 12 == 0)) [
        | inl e' ↦ inr (inl ((==_iff _ _).0 e', λ res a. rw (build_uint32, low, sum a, e, e') refl))
        | inr e' ↦ inr (
            inr (λ res a.
              rw (build_uint32, low, sum a, e, e')
                (ap (λ (l : List Instruction). ok (l, a)) (append_assoc res _ _))))
      ]
    ]

-- The sequence for one value, in front of any instructions.
module _ (reg v : ℕ) (hr : reg < 32) (h₀ : 0 < reg) (hv : v < 2 ^ 32) (range : Sums v)
    (r : Registers) where
  abbrev high : Instruction
  high = build_high reg (rounded v)

  high-IsLui : IsLui reg (high_part v) high
  high-IsLui = build_high-IsLui reg (rounded v) hr (omega arith)

  run_low :
      (pc : ℕ) (is : List Instruction)
      → high_part v ≡ 0
      → run pc (build_low reg v ∷ is) r ≡ run ((pc + 4) % 2 ^ 128) is (write reg (sext 32 128 v) r)
  run_low pc is e =
      run_addi pc reg (build_low reg v) r (build_low-IsAddi reg v hr) is
      ∙ rw
          (write_congr reg r (0 + imm_value (v % 4096)) (sext 32 128 v)
            (omega (arith, low_only v hv range e)))
          refl

  run-high :
      (pc : ℕ) (is : List Instruction)
      → v % 4096 ≡ 0
      → run pc (high ∷ is) r ≡ run ((pc + 4) % 2 ^ 128) is (write reg (sext 32 128 v) r)
  run-high pc is e =
      run_lui pc reg high r high-IsLui is
      ∙ rw
          (write_congr reg r (upper_value (high_part v)) (sext 32 128 v)
            (omega (arith, high_only v hv range e)))
          refl

  run_both :
      (pc : ℕ) (is : List Instruction)
      → run pc (high ∷ Itype.set_rs1 reg (build_low reg v) ∷ is) r
        ≡ run (((pc + 4) % 2 ^ 128 + 4) % 2 ^ 128) is (write reg (sext 32 128 v) r)
  run_both pc is =
      let r' = write reg (upper_value (high_part v)) r in
      let low = Itype.set_rs1 reg (build_low reg v) in
      run_lui pc reg high r high-IsLui (low ∷ is)
      ∙ run_addi ((pc + 4) % 2 ^ 128) reg low r' (set_rs1-IsAddi reg v hr) is
      ∙ rw
          (
            read_written reg (upper_value (high_part v)) r h₀,
            write_twice reg r,
            write_congr reg r (upper_value (high_part v) % 2 ^ 128 + imm_value (v % 4096))
                (sext 32 128 v) (omega (arith, both_parts v hv range)),
          )
          refl

  -- The sequence puts the value, sign-extended, into the register and changes nothing else.
  pub run-build_uint32 :
      (res : List Instruction) (a : Assembler)
      → (built : List Instruction) × (build_uint32 res reg v a ≡ ok (res ++ built, a))
        × ((pc : ℕ) (is : List Instruction)
            → (pc' : ℕ) × (run pc (built ++ is) r ≡ run pc' is (write reg (sext 32 128 v) r)))
  run-build_uint32 res a = elim (build_uint32_shape reg v hr hv range) [
    | inl (e, f) ↦ (_, f res a, λ pc is. (_, run_low pc is e))
    | inr (inl (e, f)) ↦ (_, f res a, λ pc is. (_, run-high pc is e))
    | inr (inr f) ↦ (_, f res a, λ pc is. (_, run_both pc is))
  ]

-- For an int32_t below 0x7FFFF800 or negative, build_uint32 returns instructions that put it,
-- sign-extended to 128 bits, into the register, one of 1 to 31, and change no other.
pub build_uint32-loads :
    (reg v pc : ℕ) (r : Registers) (a : Assembler)
    → reg < 32
    → 0 < reg
    → v < 2 ^ 32
    → (v < 0x7FFFF800) ⊎ (0x80000000 ≤ v)
    → (code : List Instruction) × (build_uint32 [] reg v a ≡ ok (code, a))
      × (run pc code r ≡ some (write reg (sext 32 128 v) r))
unfolding run
build_uint32-loads reg v pc r a hr h₀ hv range =
    let (code, e, ran) = run-build_uint32 reg v hr h₀ hv range r [] a in
    (code, e, rw (← append-nil code) (ran pc []).1)

-- The values whose sum is no `int`.
pub build_uint32-overflows :
    (res : List Instruction) (reg v : ℕ) (a : Assembler)
    → 0x7FFFF800 ≤ v
    → v < 0x80000000
    → build_uint32 res reg v a ≡ err undefined
unfolding build_uint32 int_sum Itype.imm Itype.set_imm
build_uint32-overflows res reg v a lo hi = rw (low, above) refl
  where
    low : Itype.imm (build_low reg v) ≡ v % 4096
    low = omega arith

    above : ltb v (2 ^ 31) && leb (2 ^ 31) (v + v % 4096) ≡ true
    above = ground arith

-- For a register below 32, build_uint32 is undefined for the values 0x7FFFF800 to 0x7FFFFFFF of
-- int32_t, and for no other.
pub build_uint32-undefined :
    (res : List Instruction) (reg v : ℕ) (a : Assembler)
    → reg < 32
    → v < 2 ^ 32
    → (build_uint32 res reg v a ≡ err undefined) ↔ ((0x7FFFF800 ≤ v) × (v < 0x80000000))
build_uint32-undefined res reg v a hr hv =
    (only, λ range. build_uint32-overflows res reg v a (range.0) (range.1))
  where
    in_range : (v : ℕ) → (0x7FFFF800 ≤ v) × (v < 0x80000000) ⊎ Sums v
    in_range v = ground arith

    only : build_uint32 res reg v a ≡ err undefined → (0x7FFFF800 ≤ v) × (v < 0x80000000)
    only e = elim (in_range v) [
      | inl range ↦ range
      | inr sums ↦ elim (build_uint32_shape reg v hr hv sums) [
        | inl (z, f) ↦ let built = f res a in absurd cc
        | inr (inl (z, f)) ↦ let built = f res a in absurd cc
        | inr (inr f) ↦ let built = f res a in absurd cc
      ]
    ]
