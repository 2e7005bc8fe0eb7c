-- ===== src/Patch/Encode.antt =====
-- The offsets that src/opcodes.cpp writes into branches, jumps and stores, read back by the methods
-- of src/rv32i_instr.hpp.
use bigassm.Prelude.{
  ℕ, ◌+◌, ◌-◌, ◌/◌, ◌%◌, ◌^◌, ◌*◌, ◌≡◌, ◌≤◌, ◌<◌, ◌⊎◌, arith, ◌∙◌, ◌==◌, if◌then◌else◌,
}
use bigassm.Prelude.Words.{asr}
use bigassm.Patch.{set_branch, set_jump}
use bigassm.Instr.{Instruction}
use bigassm.Instr.Btype
use bigassm.Instr.Jtype

-- The bits of a branch that its offset does not use: opcode, funct3 and the two sources.
abbrev pub SameBranch : Instruction → Instruction → Type 0
SameBranch i j = (i % 2 ^ 7 ≡ j % 2 ^ 7) × (i / 2 ^ 12 % 2 ^ 13 ≡ j / 2 ^ 12 % 2 ^ 13)

-- The bits of a jump that its offset does not use: opcode and destination.
abbrev pub SameJump : Instruction → Instruction → Type 0
SameJump i j = i % 2 ^ 12 ≡ j % 2 ^ 12

-- The four fields after the four assignments.
module _ (a b c d : ℕ) (i : Instruction) where
  abbrev branch_fields : Instruction
  branch_fields = Btype.set_imm4 d (Btype.set_imm1 c (Btype.set_imm3 b (Btype.set_imm2 a i)))

  branch_parts :
      (branch_fields / 2 ^ 8 % 2 ^ 4 ≡ a % 2 ^ 4)
      × (branch_fields / 2 ^ 25 % 2 ^ 6 ≡ b % 2 ^ 6)
      × (branch_fields / 2 ^ 7 % 2 ≡ c % 2)
      × (branch_fields / 2 ^ 31 % 2 ≡ d % 2)
  unfolding Btype.set_imm1 Btype.set_imm2 Btype.set_imm3 Btype.set_imm4
  branch_parts = (omega arith, omega arith, omega arith, omega arith)

  branch_rest : SameBranch branch_fields i
  unfolding Btype.set_imm1 Btype.set_imm2 Btype.set_imm3 Btype.set_imm4
  branch_rest = (omega arith, omega arith)

  abbrev jump_fields : Instruction
  jump_fields = Jtype.set_imm4 d (Jtype.set_imm1 c (Jtype.set_imm2 b (Jtype.set_imm3 a i)))

  jump_parts :
      (jump_fields / 2 ^ 21 % 2 ^ 10 ≡ a % 2 ^ 10)
      × (jump_fields / 2 ^ 20 % 2 ≡ b % 2)
      × (jump_fields / 2 ^ 12 % 2 ^ 8 ≡ c % 2 ^ 8)
      × (jump_fields / 2 ^ 31 % 2 ≡ d % 2)
  unfolding Jtype.set_imm1 Jtype.set_imm2 Jtype.set_imm3 Jtype.set_imm4
  jump_parts = (omega arith, omega arith, omega arith, omega arith)

  jump_rest : SameJump jump_fields i
  unfolding Jtype.set_imm1 Jtype.set_imm2 Jtype.set_imm3 Jtype.set_imm4
  jump_rest = omega arith

-- The bits of a shifted word are those of the word.
branch_bits :
    (x : ℕ)
    → x < 2 ^ 32
    → (asr 32 x 1 % 2 ^ 4 ≡ x / 2 % 2 ^ 4)
      × (asr 32 x 5 % 2 ^ 6 ≡ x / 2 ^ 5 % 2 ^ 6)
      × (asr 32 x 11 % 2 ≡ x / 2 ^ 11 % 2)
      × (asr 32 x 12 % 2 ≡ x / 2 ^ 12 % 2)
branch_bits x h = (ground arith, ground arith, ground arith, ground arith)

jump_bits :
    (x : ℕ)
    → x < 2 ^ 64
    → (asr 64 x 1 % 2 ^ 10 ≡ x / 2 % 2 ^ 10)
      × (asr 64 x 11 % 2 ≡ x / 2 ^ 11 % 2)
      × (asr 64 x 12 % 2 ^ 8 ≡ x / 2 ^ 12 % 2 ^ 8)
      × (asr 64 x 19 % 2 ≡ x / 2 ^ 19 % 2)
jump_bits x h = (ground arith, ground arith, ground arith, ground arith)

branch_recompose :
    (x : ℕ)
    → x < 2 ^ 32
    → x % 2 ≡ 0
    → (x < 4096) ⊎ (2 ^ 32 - 4096 ≤ x)
    → x / 2 % 2 ^ 4 * 2
        + x / 2 ^ 5 % 2 ^ 6 * 2 ^ 5
        + x / 2 ^ 11 % 2 * 2 ^ 11
        + (if x / 2 ^ 12 % 2 == 1 then 0xFFFFF000 else 0)
      ≡ x
branch_recompose x h even range = ground arith

jump_recompose :
    (x : ℕ)
    → x < 2 ^ 64
    → x % 2 ≡ 0
    → (x < 2 ^ 19) ⊎ (2 ^ 64 - 2 ^ 19 ≤ x)
    → x / 2 % 2 ^ 10 * 2
        + x / 2 ^ 11 % 2 * 2 ^ 11
        + x / 2 ^ 12 % 2 ^ 8 * 2 ^ 12
        + (if x / 2 ^ 19 % 2 == 1 then 0xFFF00000 else 0)
      ≡ x % 2 ^ 32
jump_recompose x h even range = ground arith

-- An even offset within a branch's range of 4 KiB each way is what the patched branch decodes to,
-- and the opcode, the condition and the two registers stay.
pub set_branch-signed_imm :
    (diff : ℕ) (i : Instruction)
    → diff < 2 ^ 32
    → diff % 2 ≡ 0
    → (diff < 4096) ⊎ (2 ^ 32 - 4096 ≤ diff)
    → (Btype.signed_imm (set_branch diff i) ≡ diff) × SameBranch (set_branch diff i) i
unfolding set_branch
set_branch-signed_imm diff i h even range =
    let (a, b, c, d) = branch_bits diff h in
    let (pa, pb, pc, pd) =
      branch_parts (asr 32 diff 1) (asr 32 diff 5) (asr 32 diff 11) (asr 32 diff 12) i in
    (
      Btype.signed_imm-eq-add (set_branch diff i)
          ∙ rw (pa, pb, pc, pd, a, b, c, d) (branch_recompose diff h even range),
      branch_rest (asr 32 diff 1) (asr 32 diff 5) (asr 32 diff 11) (asr 32 diff 12) i,
    )

-- An even offset of less than 512 KiB each way is what the patched jump decodes to as an `int32_t`,
-- and the opcode and the destination stay.
pub set_jump-jump_offset :
    (diff : ℕ) (i : Instruction)
    → diff < 2 ^ 64
    → diff % 2 ≡ 0
    → (diff < 2 ^ 19) ⊎ (2 ^ 64 - 2 ^ 19 ≤ diff)
    → (Jtype.jump_offset (set_jump diff i) ≡ diff % 2 ^ 32) × SameJump (set_jump diff i) i
unfolding set_jump
set_jump-jump_offset diff i h even range =
    let (a, b, c, d) = jump_bits diff h in
    let (pa, pb, pc, pd) =
      jump_parts (asr 64 diff 1) (asr 64 diff 11) (asr 64 diff 12) (asr 64 diff 19) i in
    (
      Jtype.jump_offset-eq-add (set_jump diff i)
          ∙ rw (pa, pb, pc, pd, a, b, c, d) (jump_recompose diff h even range),
      jump_rest (asr 64 diff 1) (asr 64 diff 11) (asr 64 diff 12) (asr 64 diff 19) i,
    )
