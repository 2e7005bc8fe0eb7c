-- ===== src/Patch/Farcall.antt =====
-- OP_FARCALL of src/opcodes.cpp: where the patched LUI and JALR lead.
use bigassm.Prelude.{
  ℕ, ◌+◌, ◌-◌, ◌*◌, ◌/◌, ◌%◌, ◌^◌, ◌≡◌, ◌≤◌, ◌<◌, ◌∙◌, ap, refl, some, [], ◌∷◌, ltb, if◌then◌else◌,
  arith,
}
use bigassm.Types.{ok}
use bigassm.Section.{Section}
use bigassm.Assembler.{SymbolLocation, Assembler}
use bigassm.Instr.{Instruction, rv32i_lui, rv32i_jalr}
use bigassm.Instr.Itype
use bigassm.Instr.Utype
use bigassm.Rv128.{Registers, write, run, jump}
use bigassm.Rv128.Forms.{imm_value, upper_value, jump_jalr}
use bigassm.Opcodes.Build.Fields.{IsLui}
use bigassm.Opcodes.Build.Load.{run_lui, read_written}
use bigassm.Patch.{link_farcall}
use bigassm.Patch.Output.{
  Located, patched, change_word_step, word_in, word_in-patched, word_in-patched_below,
  word_in-patched_above, room-patched,
}

-- The two instructions as OP_FARCALL outputs them.
abbrev pub far_high : ℕ → Instruction
far_high reg = Utype.set_rd reg rv32i_lui

abbrev pub far_low : ℕ → Instruction
far_low reg = Itype.set_rd 1 (Itype.set_rs1 reg rv32i_jalr)

record IsJalr (reg low : ℕ) (i : Instruction) : Type 0 where
  opcode : Itype.opcode i ≡ 0x67
  funct3 : Itype.funct3 i ≡ 0
  rd : Itype.rd i ≡ 1
  rs1 : Itype.rs1 i ≡ reg
  imm : Itype.imm i ≡ low

module _ (reg : ℕ) (h : reg < 32) where
  high-IsLui : (x : ℕ) → IsLui reg (x % 2 ^ 20) (Utype.set_imm x (far_high reg) % 2 ^ 32)
  unfolding Utype.set_rd Utype.set_imm Itype.opcode Itype.rd Utype.imm
  high-IsLui x = omega arith

  low-IsJalr : (x : ℕ) → IsJalr reg (x % 2 ^ 12) (Itype.set_imm x (far_low reg) % 2 ^ 32)
  unfolding Itype.set_rd Itype.set_rs1 Itype.set_imm Itype.opcode Itype.funct3 Itype.rd Itype.rs1
      Itype.imm
  low-IsJalr x = omega arith

upper_page : (t : ℕ) → t < 2 ^ 31 → upper_value (t / 2 ^ 12 % 2 ^ 20) ≡ t / 4096 * 4096
upper_page t hi = ground arith

lands :
    (t : ℕ)
    → 4096 ≤ t
    → t < 2 ^ 31
    → (t / 4096 * 4096 % 2 ^ 128 + imm_value (t % 2 ^ 12)) % 2 ^ 128 / 2 * 2
      ≡ (if ltb (t % 4096) 2048 then t else t - 4096) / 2 * 2
lands t lo hi = ground arith

-- On the two instructions that OP_FARCALL outputs for a register of 1 to 31, and for a target from
-- 4096 to below 2 ^ 31, the closure succeeds. By the RV128I specification the first one then puts
-- the target without its low 12 bits into the register, and the second one jumps from there to the
-- target if its bit 11 is clear and to 4096 bytes in front of it if it is set, with the lowest bit
-- cleared; register 1 gets the address behind the pair.
pub link_farcall-lands :
    (a : Assembler) (loc : SymbolLocation) (s : Section) (reg target pc : ℕ) (r : Registers)
    → Located a loc s 8
    → word_in loc 0 s ≡ far_high reg
    → word_in loc 4 s ≡ far_low reg
    → 0 < reg
    → reg < 32
    → 4096 ≤ target
    → target < 2 ^ 31
    → (a' : Assembler) × (s' : Section) × (link_farcall loc target a ≡ ok (tt, a'))
      × Located a' loc s' 8
      × (let r' = write reg (target / 4096 * 4096) r in
          (run pc (word_in loc 0 s' ∷ []) r ≡ some r')
          × (jump (pc + 4) (word_in loc 4 s') r'
              ≡ some (
                (if ltb (target % 4096) 2048 then target else target - 4096) / 2 * 2,
                write 1 (pc + 8) r',
              )))
unfolding link_farcall run
link_farcall-lands a loc s reg target pc r l outer inner h₀ hr lo hi =
    let upper = Utype.set_imm (target / 2 ^ 12) in
    let lower = Itype.set_imm target in
    let (a₁, e₁, l₁) = change_word_step 8 a loc l 0 upper (omega arith) in
    let (a₂, e₂, l₂) = change_word_step 8 a₁ loc l₁ 4 lower (omega arith) in
    let s₁ = patched loc 0 upper s in
    let s₂ = patched loc 4 lower s₁ in
    let room = room-patched 8 loc s l.inside 0 upper (omega arith) in
    let first : word_in loc 0 s₂ ≡ upper (far_high reg) % 2 ^ 32 =
      word_in-patched_below 8 loc s₁ room 4 lower (omega arith) 0 (omega arith)
      ∙ word_in-patched 8 loc s l.inside 0 upper (omega arith)
      ∙ ap (λ (w : ℕ). upper w % 2 ^ 32) outer in
    let second : word_in loc 4 s₂ ≡ lower (far_low reg) % 2 ^ 32 =
      word_in-patched 8 loc s₁ room 4 lower (omega arith)
      ∙ ap (λ (w : ℕ). lower w % 2 ^ 32)
          (word_in-patched_above 8 loc s l.inside 0 upper (omega arith) 4 (omega arith) ∙ inner) in
    let lui : IsLui reg (target / 2 ^ 12 % 2 ^ 20) (word_in loc 0 s₂) =
      rw first (high-IsLui reg hr (target / 2 ^ 12)) in
    let jalr : IsJalr reg (target % 2 ^ 12) (word_in loc 4 s₂) =
      rw second (low-IsJalr reg hr target) in
    let page : ℕ = target / 4096 * 4096 in
    let behind : pc + 4 + 4 ≡ pc + 8 = omega arith in
    let r' : Registers = write reg page r in
    (
      a₂,
      s₂,
      rw e₁ e₂,
      l₂,
      (
        run_lui pc reg (word_in loc 0 s₂) r lui []
            ∙ ap (λ (v : ℕ). some (write reg v r)) (upper_page target hi),
        jump_jalr (pc + 4) (word_in loc 4 s₂) r' jalr.opcode jalr.funct3
            ∙ rw
                (
                  jalr.rd,
                  jalr.rs1,
                  jalr.imm,
                  read_written reg page r h₀,
                  lands target lo hi,
                  behind,
                )
                refl,
      ),
    )
