-- ===== src/Patch/LoadAddress.antt =====
-- OP_LA of src/opcodes.cpp: the pair of instructions after its closure, held to the specification.
use bigassm.Prelude.{
  ℕ, ◌+◌, ◌-◌, ◌%◌, ◌^◌, ◌≡◌, ◌≤◌, ◌<◌, ◌⊎◌, true, [], ◌∷◌, length, ap, arith, ◌∙◌, some, refl,
}
use bigassm.Prelude.Words.{add_word, sub_word, asr}
use bigassm.Types.{ok}
use bigassm.Section.{Section}
use bigassm.Assembler.{SymbolLocation, Assembler}
use bigassm.Instr.{Instruction, rv32i_lui, rv32i_auipc, rv32i_op_imm}
use bigassm.Instr.Itype
use bigassm.Instr.Utype
use bigassm.Rv128.{Registers, write, run, run-step}
use bigassm.Rv128.Forms.{imm_value, upper_value, result_auipc}
use bigassm.Opcodes.Build.Fields.{IsAddi}
use bigassm.Opcodes.Build.Load.{run_addi, write_twice, write_congr, read_written}
use bigassm.Patch.{is_relatively_close, link_la}
use bigassm.Patch.Output.{
  Located, patched, change_word_step, word_at_step, word_in, word_in-patched, word_in-patched_below,
  word_in-patched_above, room-patched,
}

-- The two instructions as OP_LA outputs them.
abbrev pub la_high : ℕ → Instruction
la_high reg = Itype.set_rd reg rv32i_lui

abbrev pub la_low : ℕ → Instruction
la_low reg = Itype.set_rs1 reg (Itype.set_rd reg rv32i_op_imm)

pub record IsAuipc (reg high : ℕ) (i : Instruction) : Type 0 where
  pub opcode : Itype.opcode i ≡ 0x17
  pub rd : Itype.rd i ≡ reg
  pub imm : Utype.imm i ≡ high

module _ (reg : ℕ) (h : reg < 32) where
  low-IsAddi : (d : ℕ) → IsAddi reg reg (d % 4096) (Itype.set_imm d (la_low reg) % 2 ^ 32)
  unfolding Itype.set_imm Itype.set_rd Itype.set_rs1 Itype.opcode Itype.funct3 Itype.rd Itype.rs1
      Itype.imm
  low-IsAddi d = omega arith

  high-IsAuipc :
      (x : ℕ)
      → IsAuipc reg
          (x % 2 ^ 20)
          (Utype.set_imm x (Utype.set_opcode rv32i_auipc (la_high reg) % 2 ^ 32) % 2 ^ 32)
  unfolding Itype.set_rd Utype.set_imm Utype.set_opcode Itype.opcode Itype.rd Utype.imm
  high-IsAuipc x = omega arith

-- The target is near: less than 2 GiB behind, or less than 2 GiB - 2 KiB ahead.
abbrev pub IsNear : ℕ → ℕ → Type 0
IsNear target here =
    (sub_word 128 target here < 0x7FFFF800) ⊎ (2 ^ 128 - 2 ^ 31 ≤ sub_word 128 target here)

abbrev la_upper : ℕ → ℕ
la_upper diff = asr 64 (add_word 64 diff (diff % 4096)) 12

module _ (d : ℕ) (hd : d < 2 ^ 128) (range : (d < 0x7FFFF800) ⊎ (2 ^ 128 - 2 ^ 31 ≤ d)) where
  near-close : is_relatively_close (d % 2 ^ 64) ≡ true
  unfolding is_relatively_close
  near-close = ground arith

  halves : (upper_value (la_upper (d % 2 ^ 64) % 2 ^ 20) + imm_value (d % 4096)) % 2 ^ 128 ≡ d
  halves = ground arith

  low_halves :
      (upper_value (la_upper (d % 2 ^ 64) % 2 ^ 20) + imm_value (d % 2 ^ 64 % 4096)) % 2 ^ 128 ≡ d
  low_halves =
      ap (λ (low : ℕ). (upper_value (la_upper (d % 2 ^ 64) % 2 ^ 20) + imm_value low) % 2 ^ 128)
        low_bits
      ∙ halves
    where
      low_bits : d % 2 ^ 64 % 4096 ≡ d % 4096
      low_bits = omega arith

reach :
    (here target upper low : ℕ)
    → target < 2 ^ 128
    → here < 2 ^ 128
    → (upper + low) % 2 ^ 128 ≡ sub_word 128 target here
    → ((here + upper) % 2 ^ 128 + low) % 2 ^ 128 ≡ target % 2 ^ 128
reach here target upper low ht hh e = omega arith

-- AUIPC and ADDI of the halves of a near distance reach the target.
run_pair :
    (reg target here : ℕ) (high low : Instruction) (r : Registers)
    → 0 < reg
    → target < 2 ^ 128
    → here < 2 ^ 128
    → IsNear target here
    → IsAuipc reg (la_upper (sub_word 128 target here % 2 ^ 64) % 2 ^ 20) high
    → IsAddi reg reg (sub_word 128 target here % 2 ^ 64 % 4096) low
    → run here (high ∷ low ∷ []) r ≡ some (write reg target r)
unfolding run Itype.rd
run_pair reg target here high low r h₀ ht hh range fh fl =
    let d = sub_word 128 target here in
    let upper = upper_value (la_upper (d % 2 ^ 64) % 2 ^ 20) in
    let r₁ = write reg (here + upper) r in
    let first : run here (high ∷ low ∷ []) r ≡ run ((here + 4) % 2 ^ 128) (low ∷ []) r₁ =
      run-step here high (low ∷ []) r _ (result_auipc here high r fh.opcode)
      ∙ rw (fh.rd, fh.imm) refl in
    first
    ∙ run_addi ((here + 4) % 2 ^ 128) reg low r₁ fl []
    ∙ rw (
      read_written reg (here + upper) r h₀,
      write_twice reg r,
      write_congr reg r ((here + upper) % 2 ^ 128 + imm_value (d % 2 ^ 64 % 4096)) target (
          reach here target upper (imm_value (d % 2 ^ 64 % 4096)) ht hh
            (low_halves d (omega arith) range)),
    )

module _ (a : Assembler) (loc : SymbolLocation) {s : Section} (reg target here : ℕ)
    (l : Located a loc s 8) (first : word_in loc 0 s ≡ la_high reg)
    (second : word_in loc 4 s ≡ la_low reg) (hr : reg < 32) (h₀ : 0 < reg) (ht : target < 2 ^ 128)
    (hh : here < 2 ^ 128) (near : IsNear target here) where
  abbrev diff : ℕ
  diff = sub_word 128 target here % 2 ^ 64

  abbrev s₁ : Section
  s₁ = patched loc 4 (Itype.set_imm diff) s

  abbrev s₂ : Section
  s₂ = patched loc 0 (Utype.set_opcode rv32i_auipc) s₁

  abbrev s₃ : Section
  s₃ = patched loc 0 (Utype.set_imm (la_upper diff)) s₂

  room₁ : loc.offset + 8 ≤ length s₁.output
  room₁ = room-patched 8 loc s l.inside 4 (Itype.set_imm diff) (omega arith)

  room₂ : loc.offset + 8 ≤ length s₂.output
  room₂ = room-patched 8 loc s₁ room₁ 0 (Utype.set_opcode rv32i_auipc) (omega arith)

  low_word : word_in loc 4 s₂ ≡ Itype.set_imm diff (la_low reg) % 2 ^ 32
  low_word =
      word_in-patched_above 8 loc s₁ room₁ 0 (Utype.set_opcode rv32i_auipc) (omega arith) 4
        (omega arith)
      ∙ word_in-patched 8 loc s l.inside 4 (Itype.set_imm diff) (omega arith)
      ∙ ap (λ w. Itype.set_imm diff w % 2 ^ 32) second

  high_word :
      word_in loc 0 s₃
      ≡ Utype.set_imm (la_upper diff) (Utype.set_opcode rv32i_auipc (la_high reg) % 2 ^ 32) % 2 ^ 32
  high_word =
      word_in-patched 8 loc s₂ room₂ 0 (Utype.set_imm (la_upper diff)) (omega arith)
      ∙ ap (λ w. Utype.set_imm (la_upper diff) w % 2 ^ 32)
          (word_in-patched 8 loc s₁ room₁ 0 (Utype.set_opcode rv32i_auipc) (omega arith)
            ∙ ap (λ w. Utype.set_opcode rv32i_auipc w % 2 ^ 32)
                (word_in-patched_below 8 loc s l.inside 4 (Itype.set_imm diff) (omega arith) 0
                    (omega arith)
                  ∙ first))

  low_kept : word_in loc 4 s₃ ≡ word_in loc 4 s₂
  low_kept =
      word_in-patched_above 8 loc s₂ room₂ 0 (Utype.set_imm (la_upper diff)) (omega arith) 4
        (omega arith)

  -- For a near target, OP_LA's closure runs on the two instructions that OP_LA has output for a
  -- register of 1 to 31: run by the RV128I specification from their own address, the patched pair
  -- puts the target's address into the register and changes no other.
  pub link_la-loads :
      (r : Registers)
      → (a' : Assembler) × (s' : Section) × (link_la loc target here a ≡ ok (tt, a'))
        × Located a' loc s' 8
        × (run here (word_in loc 0 s' ∷ word_in loc 4 s' ∷ []) r ≡ some (write reg target r))
  unfolding link_la
  link_la-loads r =
      let (a₁, e₁, l₁) = change_word_step 8 a loc l 4 (Itype.set_imm diff) (omega arith) in
      let (a₂, e₂, l₂) =
        change_word_step 8 a₁ loc l₁ 0 (Utype.set_opcode rv32i_auipc) (omega arith) in
      let e = word_at_step 8 a₂ loc l₂ 4 (omega arith) in
      let (a₃, e₃, l₃) =
        change_word_step 8 a₂ loc l₂ 0 (Utype.set_imm (la_upper diff)) (omega arith) in
      let low : IsAddi reg reg (diff % 4096) (word_in loc 4 s₂) =
        rw (low_word) (low-IsAddi reg hr diff) in
      (
        a₃,
        s₃,
        rw (near-close (sub_word 128 target here) (omega arith) near, e₁, e₂, e, low.imm) e₃,
        l₃,
        run_pair reg target here (word_in loc 0 s₃) (word_in loc 4 s₃) r h₀ ht hh near
            (rw high_word (high-IsAuipc reg hr (la_upper diff))) (rw low_kept low),
      )
