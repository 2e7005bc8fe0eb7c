-- ===== src/Opcodes/Build/Set.antt =====
-- OP_SET of src/opcodes.cpp held to the specification of the instructions.
use bigassm.Prelude.{
  ℕ, ◌+◌, ◌/◌, ◌%◌, ◌^◌, ◌*◌, ap, ◌≡◌, ◌≢◌, ◌≤◌, ◌<◌, ◌⊎◌, false, [], ◌∷◌, ◌++◌, List, arith, ltb,
  ◌==◌, Bool-cases, inl, inr, ==_iff, refl, bit_or, some, if◌then◌else◌, sym,
}
use bigassm.Prelude.Bits.{bit_or_comm, bit_or_disjoint}
use bigassm.Prelude.Words.{sext}
use mathlib.Core.List.{append_assoc, append-nil}
use mathlib.Core.Path.{fun_ext, ◌∙◌}
use bigassm.Instr.{Instruction}
use bigassm.Rv128.{Registers, read, write, run, run-step}
use bigassm.Types.{ok}
use bigassm.Assembler.{Assembler}
use bigassm.Instr.Itype
use bigassm.Rv128.Forms.{result_slli, result_add}
use bigassm.Opcodes.Build.{build_uint32, shift_32, add_temp, set_word, build_set}
use bigassm.Opcodes.Build.Fields.{IsShift, IsAdd, shift_32-IsShift, add_temp-IsAdd}
use bigassm.Opcodes.Build.Load.{run-build_uint32, write_congr, write_twice}

module _ (pc reg : ℕ) (i : Instruction) (r : Registers) where
  run_shift :
      IsShift reg i
      → (is : List Instruction)
      → run pc (i ∷ is) r ≡ run ((pc + 4) % 2 ^ 128) is (write reg (read r reg * 2 ^ 32) r)
  unfolding Itype.rd
  run_shift f is =
      run-step pc i is r _ (result_slli pc i r f.opcode f.funct3 f.imm) ∙ rw (f.rd, f.rs1) refl

  run_add :
      {src : ℕ}
      → IsAdd reg src i
      → (is : List Instruction)
      → run pc (i ∷ is) r ≡ run ((pc + 4) % 2 ^ 128) is (write reg (read r reg + read r src) r)
  unfolding Itype.rd
  run_add f is =
      run-step pc i is r _ (result_add pc i r f.opcode f.funct3 f.funct7)
      ∙ rw (f.rd, f.rs1, f.rs2) refl

-- `value_so_far` after a word: the low three words move up.
abbrev pub shifted_in : ℕ → ℕ → ℕ
shifted_in so_far word = so_far % 2 ^ 96 * 2 ^ 32 + word

so_far_or :
    (so_far word : ℕ)
    → word < 2 ^ 31
    → bit_or (so_far * 2 ^ 32 % 2 ^ 128) (sext 32 128 word) ≡ shifted_in so_far word
so_far_or so_far word h =
    let widened : sext 32 128 word ≡ word = ground arith in
    let moved : so_far * 2 ^ 32 % 2 ^ 128 ≡ so_far % 2 ^ 96 * 2 ^ 32 = omega arith in
    rw (widened, moved, bit_or_comm)
      (omega (arith, bit_or_disjoint 32 word (so_far % 2 ^ 96) (omega arith)))

module _ (dst temp : ℕ) (hd : dst < 32) (d₀ : 0 < dst) (ht : temp < 32) (t₀ : 0 < temp)
    (apart : dst ≢ temp) where
  -- What the instructions for one word do: the word into `temp`, `dst` moved up, and their sum.
  abbrev pub After : ℕ → ℕ → Registers → Registers
  After so_far word r = write dst (shifted_in so_far word) (write temp word r)

  module _ (so_far word : ℕ) (hw : word < 0x7FFFF800) (hs : so_far < 2 ^ 128) (r : Registers)
      (e : r dst ≡ so_far) where
    tail_unshifted :
        (pc : ℕ) (is : List Instruction)
        → so_far ≡ 0
        → run pc (add_temp dst temp ∷ is) (write temp word r)
          ≡ run ((pc + 4) % 2 ^ 128) is (After so_far word r)
    tail_unshifted pc is z =
        run_add pc dst (add_temp dst temp) (write temp word r) (add_temp-IsAdd dst temp hd ht) is
        ∙ rw (
            write_congr dst (write temp word r)
              (read (write temp word r) dst + read (write temp word r) temp)
              (shifted_in so_far word) (ground arith))

    pub tail_shifted :
        (pc : ℕ) (is : List Instruction)
        → run pc (shift_32 dst ∷ add_temp dst temp ∷ is) (write temp word r)
          ≡ run (((pc + 4) % 2 ^ 128 + 4) % 2 ^ 128) is (After so_far word r)
    tail_shifted pc is =
        let r₁ = write temp word r in
        let r₂ = write dst (read r₁ dst * 2 ^ 32) r₁ in
        run_shift pc dst (shift_32 dst) r₁ (shift_32-IsShift dst hd) (add_temp dst temp ∷ is)
        ∙ run_add ((pc + 4) % 2 ^ 128) dst (add_temp dst temp) r₂ (add_temp-IsAdd dst temp hd ht) is
        ∙ rw (
          write_twice dst r₁,
          write_congr dst r₁ (read r₂ dst + read r₂ temp) (shifted_in so_far word) (ground arith),
        )

    -- One round of the loop, behind the words that it is given.
    abbrev set_tail : List Instruction
    set_tail = if so_far == 0 then add_temp dst temp ∷ [] else shift_32 dst ∷ add_temp dst temp ∷ []

    set_word_built :
        (res b : List Instruction) (a : Assembler)
        → build_uint32 res temp word a ≡ ok (res ++ b, a)
        → set_word dst temp word (res, so_far) a
          ≡ ok ((res ++ (b ++ set_tail), shifted_in so_far word), a)
    unfolding set_word
    set_word_built res b a eb =
        let sum = so_far_or so_far word (omega arith) in
        elim (Bool-cases (so_far == 0)) [
          | inl z ↦ rw (set_word, eb, sum, z) (simp append_assoc)
          | inr z ↦ rw (set_word, eb, sum, z) (simp append_assoc)
        ]

    run_tail :
        (pc : ℕ) (is : List Instruction)
        → (pc' : ℕ) × (run pc (set_tail ++ is) (write temp word r)
            ≡ run pc' is (After so_far word r))
    run_tail pc is = elim (Bool-cases (so_far == 0)) [
      | inl z ↦ ((pc + 4) % 2 ^ 128, rw z (tail_unshifted pc is ((==_iff _ _).0 z)))
      | inr z ↦ (((pc + 4) % 2 ^ 128 + 4) % 2 ^ 128, rw z (tail_shifted pc is))
    ]

    run-set_word :
        (res : List Instruction) (a : Assembler)
        → (built : List Instruction) × (set_word dst temp word (res, so_far) a
            ≡ ok ((res ++ built, shifted_in so_far word), a))
          × ((pc : ℕ) (is : List Instruction)
              → (pc' : ℕ) × (run pc (built ++ is) r ≡ run pc' is (After so_far word r)))
    run-set_word res a =
        let (b, eb, ran) = run-build_uint32 temp word ht t₀ (omega arith) (inl hw) r res a in
        let plain : sext 32 128 word ≡ word = ground arith in
        (
          b ++ set_tail,
          set_word_built res b a eb,
          λ pc is. (
            _,
            ap (λ (l : List Instruction). run pc l r) (append_assoc b set_tail is)
                ∙ (ran pc (set_tail ++ is)).1
                ∙ ap (λ (x : ℕ). run (ran pc (set_tail ++ is)).0 (set_tail ++ is) (write temp x r))
                    plain
                ∙ (run_tail (ran pc (set_tail ++ is)).0 is).1,
          ),
        )

  pub written : (n a b : ℕ) (r : Registers) → a ≡ b → b < 2 ^ 128 → write n a r n ≡ b
  written n a b r e h = ground arith

  -- The whole sequence, for a constant of more than 32 bits.
  abbrev word : ℕ → ℕ → ℕ
  word imm i = imm / 2 ^ (32 * i) % 2 ^ 32

  pub words_back :
      (imm : ℕ)
      → imm < 2 ^ 128
      → shifted_in
          (shifted_in (shifted_in (sext 32 128 (word imm 3)) (word imm 2)) (word imm 1))
          (word imm 0)
        ≡ imm
  words_back imm h = ground arith

  pub sext-lt : (w : ℕ) → w < 2 ^ 32 → sext 32 128 w < 2 ^ 128
  sext-lt w h = ground arith

  pub After_twice : (s s' w w' : ℕ) (r : Registers) → After s w (After s' w' r) ≡ After s w r
  After_twice s s' w w' r = fun_ext λ m. ground arith

  pub After_write : (s w x : ℕ) (r : Registers) → After s w (write dst x r) ≡ After s w r
  After_write s w x r = fun_ext λ m. ground arith

  module _ (imm : ℕ) (lo : 2 ^ 32 ≤ imm) (hi : imm < 2 ^ 128) (w₀ : word imm 0 < 0x7FFFF800)
      (w₁ : word imm 1 < 0x7FFFF800) (w₂ : word imm 2 < 0x7FFFF800)
      (w₃ : (word imm 3 < 0x7FFFF800) ⊎ (0x80000000 ≤ word imm 3)) (r : Registers) where
    -- What OP_SET leaves in the two registers.
    run-build_set :
        (pc : ℕ) (a : Assembler)
        → (code : List Instruction) × (build_set dst temp imm a ≡ ok (code, a))
          × (run pc code r ≡ some (write dst imm (write temp (word imm 0) r)))
    unfolding build_set run
    run-build_set pc a =
        let s₃ = sext 32 128 (word imm 3) in
        let s₂ = shifted_in s₃ (word imm 2) in
        let s₁ = shifted_in s₂ (word imm 1) in
        let s₀ = shifted_in s₁ (word imm 0) in
        let h₃ : s₃ < 2 ^ 128 = sext-lt (word imm 3) (omega arith) in
        let r₃ = write dst s₃ r in
        let r₂ = After s₃ (word imm 2) r₃ in
        let r₁ = After s₂ (word imm 1) r₂ in
        let r₀ = After s₁ (word imm 0) r₁ in
        let (b₃, e₃, ran₃) = run-build_uint32 dst (word imm 3) hd d₀ (omega arith) w₃ r [] a in
        let (b₂, e₂, ran₂) =
          run-set_word s₃ (word imm 2) w₂ h₃ r₃ (written dst s₃ s₃ r refl h₃) b₃ a in
        let (b₁, e₁, ran₁) =
          run-set_word s₂ (word imm 1) w₁ (omega arith) r₂
            (written dst s₂ s₂ (write temp (word imm 2) r₃) refl (omega arith)) (b₃ ++ b₂) a in
        let (b₀, e₀, ran₀) =
          run-set_word s₁ (word imm 0) w₀ (omega arith) r₁
            (written dst s₁ s₁ (write temp (word imm 1) r₂) refl (omega arith)) ((b₃ ++ b₂) ++ b₁)
            a in
        let small : ltb imm 0x100000000 ≡ false = ground arith in
        let same : b₃ ++ (b₂ ++ (b₁ ++ (b₀ ++ []))) ≡ ((b₃ ++ b₂) ++ b₁) ++ b₀ =
          simp (append_assoc, append-nil) in
        (
          ((b₃ ++ b₂) ++ b₁) ++ b₀,
          rw (build_set, small, e₃, e₂, e₁, e₀) refl,
          ap (λ (l : List Instruction). run pc l r) (sym same)
              ∙ (ran₃ pc _).1
              ∙ (ran₂ _ _).1
              ∙ (ran₁ _ _).1
              ∙ (ran₀ _ []).1
              ∙ ap some (After_twice s₁ s₂ (word imm 0) (word imm 1) r₂)
              ∙ ap some (After_twice s₁ s₃ (word imm 0) (word imm 2) r₃)
              ∙ ap some (After_write s₁ (word imm 0) s₃ r)
              ∙ ap (λ (x : ℕ). some (write dst x (write temp (word imm 0) r))) (words_back imm hi),
        )

-- OP_SET's code for a constant of more than 32 bits puts the whole constant into its destination
-- and the low word into the temporary register, two different registers of 1 to 31, where the three
-- lower words are below 0x7FFFF800 and the upper word is that or negative.
pub build_set-loads :
    (dst temp imm pc : ℕ) (r : Registers) (a : Assembler)
    → 0 < dst
    → dst < 32
    → 0 < temp
    → temp < 32
    → dst ≢ temp
    → 2 ^ 32 ≤ imm
    → imm < 2 ^ 128
    → imm % 2 ^ 32 < 0x7FFFF800
    → imm / 2 ^ 32 % 2 ^ 32 < 0x7FFFF800
    → imm / 2 ^ 64 % 2 ^ 32 < 0x7FFFF800
    → (imm / 2 ^ 96 < 0x7FFFF800) ⊎ (0x80000000 ≤ imm / 2 ^ 96)
    → (code : List Instruction) × (build_set dst temp imm a ≡ ok (code, a))
      × (run pc code r ≡ some (write dst imm (write temp (imm % 2 ^ 32) r)))
build_set-loads dst temp imm pc r a d₀ hd t₀ ht apart lo hi w₀ w₁ w₂ w₃ =
    let low : imm / 2 ^ (32 * 0) % 2 ^ 32 ≡ imm % 2 ^ 32 = omega arith in
    let (code, built, ran) =
      run-build_set dst temp hd d₀ ht t₀ apart imm lo hi (omega arith) w₁ w₂ (omega arith) r pc a in
    (code, built, ran ∙ ap (λ (x : ℕ). some (write dst imm (write temp x r))) low)
