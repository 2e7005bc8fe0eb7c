-- ===== src/Patch/Closures.antt =====
-- The closures of src/opcodes.cpp and src/directive.cpp, and the sections' sizes and addresses.
use bigassm.Prelude.{
  ℕ, ◌+◌, ◌*◌, ◌/◌, ◌%◌, ◌^◌, ◌||◌, ◌&&◌, leb, ◌≡◌, refl, ap, ◌∙◌, Bool, true, false, Bytes, ltb,
  if◌then◌else◌, find, update, find-update, bytes_eq, if-intro, Option, none, some, Option-cases,
  Bool-cases, inl, inr,
}
use mathlib.Core.Option
use bigassm.Prelude.Words.{add_word, sub_word, asr, slt, neg}
use bigassm.Assembler.{
  SymbolLocation, Scheduled, end_function, set_size, set_type, patch_la, patch_laq, patch_branch,
  patch_farcall, patch_jump, Assembler, Asm, int_sum,
}
use bigassm.Instr.{rv32i_auipc}
use bigassm.Instr.Itype
use bigassm.Instr.Utype
use bigassm.Patch.{
  is_relatively_close, bounds_check_jump, set_uint32, link_la, link_laq, set_branch, set_jump,
  link_branch, link_jump, link_farcall, on_symbol, link_size, run_at, run_scheduled,
}
use bigassm.Patch.Shape.{
  Shaped, shaped, failed, SameShape-refl, place, home, bind-Shaped, change_word-Shaped,
  word_at-Shaped, address-Shaped,
}

if-Shaped {ℓ} :
    {A : Type ℓ} {a : Assembler} (b : Bool) (m n : Asm A)
    → Shaped a (m a)
    → Shaped a (n a)
    → Shaped a ((if b then m else n) a)
if-Shaped true m n p q = p
if-Shaped false m n p q = q

-- A write to a symbol that keeps its place.
on_symbol-Shaped :
    (name : Bytes) (f : SymbolLocation → SymbolLocation) (a : Assembler)
    → ((l : SymbolLocation) → place (f l) ≡ place l)
    → Shaped a (on_symbol name f a)
unfolding on_symbol
on_symbol-Shaped name f a keeps =
    shaped tt _ (record { sizes = λ n. refl; homes = kept; options = refl })
  where
    moved : (o : Option SymbolLocation) → Option.map place (Option.map f o) ≡ Option.map place o
    moved none = refl
    moved (some l) = ap some (keeps l)

    kept :
        (n : Bytes)
        → Option.map place (find n (update name f a.lookup)) ≡ Option.map place (find n a.lookup)
    kept n =
        ap (λ (o : Option SymbolLocation). Option.map place o) (find-update name n f a.lookup)
        ∙ if-intro (λ (o : Option SymbolLocation). Option.map place o ≡ home a n) (bytes_eq name n)
            _ _ (moved (find n a.lookup)) refl

bounds_check_jump-Shaped : (diff : ℕ) (a : Assembler) → Shaped a (bounds_check_jump diff a)
unfolding bounds_check_jump
bounds_check_jump-Shaped diff a =
    elim (Bool-cases (slt 64 diff (neg 64 2048) || slt 64 2047 diff)) [
      | inl e ↦ rw (bounds_check_jump, e) (failed _)
      | inr e ↦ rw (bounds_check_jump, e) (shaped tt a (SameShape-refl a))
    ]

int_sum-Shaped : (value imm : ℕ) (a : Assembler) → Shaped a (int_sum value imm a)
unfolding int_sum
int_sum-Shaped value imm a =
    if-Shaped (ltb value (2 ^ 31) && leb (2 ^ 31) (value + imm)) _ _ (failed _)
      (shaped _ a (SameShape-refl a))

module _ (loc : SymbolLocation) where
  set_uint32-Shaped : (off value : ℕ) (a : Assembler) → Shaped a (set_uint32 loc off value a)
  unfolding set_uint32
  set_uint32-Shaped off value a =
      bind-Shaped _ (change_word-Shaped loc (off + 4) (Itype.set_imm value) a) λ u b.
        bind-Shaped _ (word_at-Shaped loc (off + 4) b) λ i2 c.
          bind-Shaped _ (int_sum-Shaped value (Itype.imm i2) c)
            λ sum d. change_word-Shaped loc off (Utype.set_imm (asr 32 sum 12)) d

  link_la-Shaped : (target here : ℕ) (a : Assembler) → Shaped a (link_la loc target here a)
  unfolding link_la
  link_la-Shaped target here a =
      let diff = sub_word 128 target here % 2 ^ 64 in
      if-Shaped (is_relatively_close diff) _ _
        (bind-Shaped _ (change_word-Shaped loc 4 (Itype.set_imm diff) a) λ u b.
          bind-Shaped _ (change_word-Shaped loc 0 (Utype.set_opcode rv32i_auipc) b) λ u c.
            bind-Shaped _ (word_at-Shaped loc 4 c) λ i2 d.
              change_word-Shaped loc 0 (Utype.set_imm (asr 64 (add_word 64 diff (Itype.imm i2)) 12))
                d)
        (bind-Shaped _ (change_word-Shaped loc 4 (Itype.set_imm target) a) λ u b.
          bind-Shaped _ (word_at-Shaped loc 4 b) λ i2 c.
            change_word-Shaped loc 0 (Utype.set_imm (add_word 128 target (Itype.imm i2) / 2 ^ 12))
              c)

  link_laq-Shaped : (target : ℕ) (a : Assembler) → Shaped a (link_laq loc target a)
  unfolding link_laq
  link_laq-Shaped target a = bind-Shaped _ (set_uint32-Shaped 0 _ a) λ u b.
      bind-Shaped _ (set_uint32-Shaped (2 * 4) _ b)
        λ u c. bind-Shaped _ (set_uint32-Shaped (6 * 4) _ c) λ u d. set_uint32-Shaped (10 * 4) _ d

  link_jump-Shaped : (target here : ℕ) (a : Assembler) → Shaped a (link_jump loc target here a)
  unfolding link_jump
  link_jump-Shaped target here a =
      let diff = sub_word 128 target here % 2 ^ 64 in
      bind-Shaped _ (bounds_check_jump-Shaped diff a)
        λ u b. change_word-Shaped loc 0 (set_jump diff) b

  link_farcall-Shaped : (target : ℕ) (a : Assembler) → Shaped a (link_farcall loc target a)
  unfolding link_farcall
  link_farcall-Shaped target a =
      bind-Shaped _ (change_word-Shaped loc 0 (Utype.set_imm (target / 2 ^ 12)) a)
        λ u b. change_word-Shaped loc 4 (Itype.set_imm target) b

  link_size-Shaped :
      (name : Bytes) (target dataloc here : ℕ) (a : Assembler)
      → Shaped a (link_size loc name target dataloc here a)
  unfolding link_size
  link_size-Shaped name target dataloc here a =
      let new =
        (if ltb target dataloc
          then sub_word 128 dataloc target
          else sub_word 128 (sub_word 128 target 4) here)
        % 2 ^ 32 in
      bind-Shaped _ (change_word-Shaped loc 0 (λ old. new) a)
        λ u b. on_symbol-Shaped name (λ sym. record sym { size = new }) b (λ l. refl)

run_at-Shaped :
    (op : Scheduled) (name : Bytes) (target : ℕ) (a : Assembler)
    → Shaped a (run_at op name target a)
unfolding run_at link_branch
run_at-Shaped (set_type type) name target a = on_symbol-Shaped name _ a (λ l. refl)
run_at-Shaped (end_function loc) name target a =
    bind-Shaped _ (address-Shaped loc a) λ here b. on_symbol-Shaped name _ b (λ l. refl)
run_at-Shaped (set_size loc dataloc) name target a =
    bind-Shaped _ (address-Shaped dataloc a) λ data_here b.
      bind-Shaped _ (address-Shaped loc b)
        λ here c. link_size-Shaped loc name target data_here here c
run_at-Shaped (patch_la loc) name target a =
    bind-Shaped _ (address-Shaped loc a) λ here b. link_la-Shaped loc target here b
run_at-Shaped (patch_laq loc) name target a = link_laq-Shaped loc target a
run_at-Shaped (patch_branch loc) name target a =
    bind-Shaped _ (address-Shaped loc a)
      λ here b. change_word-Shaped loc 0 (set_branch (sub_word 128 target here % 2 ^ 32)) b
run_at-Shaped (patch_farcall loc) name target a = link_farcall-Shaped loc target a
run_at-Shaped (patch_jump loc) name target a =
    bind-Shaped _ (address-Shaped loc a) λ here b. link_jump-Shaped loc target here b

-- A closure keeps every section's size and base address, or throws.
pub run_scheduled-Shaped :
    (op : Scheduled) (name : Bytes) (a : Assembler) → Shaped a (run_scheduled op name a)
unfolding run_scheduled
run_scheduled-Shaped op name a = elim (Option-cases (find name a.lookup)) [
  | inl e ↦ rw (run_scheduled, e) (failed _)
  | inr (sym, e) ↦
      rw (run_scheduled, e)
        (bind-Shaped _ (address-Shaped sym a) λ target b. run_at-Shaped op name target b)
]
