-- ===== src/Patch/Branches.antt =====
-- The closures of the branches, OP_CALL and OP_JMP of src/opcodes.cpp, run on the assembler's state.
use bigassm.Prelude.{
  ℕ, Bool, ◌-◌, ◌/◌, ◌%◌, ◌^◌, ◌≡◌, ◌≤◌, ◌<◌, ◌⊎◌, ◌||◌, true, false, ap, arith, ◌∙◌, codes, ◌+◌,
  ◌↔◌, inl, inr, refl,
}
use bigassm.Prelude.Words.{sub_word, sext, slt, neg}
use bigassm.Types.{Error, ok, err, token_exception, new_token, tk_symbol, bits}
use bigassm.Types.Print.{int_to_string}
use bigassm.Section.{Section}
use bigassm.Assembler.{SymbolLocation, Assembler}
use bigassm.Instr.Btype
use bigassm.Instr.Jtype
use bigassm.Patch.{set_branch, set_jump, bounds_check_jump, link_branch, link_jump}
use bigassm.Patch.Encode.{SameBranch, SameJump, set_branch-signed_imm, set_jump-jump_offset}
use bigassm.Patch.Output.{Located, patched, change_word_step, word_in, word_in-patched}

branch_whole : (x : ℕ) → Btype.signed_imm (x % 2 ^ 32) ≡ Btype.signed_imm x
branch_whole x =
    Btype.signed_imm-eq-add (x % 2 ^ 32)
    ∙ rw (low x, mid x, top x, sign x, Btype.signed_imm-eq-add x)
  where
    low : (x : ℕ) → x % 2 ^ 32 / 2 ^ 8 % 2 ^ 4 ≡ x / 2 ^ 8 % 2 ^ 4
    low x = omega arith

    mid : (x : ℕ) → x % 2 ^ 32 / 2 ^ 25 % 2 ^ 6 ≡ x / 2 ^ 25 % 2 ^ 6
    mid x = omega arith

    top : (x : ℕ) → x % 2 ^ 32 / 2 ^ 7 % 2 ≡ x / 2 ^ 7 % 2
    top x = omega arith

    sign : (x : ℕ) → x % 2 ^ 32 / 2 ^ 31 % 2 ≡ x / 2 ^ 31 % 2
    sign x = omega arith

jump_whole : (x : ℕ) → Jtype.jump_offset (x % 2 ^ 32) ≡ Jtype.jump_offset x
jump_whole x =
    Jtype.jump_offset-eq-add (x % 2 ^ 32)
    ∙ rw (low x, mid x, top x, sign x, Jtype.jump_offset-eq-add x)
  where
    low : (x : ℕ) → x % 2 ^ 32 / 2 ^ 21 % 2 ^ 10 ≡ x / 2 ^ 21 % 2 ^ 10
    low x = omega arith

    mid : (x : ℕ) → x % 2 ^ 32 / 2 ^ 20 % 2 ≡ x / 2 ^ 20 % 2
    mid x = omega arith

    top : (x : ℕ) → x % 2 ^ 32 / 2 ^ 12 % 2 ^ 8 ≡ x / 2 ^ 12 % 2 ^ 8
    top x = omega arith

    sign : (x : ℕ) → x % 2 ^ 32 / 2 ^ 31 % 2 ≡ x / 2 ^ 31 % 2
    sign x = omega arith

abbrev out_of_bounds : ℕ → Bool
out_of_bounds diff = slt 64 diff (neg 64 2048) || slt 64 2047 diff

in_bounds :
    (d : ℕ) → d < 2 ^ 128 → (d < 2048) ⊎ (2 ^ 128 - 2048 ≤ d) → out_of_bounds (d % 2 ^ 64) ≡ false
in_bounds d h range = ground arith

beyond_bounds :
    (target here : ℕ)
    → target < 2 ^ 63
    → here < 2 ^ 63
    → (here + 2048 ≤ target) ⊎ (target + 2048 < here)
    → out_of_bounds (sub_word 128 target here % 2 ^ 64) ≡ true
beyond_bounds target here ht hh range = ground arith

within_bounds :
    (target here : ℕ)
    → target < 2 ^ 63
    → here < 2 ^ 63
    → target < here + 2048
    → here ≤ target + 2048
    → out_of_bounds (sub_word 128 target here % 2 ^ 64) ≡ false
within_bounds target here ht hh up down = ground arith

low_word : (d : ℕ) → d % 2 ^ 64 % 2 ^ 32 ≡ d % 2 ^ 32
low_word d = omega arith

-- An even distance of at most `reach` behind, or less than `reach` ahead.
abbrev pub IsWithin : ℕ → ℕ → ℕ → Type 0
IsWithin reach target here =
    let d = sub_word 128 target here in (d % 2 ≡ 0) × ((d < reach) ⊎ (2 ^ 128 - reach ≤ d))

module _ (a : Assembler) (loc : SymbolLocation) {s : Section} (target here : ℕ)
    (l : Located a loc s 4) where
  -- The closure of a branch succeeds for an even distance within 4 KiB, the patched word decodes to
  -- that distance, and the opcode, the condition and the registers stay.
  pub link_branch-decodes :
      IsWithin 4096 target here
      → (a' : Assembler) × (s' : Section) × (link_branch loc target here a ≡ ok (tt, a'))
        × Located a' loc s' 4
        × (Btype.signed_imm (word_in loc 0 s') ≡ sub_word 128 target here % 2 ^ 32)
        × SameBranch (word_in loc 0 s') (word_in loc 0 s)
  unfolding link_branch
  link_branch-decodes (even, range) =
      let diff = sub_word 128 target here % 2 ^ 32 in
      let (a', e, l') = change_word_step 4 a loc l 0 (set_branch diff) (omega arith) in
      let word = word_in-patched 4 loc s l.inside 0 (set_branch diff) (omega arith) in
      let (decodes, same) =
        set_branch-signed_imm diff (word_in loc 0 s) (omega arith) (omega arith) (omega arith) in
      (
        a',
        patched loc 0 (set_branch diff) s,
        e,
        l',
        ap Btype.signed_imm word ∙ branch_whole _ ∙ decodes,
        (omega (arith, word, same.0), omega (arith, word, same.1)),
      )

  -- The closure of OP_CALL and OP_JMP succeeds for an even distance within 2 KiB, the patched word
  -- decodes to that distance, and the opcode and the destination stay.
  pub link_jump-decodes :
      IsWithin 2048 target here
      → (a' : Assembler) × (s' : Section) × (link_jump loc target here a ≡ ok (tt, a'))
        × Located a' loc s' 4
        × (Jtype.jump_offset (word_in loc 0 s') ≡ sub_word 128 target here % 2 ^ 32)
        × SameJump (word_in loc 0 s') (word_in loc 0 s)
  unfolding link_jump bounds_check_jump
  link_jump-decodes (even, range) =
      let diff = sub_word 128 target here % 2 ^ 64 in
      let (a', e, l') = change_word_step 4 a loc l 0 (set_jump diff) (omega arith) in
      let word = word_in-patched 4 loc s l.inside 0 (set_jump diff) (omega arith) in
      let (decodes, same) =
        set_jump-jump_offset diff (word_in loc 0 s) (omega arith) (omega arith) (omega arith) in
      (
        a',
        patched loc 0 (set_jump diff) s,
        rw (in_bounds (sub_word 128 target here) (omega arith) range) e,
        l',
        ap Jtype.jump_offset word ∙ jump_whole _ ∙ decodes ∙ low_word (sub_word 128 target here),
        omega (arith, word, same),
      )

-- bounds_check_jump's exception for a distance.
abbrev pub out_of_bounds_jump : ℕ → Error
out_of_bounds_jump d =
    token_exception
      (record (new_token tk_symbol) {
        payload = bits (sext 64 128 (d % 2 ^ 64));
        value = int_to_string (d % 2 ^ 64);
      })
      (codes "Out of bounds address for jump")

-- Between addresses below 2 ^ 63, the closure of OP_CALL and OP_JMP on an instruction that has been
-- output throws the exception of bounds_check_jump exactly if the target is 2 KiB or more ahead, or
-- more than 2 KiB behind.
pub link_jump-refuses :
    (a : Assembler) (loc : SymbolLocation) (s : Section) (target here : ℕ)
    → Located a loc s 4
    → target < 2 ^ 63
    → here < 2 ^ 63
    → (link_jump loc target here a ≡ err (out_of_bounds_jump (sub_word 128 target here)))
      ↔ ((here + 2048 ≤ target) ⊎ (target + 2048 < here))
unfolding link_jump bounds_check_jump
link_jump-refuses a loc s target here l ht hh = (only, refuses)
  where
    apart : (t h : ℕ) → (t < h + 2048) × (h ≤ t + 2048) ⊎ ((h + 2048 ≤ t) ⊎ (t + 2048 < h))
    apart t h = ground arith

    refuses :
        (here + 2048 ≤ target) ⊎ (target + 2048 < here)
        → link_jump loc target here a ≡ err (out_of_bounds_jump (sub_word 128 target here))
    refuses far = rw (link_jump, bounds_check_jump, beyond_bounds target here ht hh far) refl

    accepts :
        target < here + 2048
        → here ≤ target + 2048
        → (a' : Assembler) × (link_jump loc target here a ≡ ok (tt, a'))
    accepts up down =
        let diff = sub_word 128 target here % 2 ^ 64 in
        let (a', e, l') = change_word_step 4 a loc l 0 (set_jump diff) (omega arith) in
        (a', rw (within_bounds target here ht hh up down) e)

    only :
        link_jump loc target here a ≡ err (out_of_bounds_jump (sub_word 128 target here))
        → (here + 2048 ≤ target) ⊎ (target + 2048 < here)
    only e = elim (apart target here) [
      | inl (up, down) ↦ let (a', f) = accepts up down in absurd cc
      | inr far ↦ far
    ]
