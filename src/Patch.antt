-- ===== src/Patch.antt =====
-- The closures that src/opcodes.cpp and src/directive.cpp schedule, run when the symbol's address
-- is known: they patch the output, or set what the symbol table says.
pub mod Words
pub mod Encode
pub mod LoadAddress
pub mod Branches
pub mod Output
pub mod Shape
pub mod Closures
pub mod Farcall
use bigassm.Prelude.{
  ℕ, ◌+◌, ◌-◌, ◌*◌, ◌/◌, ◌%◌, ◌^◌, Bool, not, ◌&&◌, ◌||◌, [], ◌∷◌, ◌++◌, Bytes, codes, length, take,
  drop, ltb, leb, if◌then◌else◌, find, update,
}
use bigassm.Prelude.Words.{add_word, sub_word, neg, asr, slt, sext}
use bigassm.Types.{new_token, tk_symbol, bits, out_of_range, undefined, token_exception}
use bigassm.Types.Print.{int_to_string}
use bigassm.Section.{address_at}
use bigassm.Assembler.{
  SymbolLocation, Scheduled, end_function, set_size, set_type, patch_la, patch_laq, patch_branch,
  patch_farcall, patch_jump, Asm, pure, throw, from_option, get, modify, ◌>>=◌, ◌>>◌, section_at,
  with_section, address, int_sum,
}
use bigassm.Instr.{rv32i_auipc}
use bigassm.Instr.Itype
use bigassm.Instr.Utype
use bigassm.Instr.Btype
use bigassm.Instr.Jtype

-- Four bytes, the lowest first, as a number, and back.
unfoldable pub word_of : Bytes → ℕ
word_of [] = 0
word_of (b ∷ bs) = b + 256 * word_of bs

abbrev pub word_bytes : ℕ → Bytes
word_bytes w = (w % 256) ∷ (w / 2 ^ 8 % 256) ∷ (w / 2 ^ 16 % 256) ∷ (w / 2 ^ 24 % 256) ∷ []

unfoldable pub read_word : ℕ → Bytes → ℕ
unfolding word_of
read_word i out = word_of (take 4 (drop i out))

unfoldable pub write_word : ℕ → ℕ → Bytes → Bytes
write_word i w out = take i out ++ (word_bytes w ++ drop (i + 4) out)

-- `at_location<uint32_t>`: `output.at(loc.address() + off - section.base_address())`. The index is
-- checked; a word that begins in the output and ends behind it is undefined.
unfoldable pub word_index : SymbolLocation → ℕ → Asm ℕ
unfolding section_at address_at
word_index loc off = do
  s ← section_at loc.section
  let i = (address_at s loc.offset + off + 2 ^ 128 - s.base_address) % 2 ^ 128 % 2 ^ 64
  if ltb i (length s.output)
      then if leb (i + 4) (length s.output) then pure i else throw undefined
      else throw out_of_range

-- The word that the reference names, read and changed.
unfoldable pub word_at : SymbolLocation → ℕ → Asm ℕ
unfolding word_index read_word section_at
word_at loc off = do i ← word_index loc off; s ← section_at loc.section; pure (read_word i s.output)

unfoldable pub change_word : SymbolLocation → ℕ → (ℕ → ℕ) → Asm (Unit {0})
unfolding word_index read_word write_word with_section
change_word loc off f = do
  i ← word_index loc off
  with_section loc.section
      λ s. record s { output = write_word i (f (read_word i s.output)) s.output }

-- `diff >= INT32_MIN && diff <= INT32_MAX`
unfoldable pub is_relatively_close : ℕ → Bool
is_relatively_close diff = not (slt 64 diff (neg 64 (2 ^ 31))) && not (slt 64 (2 ^ 31 - 1) diff)

unfoldable pub bounds_check_jump : ℕ → Asm (Unit {0})
unfolding new_token int_to_string
bounds_check_jump diff =
    if slt 64 diff (neg 64 2048) || slt 64 2047 diff
    then throw (
        token_exception
          (record (new_token tk_symbol) {
            payload = bits (sext 64 128 diff);
            value = int_to_string diff;
          })
          (codes "Out of bounds address for jump"))
    else pure tt

-- `set_uint32`; the value is an `int32_t`.
unfoldable pub set_uint32 : SymbolLocation → ℕ → ℕ → Asm (Unit {0})
unfolding change_word word_at int_sum Itype.imm Itype.set_imm Utype.set_imm
set_uint32 loc offset value = do
  change_word loc (offset + 4) (Itype.set_imm value)
  i2 ← word_at loc (offset + 4)
  sum ← int_sum value (Itype.imm i2)
  change_word loc offset (Utype.set_imm (asr 32 sum 12))

-- The closure of OP_LA, for the symbol at `target` and the code at `here`.
unfoldable pub link_la : SymbolLocation → ℕ → ℕ → Asm (Unit {0})
unfolding is_relatively_close change_word word_at Itype.imm Itype.set_imm Utype.set_imm
    Utype.set_opcode
link_la loc target here =
    let diff = sub_word 128 target here % 2 ^ 64 in
    if is_relatively_close diff
    then (do
      change_word loc 4 (Itype.set_imm diff)
      change_word loc 0 (Utype.set_opcode rv32i_auipc)
      i2 ← word_at loc 4
      change_word loc 0 (Utype.set_imm (asr 64 (add_word 64 diff (Itype.imm i2)) 12)))
    else (do
      change_word loc 4 (Itype.set_imm target)
      i2 ← word_at loc 4
      change_word loc 0 (Utype.set_imm (add_word 128 target (Itype.imm i2) / 2 ^ 12)))

unfoldable pub link_laq : SymbolLocation → ℕ → Asm (Unit {0})
unfolding set_uint32
link_laq loc target = do
  set_uint32 loc 0 (target / 2 ^ 96 % 2 ^ 32)
  set_uint32 loc (2 * 4) (target / 2 ^ 64 % 2 ^ 32)
  set_uint32 loc (6 * 4) (target / 2 ^ 32 % 2 ^ 32)
  set_uint32 loc (10 * 4) (target % 2 ^ 32)

-- `diff` is an `int32_t`.
unfoldable pub set_branch : ℕ → ℕ → ℕ
unfolding Btype.set_imm1 Btype.set_imm2 Btype.set_imm3 Btype.set_imm4
set_branch diff i = Btype.set_imm4 (asr 32 diff 12) (
    Btype.set_imm1 (asr 32 diff 11)
      (Btype.set_imm3 (asr 32 diff 5) (Btype.set_imm2 (asr 32 diff 1) i)))

-- `diff` is an `int64_t`.
unfoldable pub set_jump : ℕ → ℕ → ℕ
unfolding Jtype.set_imm1 Jtype.set_imm2 Jtype.set_imm3 Jtype.set_imm4
set_jump diff i = Jtype.set_imm4 (asr 64 diff 19) (
    Jtype.set_imm1 (asr 64 diff 12)
      (Jtype.set_imm2 (asr 64 diff 11) (Jtype.set_imm3 (asr 64 diff 1) i)))

unfoldable pub link_branch : SymbolLocation → ℕ → ℕ → Asm (Unit {0})
unfolding change_word set_branch
link_branch loc target here = change_word loc 0 (set_branch (sub_word 128 target here % 2 ^ 32))

unfoldable pub link_jump : SymbolLocation → ℕ → ℕ → Asm (Unit {0})
unfolding change_word set_jump bounds_check_jump
link_jump loc target here =
    let diff = sub_word 128 target here % 2 ^ 64 in
    do bounds_check_jump diff; change_word loc 0 (set_jump diff)

unfoldable pub link_farcall : SymbolLocation → ℕ → Asm (Unit {0})
unfolding change_word Itype.set_imm Utype.set_imm
link_farcall loc target = do
  change_word loc 0 (Utype.set_imm (target / 2 ^ 12))
  change_word loc 4 (Itype.set_imm target)

-- A write through the reference to the symbol.
unfoldable pub on_symbol : Bytes → (SymbolLocation → SymbolLocation) → Asm (Unit {0})
unfolding update
on_symbol name f = modify λ a. record a { lookup = update name f a.lookup }

-- The closure of `.size`: the symbol behind the size counts from the size's end.
unfoldable pub link_size : SymbolLocation → Bytes → ℕ → ℕ → ℕ → Asm (Unit {0})
unfolding change_word on_symbol
link_size loc name target dataloc here = do
  let size =
      (if ltb target dataloc
        then sub_word 128 dataloc target
        else sub_word 128 (sub_word 128 target 4) here)
      % 2 ^ 32
  change_word loc 0 (λ _. size)
  on_symbol name λ sym. record sym { size = size }

-- The closures over the address of the symbol. STT_FUNC is 2.
unfoldable pub run_at : Scheduled → Bytes → ℕ → Asm (Unit {0})
unfolding link_la link_laq link_branch link_jump link_farcall link_size on_symbol address
run_at (set_type type) name target = on_symbol name λ sym. record sym { type = type }
run_at (end_function loc) name target = do
  here ← address loc
  on_symbol name λ sym. record sym { size = sub_word 128 here target % 2 ^ 64; type = 2 }
run_at (set_size loc dataloc) name target = do
  data_here ← address dataloc
  here ← address loc
  link_size loc name target data_here here
run_at (patch_la loc) name target = do here ← address loc; link_la loc target here
run_at (patch_laq loc) name target = link_laq loc target
run_at (patch_branch loc) name target = do here ← address loc; link_branch loc target here
run_at (patch_farcall loc) name target = link_farcall loc target
run_at (patch_jump loc) name target = do here ← address loc; link_jump loc target here

-- A call of the closure: `op(*this, sit->first, sit->second)`
unfoldable pub run_scheduled : Scheduled → Bytes → Asm (Unit {0})
unfolding run_at address find
run_scheduled op name = do
  a ← get
  sym ← from_option undefined (find name a.lookup)
  target ← address sym
  run_at op name target
