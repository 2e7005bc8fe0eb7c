-- ===== src/Tests/Linking.antt =====
-- The handlers and closures of src/opcodes.cpp on the sample state.
use bigassm.Prelude.{
  some, List, ◌%◌, ◌^◌, ◌≡◌, refl, inl, inr, ◌↔◌, ◌⊎◌, ◌+◌, ◌≤◌, ◌<◌, [], ◌∷◌, codes, arith, find,
  bytes_eq,
}
use bigassm.Prelude.Words.{sub_word}
use bigassm.Types.{Token, i64, op_la, op_laq, ok, err, undefined, tk_symbol, bits}
use bigassm.Types.Print.{is_type}
use bigassm.Section.{Section}
use bigassm.Assembler.{SymbolLocation, Assembler, patch_la, ◌>>=◌}
use bigassm.Opcodes.Handlers.{handler}
use bigassm.Assemble.{output_list}
use bigassm.Assemble.Addresses.{scheduled, op_la-loads, op_laq-undefined}
use bigassm.Instr.Btype
use bigassm.Instr.Jtype
use bigassm.Rv128.{Registers, write, run}
use bigassm.Patch.{link_la, link_branch, link_jump}
use bigassm.Patch.Output.{words, Located, word_in}
use bigassm.Patch.Encode.{SameBranch, SameJump}
use bigassm.Patch.Branches.{
  link_branch-decodes, link_jump-decodes, link_jump-refuses, out_of_bounds_jump,
}
use bigassm.Tests.Samples.{register, text_with, data_with, sample}

abbrev here : SymbolLocation
here = record { section = codes ".text"; offset = 0; type = 0; size = 0 }

-- `beq a0, a1, .`
abbrev branch_text : Section
branch_text = text_with (0x63 ∷ 0x00 ∷ 0xB5 ∷ 0 ∷ []) []

-- `jal ra, .`
abbrev jump_text : Section
jump_text = text_with (0xEF ∷ 0 ∷ 0 ∷ 0 ∷ []) []

abbrev label : Token
label = record { type = tk_symbol; line = 1; value = codes "label"; payload = bits 0 }

-- `la a0, label` and `laq a0, t0, label`, in front of an empty `.text`
abbrev la_tokens : List Token
la_tokens = register 10 ∷ label ∷ []

abbrev laq_tokens : List Token
laq_tokens = register 10 ∷ register 5 ∷ label ∷ []

abbrev reading : List Token → Assembler
reading tokens = sample tokens (text_with [] []) (data_with [])

abbrev state : Section → Assembler
state text = sample [] text (data_with [])

abbrev zeros : Registers
zeros n = 0

op_la-loads_example :
    (b c : Assembler) × (s' : Section) × ((handler op_la >>= output_list) (reading la_tokens)
      ≡ ok (tt, b))
    × (b.schedule ≡ scheduled (codes "label") (patch_la here) [])
    × (link_la here 0x100ABC 0x100000 b ≡ ok (tt, c))
    × (find (codes ".text") c.sections ≡ some s')
    × (run 0x100000 (words here 2 0 s') zeros ≡ some (write 10 0x100ABC zeros))
unfolding is_type i64 find bytes_eq
op_la-loads_example =
    op_la-loads (register 10) label [] (reading la_tokens) (text_with [] []) 0x100000 0x100ABC zeros
      refl refl refl refl (omega arith) (omega arith) (omega arith) (omega arith) (omega arith)
      (omega arith) (inl (omega arith))

op_laq-undefined_example : handler op_laq (reading laq_tokens) ≡ err undefined
unfolding is_type i64 find bytes_eq
op_laq-undefined_example =
    op_laq-undefined (register 10) (register 5) label [] (reading laq_tokens) (text_with [] []) refl
      refl refl refl refl

branch_text-Located : Located (state branch_text) here branch_text 4
unfolding find bytes_eq
branch_text-Located = record {
  found = refl;
  base = omega arith;
  inside = omega arith;
  bounded = omega arith;
}

link_branch-decodes_example :
    (a' : Assembler) × (s' : Section) × (link_branch here 0xFFFF0 0x100000 (state branch_text)
      ≡ ok (tt, a'))
    × Located a' here s' 4
    × (Btype.signed_imm (word_in here 0 s') ≡ sub_word 128 0xFFFF0 0x100000 % 2 ^ 32)
    × SameBranch (word_in here 0 s') (word_in here 0 branch_text)
link_branch-decodes_example =
    link_branch-decodes (state branch_text) here 0xFFFF0 0x100000 branch_text-Located
      (omega arith, inr (omega arith))

jump_text-Located : Located (state jump_text) here jump_text 4
unfolding find bytes_eq
jump_text-Located = record {
  found = refl;
  base = omega arith;
  inside = omega arith;
  bounded = omega arith;
}

link_jump-decodes_example :
    (a' : Assembler) × (s' : Section) × (link_jump here 0xFFFF0 0x100000 (state jump_text)
      ≡ ok (tt, a'))
    × Located a' here s' 4
    × (Jtype.jump_offset (word_in here 0 s') ≡ sub_word 128 0xFFFF0 0x100000 % 2 ^ 32)
    × SameJump (word_in here 0 s') (word_in here 0 jump_text)
link_jump-decodes_example =
    link_jump-decodes (state jump_text) here 0xFFFF0 0x100000 jump_text-Located
      (omega arith, inr (omega arith))

link_jump-refuses_example :
    (link_jump here 0x101000 0x100000 (state jump_text)
      ≡ err (out_of_bounds_jump (sub_word 128 0x101000 0x100000)))
    ↔ ((0x100000 + 2048 ≤ 0x101000) ⊎ (0x101000 + 2048 < 0x100000))
link_jump-refuses_example =
    link_jump-refuses (state jump_text) here jump_text 0x101000 0x100000 jump_text-Located
      (omega arith) (omega arith)
