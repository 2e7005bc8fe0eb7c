-- ===== src/Assemble/Output.antt =====
-- The output of a handler's instructions in `Assembler::assemble` of src/assemble.cpp: the current
-- section's output goes on with their words.
use bigassm.Prelude.{
  ℕ, ◌+◌, ◌*◌, ◌%◌, ◌^◌, ◌≡◌, ◌<◌, refl, ap, ◌∙◌, sym, some, [], ◌∷◌, ◌++◌, Bytes, length,
  length-append, take, find, update, find-update, bytes_eq_refl, ==_iff, arith,
}
use mathlib.Core.List.{append_assoc, append-nil}
use bigassm.Types.{ok}
use bigassm.Section
use bigassm.Section.{Section, ot_code}
use bigassm.Assembler.{SymbolLocation, Assembler, add_output, on_current, with_section, and_then}
use bigassm.Instr.{Instruction}
use bigassm.Opcodes.Build.{InstructionList}
use bigassm.Opcodes.Words.{AreWords, more_words}
use bigassm.Patch.{word_bytes, word_of, read_word}
use bigassm.Patch.Words.{word_of-word_bytes}
use bigassm.Patch.Output.{word_in, words}
use bigassm.Elf.Fields.{drop-append}
use bigassm.Assemble.{instr_length, output_list}

abbrev pub code_bytes : InstructionList → Bytes
code_bytes [] = []
code_bytes (i ∷ il) = word_bytes i ++ code_bytes il

-- The state behind the output of bytes to the current section.
abbrev pub Emitted : Assembler → Section → Bytes → Assembler → Type 0
Emitted a s bytes b =
    (t : Section) × (find a.current_section b.sections ≡ some t)
    × (t.output ≡ s.output ++ bytes)
    × (t.base_address ≡ s.base_address)
    × (b.current_section ≡ a.current_section)
    × (b.schedule ≡ a.schedule)
    × (b.lookup ≡ a.lookup)

one_word :
    (i : Instruction) (a : Assembler) (s : Section)
    → i % 4 ≡ 3
    → find a.current_section a.sections ≡ some s
    → (b : Assembler) × (add_output ot_code (take (instr_length i) (word_bytes i)) a ≡ ok (tt, b))
      × (find a.current_section b.sections ≡ some (Section.add_output ot_code (word_bytes i) s))
      × (b.current_section ≡ a.current_section)
      × (b.schedule ≡ a.schedule)
      × (b.lookup ≡ a.lookup)
unfolding instr_length add_output on_current with_section
one_word i a s h found = (
  record a {
    sections = update a.current_section (Section.add_output ot_code (word_bytes i)) a.sections;
  },
  rw ((==_iff (i % 4) 3).1 h) refl,
  rw
      (
        find-update a.current_section a.current_section (Section.add_output ot_code (word_bytes i))
            a.sections,
        bytes_eq_refl a.current_section,
        found,
      )
      refl,
  refl,
  refl,
  refl,
)

pub output_list-Emitted :
    (il : InstructionList) (a : Assembler) (s : Section)
    → AreWords il
    → find a.current_section a.sections ≡ some s
    → (b : Assembler) × (output_list il a ≡ ok (tt, b)) × Emitted a s (code_bytes il) b
unfolding output_list Section.add_output
output_list-Emitted [] a s w found =
    (a, refl, (s, found, sym (append-nil s.output), refl, refl, refl, refl))
output_list-Emitted (i ∷ il) a s (more_words h w) found =
    let (b, e, found', cs, sch, lk) = one_word i a s h.long found in
    let s' = Section.add_output ot_code (word_bytes i) s in
    let (c, e', (t, ft, out, base, cs', sch', lk')) =
      output_list-Emitted il b s' w (ap (λ (k : Bytes). find k b.sections) cs ∙ found') in
    (
      c,
      ap (λ r. and_then r (λ u. output_list il)) e ∙ e',
      (
        t,
        ap (λ (k : Bytes). find k c.sections) (sym cs) ∙ ft,
        out ∙ append_assoc s.output (word_bytes i) (code_bytes il),
        base,
        cs' ∙ cs,
        sch' ∙ sch,
        lk' ∙ lk,
      ),
    )

read_word-code :
    (i : Instruction) (out rest : Bytes)
    → i < 2 ^ 32
    → read_word (length out) (out ++ (word_bytes i ++ rest)) ≡ i
unfolding read_word
read_word-code i out rest h =
    ap (λ (bs : Bytes). word_of (take 4 bs))
      (drop-append (length out) out (word_bytes i ++ rest) refl)
    ∙ word_of-word_bytes i
    ∙ omega arith

-- The words behind a location at the end of an output, once code has been put there.
pub words-code :
    (il : InstructionList) (out : Bytes) (loc : SymbolLocation) (off : ℕ) (s : Section)
    → AreWords il
    → s.output ≡ out ++ code_bytes il
    → loc.offset + off ≡ length out
    → words loc (length il) off s ≡ il
words-code [] out loc off s w e h = refl
words-code (i ∷ il) out loc off s (more_words k w) e h =
    let first : word_in loc off s ≡ i =
      ap (λ (n : ℕ). read_word n s.output) h
      ∙ ap (read_word (length out)) e
      ∙ read_word-code i out (code_bytes il) k.small in
    let rest : words loc (length il) (off + 4) s ≡ il =
      words-code il (out ++ word_bytes i) loc (off + 4) s w
        (e ∙ sym (append_assoc out (word_bytes i) (code_bytes il)))
        (omega (arith, length-append out (word_bytes i))) in
    cc

pub length-code_bytes : (il : InstructionList) → length (code_bytes il) ≡ 4 * length il
length-code_bytes [] = omega arith
length-code_bytes (i ∷ il) =
    omega (arith, length-append (word_bytes i) (code_bytes il), length-code_bytes il)

-- A handler's instructions, each of 32 bits, are output one behind the other: they read back as the
-- words from the location that was the current one, in the order of the list.
pub output_list-reads :
    (il : InstructionList) (a : Assembler) (s : Section) (loc : SymbolLocation)
    → AreWords il
    → find a.current_section a.sections ≡ some s
    → loc.section ≡ a.current_section
    → loc.offset ≡ length s.output
    → (b : Assembler) × (t : Section) × (output_list il a ≡ ok (tt, b))
      × (find loc.section b.sections ≡ some t)
      × (words loc (length il) 0 t ≡ il)
      × (length t.output ≡ length s.output + 4 * length il)
      × (t.base_address ≡ s.base_address)
      × (b.schedule ≡ a.schedule)
      × (b.lookup ≡ a.lookup)
output_list-reads il a s loc w found same at =
    let (b, e, (t, ft, out, base, cs, sch, lk)) = output_list-Emitted il a s w found in
    (
      b,
      t,
      e,
      ap (λ (k : Bytes). find k b.sections) same ∙ ft,
      words-code il s.output loc 0 t w out (omega (arith, at)),
      ap length out ∙ omega (arith, length-append s.output (code_bytes il), length-code_bytes il),
      base,
      sch,
      lk,
    )
