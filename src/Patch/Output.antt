-- ===== src/Patch/Output.antt =====
-- `at_location` of src/assembler.hpp on the assembler's state: where a location of a section lies in
-- its output, and what a patch there leaves.
use bigassm.Prelude.{
  ℕ, zero, suc, List, [], ◌∷◌, ◌+◌, ◌-◌, ◌%◌, ◌^◌, ◌≡◌, ◌≤◌, ◌<◌, some, Bytes, length, arith, find,
  update, find-update, bytes_eq_refl, lt→ltb, le→leb,
}
use bigassm.Types.{ok}
use bigassm.Section.{Section}
use bigassm.Assembler.{SymbolLocation, Assembler, section_at, with_section}
use bigassm.Patch.{read_word, write_word, word_index, word_at, change_word}
use bigassm.Patch.Words.{
  length-write_word, read_word-write_word, read_word-write_word_below, read_word-write_word_above,
}

-- The section with another output, and the assembler with another such section.
abbrev pub with_output : Bytes → Section → Section
with_output out s = record s { output = out }

unfoldable pub with_output_at : Bytes → (Bytes → Bytes) → Assembler → Assembler
unfolding update
with_output_at name f a = record a {
  sections = update name (λ s. with_output (f s.output) s) a.sections;
}

pub found-with_output_at :
    (name : Bytes) (g : Bytes → Bytes) (a : Assembler) {s : Section}
    → find name a.sections ≡ some s
    → find name (with_output_at name g a).sections ≡ some (with_output (g s.output) s)
unfolding with_output_at
found-with_output_at name g a h = rw (find-update, bytes_eq_refl name, h)

-- A location of `room` bytes inside the output of a section.
pub record Located (a : Assembler) (loc : SymbolLocation) (s : Section) (room : ℕ) : Type 0 where
  pub found : find loc.section a.sections ≡ some s
  pub base : s.base_address < 2 ^ 128
  pub inside : loc.offset + room ≤ length s.output
  pub bounded : length s.output < 2 ^ 64

module _ (a : Assembler) (loc : SymbolLocation) {s : Section} (off : ℕ)
    (l : Located a loc s (off + 4)) where
  section_at-Located : section_at loc.section a ≡ ok (s, a)
  unfolding section_at
  section_at-Located = rw l.found

  index_value :
      (b o f n : ℕ)
      → b < 2 ^ 128
      → o + (f + 4) ≤ n
      → n < 2 ^ 64
      → ((b + o) % 2 ^ 128 + f + 2 ^ 128 - b) % 2 ^ 128 % 2 ^ 64 ≡ o + f
  index_value b o f n h k m = omega arith

  pub word_index-Located : word_index loc off a ≡ ok (loc.offset + off, a)
  unfolding word_index
  word_index-Located = rw (
    section_at-Located,
    index_value s.base_address loc.offset off (length s.output) l.base l.inside l.bounded,
    lt→ltb (loc.offset + off) (length s.output) (omega (arith, l.inside)),
    le→leb (loc.offset + off + 4) (length s.output) (omega (arith, l.inside)),
  )

  pub word_at-Located : word_at loc off a ≡ ok (read_word (loc.offset + off) s.output, a)
  unfolding word_at
  word_at-Located = rw (word_index-Located, section_at-Located)

  pub change_word-Located :
      (f : ℕ → ℕ)
      → change_word loc off f a
        ≡ ok (
          tt,
          with_output_at loc.section
              (λ out. write_word (loc.offset + off) (f (read_word (loc.offset + off) out)) out)
              a,
        )
  unfolding change_word with_output_at with_section
  change_word-Located f = rw word_index-Located

abbrev pub patched : SymbolLocation → ℕ → (ℕ → ℕ) → Section → Section
patched loc off f s =
    let i = loc.offset + off in with_output (write_word i (f (read_word i s.output)) s.output) s

module _ (room : ℕ) (a : Assembler) (loc : SymbolLocation) {s : Section}
    (l : Located a loc s room) where
  within : (off : ℕ) → off + 4 ≤ room → Located a loc s (off + 4)
  within off h = record {
    found = l.found;
    base = l.base;
    inside = omega (arith, l.inside);
    bounded = l.bounded;
  }

  -- A patch goes through, and leaves the location in its section.
  pub change_word_step :
      (off : ℕ) (f : ℕ → ℕ)
      → off + 4 ≤ room
      → (a' : Assembler) × (change_word loc off f a ≡ ok (tt, a'))
        × Located a' loc (patched loc off f s) room
  change_word_step off f h =
      let out =
        write_word (loc.offset + off) (f (read_word (loc.offset + off) s.output)) s.output in
      let same : length out ≡ length s.output =
        length-write_word (loc.offset + off) (f (read_word (loc.offset + off) s.output)) s.output
          (omega (arith, l.inside)) in
      (
        _,
        change_word-Located a loc off (within off h) f,
        record {
          found = found-with_output_at loc.section _ a l.found;
          base = l.base;
          inside = omega (arith, same, l.inside);
          bounded = omega (arith, same, l.bounded);
        },
      )

  pub word_at_step :
      (off : ℕ) → off + 4 ≤ room → word_at loc off a ≡ ok (read_word (loc.offset + off) s.output, a)
  word_at_step off h = word_at-Located a loc off (within off h)

-- The word at an offset from a location.
abbrev pub word_in : SymbolLocation → ℕ → Section → ℕ
word_in loc off s = read_word (loc.offset + off) s.output

-- The words of the output from an offset behind a location.
abbrev pub words : SymbolLocation → ℕ → ℕ → Section → List ℕ
words loc zero off s = []
words loc (suc n) off s = word_in loc off s ∷ words loc n (off + 4) s

module _ (room : ℕ) (loc : SymbolLocation) (s : Section)
    (inside : loc.offset + room ≤ length s.output) (off : ℕ) (f : ℕ → ℕ) (h : off + 4 ≤ room) where
  pub room-patched : loc.offset + room ≤ length (patched loc off f s).output
  room-patched =
      omega
        (arith, length-write_word (loc.offset + off) (f (word_in loc off s)) s.output (omega arith))

  pub word_in-patched : word_in loc off (patched loc off f s) ≡ f (word_in loc off s) % 2 ^ 32
  word_in-patched =
      read_word-write_word (loc.offset + off) (f (word_in loc off s)) s.output (omega arith)

  pub word_in-patched_below :
      (j : ℕ) → j + 4 ≤ off → word_in loc j (patched loc off f s) ≡ word_in loc j s
  word_in-patched_below j k =
      read_word-write_word_below (loc.offset + off) (f (word_in loc off s)) s.output (omega arith)
        (loc.offset + j) (omega arith)

  pub word_in-patched_above :
      (j : ℕ) → off + 4 ≤ j → word_in loc j (patched loc off f s) ≡ word_in loc j s
  word_in-patched_above j k =
      read_word-write_word_above (loc.offset + off) (f (word_in loc off s)) s.output (omega arith)
        (loc.offset + j) (omega arith)
