-- ===== src/Elf/Layout.antt =====
-- The file that `Elf_Writer` of src/elfwriter.cpp makes, all of its parts named.
use bigassm.Prelude.{
  ℕ, ◌+◌, ◌*◌, ◌≤◌, ◌≡◌, refl, ap, List, [], ◌∷◌, ◌++◌, Bytes, length, length-append, Map, arith,
}
use bigassm.Types.{ok}
use bigassm.Section.{Section}
use bigassm.Assembler.{Assembler, SymbolLocation, address_of}
use bigassm.Elf.Format.{ElfClass, Shdr, Sym, zero_shdr, sym_bytes, sizeof_sym, sizeof_phdr}
use bigassm.Elf.Fields.{length-sym_bytes}
use bigassm.Elf.Vector.{pure, and_then}
use bigassm.Elf.Tables.{StringSection}
use bigassm.Elf.Tables.Strings.{empty_strings, string_bytes}
use bigassm.Elf.Tables.Names.{with_names-AllKnown}
use bigassm.Elf.Symbols.{
  Resolved, Entries, Entries-exist, length-Entries, sym_array, length-sym_array, null_sym,
}
use bigassm.Elf.Parts.{
  section_names, shnames_at, add_section_names-runs, strings_at, add_strings-runs, symtab_at,
  add_symtab-runs, outputs, programs_at, add_programs-runs,
}
use bigassm.Elf.Writer.{
  set_name, sizeof_elf_data, file_header, elf_file, add_programs, write_parts, elf_writer,
}

-- The sizes of the names, each with the zero behind it, and of the outputs.
abbrev pub names_size : Map SymbolLocation → ℕ
names_size [] = 0
names_size ((name, loc) ∷ rest) = length name + 1 + names_size rest

abbrev pub output_size : Map Section → ℕ
output_size [] = 0
output_size ((name, s) ∷ rest) = length s.output + output_size rest

pub length-string_bytes :
    (symbols : Map SymbolLocation) → length (string_bytes symbols) ≡ names_size symbols
length-string_bytes [] = refl
length-string_bytes ((name, loc) ∷ rest) = omega (
  arith,
  length-append (name ++ 0 ∷ []) (string_bytes rest),
  length-append name (0 ∷ []),
  length-string_bytes rest,
)

pub length-outputs : (sections : Map Section) → length (outputs sections) ≡ output_size sections
length-outputs [] = refl
length-outputs ((name, s) ∷ rest) =
    omega (arith, length-append s.output (outputs rest), length-outputs rest)

module _ (c : ElfClass) (symbols : Map SymbolLocation) (sections : Map Section) where
  abbrev pub head_size : ℕ
  head_size = sizeof_elf_data c + sizeof_phdr c * length sections

  -- The size of the headers and the tables.
  abbrev pub tables_size : ℕ
  tables_size = head_size + (27 + (1 + names_size symbols) + (1 + length symbols) * sizeof_sym c)

  -- The size of the whole file: headers, three tables and outputs.
  abbrev pub elf_size : ℕ
  elf_size =
      sizeof_elf_data c
      + sizeof_phdr c * length sections
      + (27 + (1 + names_size symbols) + (1 + length symbols) * sizeof_sym c + output_size sections)

  abbrev pub strtab_bytes : Bytes
  strtab_bytes = 0 ∷ string_bytes symbols

  abbrev pub symtab_bytes : List Sym → Bytes
  symtab_bytes syms = sym_bytes c (null_sym c) ++ sym_array c syms

  abbrev pub strtab_offset : ℕ
  strtab_offset = head_size + length section_names

  abbrev pub strings : StringSection
  strings = strings_at symbols strtab_offset

  abbrev pub symtab_offset : ℕ
  symtab_offset = head_size + length (section_names ++ strtab_bytes)

  abbrev pub tables : List Sym → Bytes
  tables syms = (section_names ++ strtab_bytes) ++ symtab_bytes syms

  abbrev pub section_headers : List Shdr
  section_headers =
      zero_shdr
      ∷ (shnames_at head_size).shdr
      ∷ symtab_at c strings.shindex (length symbols) symtab_offset
      ∷ strings.shdr
      ∷ []

  abbrev pub whole : ℕ → List Sym → Bytes
  whole entry syms =
      elf_file c (file_header c entry (length sections)) section_headers
        (programs_at (head_size + length (tables syms)) sections) (tables syms ++ outputs sections)

  pub length-symtab_bytes :
      (syms : List Sym)
      → length syms ≡ length symbols
      → length (symtab_bytes syms) ≡ (1 + length symbols) * sizeof_sym c
  length-symtab_bytes syms e = omega (
    arith,
    length-append (sym_bytes c (null_sym c)) (sym_array c syms),
    length-sym_bytes c (null_sym c),
    length-sym_array c syms,
    ap (λ (n : ℕ). n * sizeof_sym c) e,
  )

  pub length-tables :
      (a : Assembler) (addrs : List ℕ) (syms : List Sym)
      → Entries a strings symbols addrs syms
      → length (tables syms) ≡ 27 + (1 + names_size symbols) + (1 + length symbols) * sizeof_sym c
  length-tables a addrs syms es = omega (
    arith,
    length-append (section_names ++ strtab_bytes) (symtab_bytes syms),
    length-append section_names strtab_bytes,
    length-string_bytes symbols,
    length-symtab_bytes syms (length-Entries a strings symbols addrs syms es),
  )

module _ (c : ElfClass) (a : Assembler) (symbols : Map SymbolLocation) (entry : ℕ) (addrs : List ℕ)
    (found : address_of a.options.entry a ≡ ok (entry, a)) (known : Resolved a symbols addrs) where
  abbrev sections : Map Section
  sections = a.sections

  abbrev head : ℕ
  head = head_size c symbols sections

  -- Where the tables fit into the vector, they are written in front of the outputs, with an entry
  -- for each symbol.
  pub write_parts-tables :
      tables_size c symbols sections ≤ 262144
      → (syms : List Sym) × Entries a (strings c symbols sections) symbols addrs syms
        × (write_parts c a symbols (record { head = head; body = [] })
            ≡ and_then
                (add_programs sections
                  (record { head = head; body = tables c symbols sections syms }))
                (λ phdr. pure (
                  file_header c entry (length sections),
                  section_headers c symbols sections,
                  phdr,
                )))
  unfolding write_parts
  write_parts-tables fits =
      let table = strings c symbols sections in
      let names =
        with_names-AllKnown symbols
          (set_name 19 (empty_strings 3 (strtab_offset c symbols sections))) in
      let (syms, es) = Entries-exist a table symbols addrs known names in
      let count = length-Entries a table symbols addrs syms es in
      let size2 = length-append section_names (strtab_bytes c symbols sections) in
      let of_names = length-string_bytes symbols in
      let of_symtab = length-symtab_bytes c symbols sections syms count in
      let behind_names = section_names ++ strtab_bytes c symbols sections in
      (
        syms,
        es,
        rw
            (
              write_parts,
              found,
              add_section_names-runs head (omega arith),
              add_strings-runs symbols head (record { head = head; body = section_names })
                  (omega arith),
              add_symtab-runs c a symbols addrs syms head table
                  (record { head = head; body = behind_names }) es count (omega arith),
            )
            refl,
      )

module _ (c : ElfClass) (order : Map SymbolLocation → Map SymbolLocation) (a : Assembler) where
  abbrev symbols : Map SymbolLocation
  symbols = order a.lookup

  -- Where the entry and the symbols have addresses and everything fits into the vector, the file is
  -- made, with an entry for each symbol.
  pub elf_writer-writes :
      (entry : ℕ) (addrs : List ℕ)
      → address_of a.options.entry a ≡ ok (entry, a)
      → Resolved a symbols addrs
      → elf_size c symbols a.sections ≤ 262144
      → (syms : List Sym) × Entries a (strings c symbols a.sections) symbols addrs syms
        × (elf_writer c order a ≡ ok (whole c symbols a.sections entry syms))
  unfolding elf_writer
  elf_writer-writes entry addrs found known fits =
      let head = head_size c symbols a.sections in
      let (syms, es, written) =
        write_parts-tables c a symbols entry addrs found known (omega arith) in
      let size = length-tables c symbols a.sections a addrs syms es in
      let of_outputs = length-outputs a.sections in
      (
        syms,
        es,
        rw
            (
              elf_writer,
              written,
              add_programs-runs a.sections
                  (record { head = head; body = tables c symbols a.sections syms }) (omega arith),
            )
            refl,
      )
