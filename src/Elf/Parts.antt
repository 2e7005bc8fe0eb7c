-- ===== src/Elf/Parts.antt =====
-- The parts that `Elf_Writer` of src/elfwriter.cpp appends, where all of them fit into the vector.
use Prim.Native.Nat.{max}
use bigassm.Prelude.{
  ℕ, ◌+◌, ◌≤◌, ◌≡◌, refl, ap, sym, List, [], ◌∷◌, ◌++◌, Bytes, codes, length, length-append, Map,
  find, update, emplace, bytes_eq, bytes_lt, le→leb, arith,
}
use bigassm.Types.{ok}
use bigassm.Section.{Section}
use bigassm.Assembler.{Assembler, SymbolLocation}
use bigassm.Elf.Format.{ElfClass, Shdr, Phdr, Sym, zero_shdr, sym_bytes}
use bigassm.Elf.Fields.{append-nil, length-sym_bytes}
use bigassm.Elf.Vector.{Vector}
use bigassm.Elf.Tables.{StringSection, new_string_section, add, append_null, lookup}
use bigassm.Elf.Tables.Strings.{
  extend, extend-extend, Fits, Fits-first, Fits-second, access-runs, access-extend, empty_strings,
  with_names, string_bytes, add_all-runs, new_string_section-runs,
}
use bigassm.Elf.Symbols.{
  Entries, sym_array, null_sym, empty_symbols, grown, new_sym_section-runs, add_symbols-runs,
}
use bigassm.Elf.Writer.{
  set_name, add_section_names, add_strings, add_symtab, program_header, add_programs,
}

-- The section `.shstrtab`, in a file with headers of `head` bytes.
abbrev pub section_names : Bytes
section_names = 0 ∷ codes ".shstrtab" ++ 0 ∷ codes ".symtab" ++ 0 ∷ codes ".strtab" ++ 0 ∷ []

abbrev pub shnames_at : ℕ → StringSection
shnames_at head = record {
  shdr = record zero_shdr {
    sh_name = 1;
    sh_type = 3;
    sh_entsize = 1;
    sh_offset = head + 0;
    sh_size = 27;
    sh_addralign = 1;
  };
  namelist = (codes ".shstrtab", 1) ∷ (codes ".strtab", 19) ∷ (codes ".symtab", 11) ∷ [];
  shindex = 1;
  offset = 27;
}

pub add_section_names-runs :
    (head : ℕ)
    → head + 27 ≤ 262144
    → add_section_names (record { head = head; body = [] })
      ≡ ok (shnames_at head, record { head = head; body = section_names })
unfolding add_section_names new_string_section append_null add update emplace bytes_eq bytes_lt
add_section_names-runs head h =
    rw
      (
        le→leb (head + 0) (max 262144 head) (omega arith),
        le→leb (head + 1) (max 262144 head) (omega arith),
        le→leb (head + 11) (max 262144 head) (omega arith),
        le→leb (head + 11) (max 262144 head) (omega arith),
        le→leb (head + 19) (max 262144 head) (omega arith),
        le→leb (head + 27) (max 262144 head) (omega arith),
      )
      refl

abbrev pub strings_at : Map SymbolLocation → ℕ → StringSection
strings_at symbols offset = with_names symbols (set_name 19 (empty_strings 3 offset))

pub add_strings-runs :
    (symbols : Map SymbolLocation) (head : ℕ) (v : Vector)
    → Fits v (length (0 ∷ string_bytes symbols))
    → add_strings symbols (shnames_at head) v
      ≡ ok (strings_at symbols (v.head + length v.body), extend v (0 ∷ string_bytes symbols))
unfolding add_strings lookup find bytes_eq
add_strings-runs symbols head v fits =
    rw
      (
        new_string_section-runs 3 v (Fits-first v (0 ∷ []) (string_bytes symbols) fits),
        access-extend v (0 ∷ []) (Fits-first v (0 ∷ []) (string_bytes symbols) fits),
        add_all-runs symbols (set_name 19 (empty_strings 3 (v.head + length v.body)))
            (extend v (0 ∷ [])) (Fits-second v (0 ∷ []) (string_bytes symbols) fits),
        extend-extend v (0 ∷ []) (string_bytes symbols),
      )
      refl

module _ (c : ElfClass) where
  abbrev pub symtab_at : ℕ → ℕ → ℕ → Shdr
  symtab_at link count offset = record (grown c count (grown c 1 (empty_symbols c link offset))) {
    sh_name = 11;
    sh_info = count + 1;
  }

  pub add_symtab-runs :
      (a : Assembler) (symbols : Map SymbolLocation) (addrs : List ℕ) (syms : List Sym) (head : ℕ)
      (strings : StringSection) (v : Vector)
      → Entries a strings symbols addrs syms
      → length syms ≡ length symbols
      → Fits v (length (sym_bytes c (null_sym c) ++ sym_array c syms))
      → add_symtab c a symbols (shnames_at head) strings v
        ≡ ok (
          symtab_at strings.shindex (length symbols) (v.head + length v.body),
          extend v (sym_bytes c (null_sym c) ++ sym_array c syms),
        )
  unfolding add_symtab lookup find bytes_eq
  add_symtab-runs a symbols addrs syms head strings v es count fits =
      let first = sym_bytes c (null_sym c) in
      let bytes = sym_array c syms in
      rw
        (
          new_sym_section-runs c strings.shindex v
              (omega (arith, length-sym_bytes c (null_sym c), length-append first bytes)),
          access-extend v first (Fits-first v first bytes fits),
          add_symbols-runs c a strings symbols addrs syms
              (record (grown c 1 (empty_symbols c strings.shindex (v.head + length v.body))) {
                sh_name = 11;
              })
              (extend v first) es (Fits-second v first bytes fits),
          access-extend (extend v first) bytes (Fits-second v first bytes fits),
          extend-extend v first bytes,
          count,
        )
        refl

-- The outputs of the sections, and the program headers for those from the offset on.
abbrev pub outputs : Map Section → Bytes
outputs [] = []
outputs ((name, s) ∷ rest) = s.output ++ outputs rest

abbrev pub programs_at : ℕ → Map Section → List Phdr
programs_at offset [] = []
programs_at offset ((name, s) ∷ rest) =
    program_header s offset ∷ programs_at (offset + length s.output) rest

pub add_programs-runs :
    (sections : Map Section) (v : Vector)
    → Fits v (length (outputs sections))
    → add_programs sections v
      ≡ ok (programs_at (v.head + length v.body) sections, extend v (outputs sections))
unfolding add_programs
add_programs-runs [] v fits =
    ap (λ (t : Bytes). ok ([], record v { body = t })) (sym (append-nil v.body))
add_programs-runs ((name, s) ∷ rest) v fits =
    let behind : v.head + length (v.body ++ s.output) ≡ v.head + length v.body + length s.output =
      omega (arith, length-append v.body s.output) in
    rw
      (
        access-runs v (length (s.output ++ outputs rest)) fits,
        add_programs-runs rest (extend v s.output) (Fits-second v s.output (outputs rest) fits),
        extend-extend v s.output (outputs rest),
        behind,
      )
      refl
