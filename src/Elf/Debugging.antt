-- ===== src/Elf/Debugging.antt =====
-- The symbol table of the whole file that `Elf_Writer` of src/elfwriter.cpp makes.
use bigassm.Prelude.{
  ℕ, suc, ◌+◌, ◌*◌, ◌/◌, ◌%◌, ◌^◌, ◌≤◌, ◌≡◌, refl, ap, sym, ◌∙◌, List, [], ◌∷◌, ◌++◌, Bytes, length,
  length-append, drop, Map, find, arith,
}
use bigassm.Types.{ok}
use bigassm.Section.{Section}
use bigassm.Assembler.{Assembler, SymbolLocation, address_of}
use bigassm.Elf.Format.{
  ElfClass, elf64, elf128, Shdr, Sym, width, shdr_members, ehdr_members, sizeof_ehdr, sizeof_shdr,
  sizeof_sym, ehdr_bytes, sym_bytes,
}
use bigassm.Elf.Fields.{drop-append, append_assoc, values, length-ehdr_bytes, length-sym_bytes}
use bigassm.Elf.Tables.{StringSection}
use bigassm.Elf.Tables.Strings.{empty_strings, with_names, with_name, string_bytes}
use bigassm.Elf.Tables.Names.{Placed, with_names-Placed}
use bigassm.Elf.Symbols.{Resolved, Entries, sym_array, null_sym}
use bigassm.Elf.Parts.{outputs, programs_at, section_names, symtab_at}
use bigassm.Elf.Layout.{
  elf_size, length-string_bytes, head_size, tables, section_headers, whole, strtab_bytes,
  symtab_bytes, strtab_offset, symtab_offset, strings, length-tables, elf_writer-writes,
}
use bigassm.Elf.Writer.{set_name, file_header, elf_file, elf_writer, shdr_array, phdr_array}
use bigassm.Elf.Reader.{
  Symbol, read_symbols, read_headers, headers_in, table_symbols, linked_symbols, symbol_table,
}
use bigassm.Elf.Loading.{read_header-file, file-headers}
use bigassm.Elf.Segments.{small_wide}
use bigassm.Elf.Linking.{
  AllZeroFree, no_byte, read_symbol-entry, symbols_of, read_symbols-Entries, header_values,
  read_headers-shdrs,
}

-- The loop over the names leaves the table's place and its number as they are.
with_names-shindex :
    (symbols : Map SymbolLocation) (s : StringSection) → (with_names symbols s).shindex ≡ s.shindex
with_names-shindex [] s = refl
with_names-shindex ((name, loc) ∷ rest) s = with_names-shindex rest (with_name name s)

with_names-sh_offset :
    (symbols : Map SymbolLocation) (s : StringSection)
    → (with_names symbols s).shdr.sh_offset ≡ s.shdr.sh_offset
with_names-sh_offset [] s = refl
with_names-sh_offset ((name, loc) ∷ rest) s = with_names-sh_offset rest (with_name name s)

module _ (h a b d e : Bytes) where
  -- The same bytes, grouped in front of the second table and of the third.
  second_table : h ++ (((a ++ b) ++ d) ++ e) ≡ (h ++ a) ++ (b ++ (d ++ e))
  second_table =
      rw (append_assoc (a ++ b) d e, append_assoc a b (d ++ e))
        (sym (append_assoc h a (b ++ (d ++ e))))

  third_table : h ++ (((a ++ b) ++ d) ++ e) ≡ (h ++ (a ++ b)) ++ (d ++ e)
  third_table = rw (append_assoc (a ++ b) d e) (sym (append_assoc h (a ++ b) (d ++ e)))

-- The first entry of every symbol table.
abbrev null_location : SymbolLocation
null_location = record { section = []; offset = 0; type = 0; size = 0 }

abbrev pub null_symbol : Symbol
null_symbol = record { name = []; info = 0; value = 0; size = 0 }

module _ (c : ElfClass) where
  shentsize-small : sizeof_shdr c % 256 ^ 2 ≡ sizeof_shdr c
  unfolding sizeof_shdr width
  shentsize-small = elim c as (λ c. sizeof_shdr c % 256 ^ 2 ≡ sizeof_shdr c) [
    | elf64 ↦ refl
    | elf128 ↦ refl
  ]

  shoff-small : sizeof_ehdr c % 256 ^ width c ≡ sizeof_ehdr c
  unfolding sizeof_ehdr width
  shoff-small = elim c as (λ c. sizeof_ehdr c % 256 ^ width c ≡ sizeof_ehdr c) [
    | elf64 ↦ refl
    | elf128 ↦ refl
  ]

  headers_in-file :
      (entry n : ℕ) (hs : List Shdr) (rest : Bytes)
      → length hs ≡ 4
      → headers_in c
          (ehdr_bytes c (file_header c entry n) ++ (shdr_array c hs ++ rest))
          (values (ehdr_members c (file_header c entry n)))
        ≡ header_values c hs
  unfolding headers_in file_header
  headers_in-file entry n hs rest four =
      let hdr = file_header c entry n in
      rw
        (
          shentsize-small,
          shoff-small,
          drop-append (sizeof_ehdr c) (ehdr_bytes c hdr) (shdr_array c hs ++ rest)
              (length-ehdr_bytes c hdr refl),
        )
        (ap (λ (k : ℕ). read_headers c (sizeof_shdr c) k (shdr_array c hs ++ rest)) (sym four)
          ∙ read_headers-shdrs c hs rest)

  module _ (symbols : Map SymbolLocation) (sections : Map Section) where
    abbrev symtab : Shdr
    symtab =
        symtab_at c (strings c symbols sections).shindex (length symbols)
          (symtab_offset c symbols sections)

    abbrev strtab : Shdr
    strtab = (strings c symbols sections).shdr

    linked_symbols-headers :
        (file : Bytes)
        → linked_symbols c file (header_values c (section_headers c symbols sections))
          ≡ table_symbols c file (values (shdr_members c symtab)) (values (shdr_members c strtab))
    unfolding linked_symbols
    linked_symbols-headers file =
        rw
          (with_names-shindex symbols
            (set_name 19 (empty_strings 3 (strtab_offset c symbols sections))))
          refl

    -- The sizes and places of the tables fit into the headers' members.
    count_of : (n : ℕ) → (0 + 1 * sizeof_sym c + n * sizeof_sym c) / sizeof_sym c ≡ suc n
    unfolding sizeof_sym width
    count_of n = elim c as (λ c. (0 + 1 * sizeof_sym c + n * sizeof_sym c) / sizeof_sym c ≡ suc n) [
      | elf64 ↦ omega arith
      | elf128 ↦ omega arith
    ]

    abbrev names : Bytes
    names = strtab_bytes c symbols sections

    module _ (a : Assembler) (addrs : List ℕ) (syms : List Sym) (file before : Bytes)
        (es : Entries a (strings c symbols sections) symbols addrs syms)
        (l : length before ≡ head_size c symbols sections)
        (parts : file ≡ before ++ (tables c symbols sections syms ++ outputs sections))
        (fits : elf_size c symbols sections ≤ 262144) (free : AllZeroFree symbols) where
      abbrev table : Bytes
      table = symtab_bytes c symbols sections syms

      file-names :
          drop (strtab_offset c symbols sections) file ≡ names ++ (table ++ outputs sections)
      file-names =
          ap (drop (strtab_offset c symbols sections))
            (parts ∙ second_table before section_names names table (outputs sections))
          ∙ drop-append (strtab_offset c symbols sections) (before ++ section_names)
              (names ++ (table ++ outputs sections))
              (omega (arith, length-append before section_names))

      file-entries : drop (symtab_offset c symbols sections) file ≡ table ++ outputs sections
      file-entries =
          ap (drop (symtab_offset c symbols sections))
            (parts ∙ third_table before section_names names table (outputs sections))
          ∙ drop-append (symtab_offset c symbols sections) (before ++ (section_names ++ names))
              (table ++ outputs sections)
              (omega (arith, length-append before (section_names ++ names)))

      placed : Placed (strings c symbols sections) names
      unfolding find
      placed =
          with_names-Placed symbols
            (set_name 19 (empty_strings 3 (strtab_offset c symbols sections))) (0 ∷ [])
            (refl, λ str off found. cc)

      read_symbols-file :
          read_symbols c
            (names ++ (table ++ outputs sections))
            (sizeof_sym c)
            (suc (length symbols))
            (table ++ outputs sections)
          ≡ null_symbol ∷ symbols_of c symbols addrs
      unfolding read_symbols
      read_symbols-file =
          let array = sym_array c syms in
          let first = sym_bytes c (null_sym c) in
          let room : length names ≤ 262144 = omega (arith, length-string_bytes symbols) in
          ap
            (read_symbols c (names ++ (table ++ outputs sections)) (sizeof_sym c)
              (suc (length symbols)))
            (append_assoc first array (outputs sections))
          ∙ rw
              (
                read_symbol-entry c [] null_location 0 0 names (table ++ outputs sections)
                    (array ++ outputs sections) ([], string_bytes symbols, refl, refl) room no_byte,
                drop-append (sizeof_sym c) first (array ++ outputs sections)
                    (length-sym_bytes c (null_sym c)),
                read_symbols-Entries c a (strings c symbols sections) symbols addrs syms names
                    (table ++ outputs sections) (outputs sections) es placed room free,
                small_wide c 0 (omega arith),
              )
              refl

      table_symbols-file :
          table_symbols c file (values (shdr_members c symtab)) (values (shdr_members c strtab))
          ≡ null_symbol ∷ symbols_of c symbols addrs
      unfolding table_symbols
      table_symbols-file =
          let name_size = length-string_bytes symbols in
          rw
            (
              with_names-sh_offset symbols
                  (set_name 19 (empty_strings 3 (strtab_offset c symbols sections))),
              small_wide c (strtab_offset c symbols sections) (omega arith),
              small_wide c (symtab_offset c symbols sections)
                  (omega (arith, length-append section_names names)),
              small_wide c (sizeof_sym c) (omega arith),
              small_wide c (0 + 1 * sizeof_sym c + length symbols * sizeof_sym c) (omega arith),
              file-names,
              file-entries,
            )
            (ap
                (λ (n : ℕ).
                  read_symbols c (names ++ (table ++ outputs sections)) (sizeof_sym c) n
                    (table ++ outputs sections))
                (count_of (length symbols))
              ∙ read_symbols-file)

-- Where the entry and the symbols have addresses, the whole fits into the 262144 bytes that are
-- reserved and no symbol's name has a zero byte, a debugger gets from the symbol table and the
-- string table of the file the null symbol and then each symbol with its name, its address and its
-- size, and with its type as the st_info.
pub elf_writer-symbols :
    (c : ElfClass) (order : Map SymbolLocation → Map SymbolLocation) (a : Assembler) (entry : ℕ)
    (addrs : List ℕ)
    → address_of a.options.entry a ≡ ok (entry, a)
    → Resolved a (order a.lookup) addrs
    → elf_size c (order a.lookup) a.sections ≤ 262144
    → AllZeroFree (order a.lookup)
    → (file : Bytes) × (elf_writer c order a ≡ ok file)
      × (symbol_table c file ≡ null_symbol ∷ symbols_of c (order a.lookup) addrs)
unfolding symbol_table elf_file
elf_writer-symbols c order a entry addrs found known fits free =
    let symbols = order a.lookup in
    let (syms, es, written) = elf_writer-writes c order a entry addrs found known fits in
    let parts = tables c symbols a.sections syms in
    let off = head_size c symbols a.sections + length parts in
    let hs = section_headers c symbols a.sections in
    let size = length-tables c symbols a.sections a addrs syms es in
    let file = whole c symbols a.sections entry syms in
    let (before, l, e) = file-headers c a.sections entry hs parts off refl refl (omega arith) in
    let rest = phdr_array c (programs_at off a.sections) ++ (parts ++ outputs a.sections) in
    let header = read_header-file c a.sections entry hs parts off refl refl (omega arith) in
    (
      file,
      written,
      ap (λ (h : List ℕ). linked_symbols c file (headers_in c file h)) header
          ∙ ap (linked_symbols c file) (headers_in-file c entry (length a.sections) hs rest refl)
          ∙ linked_symbols-headers c symbols a.sections file
          ∙ table_symbols-file c symbols a.sections a addrs syms file before es l e fits free,
    )
