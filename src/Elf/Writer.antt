-- ===== src/Elf/Writer.antt =====
-- src/elfwriter.cpp: `struct ElfData` and `Elf_Writer`. The file that is written before the program
-- headers are filled in is written again at the end; the messages are left out.
use bigassm.Prelude.{
  ℕ, ◌+◌, ◌*◌, not, ◌&&◌, ◌||◌, List, [], ◌∷◌, ◌++◌, Bytes, codes, length, Map, replicate,
  if◌then◌else◌,
}
use bigassm.Types.{Result, ok, err}
use bigassm.Section
use bigassm.Section.{Section}
use bigassm.Assembler.{SymbolLocation, Assembler, address, address_of}
use bigassm.Elf.Format.{
  ElfClass, Ehdr, Shdr, Phdr, zero_shdr, elfclass_xx, ehdr_bytes, shdr_bytes, phdr_bytes,
  sizeof_ehdr, sizeof_shdr, sizeof_phdr,
}
use bigassm.Elf.Vector.{Out, pure, lift, result, position, append, access, ◌>>=◌, ◌>>◌}
use bigassm.Elf.Tables.{
  StringSection, new_string_section, add, lookup, add_all, new_sym_section, add_symbol,
}

-- `program.p_flags`: PF_X is 1, PF_W 2 and PF_R 4; each is added at most once.
unfoldable pub p_flags : Section → ℕ
p_flags s =
    (if s.code then 1 else 0)
    + (if (not s.code || not s.execonly) && (s.has_data || s.resv)
        then if s.readonly then 4 else 6
        else 0)

-- A program header, for a section whose output begins at the offset. PT_LOAD is 1.
unfoldable pub program_header : Section → ℕ → Phdr
unfolding p_flags Section.size
program_header s offset =
    let loadable = s.code || s.has_data in
    record {
      p_type = if loadable then 1 else 0;
      p_flags = p_flags s;
      p_offset = offset;
      p_vaddr = s.base_address;
      p_paddr = s.base_address;
      p_filesz = if loadable then Section.size s else 0;
      p_memsz = Section.size s;
      p_align = 0;
    }

-- `for (const auto& it : sections)`: the program headers, filled in one after the other
unfoldable pub add_programs : Map Section → Out (List Phdr)
unfolding program_header
add_programs [] = pure []
add_programs ((name, s) ∷ rest) = do
  access
  offset ← position
  append s.output
  programs ← add_programs rest
  pure (program_header s offset ∷ programs)

-- `s.shdr.sh_name = name`
abbrev pub set_name : ℕ → StringSection → StringSection
set_name name s = record s { shdr = record s.shdr { sh_name = name } }

-- The names of the tables, in the section `.shstrtab`.
unfoldable pub add_section_names : Out StringSection
unfolding new_string_section add
add_section_names = do
  shnames ← new_string_section 1
  (name, shnames) ← add (codes ".shstrtab") shnames
  access
  (symtab, shnames) ← add (codes ".symtab") (set_name name shnames)
  (strtab, shnames) ← add (codes ".strtab") shnames
  pure shnames

-- "Add all strings now": the section `.strtab`.
unfoldable pub add_strings : Map SymbolLocation → StringSection → Out StringSection
unfolding new_string_section lookup add_all
add_strings symbols shnames = do
  strings ← new_string_section 3
  name ← lookup (codes ".strtab") shnames
  access
  add_all symbols (set_name name strings)

module _ (c : ElfClass) where
  -- `sizeof(ElfData)`, where the program headers begin
  unfoldable pub sizeof_elf_data : ℕ
  unfolding sizeof_ehdr sizeof_shdr
  sizeof_elf_data = sizeof_ehdr c + 4 * sizeof_shdr c

  -- The file's header, for the entry's address and the number of sections. ET_EXEC is 2, EM_RISCV
  -- 243, EV_CURRENT and ELFDATA2LSB 1, ELFOSABI_STANDALONE 255.
  unfoldable pub file_header : ℕ → ℕ → Ehdr
  unfolding sizeof_elf_data sizeof_ehdr sizeof_shdr sizeof_phdr elfclass_xx
  file_header entry phnum = record {
    e_ident = 0x7F ∷ 0x45 ∷ 0x4C ∷ 0x46 ∷ elfclass_xx c ∷ 1 ∷ 1 ∷ 255 ∷ replicate 8 0;
    e_type = 2;
    e_machine = 243;
    e_version = 1;
    e_entry = entry;
    e_phoff = sizeof_elf_data;
    e_shoff = sizeof_ehdr c;
    e_flags = 0;
    e_ehsize = sizeof_ehdr c;
    e_phentsize = sizeof_phdr c;
    e_phnum = phnum;
    e_shentsize = sizeof_shdr c;
    e_shnum = 4;
    e_shstrndx = 1;
  }

  -- `for (const auto& sit : assembler.symbols())`. The `info` that the loop computes goes nowhere:
  -- `add` gets the symbol's type.
  unfoldable pub add_symbols : Assembler → Map SymbolLocation → StringSection → Shdr → Out Shdr
  unfolding address add_symbol
  add_symbols a [] strings h = pure h
  add_symbols a ((name, sym) ∷ rest) strings h = do
    addr ← lift (result (address sym a))
    h ← add_symbol c name addr sym.type sym.size strings h
    add_symbols a rest strings h

  -- The members `shdr` and `phdr` of `struct ElfData`, in memory.
  unfoldable pub shdr_array : List Shdr → Bytes
  unfolding shdr_bytes
  shdr_array [] = []
  shdr_array (h ∷ hs) = shdr_bytes c h ++ shdr_array hs

  unfoldable pub phdr_array : List Phdr → Bytes
  unfolding phdr_bytes
  phdr_array [] = []
  phdr_array (h ∷ hs) = phdr_bytes c h ++ phdr_array hs

  -- The whole of `elfbin`: `struct ElfData` and what was appended.
  unfoldable pub elf_file : Ehdr → List Shdr → List Phdr → Bytes → Bytes
  unfolding ehdr_bytes shdr_array phdr_array
  elf_file hdr shdr phdr body = ehdr_bytes c hdr ++ (shdr_array shdr ++ (phdr_array phdr ++ body))

  -- "Add all the visible symbols": the header of `.symtab`.
  unfoldable pub add_symtab :
      Assembler → Map SymbolLocation → StringSection → StringSection → Out Shdr
  unfolding lookup new_sym_section add_symbols
  add_symtab a symbols shnames strings = do
    syms ← new_sym_section c strings.shindex
    symtab_name ← lookup (codes ".symtab") shnames
    access
    syms ← add_symbols a symbols strings (record syms { sh_name = symtab_name })
    access
    pure (record syms { sh_info = length symbols + 1 })

  -- All that the writer puts into the vector.
  unfoldable pub write_parts : Assembler → Map SymbolLocation → Out (Ehdr × List Shdr × List Phdr)
  unfolding address_of file_header add_section_names add_strings add_symtab add_programs
  write_parts a symbols = do
    entry ← lift (result (address_of a.options.entry a))
    shnames ← add_section_names
    strings ← add_strings symbols shnames
    syms ← add_symtab a symbols shnames strings
    phdr ← add_programs a.sections
    pure (
      file_header entry (length a.sections),
      zero_shdr ∷ shnames.shdr ∷ syms ∷ strings.shdr ∷ [],
      phdr,
    )

  -- `Elf_Writer`: the contents of the file. `order` is the order in which an `unordered_map` gives
  -- its entries, which the standard leaves open.
  unfoldable pub elf_writer : (Map SymbolLocation → Map SymbolLocation) → Assembler → Result Bytes
  unfolding write_parts elf_file sizeof_elf_data sizeof_phdr
  elf_writer order a =
      let head = sizeof_elf_data + sizeof_phdr c * length a.sections in
      elim (write_parts a (order a.lookup) (record { head = head; body = [] })) [
        | err e ↦ err e
        | ok ((hdr, shdr, phdr), v) ↦ ok (elf_file hdr shdr phdr v.body)
      ]
