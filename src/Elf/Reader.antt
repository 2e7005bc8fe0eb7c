-- ===== src/Elf/Reader.antt =====
-- No code of src/: how a program reads an ELF file, as the System V ABI says it, with the wide
-- members of src/elf128.h in a file of class 3. The theorems on src/elfwriter.cpp compare with it.
use bigassm.Prelude.{ℕ, zero, suc, ◌-◌, ◌/◌, List, [], ◌∷◌, Bytes, take, drop, ◌==◌, if◌then◌else◌}
use bigassm.Patch.{word_of}
use bigassm.Elf.Format.{ElfClass, width}

-- Members of the sizes, read one after the other.
unfoldable pub read_fields : List ℕ → Bytes → List ℕ
unfolding word_of
read_fields [] bs = []
read_fields (n ∷ ns) bs = word_of (take n bs) ∷ read_fields ns (drop n bs)

abbrev pub nth : ℕ → List ℕ → ℕ
nth i [] = 0
nth zero (x ∷ xs) = x
nth (suc i) (x ∷ xs) = nth i xs

-- The bytes up to the first zero.
unfoldable pub c_string : Bytes → Bytes
c_string [] = []
c_string (b ∷ bs) = let rest = c_string bs in if b == 0 then [] else b ∷ rest

-- What a loader puts into memory: the contents of the file at the address, and zeros up to `memsz`.
pub record Segment : Type 0 where
  pub type : ℕ
  pub flags : ℕ
  pub vaddr : ℕ
  pub memsz : ℕ
  pub contents : Bytes

-- What a debugger takes from the symbol table.
pub record Symbol : Type 0 where
  pub name : Bytes
  pub info : ℕ
  pub value : ℕ
  pub size : ℕ

-- From the members of a program header, and of a symbol table's entry.
unfoldable pub segment_from : Bytes → List ℕ → Segment
segment_from file p = record {
  type = nth 0 p;
  flags = nth 1 p;
  vaddr = nth 4 p;
  memsz = nth 7 p;
  contents = take (nth 6 p) (drop (nth 3 p) file);
}

unfoldable pub symbol_from : Bytes → List ℕ → Symbol
unfolding c_string
symbol_from strings s = record {
  name = c_string (drop (nth 0 s) strings);
  info = nth 1 s;
  value = nth 5 s;
  size = nth 6 s;
}

module _ (c : ElfClass) where
  abbrev w : ℕ
  w = width c

  abbrev pub ehdr_sizes : List ℕ
  ehdr_sizes = 2 ∷ 2 ∷ 4 ∷ (w - 8) ∷ w ∷ w ∷ w ∷ 4 ∷ 2 ∷ 2 ∷ 2 ∷ 2 ∷ 2 ∷ 2 ∷ []

  abbrev pub shdr_sizes : List ℕ
  shdr_sizes = 4 ∷ 4 ∷ (w - 8) ∷ w ∷ w ∷ w ∷ w ∷ 4 ∷ 4 ∷ (w - 8) ∷ w ∷ w ∷ []

  abbrev pub phdr_sizes : List ℕ
  phdr_sizes = 4 ∷ 4 ∷ (w - 8) ∷ w ∷ w ∷ w ∷ w ∷ w ∷ w ∷ []

  abbrev pub sym_sizes : List ℕ
  sym_sizes = 4 ∷ 1 ∷ 1 ∷ 2 ∷ (w - 8) ∷ w ∷ w ∷ []

  -- The file's header, behind the 16 bytes of `e_ident`.
  unfoldable pub read_header : Bytes → List ℕ
  unfolding read_fields width
  read_header file = read_fields ehdr_sizes (drop 16 file)

  unfoldable pub read_segment : Bytes → Bytes → Segment
  unfolding read_fields width segment_from
  read_segment file bs = segment_from file (read_fields phdr_sizes bs)

  -- `phnum` program headers, each `phentsize` bytes behind the last.
  unfoldable pub read_segments : Bytes → ℕ → ℕ → Bytes → List Segment
  unfolding read_segment
  read_segments file phentsize zero bs = []
  read_segments file phentsize (suc phnum) bs =
      read_segment file bs ∷ read_segments file phentsize phnum (drop phentsize bs)

  -- The segments, for the members of the file's header.
  unfoldable pub segments_in : Bytes → List ℕ → List Segment
  unfolding read_segments
  segments_in file h = read_segments file (nth 9 h) (nth 10 h) (drop (nth 5 h) file)

  unfoldable pub segments : Bytes → List Segment
  unfolding read_header segments_in
  segments file = segments_in file (read_header file)

  unfoldable pub read_headers : ℕ → ℕ → Bytes → List (List ℕ)
  unfolding read_fields width
  read_headers shentsize zero bs = []
  read_headers shentsize (suc shnum) bs =
      read_fields shdr_sizes bs ∷ read_headers shentsize shnum (drop shentsize bs)

  unfoldable pub read_symbol : Bytes → Bytes → Symbol
  unfolding read_fields width symbol_from
  read_symbol strings bs = symbol_from strings (read_fields sym_sizes bs)

  unfoldable pub read_symbols : Bytes → ℕ → ℕ → Bytes → List Symbol
  unfolding read_symbol
  read_symbols strings entsize zero bs = []
  read_symbols strings entsize (suc count) bs =
      read_symbol strings bs ∷ read_symbols strings entsize count (drop entsize bs)

  -- The first section header of the type of symbol tables.
  abbrev pub symtab_of : List (List ℕ) → List ℕ
  symtab_of [] = []
  symtab_of (h ∷ hs) = if nth 1 h == 2 then h else symtab_of hs

  abbrev pub header_at : ℕ → List (List ℕ) → List ℕ
  header_at i [] = []
  header_at zero (h ∷ hs) = h
  header_at (suc i) (h ∷ hs) = header_at i hs

  -- The symbols of the table that one header names, with the names from the other.
  unfoldable pub table_symbols : Bytes → List ℕ → List ℕ → List Symbol
  unfolding read_symbols
  table_symbols file symtab strtab =
      read_symbols (drop (nth 5 strtab) file) (nth 11 symtab) (nth 6 symtab / nth 11 symtab)
        (drop (nth 5 symtab) file)

  unfoldable pub headers_in : Bytes → List ℕ → List (List ℕ)
  unfolding read_headers
  headers_in file h = read_headers (nth 11 h) (nth 12 h) (drop (nth 6 h) file)

  -- The symbol table, with the string table that it links to.
  unfoldable pub linked_symbols : Bytes → List (List ℕ) → List Symbol
  unfolding table_symbols
  linked_symbols file hs =
      let symtab = symtab_of hs in table_symbols file symtab (header_at (nth 7 symtab) hs)

  unfoldable pub symbol_table : Bytes → List Symbol
  unfolding read_header headers_in linked_symbols
  symbol_table file = linked_symbols file (headers_in file (read_header file))
