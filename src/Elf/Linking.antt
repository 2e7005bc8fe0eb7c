-- ===== src/Elf/Linking.antt =====
-- What a debugger gets from the file that `Elf_Writer` of src/elfwriter.cpp makes: the symbols.
use bigassm.Prelude.{
  ℕ, suc, ◌%◌, ◌^◌, ◌≤◌, ◌<◌, ◌≡◌, refl, ap, ◌∙◌, List, [], ◌∷◌, ◌++◌, Bytes, length, length-append,
  drop, Map, arith,
}
use native.Mathlib.Nat.{mod-eq_of_lt}
use bigassm.Assembler.{Assembler, SymbolLocation}
use bigassm.Elf.Format.{
  ElfClass, Shdr, Sym, width, shdr_members, sym_members, shdr_bytes, sym_bytes, sizeof_shdr,
  sizeof_sym,
}
use bigassm.Elf.Fields.{
  drop-append, append_assoc, values, read_fields-fields, length-shdr_bytes, length-sym_bytes,
}
use bigassm.Elf.Tables.{StringSection}
use bigassm.Elf.Tables.Strings.{terminated}
use bigassm.Elf.Tables.Names.{StandsAt, Placed}
use bigassm.Elf.Symbols.{Entries, no_entry, entries, entry, sym_array}
use bigassm.Elf.Writer.{shdr_array}
use bigassm.Elf.Reader.{
  c_string, Symbol, read_fields, shdr_sizes, sym_sizes, read_headers, read_symbol, symbol_from,
  read_symbols,
}

-- A string without the zero that ends it in memory.
pub data ZeroFree : Bytes → Type 0 where
  no_byte : ZeroFree []
  next_byte : {b : ℕ} {bs : Bytes} → 0 < b → ZeroFree bs → ZeroFree (b ∷ bs)

pub data AllZeroFree : Map SymbolLocation → Type 0 where
  no_name : AllZeroFree []
  next_name :
      {name : Bytes} {loc : SymbolLocation} {rest : Map SymbolLocation}
      → ZeroFree name
      → AllZeroFree rest
      → AllZeroFree ((name, loc) ∷ rest)

c_string-terminated : (name rest : Bytes) → ZeroFree name → c_string (name ++ 0 ∷ rest) ≡ name
unfolding c_string
c_string-terminated [] rest no_byte = refl
c_string-terminated (b ∷ bs) rest (next_byte h free) =
    ground (arith, c_string-terminated bs rest free)

-- A name of the table is read where it stands.
c_string-StandsAt :
    (off : ℕ) (name bytes rest : Bytes)
    → StandsAt off name bytes
    → length bytes ≤ 262144
    → ZeroFree name
    → c_string (drop (off % 256 ^ 4) (bytes ++ rest)) ≡ name
c_string-StandsAt off name bytes rest (pre, post, e, l) h free =
    let small : off % 256 ^ 4 ≡ off =
      mod-eq_of_lt (omega (arith, ap length e, length-append pre (terminated name ++ post))) in
    rw
      (
        small,
        e,
        append_assoc pre (terminated name ++ post) rest,
        drop-append off pre ((terminated name ++ post) ++ rest) l,
        append_assoc (terminated name) post rest,
        append_assoc name (0 ∷ []) (post ++ rest),
      )
      (c_string-terminated name (post ++ rest) free)

module _ (c : ElfClass) where
  -- What a symbol with its address is in the table.
  abbrev pub symbol_of : Bytes → SymbolLocation → ℕ → Symbol
  symbol_of name loc addr = record {
    name = name;
    info = loc.type % 2 ^ 8;
    value = addr % 256 ^ width c;
    size = loc.size % 256 ^ width c;
  }

  abbrev pub symbols_of : Map SymbolLocation → List ℕ → List Symbol
  symbols_of ((name, loc) ∷ rest) (addr ∷ addrs) = symbol_of name loc addr ∷ symbols_of rest addrs
  symbols_of symbols addrs = []

  read_fields-sym :
      (s : Sym) (rest : Bytes)
      → read_fields (sym_sizes c) (sym_bytes c s ++ rest) ≡ values (sym_members c s)
  unfolding sym_bytes
  read_fields-sym s rest = read_fields-fields (sym_members c s) rest

  pub read_symbol-entry :
      (name : Bytes) (loc : SymbolLocation) (addr off : ℕ) (names more rest : Bytes)
      → StandsAt off name names
      → length names ≤ 262144
      → ZeroFree name
      → read_symbol c (names ++ more) (sym_bytes c (entry off addr loc) ++ rest)
        ≡ symbol_of name loc addr
  unfolding read_symbol symbol_from
  read_symbol-entry name loc addr off names more rest stands h free =
      let info : loc.type % 2 ^ 8 % 256 ^ 1 ≡ loc.type % 2 ^ 8 = omega arith in
      ap (symbol_from (names ++ more)) (read_fields-sym (entry off addr loc) rest)
      ∙ rw (c_string-StandsAt off name names more stands h free, info) refl

  pub read_symbols-Entries :
      (a : Assembler) (s : StringSection) (symbols : Map SymbolLocation) (addrs : List ℕ)
      (syms : List Sym) (names more rest : Bytes)
      → Entries a s symbols addrs syms
      → Placed s names
      → length names ≤ 262144
      → AllZeroFree symbols
      → read_symbols c (names ++ more) (sizeof_sym c) (length symbols) (sym_array c syms ++ rest)
        ≡ symbols_of symbols addrs
  unfolding read_symbols
  read_symbols-Entries a s [] addrs syms names more rest no_entry placed h free = refl
  read_symbols-Entries a s ((name, loc) ∷ symbols) [] syms names more rest es placed h free =
      elim es [ ]
  read_symbols-Entries a s ((name, loc) ∷ symbols) (addr ∷ addrs) [] names more rest es placed h
        free =
      elim es [ ]
  read_symbols-Entries a s ((name, loc) ∷ symbols) (addr ∷ addrs) (s1 ∷ syms) names more rest
        (entries {off = off} e k es) (l, placed) h (next_name free frees) =
      let array = sym_array c syms in
      ap (read_symbols c (names ++ more) (sizeof_sym c) (suc (length symbols)))
        (append_assoc (sym_bytes c s1) array rest)
      ∙ rw
          (
            read_symbol-entry name loc addr off names more (array ++ rest) (placed name off k) h
                free,
            drop-append (sizeof_sym c) (sym_bytes c s1) (array ++ rest) (length-sym_bytes c s1),
            read_symbols-Entries a s symbols addrs syms names more rest es (l, placed) h frees,
          )
          refl

  -- The members of the section headers, read.
  abbrev pub header_values : List Shdr → List (List ℕ)
  header_values [] = []
  header_values (h ∷ hs) = values (shdr_members c h) ∷ header_values hs

  read_fields-shdr :
      (h : Shdr) (rest : Bytes)
      → read_fields (shdr_sizes c) (shdr_bytes c h ++ rest) ≡ values (shdr_members c h)
  unfolding shdr_bytes
  read_fields-shdr h rest = read_fields-fields (shdr_members c h) rest

  pub read_headers-shdrs :
      (hs : List Shdr) (rest : Bytes)
      → read_headers c (sizeof_shdr c) (length hs) (shdr_array c hs ++ rest) ≡ header_values hs
  unfolding read_headers shdr_array
  read_headers-shdrs [] rest = refl
  read_headers-shdrs (h ∷ hs) rest =
      ap (read_headers c (sizeof_shdr c) (suc (length hs)))
        (append_assoc (shdr_bytes c h) (shdr_array c hs) rest)
      ∙ rw
          (
            read_fields-shdr h (shdr_array c hs ++ rest),
            drop-append (sizeof_shdr c) (shdr_bytes c h) (shdr_array c hs ++ rest)
                (length-shdr_bytes c h),
            read_headers-shdrs hs rest,
          )
          refl
