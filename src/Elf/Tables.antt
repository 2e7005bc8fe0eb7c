-- ===== src/Elf/Tables.antt =====
-- src/elfwriter.cpp: `struct ElfStringSection` and `struct ElfSymSection`. A section's header is a
-- reference into the vector, so that a write to it is an access to the vector.
pub mod Strings
pub mod Names
use bigassm.Prelude.{
  ℕ, ◌+◌, ◌%◌, ◌^◌, List, [], ◌∷◌, ◌++◌, Bytes, length, Map, find, update, emplace,
}
use bigassm.Types.{out_of_range, ok}
use bigassm.Elf.Vector.{Out, pure, position, append, access, from_option, ◌>>=◌, ◌>>◌}
use bigassm.Elf.Format.{ElfClass, Shdr, Sym, zero_shdr, width, sym_bytes, sizeof_sym}

-- `struct ElfStringSection`
pub record StringSection : Type 0 where
  pub shdr : Shdr
  pub namelist : Map ℕ
  pub shindex : ℕ
  pub offset : ℕ

unfoldable pub append_null : StringSection → Out StringSection
append_null s = do
  append (0 ∷ [])
  access
  pure (record s { shdr = record s.shdr { sh_size = s.shdr.sh_size + 1 }; offset = s.offset + 1 })

-- `ElfStringSection(Elf_Shdr& sh, int idx, std::vector<uint8_t>& b)`. SHT_STRTAB is 3.
unfoldable pub new_string_section : ℕ → Out StringSection
unfolding append_null
new_string_section idx = do
  access
  offset ← position
  append_null (record {
    shdr = record zero_shdr { sh_type = 3; sh_entsize = 1; sh_offset = offset; sh_addralign = 1 };
    namelist = [];
    shindex = idx;
    offset = 0;
  })

-- `add(str)`. The bytes up to `str.end() + 1` are those of the string and the zero behind it.
unfoldable pub add : Bytes → StringSection → Out (ℕ × StringSection)
unfolding emplace update
add str s = do
  append (str ++ 0 ∷ [])
  access
  pure (
    s.offset,
    record s {
      shdr = record s.shdr { sh_size = s.shdr.sh_size + (length str + 1) };
      namelist = update str (λ _. s.offset) (emplace str s.offset s.namelist);
      offset = s.offset + (length str + 1);
    },
  )

-- `lookup(str)`, with the exception of `map::at`
unfoldable pub lookup : Bytes → StringSection → Out ℕ
unfolding find
lookup str s = from_option out_of_range (find str s.namelist)

-- `for (const auto& sit : assembler.symbols()) strings.add(sit.first);`
unfoldable pub add_all {ℓ} : {V : Type ℓ} → Map V → StringSection → Out StringSection
unfolding add
add_all [] s = pure s
add_all ((name, v) ∷ names) s = do (offset, s) ← add name s; add_all names s

module _ (c : ElfClass) where
  -- `ElfSymSection::add_sym`, on the section's header
  unfoldable pub add_sym : Sym → Shdr → Out Shdr
  unfolding sym_bytes sizeof_sym
  add_sym sym h = do
    append (sym_bytes c sym)
    access
    pure (record h { sh_size = h.sh_size + sizeof_sym c; sh_info = h.sh_info + 1 })

  -- `ElfSymSection(Elf_Shdr& sh, int strindex, std::vector<uint8_t>& b)`. SHT_SYMTAB is 2.
  unfoldable pub new_sym_section : ℕ → Out Shdr
  unfolding add_sym sizeof_sym width
  new_sym_section strindex = do
    access
    offset ← position
    add_sym
        (record { st_name = 0; st_info = 0; st_other = 0; st_shndx = 0; st_value = 0; st_size = 0 })
        (record zero_shdr {
          sh_type = 2;
          sh_entsize = sizeof_sym c;
          sh_offset = offset;
          sh_addralign = width c;
          sh_link = strindex;
        })

  -- `ElfSymSection::add(name, addr, info, size, str)`. SHN_UNDEF and STV_DEFAULT are 0.
  unfoldable pub add_symbol : Bytes → ℕ → ℕ → ℕ → StringSection → Shdr → Out Shdr
  unfolding lookup add_sym
  add_symbol name addr info size str h = do
    st_name ← lookup name str
    add_sym
        (record {
          st_name = st_name;
          st_info = info % 2 ^ 8;
          st_other = 0;
          st_shndx = 0;
          st_value = addr;
          st_size = size;
        })
        h
