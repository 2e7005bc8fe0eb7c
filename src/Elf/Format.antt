-- ===== src/Elf/Format.antt =====
-- src/elf128.h, and the same structures of 64 bits, which src/elf64.cpp takes from the system's
-- elf.h: each is the list of its members, in the order and with the padding that they have in
-- memory. The constants are those of the System V ABI.
use bigassm.Prelude.{ℕ, ◌+◌, ◌-◌, ◌*◌, List, [], ◌∷◌, ◌++◌, Bytes}
use bigassm.PseudoOps.Handlers.{le_bytes}

-- The two instances of src/elfwriter.cpp: src/elf64.cpp and src/elf128.cpp.
pub data ElfClass : Type 0 where
  elf64 elf128 : ElfClass

-- `sizeof(Elf_Addr)`, and that of the other wide members
unfoldable pub width : ElfClass → ℕ
width elf64 = 8
width elf128 = 16

-- `ELFCLASS_XX`
unfoldable pub elfclass_xx : ElfClass → ℕ
elfclass_xx elf64 = 1
elfclass_xx elf128 = 3

-- Members with their sizes, one behind the other.
unfoldable pub fields : List (ℕ × ℕ) → Bytes
unfolding le_bytes
fields [] = []
fields ((n, v) ∷ fs) = le_bytes n v ++ fields fs

-- `Elf_Ehdr`
pub record Ehdr : Type 0 where
  pub e_ident : Bytes
  pub e_type : ℕ
  pub e_machine : ℕ
  pub e_version : ℕ
  pub e_entry : ℕ
  pub e_phoff : ℕ
  pub e_shoff : ℕ
  pub e_flags : ℕ
  pub e_ehsize : ℕ
  pub e_phentsize : ℕ
  pub e_phnum : ℕ
  pub e_shentsize : ℕ
  pub e_shnum : ℕ
  pub e_shstrndx : ℕ

-- `Elf_Shdr`
pub record Shdr : Type 0 where
  pub sh_name : ℕ
  pub sh_type : ℕ
  pub sh_flags : ℕ
  pub sh_addr : ℕ
  pub sh_offset : ℕ
  pub sh_size : ℕ
  pub sh_link : ℕ
  pub sh_info : ℕ
  pub sh_addralign : ℕ
  pub sh_entsize : ℕ

-- `Elf_Phdr`
pub record Phdr : Type 0 where
  pub p_type : ℕ
  pub p_flags : ℕ
  pub p_offset : ℕ
  pub p_vaddr : ℕ
  pub p_paddr : ℕ
  pub p_filesz : ℕ
  pub p_memsz : ℕ
  pub p_align : ℕ

-- `Elf_Sym`
pub record Sym : Type 0 where
  pub st_name : ℕ
  pub st_info : ℕ
  pub st_other : ℕ
  pub st_shndx : ℕ
  pub st_value : ℕ
  pub st_size : ℕ

-- What `elfbin.resize` has put where a header stands.
abbrev pub zero_shdr : Shdr
zero_shdr = record {
  sh_name = 0;
  sh_type = 0;
  sh_flags = 0;
  sh_addr = 0;
  sh_offset = 0;
  sh_size = 0;
  sh_link = 0;
  sh_info = 0;
  sh_addralign = 0;
  sh_entsize = 0;
}

module _ (c : ElfClass) where
  abbrev w : ℕ
  w = width c

  -- The bytes between a member that ends at a multiple of 8 and a wide member behind it.
  abbrev pad : ℕ
  pad = w - 8

  abbrev pub ehdr_members : Ehdr → List (ℕ × ℕ)
  ehdr_members h =
      (2, h.e_type)
      ∷ (2, h.e_machine)
      ∷ (4, h.e_version)
      ∷ (pad, 0)
      ∷ (w, h.e_entry)
      ∷ (w, h.e_phoff)
      ∷ (w, h.e_shoff)
      ∷ (4, h.e_flags)
      ∷ (2, h.e_ehsize)
      ∷ (2, h.e_phentsize)
      ∷ (2, h.e_phnum)
      ∷ (2, h.e_shentsize)
      ∷ (2, h.e_shnum)
      ∷ (2, h.e_shstrndx)
      ∷ []

  unfoldable pub ehdr_bytes : Ehdr → Bytes
  unfolding fields width
  ehdr_bytes h = h.e_ident ++ fields (ehdr_members h)

  abbrev pub shdr_members : Shdr → List (ℕ × ℕ)
  shdr_members h =
      (4, h.sh_name)
      ∷ (4, h.sh_type)
      ∷ (pad, 0)
      ∷ (w, h.sh_flags)
      ∷ (w, h.sh_addr)
      ∷ (w, h.sh_offset)
      ∷ (w, h.sh_size)
      ∷ (4, h.sh_link)
      ∷ (4, h.sh_info)
      ∷ (pad, 0)
      ∷ (w, h.sh_addralign)
      ∷ (w, h.sh_entsize)
      ∷ []

  unfoldable pub shdr_bytes : Shdr → Bytes
  unfolding fields width
  shdr_bytes h = fields (shdr_members h)

  abbrev pub phdr_members : Phdr → List (ℕ × ℕ)
  phdr_members h =
      (4, h.p_type)
      ∷ (4, h.p_flags)
      ∷ (pad, 0)
      ∷ (w, h.p_offset)
      ∷ (w, h.p_vaddr)
      ∷ (w, h.p_paddr)
      ∷ (w, h.p_filesz)
      ∷ (w, h.p_memsz)
      ∷ (w, h.p_align)
      ∷ []

  unfoldable pub phdr_bytes : Phdr → Bytes
  unfolding fields width
  phdr_bytes h = fields (phdr_members h)

  abbrev pub sym_members : Sym → List (ℕ × ℕ)
  sym_members s =
      (4, s.st_name)
      ∷ (1, s.st_info)
      ∷ (1, s.st_other)
      ∷ (2, s.st_shndx)
      ∷ (pad, 0)
      ∷ (w, s.st_value)
      ∷ (w, s.st_size)
      ∷ []

  unfoldable pub sym_bytes : Sym → Bytes
  unfolding fields width
  sym_bytes s = fields (sym_members s)

  -- The sizes of the structures, `sizeof`.
  unfoldable pub sizeof_ehdr : ℕ
  unfolding width
  sizeof_ehdr = 32 + 4 * w

  unfoldable pub sizeof_shdr : ℕ
  unfolding width
  sizeof_shdr = 8 * w

  unfoldable pub sizeof_phdr : ℕ
  unfolding width
  sizeof_phdr = 7 * w

  unfoldable pub sizeof_sym : ℕ
  unfolding width
  sizeof_sym = 3 * w
