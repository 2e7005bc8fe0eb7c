-- ===== src/Elf/Segments.antt =====
-- The program headers of src/elfwriter.cpp as a loader reads them.
use bigassm.Prelude.{
  ℕ, suc, ◌+◌, ◌*◌, ◌%◌, ◌^◌, ◌≤◌, ◌<◌, ◌≡◌, refl, ap, sym, ◌∙◌, Bool, true, false, ◌||◌, ◌&&◌, not,
  List, [], ◌∷◌, ◌++◌, Bytes, length, length-append, take, drop, Map, if◌then◌else◌, arith,
}
use native.Mathlib.Nat.{mod-eq_of_lt}
use bigassm.Section
use bigassm.Section.{Section}
use bigassm.Elf.Format.{
  ElfClass, elf64, elf128, Shdr, Phdr, width, ehdr_members, phdr_members, ehdr_bytes, shdr_bytes,
  phdr_bytes, sizeof_ehdr, sizeof_shdr, sizeof_phdr,
}
use bigassm.Elf.Fields.{
  take-append, drop-append, append_assoc, values, read_fields-fields, length-shdr_bytes,
  length-phdr_bytes,
}
use bigassm.Elf.Reader.{
  phdr_sizes, read_fields, segment_from, read_header, Segment, read_segment, read_segments,
}
use bigassm.Elf.Parts.{outputs, programs_at}
use bigassm.Elf.Layout.{output_size}
use bigassm.Elf.Writer.{
  sizeof_elf_data, file_header, p_flags, program_header, shdr_array, phdr_array,
}

-- What a section may be used for, and the flags of that by the ELF format: PF_R, PF_W and PF_X.
abbrev pub readable : Section → Bool
readable s = (s.has_data || s.resv) && not (s.code && s.execonly)

abbrev pub permissions : (read write execute : Bool) → ℕ
permissions read write execute =
    4 * (if read then 1 else 0) + 2 * (if write then 1 else 0) + (if execute then 1 else 0)

abbrev pub permissions_of : Section → ℕ
permissions_of s = permissions (readable s) (readable s && not s.readonly) s.code

p_flags-permissions : (s : Section) → p_flags s ≡ permissions_of s
unfolding p_flags
p_flags-permissions s = ground arith

permissions-small : (r w x : Bool) → permissions r w x < 256 ^ 4
permissions-small r w x = ground arith

-- Numbers below the capacity fit into the wide members.
pub small_wide : (c : ElfClass) (n : ℕ) → n ≤ 262144 → n % 256 ^ width c ≡ n
unfolding width
small_wide elf64 n h = mod-eq_of_lt (omega arith)
small_wide elf128 n h = mod-eq_of_lt (omega arith)

module _ (c : ElfClass) where
  -- What a section is in memory.
  abbrev pub segment_of : Section → Segment
  segment_of s = record {
    type = if s.code || s.has_data then 1 else 0;
    flags = permissions_of s;
    vaddr = s.base_address % 256 ^ width c;
    memsz = length s.output;
    contents = if s.code || s.has_data then s.output else [];
  }

  abbrev pub segments_of : Map Section → List Segment
  segments_of [] = []
  segments_of ((name, s) ∷ rest) = segment_of s ∷ segments_of rest

  contents_loaded :
      (loadable : Bool) (off : ℕ) (before output after file : Bytes)
      → length before ≡ off
      → file ≡ before ++ (output ++ after)
      → off + length output ≤ 262144
      → take
          ((if loadable then length output else 0) % 256 ^ width c)
          (drop (off % 256 ^ width c) file)
        ≡ (if loadable then output else [])
  contents_loaded true off before output after file l e h =
      rw
        (
          e,
          small_wide c off (omega arith),
          small_wide c (length output) (omega arith),
          drop-append off before (output ++ after) l,
        )
        (take-append (length output) output after refl)
  contents_loaded false off before output after file l e h = rw (small_wide c 0 (omega arith)) refl

  loadable-small : (b : Bool) → (if b then 1 else 0) % 256 ^ 4 ≡ (if b then 1 else 0)
  loadable-small b = ground arith

  read_fields-phdr :
      (p : Phdr) (rest : Bytes)
      → read_fields (phdr_sizes c) (phdr_bytes c p ++ rest) ≡ values (phdr_members c p)
  unfolding phdr_bytes
  read_fields-phdr p rest = read_fields-fields (phdr_members c p) rest

  read_segment-program :
      (s : Section) (off : ℕ) (before after file rest : Bytes)
      → length before ≡ off
      → file ≡ before ++ (s.output ++ after)
      → off + length s.output ≤ 262144
      → read_segment c file (phdr_bytes c (program_header s off) ++ rest) ≡ segment_of s
  unfolding read_segment segment_from program_header Section.size
  read_segment-program s off before after file rest l e h =
      ap (segment_from file) (read_fields-phdr (program_header s off) rest)
      ∙ rw
          (
            loadable-small (s.code || s.has_data),
            p_flags-permissions s,
            mod-eq_of_lt (permissions-small (readable s) (readable s && not s.readonly) s.code),
            small_wide c (length s.output) (omega arith),
            contents_loaded (s.code || s.has_data) off before s.output after file l e h,
          )
          refl

  pub read_segments-programs :
      (sections : Map Section) (off : ℕ) (before file rest : Bytes)
      → length before ≡ off
      → file ≡ before ++ outputs sections
      → off + output_size sections ≤ 262144
      → read_segments c file
          (sizeof_phdr c)
          (length sections)
          (phdr_array c (programs_at off sections) ++ rest)
        ≡ segments_of sections
  unfolding read_segments phdr_array
  read_segments-programs [] off before file rest l e h = refl
  read_segments-programs ((name, s) ∷ sections) off before file rest l e h =
      let p = program_header s off in
      let more = phdr_array c (programs_at (off + length s.output) sections) in
      ap (read_segments c file (sizeof_phdr c) (suc (length sections)))
        (append_assoc (phdr_bytes c p) more rest)
      ∙ rw
          (
            read_segment-program s off before (outputs sections) file (more ++ rest) l e
                (omega arith),
            drop-append (sizeof_phdr c) (phdr_bytes c p) (more ++ rest) (length-phdr_bytes c p),
            read_segments-programs sections (off + length s.output) (before ++ s.output) file rest
                (omega (arith, length-append before s.output))
                (e ∙ sym (append_assoc before s.output (outputs sections))) (omega arith),
          )
          refl

  pub length-shdr_array : (hs : List Shdr) → length (shdr_array c hs) ≡ length hs * sizeof_shdr c
  unfolding shdr_array
  length-shdr_array [] = omega arith
  length-shdr_array (h ∷ hs) = omega (
    arith,
    length-append (shdr_bytes c h) (shdr_array c hs),
    length-shdr_bytes c h,
    length-shdr_array hs,
  )

  pub length-programs :
      (off : ℕ) (sections : Map Section)
      → length (phdr_array c (programs_at off sections)) ≡ sizeof_phdr c * length sections
  unfolding phdr_array
  length-programs off [] = omega arith
  length-programs off ((name, s) ∷ sections) = omega (
    arith,
    length-append (phdr_bytes c (program_header s off))
        (phdr_array c (programs_at (off + length s.output) sections)),
    length-phdr_bytes c (program_header s off),
    length-programs (off + length s.output) sections,
  )

  pub read_header-whole :
      (entry phnum : ℕ) (rest : Bytes)
      → read_header c (ehdr_bytes c (file_header c entry phnum) ++ rest)
        ≡ values (ehdr_members c (file_header c entry phnum))
  unfolding read_header ehdr_bytes file_header
  read_header-whole entry phnum rest =
      read_fields-fields (ehdr_members c (file_header c entry phnum)) rest

  -- The constants of the header fit into its members.
  pub sizeof_elf_data-small : sizeof_elf_data c ≤ 608
  unfolding sizeof_elf_data sizeof_ehdr sizeof_shdr width
  sizeof_elf_data-small = elim c as (λ c. sizeof_elf_data c ≤ 608) [
    | elf64 ↦ omega arith
    | elf128 ↦ omega arith
  ]

  pub phentsize-small : sizeof_phdr c % 256 ^ 2 ≡ sizeof_phdr c
  unfolding sizeof_phdr width
  phentsize-small = elim c as (λ c. sizeof_phdr c % 256 ^ 2 ≡ sizeof_phdr c) [
    | elf64 ↦ omega arith
    | elf128 ↦ omega arith
  ]

  pub phnum-small : (n : ℕ) → sizeof_phdr c * n ≤ 262144 → n % 256 ^ 2 ≡ n
  unfolding sizeof_phdr width
  phnum-small n = elim c as (λ c. sizeof_phdr c * n ≤ 262144 → n % 256 ^ 2 ≡ n) [
    | elf64 ↦ λ h. omega arith
    | elf128 ↦ λ h. omega arith
  ]
