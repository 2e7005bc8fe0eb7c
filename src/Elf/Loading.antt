-- ===== src/Elf/Loading.antt =====
-- What a loader gets from the file that `Elf_Writer` of src/elfwriter.cpp makes: the sections.
use bigassm.Prelude.{
  ℕ, ◌+◌, ◌*◌, ◌%◌, ◌^◌, ◌≤◌, ◌≡◌, refl, ap, sym, ◌∙◌, List, ◌++◌, Bytes, length, length-append,
  drop, Map, arith,
}
use bigassm.Types.{ok}
use bigassm.Section.{Section}
use bigassm.Assembler.{Assembler, SymbolLocation, address_of}
use bigassm.Elf.Format.{
  ElfClass, Ehdr, Shdr, width, ehdr_members, ehdr_bytes, sizeof_shdr, sizeof_phdr,
}
use bigassm.Elf.Fields.{drop-append, append_assoc, values, length-ehdr_bytes}
use bigassm.Elf.Reader.{nth, read_header, read_segments, segments, segments_in}
use bigassm.Elf.Symbols.{Resolved}
use bigassm.Elf.Parts.{outputs, programs_at}
use bigassm.Elf.Layout.{
  elf_size, length-tables, length-outputs, output_size, head_size, tables, section_headers, whole,
  elf_writer-writes,
}
use bigassm.Elf.Writer.{sizeof_elf_data, file_header, elf_file, elf_writer, shdr_array, phdr_array}
use bigassm.Elf.Segments.{
  small_wide, segments_of, read_segments-programs, length-shdr_array, length-programs,
  read_header-whole, sizeof_elf_data-small, phentsize-small, phnum-small,
}

-- A file with four section headers, some tables and the outputs.
module _ (c : ElfClass) (sections : Map Section) (entry : ℕ) (hs : List Shdr) (tables : Bytes)
    (off : ℕ) (four : length hs ≡ 4)
    (behind : off ≡ sizeof_elf_data c + sizeof_phdr c * length sections + length tables)
    (fits : off + output_size sections ≤ 262144) where
  abbrev hdr : Ehdr
  hdr = file_header c entry (length sections)

  abbrev pub front : Bytes
  front = ehdr_bytes c hdr ++ shdr_array c hs

  abbrev pub programs : Bytes
  programs = phdr_array c (programs_at off sections)

  abbrev pub file : Bytes
  file = elf_file c hdr hs (programs_at off sections) (tables ++ outputs sections)

  pub length-front : length front ≡ sizeof_elf_data c
  unfolding sizeof_elf_data file_header
  length-front = omega (
    arith,
    length-append (ehdr_bytes c hdr) (shdr_array c hs),
    length-ehdr_bytes c hdr refl,
    length-shdr_array c hs,
    ap (λ (n : ℕ). n * sizeof_shdr c) four,
  )

  pub file-front : file ≡ front ++ (programs ++ (tables ++ outputs sections))
  unfolding elf_file
  file-front =
      sym (
        append_assoc (ehdr_bytes c hdr) (shdr_array c hs)
          (programs ++ (tables ++ outputs sections)))

  file-outputs : file ≡ ((front ++ programs) ++ tables) ++ outputs sections
  file-outputs =
      file-front
      ∙ sym (append_assoc front programs (tables ++ outputs sections))
      ∙ sym (append_assoc (front ++ programs) tables (outputs sections))

  -- The headers, and the tables and outputs behind them.
  pub file-headers :
      (before : Bytes) × (length before ≡ sizeof_elf_data c + sizeof_phdr c * length sections)
      × (file ≡ before ++ (tables ++ outputs sections))
  file-headers = (
    front ++ programs,
    omega (arith, length-append front programs, length-front, length-programs c off sections),
    file-front ∙ sym (append_assoc front programs (tables ++ outputs sections)),
  )

  length-before : length ((front ++ programs) ++ tables) ≡ off
  length-before = omega (
    arith,
    length-append (front ++ programs) tables,
    length-append front programs,
    length-front,
    length-programs c off sections,
  )

  length-file : length file ≡ off + output_size sections
  length-file =
      ap length file-outputs
      ∙ omega (
        arith,
        length-append ((front ++ programs) ++ tables) (outputs sections),
        length-before,
        length-outputs sections,
      )

  pub read_header-file : read_header c file ≡ values (ehdr_members c hdr)
  unfolding elf_file
  read_header-file =
      read_header-whole c entry (length sections)
        (shdr_array c hs ++ (programs ++ (tables ++ outputs sections)))

  entry-file : nth 4 (read_header c file) ≡ entry % 256 ^ width c
  unfolding file_header
  entry-file = ap (nth 4) read_header-file

  segments-file : segments c file ≡ segments_of c sections
  unfolding segments segments_in file_header
  segments-file =
      ap (segments_in c file) read_header-file
      ∙ rw
          (
            phentsize-small c,
            phnum-small c (length sections) (omega arith),
            small_wide c (sizeof_elf_data c) (omega (arith, sizeof_elf_data-small c)),
          )
          (ap (read_segments c file (sizeof_phdr c) (length sections)) (
              ap (drop (sizeof_elf_data c)) file-front
              ∙ drop-append (sizeof_elf_data c) front (programs ++ (tables ++ outputs sections))
                  length-front)
            ∙ read_segments-programs c sections off ((front ++ programs) ++ tables) file
                (tables ++ outputs sections) length-before file-outputs fits)

-- Where the entry and the symbols have addresses and the whole fits into the 262144 bytes that are
-- reserved, the ELF writer succeeds, for 64 and for 128 bits; the file has the size of its parts
-- and the entry's address, and a loader gets from it every section in its order, with its address
-- modulo 2 to the bits of the class, its size in memory and, where it is loadable, its output. It
-- is executable if it has code, readable if it has data or reserved space, unless it is
-- execute-only code, and writable if it is readable and not read-only.
pub elf_writer-loads :
    (c : ElfClass) (order : Map SymbolLocation → Map SymbolLocation) (a : Assembler) (entry : ℕ)
    (addrs : List ℕ)
    → address_of a.options.entry a ≡ ok (entry, a)
    → Resolved a (order a.lookup) addrs
    → elf_size c (order a.lookup) a.sections ≤ 262144
    → (file : Bytes) × (elf_writer c order a ≡ ok file)
      × (length file ≡ elf_size c (order a.lookup) a.sections)
      × (nth 4 (read_header c file) ≡ entry % 256 ^ width c)
      × (segments c file ≡ segments_of c a.sections)
elf_writer-loads c order a entry addrs found known fits =
    let symbols = order a.lookup in
    let (syms, es, written) = elf_writer-writes c order a entry addrs found known fits in
    let parts = tables c symbols a.sections syms in
    let off = head_size c symbols a.sections + length parts in
    let hs = section_headers c symbols a.sections in
    let size = length-tables c symbols a.sections a addrs syms es in
    (
      whole c symbols a.sections entry syms,
      written,
      length-file c a.sections entry hs parts off refl refl (omega arith) ∙ omega arith,
      entry-file c a.sections entry hs parts off refl refl (omega arith),
      segments-file c a.sections entry hs parts off refl refl (omega arith),
    )
