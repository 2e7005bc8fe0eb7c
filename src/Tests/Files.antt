-- ===== src/Tests/Files.antt =====
-- ELF files of samples.
use bigassm.Prelude.{
  ℕ, ◌≡◌, ◌%◌, ◌^◌, refl, true, [], ◌∷◌, Bytes, codes, length, length-replicate, replicate, Map,
  find, bytes_eq, arith,
}
use bigassm.Types.{ok, err, undefined}
use bigassm.Section.{Section, address_at}
use bigassm.Assembler.{Assembler, SymbolLocation, address_of, address, section_at}
use bigassm.Elf.Format.{elf64, elf128, width, sizeof_ehdr, sizeof_shdr, sizeof_phdr, sizeof_sym}
use bigassm.Elf.Writer.{elf_writer, sizeof_elf_data}
use bigassm.Elf.Reader.{nth, read_header, segments, symbol_table}
use bigassm.Elf.Symbols.{Resolved, none_left, resolved}
use bigassm.Elf.Layout.{elf_size}
use bigassm.Elf.Loading.{elf_writer-loads}
use bigassm.Elf.Segments.{segments_of}
use bigassm.Elf.Linking.{ZeroFree, no_byte, next_byte, no_name, next_name, symbols_of}
use bigassm.Elf.Debugging.{null_symbol, elf_writer-symbols}
use bigassm.Elf.Overrun.{elf_writer-overruns}
use bigassm.Tests.Samples.{text_with, data_with, sample}

-- The order of insertion.
abbrev order : Map SymbolLocation → Map SymbolLocation
order symbols = symbols

abbrev start : SymbolLocation
start = record { section = codes ".text"; offset = 4; type = 2; size = 8 }

abbrev text : Section
text = text_with (19 ∷ 0 ∷ 0 ∷ 0 ∷ 19 ∷ 1 ∷ 0 ∷ 255 ∷ []) []

abbrev finished : Assembler
finished = record (sample [] text (data_with [])) { lookup = (codes "_start", start) ∷ [] }

start_found : address_of (codes "_start") finished ≡ ok (0x100004, finished)
unfolding address_of address section_at address_at find bytes_eq
start_found = refl

start_at : address start finished ≡ ok (0x100004, finished)
unfolding address section_at address_at find bytes_eq
start_at = refl

finished-Resolved : Resolved finished (order finished.lookup) (0x100004 ∷ [])
finished-Resolved = resolved start_at none_left

finished_size : elf_size elf128 (order finished.lookup) finished.sections ≡ 971
unfolding sizeof_elf_data sizeof_ehdr sizeof_shdr sizeof_phdr sizeof_sym width
finished_size = refl

start-ZeroFree : ZeroFree (codes "_start")
start-ZeroFree = next_byte (omega arith) (
    next_byte (omega arith) (
      next_byte (omega arith)
        (next_byte (omega arith) (next_byte (omega arith) (next_byte (omega arith) no_byte)))))

elf_writer-loads_example :
    (file : Bytes) × (elf_writer elf128 order finished ≡ ok file)
    × (length file ≡ elf_size elf128 (order finished.lookup) finished.sections)
    × (nth 4 (read_header elf128 file) ≡ 0x100004 % 256 ^ width elf128)
    × (segments elf128 file ≡ segments_of elf128 finished.sections)
elf_writer-loads_example =
    elf_writer-loads elf128 order finished 0x100004 (0x100004 ∷ []) start_found finished-Resolved
      (omega (arith, finished_size))

elf_writer-symbols_example :
    (file : Bytes) × (elf_writer elf128 order finished ≡ ok file)
    × (symbol_table elf128 file
        ≡ null_symbol ∷ symbols_of elf128 (order finished.lookup) (0x100004 ∷ []))
elf_writer-symbols_example =
    elf_writer-symbols elf128 order finished 0x100004 (0x100004 ∷ []) start_found finished-Resolved
      (omega (arith, finished_size)) (next_name start-ZeroFree no_name)

-- More than the vector is reserved for, in front of `.text`.
large : Bytes
large = replicate 262144 0

length-large : length large ≡ 262144
unfolding large
length-large = length-replicate {A = ℕ} 262144 0

abbrev bss : Section
bss = record (data_with []) { output = large; resv = true }

abbrev too_large : Assembler
too_large = record finished { sections = (codes ".bss", bss) ∷ (codes ".text", text) ∷ [] }

too_large_found : address_of (codes "_start") too_large ≡ ok (0x100004, too_large)
unfolding address_of address section_at address_at find bytes_eq
too_large_found = refl

too_large_at : address start too_large ≡ ok (0x100004, too_large)
unfolding address section_at address_at find bytes_eq
too_large_at = refl

elf_writer-overruns_example : elf_writer elf64 order too_large ≡ err undefined
unfolding sizeof_elf_data sizeof_ehdr sizeof_shdr sizeof_phdr sizeof_sym width
elf_writer-overruns_example =
    elf_writer-overruns elf64 order too_large 0x100004 (0x100004 ∷ []) ((codes ".bss", bss) ∷ [])
      (codes ".text") text [] too_large_found (resolved too_large_at none_left) refl (omega arith)
      (omega (arith, length-large))
