-- ===== src/Tests/Whole.antt =====
-- A file assembled, finished and written, and the layout of its sections.
use bigassm.Prelude.{
  if◌then◌else◌, ℕ, zero, suc, ◌<◌, ◌≤◌, ◌≡◌, refl, true, false, none, some, List, [], ◌∷◌, codes,
  find, bytes_eq, bytes_eq_refl, Bytes, arith,
}
use bigassm.Types.{Token, tk_label, tk_opcode, op_wfi, opcode, bits, ok}
use bigassm.Section.{set_base_address, Section, size}
use bigassm.Assembler.{Assembler, SymbolLocation, default_options, new_assembler}
use bigassm.Assemble.{assemble}
use bigassm.Assemble.Termination.{NoInclude, no_token, other_token, assemble-IsSound}
use bigassm.Assembler.Steps.{HasIndex, Numbered}
use bigassm.Assembler.Sound.{IsSound, new_assembler-IsSound}
use bigassm.Assembler.Keyed.{Keyed, keyed, no_section}
use bigassm.Finish.{finish, resolve_base_addresses}
use bigassm.Finish.Order.{section_no}
use bigassm.Finish.Starts.{start_at, resolve_base_addresses-starts}
use bigassm.Finish.Disjoint.{resolve_base_addresses-separates}
use bigassm.Elf.Format.{elf64, elf128, width, sizeof_ehdr, sizeof_shdr, sizeof_phdr, sizeof_sym}
use bigassm.Elf.Writer.{sizeof_elf_data}
use bigassm.Elf.Reader.{segments}
use bigassm.Elf.Layout.{elf_size}
use bigassm.Elf.Segments.{segments_of}
use bigassm.Main.{Output, assemble_file, assemble_files, main}
use bigassm.Main.Loads.{Listed, here, there}
use bigassm.Main.Run.{none_global, main-loads}
use bigassm.Tokenizer.Split.{split}
use bigassm.Tokenizer.Parse.{parse}
use bigassm.Tests.Samples.{text_with, data_with, sample}
use bigassm.Host.{Host, load_file}

abbrev no_files : Host
no_files = record { fopen = λ name. none; get_realpath = λ name. none }

-- `_start: wfi`
abbrev tokens : List Token
tokens =
    record { type = tk_label; line = 1; value = codes "_start"; payload = bits 0 }
    ∷ record { type = tk_opcode; line = 1; value = codes "wfi"; payload = opcode op_wfi }
    ∷ []

tokens-NoInclude : NoInclude tokens
tokens-NoInclude = other_token refl (other_token refl no_token)

abbrev start : SymbolLocation
start = record { section = codes ".text"; offset = 0; type = 0; size = 0 }

abbrev new : Assembler
new = record {
  options = record {
    base = 0x100000;
    entry = codes "_start";
    section_attr_page_separation = true;
    verbose_labels = false;
  };
  tokens = [];
  index = 0;
  current_section = codes ".text";
  sections = (codes ".text", record (text_with [] []) { code = false }) ∷ [];
  lookup = [];
  schedule = [];
  globals = [];
  realpath = none;
}

abbrev assembled : Assembler
assembled = record new {
  sections = (codes ".text", text_with (0x73 ∷ 0 ∷ 0x50 ∷ 0x10 ∷ []) []) ∷ [];
  lookup = (codes "_start", start) ∷ [];
}

made : new_assembler default_options ≡ ok (tt, new)
unfolding new_assembler default_options bytes_eq
made = refl

assembly : assemble no_files 2 tokens none new ≡ ok (tt, assembled)
unfolding assemble
assembly = refl

assemble-IsSound_example :
    IsSound assembled.sections assembled.lookup × (assembled.options ≡ new.options)
unfolding default_options
assemble-IsSound_example =
    assemble-IsSound no_files 2 tokens none new assembled tokens-NoInclude (omega arith) assembly
      (new_assembler-IsSound default_options new made).0

finishing : finish assembled ≡ ok (tt, assembled)
unfolding finish bytes_eq
finishing = refl

listed :
    (n : Bytes) (l : SymbolLocation)
    → Listed n l assembled.lookup
    → find n assembled.lookup ≡ some l
unfolding find
listed n l here = rw (bytes_eq_refl (codes "_start")) refl
listed n l (there h) = elim h [ ]

whole_size : elf_size elf64 assembled.lookup assembled.sections ≤ 262144
unfolding sizeof_elf_data sizeof_ehdr sizeof_shdr sizeof_phdr sizeof_sym width
whole_size = omega arith

wide_size : elf_size elf128 assembled.lookup assembled.sections ≤ 262144
unfolding sizeof_elf_data sizeof_ehdr sizeof_shdr sizeof_phdr sizeof_sym width
wide_size = omega arith

abbrev source : Bytes
source = codes "_start: wfi"

-- A system where every file has that text.
abbrev one_text : Host
one_text = record { fopen = λ name. some (some source); get_realpath = λ name. none }

abbrev argv : List Bytes
argv = codes "asm" ∷ codes "a.asm" ∷ codes "out" ∷ []

reading : load_file one_text (codes "a.asm") none ≡ ok source
unfolding load_file
reading = refl

splitting : split source ≡ ok tokens
unfolding split parse
splitting = refl

rounds : assemble_files one_text 2 1 argv new ≡ ok (tt, assembled)
unfolding assemble_files assemble_file load_file split assemble parse
rounds = refl

main-loads_example :
    (files : Output) × (text_section : Section) × (main one_text 2 (λ m. m) argv ≡ ok files)
    × (segments elf64 files.file64 ≡ segments_of elf64 assembled.sections)
    × (segments elf128 files.file128 ≡ segments_of elf128 assembled.sections)
    × (find (codes ".text") assembled.sections ≡ some text_section)
    × (files.binary ≡ text_section.output)
unfolding find bytes_eq
main-loads_example =
    main-loads one_text 2 argv (codes "a.asm") source tokens refl reading splitting tokens-NoInclude
      (omega arith) (λ m. m) new assembled assembled start (omega arith) made rounds finishing refl
      none_global listed whole_size wide_size

-- `.text` with two bytes at 0x100000, and `.data` with no address of its own
abbrev two : Assembler
two = sample [] (text_with (1 ∷ 2 ∷ []) []) (data_with [])

two-HasIndex : (i : ℕ) → i < 2 → HasIndex i two.sections
two-HasIndex zero h = HasIndex.here refl
two-HasIndex (suc zero) h = HasIndex.there (HasIndex.here refl)
two-HasIndex (suc (suc i)) h = absurd (omega arith)

two-Numbered : Numbered two.sections
two-Numbered = record { at = two-HasIndex }

two-Keyed : Keyed two.sections
unfolding find bytes_eq
two-Keyed = keyed refl refl (keyed refl refl no_section)

abbrev laid : Assembler
laid = record two {
  sections =
      (codes ".text", text_with (1 ∷ 2 ∷ []) [])
      ∷ (codes ".data", record (data_with []) { has_base_address = true; base_address = 0x101000 })
      ∷ [];
}

laid_out : resolve_base_addresses two ≡ ok (tt, laid)
unfolding resolve_base_addresses bytes_eq
laid_out = refl

resolve_base_addresses-starts_example :
    (b : Assembler) × (s : Section) × (resolve_base_addresses two ≡ ok (tt, b))
    × (section_no 1 two.sections ≡ some s)
    × (section_no 1 b.sections
        ≡ some (
            if s.has_base_address
            then s
            else set_base_address (start_at two.options two.sections 1 s) s))
    × (b.options ≡ two.options)
    × Keyed b.sections
resolve_base_addresses-starts_example =
    resolve_base_addresses-starts two 1 two-Numbered two-Keyed (omega arith)

-- `.data` begins on the page behind the code.
start_at_test : start_at two.options two.sections 1 (data_with []) ≡ 0x101000
start_at_test = refl

resolve_base_addresses-separates_example : (0x100002 ≤ 0x101000) × (0x101000 < 0x101011)
unfolding size
resolve_base_addresses-separates_example =
    resolve_base_addresses-separates two laid 0 (text_with (1 ∷ 2 ∷ []) [])
      (record (data_with []) { has_base_address = true; base_address = 0x101000 }) (data_with [])
      two-Numbered two-Keyed laid_out (omega arith) refl refl refl refl (omega arith)
