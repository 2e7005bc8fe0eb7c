-- ===== src/Main.antt =====
-- src/main.cpp: `main`, up to the contents of the three files that it writes. The messages are left
-- out, with what they can throw kept.
pub mod Loads
pub mod Run
use bigassm.Prelude.{
  ℕ, zero, suc, ◌-◌, none, List, [], ◌∷◌, Bytes, length, get_elem?, ltb, if◌then◌else◌, codes, Map,
}
use bigassm.Types.{Result, err, out_of_range, runtime_error}
use bigassm.Assembler.{
  SymbolLocation, Asm, pure, get, address_of, lift, from_option, ◌>>=◌, ◌>>◌, default_options,
  new_assembler, section, section_at, and_then,
}
use bigassm.Host.{Host, load_file}
use bigassm.Tokenizer.Split.{split}
use bigassm.Assemble.{assemble}
use bigassm.Finish.{finish}
use bigassm.Elf.Format.{elf64, elf128}
use bigassm.Elf.Vector.{result}
use bigassm.Elf.Writer.{elf_writer}

-- What the files get.
pub record Output : Type 0 where
  pub file64 : Bytes
  pub file128 : Bytes
  pub binary : Bytes

module _ (host : Host) (fuel : ℕ) where
  -- One round of the loop, for `argv[1]`.
  unfoldable pub assemble_file : Bytes → Asm (Unit {0})
  unfolding load_file split assemble
  assemble_file infile = do
    input ← lift (load_file host infile none)
    tokens ← lift (split input)
    assemble host fuel tokens (host.get_realpath infile)

  -- `for (int i = 1; i < argc-1; i++)`, with the rounds left. The file is `argv[1]` in each.
  unfoldable pub assemble_files : ℕ → List Bytes → Asm (Unit {0})
  assemble_files zero argv = pure tt
  assemble_files (suc n) argv = do
    infile ← from_option out_of_range (get_elem? argv 1)
    assemble_file infile
    assemble_files n argv

  -- The table of the global symbols, of which an unknown one throws.
  unfoldable pub check_globals : List Bytes → Asm (Unit {0})
  unfolding address_of
  check_globals [] = pure tt
  check_globals (symbol ∷ symbols) = do addr ← address_of symbol; check_globals symbols

  -- What `main` does with the assembler: the contents of `outfile + "64"`, `outfile + "128"` and
  -- `outfile + ".bin"`. `order` is the order in which an `unordered_map` gives its entries.
  unfoldable pub write_files : (Map SymbolLocation → Map SymbolLocation) → List Bytes → Asm Output
  unfolding assemble_files finish elf_writer check_globals section section_at
  write_files order argv = do
    assemble_files (length argv - 2) argv
    finish
    a ← get
    file64 ← lift (elf_writer elf64 order a)
    file128 ← lift (elf_writer elf128 order a)
    check_globals a.globals
    name ← section (codes ".text")
    text ← section_at name
    pure (record { file64 = file64; file128 = file128; binary = text.output })

  unfoldable pub main : (Map SymbolLocation → Map SymbolLocation) → List Bytes → Result Output
  unfolding default_options new_assembler write_files
  main order argv =
      if ltb (length argv) 3
      then err (runtime_error (codes "usage"))
      else result (and_then (new_assembler default_options) (λ _. write_files order argv))
