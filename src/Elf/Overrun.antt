-- ===== src/Elf/Overrun.antt =====
-- `Elf_Writer` of src/elfwriter.cpp on more than its vector was reserved for: the references into
-- the vector are used after it has moved.
use Prim.Native.Nat.{max}
use bigassm.Prelude.{
  ℕ, ◌+◌, ◌≤◌, ◌<◌, ◌≡◌, ◌∙◌, refl, ap, inl, inr, List, [], ◌∷◌, ◌++◌, Bytes, length, length-append,
  Map, leb, leb→le, Bool-cases, arith,
}
use bigassm.Types.{ok, err, undefined}
use bigassm.Section.{Section}
use bigassm.Assembler.{Assembler, SymbolLocation, address_of}
use bigassm.Elf.Format.{ElfClass}
use bigassm.Elf.Vector.{Vector}
use bigassm.Elf.Symbols.{Resolved}
use bigassm.Elf.Layout.{
  output_size, head_size, tables, tables_size, length-tables, write_parts-tables,
}
use bigassm.Elf.Writer.{add_programs, elf_writer}

-- The sections in front of the last one take more than there is room for.
add_programs-overruns :
    (before : Map Section) (name : Bytes) (s : Section) (rest : Map Section) (v : Vector)
    → max 262144 v.head < v.head + length v.body + output_size before
    → add_programs (before ++ (name, s) ∷ rest) v ≡ err undefined
unfolding add_programs
add_programs-overruns [] name s rest v over =
    elim (Bool-cases (leb (v.head + length v.body) (max 262144 v.head))) [
      | inl fits ↦ absurd (omega (arith, leb→le (v.head + length v.body) (max 262144 v.head) fits))
      | inr moved ↦ rw moved refl
    ]
add_programs-overruns ((n, t) ∷ before) name s rest v over =
    let later =
      add_programs-overruns before name s rest (record v { body = v.body ++ t.output })
        (omega (arith, length-append v.body t.output)) in
    elim (Bool-cases (leb (v.head + length v.body) (max 262144 v.head))) [
      | inl fits ↦ rw (fits, later) refl
      | inr moved ↦ rw moved refl
    ]

-- Where the entry and the symbols have addresses and the headers and tables fit into the 262144
-- bytes that are reserved, but not with the outputs in front of some section, the ELF writer uses a
-- reference into the vector after it has moved.
pub elf_writer-overruns :
    (c : ElfClass) (order : Map SymbolLocation → Map SymbolLocation) (a : Assembler) (entry : ℕ)
    (addrs : List ℕ) (before : Map Section) (name : Bytes) (s : Section) (rest : Map Section)
    → address_of a.options.entry a ≡ ok (entry, a)
    → Resolved a (order a.lookup) addrs
    → a.sections ≡ before ++ (name, s) ∷ rest
    → tables_size c (order a.lookup) a.sections ≤ 262144
    → 262144 < tables_size c (order a.lookup) a.sections + output_size before
    → elf_writer c order a ≡ err undefined
unfolding elf_writer
elf_writer-overruns c order a entry addrs before name s rest found known parts fits over =
    let symbols = order a.lookup in
    let head = head_size c symbols a.sections in
    let (syms, es, written) = write_parts-tables c a symbols entry addrs found known fits in
    let size = length-tables c symbols a.sections a addrs syms es in
    let v : Vector = record { head = head; body = tables c symbols a.sections syms } in
    let moved =
      ap (λ (m : Map Section). add_programs m v) parts
      ∙ add_programs-overruns before name s rest v (omega arith) in
    rw (elf_writer, written, moved) refl
