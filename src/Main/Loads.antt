-- ===== src/Main/Loads.antt =====
-- Between `Assembler::finish` and `Elf_Writer` in src/main.cpp: what is finished can be written and
-- loaded.
use bigassm.Prelude.{
  ℕ, ◌≡◌, ◌≤◌, ◌%◌, ◌^◌, refl, ap, ◌∙◌, none, some, Option, List, [], ◌∷◌, ◌++◌, codes, Bytes, Map,
  find,
}
use mathlib.Core.Path.{subst}
use bigassm.Types.{ok, runtime_error}
use bigassm.Section.{address_at}
use bigassm.Assembler.{Options, SymbolLocation, Assembler, Asm, throw, address, address_of}
use bigassm.Assembler.Sound.{Present, IsSound}
use bigassm.Finish.{finish}
use bigassm.Finish.Sound.{finish-Homed}
use bigassm.Elf.Format.{ElfClass, width}
use bigassm.Elf.Reader.{nth, read_header, segments}
use bigassm.Elf.Writer.{elf_writer}
use bigassm.Elf.Symbols.{Resolved, none_left, resolved}
use bigassm.Elf.Layout.{elf_size}
use bigassm.Elf.Loading.{elf_writer-loads}
use bigassm.Elf.Segments.{segments_of}

-- The map has the entry.
pub data Listed (name : Bytes) (loc : SymbolLocation) : Map SymbolLocation → Type 0 where
  here : {m : Map SymbolLocation} → Listed name loc ((name, loc) ∷ m)
  there :
      {n : Bytes} {l : SymbolLocation} {m : Map SymbolLocation}
      → Listed name loc m
      → Listed name loc ((n, l) ∷ m)

pub address-Present :
    (loc : SymbolLocation) (a : Assembler)
    → Present a.sections loc.section
    → (addr : ℕ) × (address loc a ≡ ok (addr, a))
unfolding address
address-Present loc a (s, e) = (address_at s loc.offset, rw (address, e) refl)

all-Resolved :
    (a : Assembler) (m : Map SymbolLocation)
    → ((n : Bytes) (l : SymbolLocation) → Listed n l m → Present a.sections l.section)
    → (addrs : List ℕ) × Resolved a m addrs
all-Resolved a [] h = ([], none_left)
all-Resolved a ((n, l) ∷ m) h =
    let (addr, e) = address-Present l a (h n l here) in
    let (addrs, r) = all-Resolved a m (λ n' l' k. h n' l' (there k)) in (addr ∷ addrs, resolved e r)

pub address_of-known :
    (name : Bytes) (loc : SymbolLocation) (a : Assembler) (addr : ℕ)
    → find name a.lookup ≡ some loc
    → address loc a ≡ ok (addr, a)
    → address_of name a ≡ ok (addr, a)
unfolding address_of
address_of-known name loc a addr e f = go (find name a.lookup) e
  where
    go :
        (o : Option SymbolLocation)
        → o ≡ some loc
        → (elim o as (λ o. Asm ℕ) [
          | some l ↦ address l
          | none ↦ throw (runtime_error (codes "No such symbol: " ++ name))
        ])
            a
          ≡ ok (addr, a)
    go none e = absurd cc
    go (some l) e =
        let same : loc ≡ l = cc in subst (λ (x : SymbolLocation). address x a ≡ ok (addr, a)) same f

-- Where what holds between two methods holds and `finish` returns, the entry of the options is a
-- symbol and the whole fits into the first allocation, the ELF writer succeeds, for 64 and for 128
-- bits and for any order of the symbols, and a loader gets from the file its entry and every
-- section.
pub finish-loads :
    (b d : Assembler) (c : ElfClass) (order : Map SymbolLocation → Map SymbolLocation)
    (entry : SymbolLocation)
    → IsSound b.sections b.lookup
    → finish b ≡ ok (tt, d)
    → find b.options.entry d.lookup ≡ some entry
    → ((n : Bytes) (l : SymbolLocation) → Listed n l (order d.lookup) → find n d.lookup ≡ some l)
    → elf_size c (order d.lookup) d.sections ≤ 262144
    → (file : Bytes) × (addr : ℕ) × (elf_writer c order d ≡ ok file)
      × (address entry d ≡ ok (addr, d))
      × (nth 4 (read_header c file) ≡ addr % 256 ^ width c)
      × (segments c file ≡ segments_of c d.sections)
finish-loads b d c order entry sound finished known listed fits =
    let (homed, od) = finish-Homed b d sound finished in
    let (addr, at) = address-Present entry d (homed.at b.options.entry entry known) in
    let known' : find d.options.entry d.lookup ≡ some entry =
      ap (λ (o : Options). find o.entry d.lookup) od ∙ known in
    let (addrs, r) = all-Resolved d (order d.lookup) (λ n l k. homed.at n l (listed n l k)) in
    let (file, written, _, start, loaded) =
      elf_writer-loads c order d addr addrs
        (address_of-known d.options.entry entry d addr known' at) r fits in
    (file, addr, written, at, start, loaded)
