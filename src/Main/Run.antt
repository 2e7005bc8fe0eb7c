-- ===== src/Main/Run.antt =====
-- `main` of src/main.cpp: the three files that it writes.
use bigassm.Prelude.{
  ℕ, zero, suc, ◌-◌, ◌≡◌, ◌≤◌, refl, ap, sym, false, ◌∙◌, some, none, Option, List, [], ◌∷◌, codes,
  Bytes, Map, sym, false, length, find, get_elem?, ltb, arith,
}
use mathlib.Core.Path.{subst}
use bigassm.Types.{Token, ok, err, Result}
use bigassm.Section.{Section}
use bigassm.Assembler.{
  Options, SymbolLocation, Assembler, Asm, pure, and_then, default_options, new_assembler, section,
  section_at,
}
use bigassm.Assembler.Sound.{IsSound, Homed, Present, new_assembler-IsSound, new_assembler-text}
use bigassm.Host.{Host, load_file}
use bigassm.Tokenizer.Split.{split}
use bigassm.Assemble.{assemble}
use bigassm.Assemble.Termination.{NoInclude, assemble-IsSound, assemble-Present}
use bigassm.Finish.{finish}
use bigassm.Finish.Sound.{finish-Homed, finish-Present}
use bigassm.Elf.Format.{elf64, elf128}
use bigassm.Elf.Reader.{segments}
use bigassm.Elf.Writer.{elf_writer}
use bigassm.Elf.Layout.{elf_size}
use bigassm.Elf.Segments.{segments_of}
use bigassm.Main.{Output, assemble_file, assemble_files, check_globals, write_files, main}
use bigassm.Elf.Vector.{result}
use bigassm.Main.Loads.{Listed, finish-loads, address-Present, address_of-known}

-- All names have a location.
pub data AllFound : List Bytes → Map SymbolLocation → Type 0 where
  none_global : {m : Map SymbolLocation} → AllFound [] m
  and_found :
      {n : Bytes} {loc : SymbolLocation} {ns : List Bytes} {m : Map SymbolLocation}
      → find n m ≡ some loc
      → AllFound ns m
      → AllFound (n ∷ ns) m

found_case :
    (o : Option Section) (s : Section) (f : Section → Asm Bytes) (n : Asm Bytes) (a : Assembler)
    → o ≡ some s
    → (elim o as (λ o. Asm Bytes) [ some x ↦ f x | none ↦ n ]) a ≡ f s a
found_case (some x) s f n a e = ap (λ (y : Section). f y a) (cc)
found_case none s f n a e = absurd cc

section-found :
    (name : Bytes) (a : Assembler) (s : Section)
    → find name a.sections ≡ some s
    → section name a ≡ ok (name, a)
unfolding section
section-found name a s e = found_case (find name a.sections) s (λ s. pure name) _ a e

section_at-found :
    (name : Bytes) (a : Assembler) (s : Section)
    → find name a.sections ≡ some s
    → section_at name a ≡ ok (s, a)
unfolding section_at
section_at-found name a s e = rw (section_at, e) refl

le→not_ltb : (n : ℕ) → 3 ≤ n → ltb n 3 ≡ false
le→not_ltb n h = ground arith

ok_eq :
    {a b : Assembler} → ◌≡◌ {A = Result (Unit {0} × Assembler)} (ok (tt, a)) (ok (tt, b)) → a ≡ b
ok_eq e = cc

first_ok :
    (r : Result (Unit {0} × Assembler)) (f : Asm (Unit {0})) (b : Assembler)
    → and_then r (λ u. f) ≡ ok (tt, b)
    → (c : Assembler) × (r ≡ ok (tt, c)) × (f c ≡ ok (tt, b))
first_ok (ok (tt, c)) f b e = (c, refl, e)
first_ok (err x) f b e = absurd cc

-- Global symbols that all have a location are checked without an exception.
check_globals-known :
    (host : Host) (fuel : ℕ) (names : List Bytes) (a : Assembler)
    → AllFound names a.lookup
    → Homed a.sections a.lookup
    → check_globals host fuel names a ≡ ok (tt, a)
unfolding check_globals
check_globals-known host fuel [] a all h = refl
check_globals-known host fuel (name ∷ names) a (and_found {loc = loc} e all) h =
    let (addr, at) = address-Present loc a (h.at name loc e) in
    rw (check_globals, address_of-known name loc a addr e at)
      (check_globals-known host fuel names a all h)

module _ (host : Host) (fuel : ℕ) (argv : List Bytes) (infile text : Bytes) (tokens : List Token)
    (named : get_elem? argv 1 ≡ some infile) (read : load_file host infile none ≡ ok text)
    (tokenized : split text ≡ ok tokens) (free : NoInclude tokens)
    (enough : length tokens ≤ fuel) where
  -- The rounds of the loop, which are all over the first file.
  files-IsSound :
      (n : ℕ) (a b : Assembler)
      → assemble_files host fuel n argv a ≡ ok (tt, b)
      → IsSound a.sections a.lookup
      → Present a.sections (codes ".text")
      → IsSound b.sections b.lookup × Present b.sections (codes ".text") × (b.options ≡ a.options)
  unfolding assemble_files assemble_file
  files-IsSound zero a b e s t =
      let same : a ≡ b = ok_eq e in
      (
        subst (λ (x : Assembler). IsSound x.sections x.lookup) same s,
        subst (λ (x : Assembler). Present x.sections (codes ".text")) same t,
        ap (λ (x : Assembler). x.options) (sym same),
      )
  files-IsSound (suc n) a b e s t =
      let again : and_then (assemble host fuel tokens (host.get_realpath infile) a)
            (λ u. assemble_files host fuel n argv)
          ≡ ok (tt, b) =
        rw (assemble_files, named, read, tokenized) at e in
      let (c, h, e') =
        first_ok (assemble host fuel tokens (host.get_realpath infile) a)
          (assemble_files host fuel n argv) b (again) in
      let (s', o) =
        assemble-IsSound host fuel tokens (host.get_realpath infile) a c free enough h s in
      let t' =
        assemble-Present host fuel tokens (host.get_realpath infile) a c free enough h
          (codes ".text") t in
      let (s'', t'', o') = files-IsSound n c b e' s' t' in (s'', t'', o' ∙ o)

  write_files-runs :
      (order : Map SymbolLocation → Map SymbolLocation) (a b d : Assembler) (out : Section)
      (file64 file128 : Bytes)
      → assemble_files host fuel (length argv - 2) argv a ≡ ok (tt, b)
      → finish b ≡ ok (tt, d)
      → elf_writer elf64 order d ≡ ok file64
      → elf_writer elf128 order d ≡ ok file128
      → AllFound d.globals d.lookup
      → Homed d.sections d.lookup
      → find (codes ".text") d.sections ≡ some out
      → write_files host fuel order argv a
        ≡ ok (record { file64 = file64; file128 = file128; binary = out.output }, d)
  unfolding write_files
  write_files-runs order a b d out file64 file128 assembled finished w64 w128 globals homed found =
      rw
        (
          write_files,
          assembled,
          finished,
          w64,
          w128,
          check_globals-known host fuel d.globals d globals homed,
          section-found (codes ".text") d out found,
          section_at-found (codes ".text") d out found,
        )
        refl

  -- The program's arguments name a file, which is read and becomes tokens without an .include, with
  -- a round for each of them. Where the rounds of the loop, all over that file, and finish return,
  -- `_start` and the global symbols have locations, and the whole fits into the first allocation,
  -- for 64 and for 128 bits, the program writes its three files, for any order of the symbols: from
  -- each of the ELF files a loader gets every section, and the binary is the output of .text, which
  -- is there.
  pub main-loads :
      (order : Map SymbolLocation → Map SymbolLocation) (a b d : Assembler) (start : SymbolLocation)
      → 3 ≤ length argv
      → new_assembler default_options ≡ ok (tt, a)
      → assemble_files host fuel (length argv - 2) argv a ≡ ok (tt, b)
      → finish b ≡ ok (tt, d)
      → find (codes "_start") d.lookup ≡ some start
      → AllFound d.globals d.lookup
      → ((n : Bytes) (l : SymbolLocation) → Listed n l (order d.lookup) → find n d.lookup ≡ some l)
      → elf_size elf64 (order d.lookup) d.sections ≤ 262144
      → elf_size elf128 (order d.lookup) d.sections ≤ 262144
      → (files : Output) × (text_section : Section) × (main host fuel order argv ≡ ok files)
        × (segments elf64 files.file64 ≡ segments_of elf64 d.sections)
        × (segments elf128 files.file128 ≡ segments_of elf128 d.sections)
        × (find (codes ".text") d.sections ≡ some text_section)
        × (files.binary ≡ text_section.output)
  unfolding main
  main-loads order a b d start args made assembled finished entry globals listed fits₆₄ fits₁₂₈ =
      let (sound, oa) = new_assembler-IsSound default_options a made in
      let (sound', there, ob) =
        files-IsSound (length argv - 2) a b assembled sound
          (new_assembler-text default_options a made) in
      let (out, found) = finish-Present b d (codes ".text") finished there in
      let (homed, _) = finish-Homed b d sound' finished in
      let known : find b.options.entry d.lookup ≡ some start =
        ap (λ (o : Options). find o.entry d.lookup) (ob ∙ oa) ∙ entry in
      let (file64, _, written64, _, _, loaded64) =
        finish-loads b d elf64 order start sound' finished known listed fits₆₄ in
      let (file128, _, written128, _, _, loaded128) =
        finish-loads b d elf128 order start sound' finished known listed fits₁₂₈ in
      (
        record { file64 = file64; file128 = file128; binary = out.output },
        out,
        rw (main, le→not_ltb (length argv) args)
            (ap (λ r. result (and_then r (λ _. write_files host fuel order argv))) made
              ∙ ap result (
                  write_files-runs order a b d out file64 file128 assembled finished written64
                    written128 globals homed found)),
        loaded64,
        loaded128,
        found,
        refl,
      )
