-- ===== src/Elf/Symbols.antt =====
-- The symbol table of src/elfwriter.cpp: what `ElfSymSection` and the loop over the symbols append.
use bigassm.Prelude.{
  ℕ, suc, ◌+◌, ◌*◌, ◌%◌, ◌^◌, ◌≡◌, refl, ap, sym, ◌∙◌, some, List, [], ◌∷◌, ◌++◌, Bytes, length,
  length-append, Map, find, arith,
}
use bigassm.Types.{ok}
use bigassm.Assembler.{Assembler, SymbolLocation, address}
use bigassm.Elf.Format.{ElfClass, Shdr, Sym, zero_shdr, width, sym_bytes, sizeof_sym}
use bigassm.Elf.Fields.{append-nil, length-sym_bytes}
use bigassm.Elf.Vector.{Vector}
use bigassm.Elf.Tables.{StringSection, add_sym, new_sym_section, add_symbol, lookup}
use bigassm.Elf.Tables.Strings.{
  extend, extend-extend, Fits, Fits-first, Fits-second, access-runs, access-extend,
}
use bigassm.Elf.Tables.Names.{AllKnown, nil, cons}
use bigassm.Elf.Writer.{add_symbols}

-- Every symbol has an address.
pub data Resolved (a : Assembler) : Map SymbolLocation → List ℕ → Type 0 where
  none_left : Resolved a [] []
  resolved :
      {name : Bytes} {loc : SymbolLocation} {addr : ℕ} {rest : Map SymbolLocation} {addrs : List ℕ}
      → address loc a ≡ ok (addr, a)
      → Resolved a rest addrs
      → Resolved a ((name, loc) ∷ rest) (addr ∷ addrs)

-- The symbol table's entry of a symbol, for its name's offset and its address.
abbrev pub entry : ℕ → ℕ → SymbolLocation → Sym
entry off addr loc = record {
  st_name = off;
  st_info = loc.type % 2 ^ 8;
  st_other = 0;
  st_shndx = 0;
  st_value = addr;
  st_size = loc.size;
}

-- The entries of the symbols, whose names are in the string table.
pub data Entries (a : Assembler) (s : StringSection)
    : Map SymbolLocation → List ℕ → List Sym → Type 0 where
  no_entry : Entries a s [] [] []
  entries :
      {name : Bytes} {loc : SymbolLocation} {addr off : ℕ} {rest : Map SymbolLocation}
      {addrs : List ℕ} {syms : List Sym}
      → address loc a ≡ ok (addr, a)
      → find name s.namelist ≡ some off
      → Entries a s rest addrs syms
      → Entries a s ((name, loc) ∷ rest) (addr ∷ addrs) (entry off addr loc ∷ syms)

pub Entries-exist :
    (a : Assembler) (s : StringSection) (symbols : Map SymbolLocation) (addrs : List ℕ)
    → Resolved a symbols addrs
    → AllKnown s symbols
    → (syms : List Sym) × Entries a s symbols addrs syms
Entries-exist a s [] addrs none_left nil = ([], no_entry)
Entries-exist a s ((name, loc) ∷ rest) [] r known = elim r [ ]
Entries-exist a s ((name, loc) ∷ rest) (addr ∷ addrs) (resolved e r) (cons k known) =
    let more = Entries-exist a s rest addrs r known in let (syms, es) = more in (_, entries e k es)

pub length-Entries :
    (a : Assembler) (s : StringSection) (symbols : Map SymbolLocation) (addrs : List ℕ)
    (syms : List Sym)
    → Entries a s symbols addrs syms
    → length syms ≡ length symbols
length-Entries a s [] addrs syms no_entry = refl
length-Entries a s ((name, loc) ∷ rest) addrs syms (entries e k es) =
    ap suc (length-Entries a s rest _ _ es)

module _ (c : ElfClass) where
  abbrev pub sym_array : List Sym → Bytes
  sym_array [] = []
  sym_array (s ∷ ss) = sym_bytes c s ++ sym_array ss

  pub length-sym_array : (ss : List Sym) → length (sym_array ss) ≡ length ss * sizeof_sym c
  length-sym_array [] = omega arith
  length-sym_array (s ∷ ss) = omega (
    arith,
    length-append (sym_bytes c s) (sym_array ss),
    length-sym_bytes c s,
    length-sym_array ss,
  )

  -- The table's header with `n` entries more.
  abbrev pub grown : ℕ → Shdr → Shdr
  grown n h = record h { sh_size = h.sh_size + n * sizeof_sym c; sh_info = h.sh_info + n }

  grown-zero : (h : Shdr) → h ≡ grown 0 h
  grown-zero h =
      ap (λ (n : ℕ). record h { sh_size = n }) {y = h.sh_size + 0 * sizeof_sym c} (omega arith)
      ∙ ap (λ (n : ℕ). record h { sh_size = h.sh_size + 0 * sizeof_sym c; sh_info = n })
          {y = h.sh_info + 0} (omega arith)

  grown-suc : (n : ℕ) (h : Shdr) → grown n (grown 1 h) ≡ grown (suc n) h
  grown-suc n h =
      ap (λ (t : ℕ). record h { sh_size = t; sh_info = (h.sh_info + 1) + n })
        {x = (h.sh_size + 1 * sizeof_sym c) + n * sizeof_sym c}
        {y = h.sh_size + suc n * sizeof_sym c} (omega arith)
      ∙ ap (λ (t : ℕ). record h { sh_size = h.sh_size + suc n * sizeof_sym c; sh_info = t })
          {y = h.sh_info + suc n} (omega arith)

  add_sym-runs :
      (s : Sym) (h : Shdr) (v : Vector)
      → Fits v (length (sym_bytes c s))
      → add_sym c s h v ≡ ok (grown 1 h, extend v (sym_bytes c s))
  unfolding add_sym
  add_sym-runs s h v fits = rw (access-extend v (sym_bytes c s) fits) (
      ap
        (λ (t : ℕ).
          ok (record h { sh_size = t; sh_info = h.sh_info + 1 }, extend v (sym_bytes c s)))
        {y = h.sh_size + 1 * sizeof_sym c} (omega arith))

  pub add_symbols-runs :
      (a : Assembler) (s : StringSection) (symbols : Map SymbolLocation) (addrs : List ℕ)
      (syms : List Sym) (h : Shdr) (v : Vector)
      → Entries a s symbols addrs syms
      → Fits v (length (sym_array syms))
      → add_symbols c a symbols s h v ≡ ok (grown (length syms) h, extend v (sym_array syms))
  unfolding add_symbols add_symbol lookup
  add_symbols-runs a s [] addrs syms h v no_entry fits =
      ap (λ (t : Bytes). ok (h, record v { body = t })) (sym (append-nil v.body))
      ∙ ap (λ (t : Shdr). ok (t, extend v [])) (grown-zero h)
  add_symbols-runs a s ((name, loc) ∷ rest) [] syms h v es fits = elim es [ ]
  add_symbols-runs a s ((name, loc) ∷ rest) (addr ∷ addrs) [] h v es fits = elim es [ ]
  add_symbols-runs a s ((name, loc) ∷ rest) (addr ∷ addrs) (e1 ∷ syms) h v (entries e k es) fits =
      rw
        (
          e,
          k,
          add_sym-runs e1 h v (Fits-first v (sym_bytes c e1) (sym_array syms) fits),
          add_symbols-runs a s rest addrs syms (grown 1 h) (extend v (sym_bytes c e1)) es
              (Fits-second v (sym_bytes c e1) (sym_array syms) fits),
          extend-extend v (sym_bytes c e1) (sym_array syms),
        )
        (ap (λ (t : Shdr). ok (t, extend v (sym_bytes c e1 ++ sym_array syms)))
          (grown-suc (length syms) h))

  abbrev pub null_sym : Sym
  null_sym = record {
    st_name = 0;
    st_info = 0;
    st_other = 0;
    st_shndx = 0;
    st_value = 0;
    st_size = 0;
  }

  abbrev pub empty_symbols : ℕ → ℕ → Shdr
  empty_symbols strindex offset = record zero_shdr {
    sh_type = 2;
    sh_entsize = sizeof_sym c;
    sh_offset = offset;
    sh_addralign = width c;
    sh_link = strindex;
  }

  pub new_sym_section-runs :
      (strindex : ℕ) (v : Vector)
      → Fits v (sizeof_sym c)
      → new_sym_section c strindex v
        ≡ ok (
          grown 1 (empty_symbols strindex (v.head + length v.body)),
          extend v (sym_bytes c null_sym),
        )
  unfolding new_sym_section
  new_sym_section-runs strindex v fits =
      rw
        (
          access-runs v (sizeof_sym c) fits,
          add_sym-runs null_sym (empty_symbols strindex (v.head + length v.body)) v
              (omega (arith, length-sym_bytes c null_sym)),
        )
        refl
