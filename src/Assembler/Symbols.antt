-- ===== src/Assembler/Symbols.antt =====
-- src/assemble.cpp: labels, symbols and the work that is scheduled for them; the constructor.
use bigassm.Prelude.{
  Bool, true, false, bit_and, ◌==◌, ℕ, none, some, List, [], ◌∷◌, ◌++◌, Bytes, codes, ltb,
  if◌then◌else◌, find, update, emplace, emplace_last, bytes_eq,
}
use bigassm.Types.{runtime_error, token_exception, Token, Result}
use bigassm.Section.{size, address_at, align, set_base_address}
use bigassm.Assembler.State.{
  Options, SymbolLocation, Scheduled, set_type, Assembler, Asm, pure, throw, get, modify, ◌>>=◌,
  ◌>>◌,
}
use bigassm.Prelude.Words.{sub_word}
use bigassm.Assembler.Sections.{
  current, section_at, with_section, on_current, set_section, current_location,
}

-- `SymbolLocation::address()`
unfoldable pub address : SymbolLocation → Asm ℕ
unfolding section_at address_at
address loc = do s ← section_at loc.section; pure (address_at s loc.offset)

-- A symbol that is known keeps its first location.
unfoldable pub add_symbol_here : Bytes → Asm (Unit {0})
unfolding current_location emplace_last
add_symbol_here name = do
  loc ← current_location
  modify λ a. record a { lookup = emplace_last name loc a.lookup }

-- `Section::add_label_here`, less its message
unfoldable pub add_label_here : Bytes → Asm (Unit {0})
unfolding add_symbol_here
add_label_here label = add_symbol_here label

unfoldable pub add_labels : List Bytes → Asm (Unit {0})
unfolding add_label_here
add_labels [] = pure tt
add_labels (name ∷ names) = do add_label_here name; add_labels names

-- `Section::align_with_labels`, on the section with the key `name`
unfoldable pub align_section_with_labels : Bytes → ℕ → Asm (Unit {0})
unfolding with_section section_at add_labels align
align_section_with_labels name alignment = do
  if ltb 1 alignment then with_section name (align alignment) else pure tt
  s ← section_at name
  add_labels s.label_queue
  with_section name (λ s. record s { label_queue = [] })

-- `Assembler::align_with_labels`
unfoldable pub align_with_labels : ℕ → Asm (Unit {0})
unfolding align_section_with_labels
align_with_labels alignment = do a ← get; align_section_with_labels a.current_section alignment

unfoldable pub address_of : Bytes → Asm ℕ
unfolding find address
address_of name = do
  a ← get
  elim (find name a.lookup) [
    | some loc ↦ address loc
    | none ↦ throw (runtime_error (codes "No such symbol: " ++ name))
  ]

-- `address_of(const Token&)`
unfoldable address_of_token : Token → Asm ℕ
unfolding find address
address_of_token tk = do
  a ← get
  elim (find tk.value a.lookup) [
    | some loc ↦ address loc
    | none ↦ throw (token_exception tk (codes "resolve symbol"))
  ]

unfoldable symbol_is_known : Token → Assembler → Bool
unfolding find
symbol_is_known tk a = elim (find tk.value a.lookup) [ some loc ↦ true | none ↦ false ]

-- `(current_section().size() & (alignment-1)) == 0`, on `size_t`
unfoldable is_aligned : ℕ → Asm Bool
unfolding current size
is_aligned alignment = do s ← current; pure (bit_and (size s) (sub_word 64 alignment 1) == 0)

-- `m_schedule[sym].push_back(op)`
unfoldable pub schedule : Bytes → Scheduled → Asm (Unit {0})
unfolding emplace update
schedule sym op =
    modify
      λ a. record a { schedule = update sym (λ ops. ops ++ op ∷ []) (emplace sym [] a.schedule) }

unfoldable pub symbol_set_type : Bytes → ℕ → Asm (Unit {0})
unfolding schedule
symbol_set_type name type = schedule name (set_type type)

abbrev pub insert_name : Bytes → List Bytes → List Bytes
insert_name name [] = name ∷ []
insert_name name (x ∷ xs) = if bytes_eq x name then x ∷ xs else x ∷ insert_name name xs

-- `m_globals.insert(name)`, here in the order of insertion
unfoldable pub make_global : Bytes → Asm (Unit {0})
unfolding bytes_eq
make_global name = modify λ a. record a { globals = insert_name name a.globals }

-- `Assembler(const Options& opt)`
unfoldable pub new_assembler : Options → Result ((Unit {0}) × Assembler)
unfolding set_section on_current set_base_address
new_assembler opt =
    (do set_section (codes ".text"); on_current (set_base_address opt.base))
      (record {
        options = opt;
        tokens = [];
        index = 0;
        current_section = [];
        sections = [];
        lookup = [];
        schedule = [];
        globals = [];
        realpath = none;
      })
