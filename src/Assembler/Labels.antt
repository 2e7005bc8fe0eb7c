-- ===== src/Assembler/Labels.antt =====
-- Where src/assemble.cpp and src/section.cpp put a label: `add_symbol_here`, `align_with_labels`.
use bigassm.Prelude.{
  ℕ, ◌==◌, ◌≡◌, refl, ap, ◌∙◌, Bool, true, false, ◌||◌, Option, none, some, List, [], ◌∷◌, Bytes,
  ltb, resize, if◌then◌else◌, Map, find, update, emplace_last, find-update, find-emplace_last,
  bytes_eq, bytes_eq_refl, Bool-cases, inl, inr,
}
use bigassm.Types.{ok}
use bigassm.Section
use bigassm.Section.{Section, align}
use bigassm.Assembler.State.{SymbolLocation, Assembler, pure}
use bigassm.Assembler.Sections.{section_at, with_section, current, current_location}
use bigassm.Assembler.Symbols.{
  add_symbol_here, add_label_here, add_labels, align_section_with_labels, align_with_labels,
}

-- The end of the section `s` with the key `key`.
abbrev pub end_of : Bytes → Section → SymbolLocation
end_of key s = record { section = key; offset = Section.size s; type = 0; size = 0 }

abbrev pub contains : Bytes → List Bytes → Bool
contains n [] = false
contains n (m ∷ ms) = bytes_eq m n || contains n ms

-- The labels, added one after the other at one place.
abbrev pub emplace_all : SymbolLocation → List Bytes → Map SymbolLocation → Map SymbolLocation
emplace_all loc [] m = m
emplace_all loc (n ∷ ns) m = emplace_all loc ns (emplace_last n loc m)

abbrev pub first_known : Option SymbolLocation → Option SymbolLocation → Option SymbolLocation
first_known (some l) o = some l
first_known none o = o

next_name :
    (o : Option SymbolLocation) (b c : Bool) (loc : SymbolLocation)
    → first_known
        (elim o [ some w ↦ some w | none ↦ if b then some loc else none ])
        (if c then some loc else none)
      ≡ first_known o (if b || c then some loc else none)
next_name (some l) b c loc = refl
next_name none true c loc = refl
next_name none false c loc = refl

find-emplace_all :
    (n : Bytes) (loc : SymbolLocation) (ns : List Bytes) (m : Map SymbolLocation)
    → find n (emplace_all loc ns m)
      ≡ first_known (find n m) (if contains n ns then some loc else none)
find-emplace_all n loc [] m = nothing (find n m)
  where
    nothing : (o : Option SymbolLocation) → o ≡ first_known o none
    nothing none = refl
    nothing (some l) = refl
find-emplace_all n loc (k ∷ ns) m =
    find-emplace_all n loc ns (emplace_last k loc m)
    ∙ rw (find-emplace_last k n loc m) (next_name (find n m) (bytes_eq k n) (contains n ns) loc)

add_symbol_here-runs :
    (name : Bytes) (a : Assembler) (s : Section)
    → find a.current_section a.sections ≡ some s
    → add_symbol_here name a
      ≡ ok (tt, record a { lookup = emplace_last name (end_of a.current_section s) a.lookup })
unfolding add_symbol_here current_location current section_at
add_symbol_here-runs name a s h = rw h refl

add_labels-runs :
    (names : List Bytes) (a : Assembler) (s : Section)
    → find a.current_section a.sections ≡ some s
    → add_labels names a
      ≡ ok (tt, record a { lookup = emplace_all (end_of a.current_section s) names a.lookup })
unfolding add_labels add_label_here
add_labels-runs [] a s h = refl
add_labels-runs (n ∷ ns) a s h = rw (add_symbol_here-runs n a s h) (
    add_labels-runs ns (record a { lookup = emplace_last n (end_of a.current_section s) a.lookup })
      s h)

-- The section's map after its alignment.
abbrev pub aligned_sections : Bytes → ℕ → Map Section → Map Section
aligned_sections name alignment m = if ltb 1 alignment then update name (align alignment) m else m

align_runs :
    (name : Bytes) (alignment : ℕ) (a : Assembler) (b : Bool)
    → (if b then with_section name (align alignment) else pure tt) a
      ≡ ok (
        tt,
        record a { sections = if b then update name (align alignment) a.sections else a.sections },
      )
unfolding with_section
align_runs name alignment a true = refl
align_runs name alignment a false = refl

pub align_section_with_labels-runs :
    (name : Bytes) (alignment : ℕ) (a : Assembler) (s c : Section)
    → let sections' = aligned_sections name alignment a.sections in
      find name sections' ≡ some s
      → find a.current_section sections' ≡ some c
      → align_section_with_labels name alignment a
        ≡ ok (
          tt,
          record a {
            sections = update name (λ s. record s { label_queue = [] }) sections';
            lookup = emplace_all (end_of a.current_section c) s.label_queue a.lookup;
          },
        )
unfolding align_section_with_labels with_section section_at
align_section_with_labels-runs name alignment a s c hs hc =
    rw (align_runs name alignment a (ltb 1 alignment), hs)
      (rw
        (add_labels-runs s.label_queue
          (record a { sections = aligned_sections name alignment a.sections }) c hc)
        refl)

abbrev pub aligned : ℕ → Section → Section
aligned alignment s = if ltb 1 alignment then align alignment s else s

aligned-label_queue :
    (alignment : ℕ) (s : Section) → (aligned alignment s).label_queue ≡ s.label_queue
unfolding align
aligned-label_queue alignment s =
    let new = Section.aligned_size (Section.size s) alignment in
    go (ltb 1 alignment) (Section.size s == new) (resize new s.output)
  where
    go :
        (b c : Bool) (out : Bytes)
        → (if b then (if c then s else record s { output = out }) else s).label_queue
          ≡ s.label_queue
    go true true out = refl
    go true false out = refl
    go false c out = refl

pub find-aligned_sections :
    (name : Bytes) (alignment : ℕ) (m : Map Section) (s : Section)
    → find name m ≡ some s
    → find name (aligned_sections name alignment m) ≡ some (aligned alignment s)
find-aligned_sections name alignment m s h = elim (Bool-cases (ltb 1 alignment)) [
  | inl e ↦ rw (e, find-update name name (align alignment) m, bytes_eq_refl name, h) refl
  | inr e ↦ rw (e, h) refl
]

-- Aligning the current section, which exists, places the labels of its queue at the aligned end,
-- except those that have a location already; no other symbol's location changes, and the queue is
-- empty after it.
pub align_with_labels-binds :
    (alignment : ℕ) (a : Assembler) (s : Section)
    → find a.current_section a.sections ≡ some s
    → (a' : Assembler) × (align_with_labels alignment a ≡ ok (tt, a'))
      × ((n : Bytes)
          → find n a'.lookup
            ≡ first_known (find n a.lookup) (
                if contains n s.label_queue
                then some (end_of a.current_section (aligned alignment s))
                else none))
      × (find a.current_section a'.sections
          ≡ some (record (aligned alignment s) { label_queue = [] }))
unfolding align_with_labels
align_with_labels-binds alignment a s h =
    let found = find-aligned_sections a.current_section alignment a.sections s h in
    (
      _,
      align_section_with_labels-runs a.current_section alignment a (aligned alignment s)
          (aligned alignment s) found found,
      λ n.
          find-emplace_all n (end_of a.current_section (aligned alignment s))
            (aligned alignment s).label_queue a.lookup
          ∙ ap
              (λ (q : List Bytes). first_known (find n a.lookup) (
                if contains n q
                then some (end_of a.current_section (aligned alignment s))
                else none))
              (aligned-label_queue alignment s),
      rw
          (
            find-update a.current_section a.current_section (λ s. record s { label_queue = [] })
                (aligned_sections a.current_section alignment a.sections),
            bytes_eq_refl a.current_section,
            found,
          )
          refl,
    )

-- For any section, as finish does it for every one, the labels of the section's queue that have no
-- location yet get the end of the current section.
pub align_section_with_labels-elsewhere :
    (name : Bytes) (a : Assembler) (s c : Section)
    → find name a.sections ≡ some s
    → find a.current_section a.sections ≡ some c
    → (a' : Assembler) × (align_section_with_labels name 1 a ≡ ok (tt, a'))
      × ((n : Bytes)
          → find n a'.lookup
            ≡ first_known
                (find n a.lookup)
                (if contains n s.label_queue then some (end_of a.current_section c) else none))
align_section_with_labels-elsewhere name a s c hs hc = (
  _,
  align_section_with_labels-runs name 1 a s c hs hc,
  λ n. find-emplace_all n (end_of a.current_section c) s.label_queue a.lookup,
)
