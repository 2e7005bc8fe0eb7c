-- ===== src/Assembler/Methods.antt =====
-- Methods of src/assembler.hpp, src/assemble.cpp and src/section.cpp that change the state in steps,
-- or throw.
use bigassm.Prelude.{
  ℕ, zero, suc, ◌+◌, ◌≤◌, ◌≡◌, ◌≢◌, refl, ap, ◌∙◌, Bool, true, false, Option, none, some, List, [],
  ◌∷◌, Bytes, length, get_elem?, if◌then◌else◌, find, update, Option-cases, inl, inr, if-intro,
  ◌==◌, ◌++◌, arith,
}
use mathlib.Core.Path.{subst}
use bigassm.Types.{TokenType, Token}
use bigassm.Section
use bigassm.Section.{
  Section, OutputType, ot_code, ot_data, ot_resv, set_kind, size, aligned_size, align,
  set_base_address, add_label_soon,
}
use bigassm.Assembler.State.{SymbolLocation, Scheduled, pure}
use bigassm.Assembler.Steps.{
  SameKey, same-SameKey, Step, take_token, edit_section, create_section, enter_section,
  place_symbol, schedule_work, export_name, Reach, stay, step_on, Reach-trans,
}
use bigassm.Assembler.Cursor.{next_token, next, argument_mismatch}
use bigassm.Assembler.Sections.{
  section_at, with_section, current, on_current, section, set_section, add_output, allocate,
  current_location,
}
use bigassm.Assembler.Symbols.{
  add_symbol_here, add_label_here, add_labels, align_section_with_labels, align_with_labels,
  schedule, symbol_set_type, make_global,
}
use bigassm.Assembler.Steady.{
  range, undefined_behaviour, moved, thrown, Moves-trans, then-Steady, from_option-Steady,
  modify-Steady, option-Moves, monad_rules, Steady, range, undefined_behaviour, moved, thrown,
}

pub next_token-Steady : Steady next_token
unfolding next_token
next_token-Steady = record {
  at = λ a.
      let next = record a { index = suc a.index } in
      Moves-trans a next _ (step_on stay take_token)
        ((from_option-Steady (get_elem? a.tokens a.index) range).at next);
}

pub argument_mismatch-Steady {ℓ} :
    {A : Type ℓ} (tk : Token) (t : TokenType) (info : Bytes)
    → Steady {A = A} (argument_mismatch tk t info)
unfolding argument_mismatch
argument_mismatch-Steady tk t info = search monad_rules

pub next-Steady : (t : TokenType) → Steady (next t)
unfolding next
next-Steady t = search (monad_rules, next_token-Steady, argument_mismatch-Steady)

section_at-Steady : (name : Bytes) → Steady (section_at name)
unfolding section_at
section_at-Steady name = search monad_rules

pub with_section-Steady :
    (name : Bytes) (f : Section → Section)
    → ((s : Section) → SameKey s (f s))
    → Steady (with_section name f)
unfolding with_section
with_section-Steady name f keeps =
    modify-Steady (λ a. record a { sections = update name f a.sections })
      (λ a. edit_section name f keeps)

pub current-Steady : Steady current
unfolding current
current-Steady = search (monad_rules, section_at-Steady)

pub on_current-Steady :
    (f : Section → Section) → ((s : Section) → SameKey s (f s)) → Steady (on_current f)
unfolding on_current
on_current-Steady f keeps = search (monad_rules, with_section-Steady)

-- The changes of a section keep its index and its name.
set_kind-SameKey : (ot : OutputType) (s : Section) → SameKey s (set_kind ot s)
set_kind-SameKey ot_code s = same-SameKey refl refl
set_kind-SameKey ot_data s = same-SameKey refl refl
set_kind-SameKey ot_resv s = same-SameKey refl refl

pub add_output-SameKey :
    (ot : OutputType) (vdata : Bytes) (s : Section) → SameKey s (Section.add_output ot vdata s)
unfolding Section.add_output
add_output-SameKey ot vdata s =
    let k = set_kind-SameKey ot (record s { output = s.output ++ vdata }) in
    same-SameKey k.idx k.name

pub allocate-SameKey : (len : ℕ) (s : Section) → SameKey s (Section.allocate len s)
unfolding Section.allocate
allocate-SameKey len s = same-SameKey refl refl

pub align-SameKey : (alignment : ℕ) (s : Section) → SameKey s (align alignment s)
unfolding align
align-SameKey alignment s =
    if-intro (SameKey s) (size s == aligned_size (size s) alignment) s _ (same-SameKey refl refl)
      (same-SameKey refl refl)

pub set_base_address-SameKey : (nba : ℕ) (s : Section) → SameKey s (set_base_address nba s)
unfolding set_base_address
set_base_address-SameKey nba s = same-SameKey refl refl

pub add_label_soon-SameKey : (name : Bytes) (s : Section) → SameKey s (add_label_soon name s)
unfolding add_label_soon
add_label_soon-SameKey name s = same-SameKey refl refl

pub ruleset key_rules = (
  refl, same-SameKey, add_output-SameKey, allocate-SameKey, align-SameKey, set_base_address-SameKey,
  add_label_soon-SameKey,
)

section-Steady : (name : Bytes) → Steady (section name)
unfolding section
section-Steady name = record {
  at = λ a.
      option-Moves a (find name a.sections) (λ s. pure name) _ (λ s e. moved name a stay)
        (λ e. moved name _ (step_on stay (create_section name e)));
}

pub set_section-Steady : (name : Bytes) → Steady (set_section name)
unfolding set_section
set_section-Steady name = search (monad_rules, section-Steady)

pub add_output-Steady : (ot : OutputType) (vdata : Bytes) → Steady (add_output ot vdata)
unfolding add_output
add_output-Steady ot vdata = search (on_current-Steady, key_rules)

pub allocate-Steady : (len : ℕ) → Steady (allocate len)
unfolding allocate
allocate-Steady len = search (on_current-Steady, key_rules)

pub current_location-Steady : Steady current_location
unfolding current_location
current_location-Steady = search (monad_rules, current-Steady)

-- The symbol is placed in the current section, which exists.
add_symbol_here-Steady : (name : Bytes) → Steady (add_symbol_here name)
unfolding add_symbol_here current_location
add_symbol_here-Steady name = record {
  at = λ a. elim (Option-cases (find a.current_section a.sections)) [
    | inl e ↦ rw (add_symbol_here, current_location, e) (thrown undefined_behaviour)
    | inr (s, e) ↦
        let loc : SymbolLocation = record {
          section = a.current_section;
          offset = size s;
          type = 0;
          size = 0;
        } in
        rw (add_symbol_here, current_location, e)
          (moved tt _ (step_on stay (place_symbol name loc s e)))
  ];
}

add_labels-Steady : (names : List Bytes) → Steady (add_labels names)
unfolding add_labels add_label_here
add_labels-Steady [] = search monad_rules
add_labels-Steady (name ∷ names) =
    then-Steady (add_symbol_here-Steady name) (add_labels-Steady names)

pub align_section_with_labels-Steady :
    (name : Bytes) (alignment : ℕ) → Steady (align_section_with_labels name alignment)
unfolding align_section_with_labels
align_section_with_labels-Steady name alignment =
    search (monad_rules, key_rules, with_section-Steady, section_at-Steady, add_labels-Steady) depth
      8

pub align_with_labels-Steady : (alignment : ℕ) → Steady (align_with_labels alignment)
unfolding align_with_labels
align_with_labels-Steady alignment = search (monad_rules, align_section_with_labels-Steady)

pub schedule-Steady : (sym : Bytes) (op : Scheduled) → Steady (schedule sym op)
unfolding schedule
schedule-Steady sym op = search monad_rules

pub symbol_set_type-Steady : (name : Bytes) (type : ℕ) → Steady (symbol_set_type name type)
unfolding symbol_set_type
symbol_set_type-Steady name type = search schedule-Steady

pub make_global-Steady : (name : Bytes) → Steady (make_global name)
unfolding make_global
make_global-Steady name = search monad_rules
