-- ===== src/Assembler/Sound.antt =====
-- What the changes of the assembler's state keep: every section stands under its name, once, and
-- every symbol lies in a section.
use bigassm.Prelude.{
  ◌≡◌, refl, ◌∙◌, inl, inr, Bool-cases, Option-cases, none, some, [], Bytes, codes, length, Map,
  find, update, emplace, emplace_last, find-update, find-emplace_last, find-emplace_new, bytes_eq,
  arith,
}
use mathlib.Core.Path.{subst}
use bigassm.Section.{Section, new_section, set_base_address}
use bigassm.Assembler.State.{Options, Assembler, SymbolLocation, ◌>>◌}
use bigassm.Assembler.Sections.{set_section, on_current}
use bigassm.Assembler.Symbols.{new_assembler}
use bigassm.Assembler.Steady.{Steady, then-Steady, Moves-Reach}
use bigassm.Assembler.Methods.{set_section-Steady, on_current-Steady, set_base_address-SameKey}
use bigassm.Types.{ok, err, Result}
use bigassm.Assembler.Steps.{
  Step, take_token, edit_section, create_section, enter_section, place_symbol, schedule_work,
  export_name, Reach, stay, step_on, Numbered, Reach-Numbered, Reach-options,
}
use bigassm.Assembler.Keyed.{Keyed, no_section, update-Keyed, emplace-Keyed, no_section}

-- Every symbol lies in a section.
abbrev pub Present : Map Section → Bytes → Type 0
Present sections name = (s : Section) × (find name sections ≡ some s)

pub record Homed (sections : Map Section) (lookup : Map SymbolLocation) : Type 0 where
  pub at :
      (name : Bytes) (loc : SymbolLocation)
      → find name lookup ≡ some loc
      → Present sections loc.section

pub update-Present :
    (k j : Bytes) (f : Section → Section) (m : Map Section) → Present m j → Present (update k f m) j
update-Present k j f m (s, e) = elim (Bool-cases (bytes_eq k j)) [
  | inl same ↦ (f s, find-update k j f m ∙ rw (same, e) refl)
  | inr other ↦ (s, find-update k j f m ∙ rw (other, e) refl)
]

emplace-Present :
    (k j : Bytes) (t : Section) (m : Map Section)
    → find k m ≡ none
    → Present m j
    → Present (emplace k t m) j
emplace-Present k j t m new (s, e) = elim (Bool-cases (bytes_eq k j)) [
  | inl same ↦ (t, find-emplace_new k j t m new ∙ rw same refl)
  | inr other ↦ (s, find-emplace_new k j t m new ∙ rw (other, e) refl)
]

place-Homed :
    (name : Bytes) (loc : SymbolLocation) (sections : Map Section) (lookup : Map SymbolLocation)
    → Present sections loc.section
    → Homed sections lookup
    → Homed sections (emplace_last name loc lookup)
place-Homed name loc sections lookup here h = record { at = at }
  where
    at :
        (n : Bytes) (l : SymbolLocation)
        → find n (emplace_last name loc lookup) ≡ some l
        → Present sections l.section
    at n l e = elim (Option-cases (find n lookup)) [
      | inr (l', e') ↦
          let same : some l' ≡ some l = rw (find-emplace_last, e') at e in h.at n l (e' ∙ same)
      | inl e' ↦ elim (Bool-cases (bytes_eq name n)) [
        | inl t ↦
            let same : some loc ≡ some l = rw (find-emplace_last, e', t) at e in
            let eq : loc ≡ l = cc in
            subst (λ (x : SymbolLocation). Present sections x.section) eq here
        | inr t ↦ let never : none ≡ some l = rw (find-emplace_last, e', t) at e in absurd cc
      ]
    ]

Step-Keyed : (a b : Assembler) → Step a b → Keyed a.sections → Keyed b.sections
unfolding new_section
Step-Keyed a b (edit_section name f keeps) k = update-Keyed name f a.sections keeps k
Step-Keyed a b (create_section name e) k =
    emplace-Keyed name (new_section name (length a.sections)) a.sections refl e k
Step-Keyed a b take_token k = k
Step-Keyed a b (enter_section name) k = k
Step-Keyed a b (place_symbol name loc s h) k = k
Step-Keyed a b (schedule_work schedule) k = k
Step-Keyed a b (export_name globals) k = k

Step-Homed : (a b : Assembler) → Step a b → Homed a.sections a.lookup → Homed b.sections b.lookup
Step-Homed a b (edit_section name f keeps) h = record {
  at = λ n l e. update-Present name l.section f a.sections (h.at n l e);
}
Step-Homed a b (create_section name e) h = record {
  at = λ n l e'.
      emplace-Present name l.section (new_section name (length a.sections)) a.sections e
        (h.at n l e');
}
Step-Homed a b (place_symbol name loc s e) h = place-Homed name loc a.sections a.lookup (s, e) h
Step-Homed a b take_token h = h
Step-Homed a b (enter_section name) h = h
Step-Homed a b (schedule_work schedule) h = h
Step-Homed a b (export_name globals) h = h

-- What holds between two methods.
pub record IsSound (sections : Map Section) (lookup : Map SymbolLocation) : Type 0 where
  pub numbered : Numbered sections
  pub names : Keyed sections
  pub homed : Homed sections lookup

Step-Present :
    (a b : Assembler) (n : Bytes) → Step a b → Present a.sections n → Present b.sections n
Step-Present a b n (edit_section name f keeps) h = update-Present name n f a.sections h
Step-Present a b n (create_section name e) h =
    emplace-Present name n (new_section name (length a.sections)) a.sections e h
Step-Present a b n (place_symbol name loc s e) h = h
Step-Present a b n take_token h = h
Step-Present a b n (enter_section name) h = h
Step-Present a b n (schedule_work schedule) h = h
Step-Present a b n (export_name globals) h = h

-- No section goes away.
pub Reach-Present :
    (a b : Assembler) (n : Bytes) → Reach a b → Present a.sections n → Present b.sections n
Reach-Present a b n stay h = h
Reach-Present a b n (step_on {b = c} r s) h = Step-Present c b n s (Reach-Present a c n r h)

Reach-Keyed : (a b : Assembler) → Reach a b → Keyed a.sections → Keyed b.sections
Reach-Keyed a b stay k = k
Reach-Keyed a b (step_on {b = c} r s) k = Step-Keyed c b s (Reach-Keyed a c r k)

Reach-Homed : (a b : Assembler) → Reach a b → Homed a.sections a.lookup → Homed b.sections b.lookup
Reach-Homed a b stay h = h
Reach-Homed a b (step_on {b = c} r s) h = Step-Homed c b s (Reach-Homed a c r h)

pub Reach-IsSound :
    (a b : Assembler) → Reach a b → IsSound a.sections a.lookup → IsSound b.sections b.lookup
Reach-IsSound a b r v = record {
  numbered = Reach-Numbered a b r v.numbered;
  names = Reach-Keyed a b r v.names;
  homed = Reach-Homed a b r v.homed;
}

nothing-IsSound : IsSound [] []
unfolding find
nothing-IsSound = record {
  numbered = record { at = λ i h. absurd (omega (arith, h)) };
  names = no_section;
  homed = record { at = λ n l e. absurd cc };
}

constructed :
    (opt : Options) → Steady (set_section (codes ".text") >> on_current (set_base_address opt.base))
constructed opt =
    then-Steady (set_section-Steady (codes ".text"))
      (on_current-Steady (set_base_address opt.base) (set_base_address-SameKey opt.base))

-- The constructor.
pub new_assembler-IsSound :
    (opt : Options) (a : Assembler)
    → new_assembler opt ≡ ok (tt, a)
    → IsSound a.sections a.lookup × (a.options ≡ opt)
unfolding new_assembler
new_assembler-IsSound opt a e =
    let empty : Assembler = record {
      options = opt;
      tokens = [];
      index = 0;
      current_section = [];
      sections = [];
      lookup = [];
      schedule = [];
      globals = [];
      realpath = none;
    } in
    let r = Moves-Reach empty a tt _ ((constructed opt).at empty) e in
    (Reach-IsSound empty a r nothing-IsSound, Reach-options empty a r)

abbrev HasText : Result (Unit {0} × Assembler) → Type 0
HasText (ok (u, a)) = Present a.sections (codes ".text")
HasText (err e) = Unit {0}

-- The constructor makes `.text`.
pub new_assembler-text :
    (opt : Options) (a : Assembler)
    → new_assembler opt ≡ ok (tt, a)
    → Present a.sections (codes ".text")
unfolding new_assembler find bytes_eq
new_assembler-text opt a e = subst HasText e (_, refl)
