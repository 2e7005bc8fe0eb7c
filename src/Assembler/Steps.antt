-- ===== src/Assembler/Steps.antt =====
-- What the methods of src/assemble.cpp and the handlers do to the assembler's state, one change
-- after the other, and what no change ever does.
use bigassm.Prelude.{
  ℕ, suc, ◌≤◌, ◌<◌, ◌≡◌, refl, ap, ◌∙◌, inl, inr, false, Bool-cases, none, some, List, [], ◌∷◌, ◌⊎◌,
  Bytes, length, Map, find, update, emplace, emplace_last, find-emplace_last, bytes_eq, bytes_lt,
  arith,
}
use bigassm.Section.{Section, new_section}
use bigassm.Assembler.State.{Assembler, SymbolLocation, Scheduled}

-- Another version of a section.
pub record SameKey (s t : Section) : Type 0 where
  pub idx : t.idx ≡ s.idx
  pub name : t.name ≡ s.name

pub same-SameKey : {s t : Section} → t.idx ≡ s.idx → t.name ≡ s.name → SameKey s t
same-SameKey e f = record { idx = e; name = f }

-- One change of the state.
pub data Step (a : Assembler) : Assembler → Type 0 where
  take_token : Step a (record a { index = suc a.index })
  edit_section :
      (name : Bytes) (f : Section → Section)
      → ((s : Section) → SameKey s (f s))
      → Step a (record a { sections = update name f a.sections })
  create_section :
      (name : Bytes)
      → find name a.sections ≡ none
      → Step a
          (record a { sections = emplace name (new_section name (length a.sections)) a.sections })
  enter_section : (name : Bytes) → Step a (record a { current_section = name })
  place_symbol :
      (name : Bytes) (loc : SymbolLocation) (s : Section)
      → find loc.section a.sections ≡ some s
      → Step a (record a { lookup = emplace_last name loc a.lookup })
  schedule_work : (schedule : Map (List Scheduled)) → Step a (record a { schedule = schedule })
  export_name : (globals : List Bytes) → Step a (record a { globals = globals })

-- Any number of changes.
pub data Reach (a : Assembler) : Assembler → Type 0 where
  stay : Reach a a
  step_on : {b c : Assembler} → Reach a b → Step b c → Reach a c

pub Reach-trans : (a b c : Assembler) → Reach a b → Reach b c → Reach a c
Reach-trans a b c r stay = r
Reach-trans a b c r (step_on {b = d} r' s) = step_on (Reach-trans a b d r r') s

-- The cursor never moves back, and the tokens stay.
Step-tokens : (a b : Assembler) → Step a b → (b.tokens ≡ a.tokens) × (a.index ≤ b.index)
Step-tokens a b take_token = (refl, omega arith)
Step-tokens a b (edit_section name f k) = (refl, omega arith)
Step-tokens a b (create_section name e) = (refl, omega arith)
Step-tokens a b (enter_section name) = (refl, omega arith)
Step-tokens a b (place_symbol name loc s h) = (refl, omega arith)
Step-tokens a b (schedule_work schedule) = (refl, omega arith)
Step-tokens a b (export_name globals) = (refl, omega arith)

pub Reach-tokens : (a b : Assembler) → Reach a b → (b.tokens ≡ a.tokens) × (a.index ≤ b.index)
Reach-tokens a b stay = (refl, omega arith)
Reach-tokens a b (step_on {b = c} r s) =
    let (t, i) = Reach-tokens a c r in let (u, j) = Step-tokens c b s in (u ∙ t, omega arith)

Step-options : (a b : Assembler) → Step a b → b.options ≡ a.options
Step-options a b take_token = refl
Step-options a b (edit_section name f k) = refl
Step-options a b (create_section name e) = refl
Step-options a b (enter_section name) = refl
Step-options a b (place_symbol name loc s h) = refl
Step-options a b (schedule_work schedule) = refl
Step-options a b (export_name globals) = refl

pub Reach-options : (a b : Assembler) → Reach a b → b.options ≡ a.options
Reach-options a b stay = refl
Reach-options a b (step_on {b = c} r s) = Step-options c b s ∙ Reach-options a c r

-- A symbol keeps its first location.
Step-lookup :
    (a b : Assembler) (name : Bytes) (loc : SymbolLocation)
    → Step a b
    → find name a.lookup ≡ some loc
    → find name b.lookup ≡ some loc
Step-lookup a b name loc (place_symbol k l t h) e = rw (find-emplace_last k name l a.lookup, e) refl
Step-lookup a b name loc take_token e = e
Step-lookup a b name loc (edit_section k f h) e = e
Step-lookup a b name loc (create_section k h) e = e
Step-lookup a b name loc (enter_section k) e = e
Step-lookup a b name loc (schedule_work schedule) e = e
Step-lookup a b name loc (export_name globals) e = e

pub Reach-lookup :
    (a b : Assembler) (name : Bytes) (loc : SymbolLocation)
    → Reach a b
    → find name a.lookup ≡ some loc
    → find name b.lookup ≡ some loc
Reach-lookup a b name loc stay e = e
Reach-lookup a b name loc (step_on {b = c} r s) e =
    Step-lookup c b name loc s (Reach-lookup a c name loc r e)

-- Some section has the index.
pub data HasIndex (i : ℕ) : Map Section → Type 0 where
  here : {k : Bytes} {s : Section} {m : Map Section} → s.idx ≡ i → HasIndex i ((k, s) ∷ m)
  there : {k : Bytes} {s : Section} {m : Map Section} → HasIndex i m → HasIndex i ((k, s) ∷ m)

-- The sections have the indices from zero on.
pub record Numbered (m : Map Section) : Type 0 where
  pub at : (i : ℕ) → i < length m → HasIndex i m

pub length-update :
    (name : Bytes) (f : Section → Section) (m : Map Section) → length (update name f m) ≡ length m
unfolding update
length-update name f [] = refl
length-update name f ((k, s) ∷ m) = elim (Bool-cases (bytes_eq k name)) [
  | inl e ↦ rw e refl
  | inr e ↦ rw e (ap suc (length-update name f m))
]

update-HasIndex :
    (i : ℕ) (name : Bytes) (f : Section → Section) (m : Map Section)
    → ((s : Section) → (f s).idx ≡ s.idx)
    → HasIndex i m
    → HasIndex i (update name f m)
unfolding update
update-HasIndex i name f [] keeps h = elim h [ ]
update-HasIndex i name f ((k, s) ∷ m) keeps (here e) = elim (Bool-cases (bytes_eq k name)) [
  | inl same ↦ rw same (here (keeps s ∙ e))
  | inr other ↦ rw other (here e)
]
update-HasIndex i name f ((k, s) ∷ m) keeps (there h) = elim (Bool-cases (bytes_eq k name)) [
  | inl same ↦ rw same (there h)
  | inr other ↦ rw other (there (update-HasIndex i name f m keeps h))
]

length-emplace :
    (name : Bytes) (s : Section) (m : Map Section)
    → find name m ≡ none
    → length (emplace name s m) ≡ suc (length m)
unfolding emplace find
length-emplace name s [] e = refl
length-emplace name s ((k, t) ∷ m) e = ground (arith, length-emplace name s m)

-- A section that is added behind or between others.
emplace-HasIndex :
    (i : ℕ) (name : Bytes) (s : Section) (m : Map Section)
    → HasIndex i m
    → HasIndex i (emplace name s m)
unfolding emplace
emplace-HasIndex i name s [] h = elim h [ ]
emplace-HasIndex i name s ((k, t) ∷ m) (here e) = elim (Bool-cases (bytes_eq k name)) [
  | inl same ↦ rw same (here e)
  | inr other ↦ elim (Bool-cases (bytes_lt name k)) [
    | inl first ↦ rw (other, first) (there (here e))
    | inr behind ↦ rw (other, behind) (here e)
  ]
]
emplace-HasIndex i name s ((k, t) ∷ m) (there h) = elim (Bool-cases (bytes_eq k name)) [
  | inl same ↦ rw same (there h)
  | inr other ↦ elim (Bool-cases (bytes_lt name k)) [
    | inl first ↦ rw (other, first) (there (there h))
    | inr behind ↦ rw (other, behind) (there (emplace-HasIndex i name s m h))
  ]
]

find-none :
    (name k : Bytes) (t : Section) (m : Map Section)
    → find name ((k, t) ∷ m) ≡ none
    → (bytes_eq k name ≡ false) × (find name m ≡ none)
unfolding find
find-none name k t m e = elim (Bool-cases (bytes_eq k name)) [
  | inl same ↦ let found : some t ≡ none = rw same at e in absurd cc
  | inr other ↦ (other, rw other at e)
]

emplace-HasIndex_new :
    (name : Bytes) (s : Section) (m : Map Section)
    → find name m ≡ none
    → HasIndex s.idx (emplace name s m)
unfolding emplace find
emplace-HasIndex_new name s [] e = here refl
emplace-HasIndex_new name s ((k, t) ∷ m) e =
    let (other, more) = find-none name k t m e in
    elim (Bool-cases (bytes_lt name k)) [
      | inl first ↦ rw (other, first) (here refl)
      | inr behind ↦ rw (other, behind) (there (emplace-HasIndex_new name s m more))
    ]

pub update-Numbered :
    (name : Bytes) (f : Section → Section) (m : Map Section)
    → ((s : Section) → (f s).idx ≡ s.idx)
    → Numbered m
    → Numbered (update name f m)
update-Numbered name f m keeps n = record {
  at = λ i h. update-HasIndex i name f m keeps (n.at i (omega (arith, length-update name f m)));
}

emplace-Numbered :
    (name : Bytes) (m : Map Section)
    → find name m ≡ none
    → Numbered m
    → Numbered (emplace name (new_section name (length m)) m)
unfolding new_section
emplace-Numbered name m e n = record {
  at = λ i h. elim (earlier i h) [
    | inl before ↦ emplace-HasIndex i name (new_section name (length m)) m (n.at i before)
    | inr last ↦ rw last (emplace-HasIndex_new name (new_section name (length m)) m e)
  ];
}
  where
    earlier :
        (i : ℕ)
        → i < length (emplace name (new_section name (length m)) m)
        → (i < length m) ⊎ (i ≡ length m)
    earlier i h = grind (arith, length-emplace name (new_section name (length m)) m e)

Step-Numbered : (a b : Assembler) → Step a b → Numbered a.sections → Numbered b.sections
Step-Numbered a b (edit_section name f keeps) n =
    update-Numbered name f a.sections (λ s. (keeps s).idx) n
Step-Numbered a b (create_section name e) n = emplace-Numbered name a.sections e n
Step-Numbered a b take_token n = n
Step-Numbered a b (enter_section name) n = n
Step-Numbered a b (place_symbol name loc s h) n = n
Step-Numbered a b (schedule_work schedule) n = n
Step-Numbered a b (export_name globals) n = n

pub Reach-Numbered : (a b : Assembler) → Reach a b → Numbered a.sections → Numbered b.sections
Reach-Numbered a b stay n = n
Reach-Numbered a b (step_on {b = c} r s) n = Step-Numbered c b s (Reach-Numbered a c r n)
