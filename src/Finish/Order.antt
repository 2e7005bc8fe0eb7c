-- ===== src/Finish/Order.antt =====
-- The sections by their index, as the lambda `section_at` of `resolve_base_addresses` in
-- src/assemble.cpp finds them.
use bigassm.Prelude.{
  ℕ, ◌≡◌, refl, ap, ◌∙◌, sym, true, false, Bool-cases, Option-cases, inl, inr, none, some, Option,
  [], ◌∷◌, Bytes, Map, find, update, bytes_eq, bytes_eq_iff, bytes_eq_refl, ◌==◌, ==_iff,
  if◌then◌else◌,
}
use mathlib.Core.Option
use bigassm.Types.{ok}
use bigassm.Section.{Section}
use bigassm.Assembler.{Assembler}
use bigassm.Assembler.Steps.{SameKey, HasIndex, here, there}
use bigassm.Assembler.Keyed.{Keyed, no_section, keyed}
use bigassm.Finish.{find_index}

abbrev pub section_no : ℕ → Map Section → Option Section
section_no i [] = none
section_no i ((k, s) ∷ m) = if s.idx == i then some s else section_no i m

pub find_index-section_no :
    (i : ℕ) (m : Map Section) (a : Assembler) {s : Section}
    → section_no i m ≡ some s
    → find_index i m a ≡ ok (s, a)
unfolding find_index
find_index-section_no i [] a e = absurd cc
find_index-section_no i ((k, t) ∷ m) a e = elim (Bool-cases (t.idx == i)) [
  | inl h ↦ let same : some t ≡ some _ = rw h at e in rw (find_index, h) (cc)
  | inr h ↦ rw (find_index, h) (find_index-section_no i m a (rw h at e))
]

pub section_no-HasIndex :
    (i : ℕ) (m : Map Section) → HasIndex i m → (s : Section) × (section_no i m ≡ some s)
section_no-HasIndex i [] h = elim h [ ]
section_no-HasIndex i ((k, s) ∷ m) (here e) = (s, rw ((==_iff s.idx i).1 e) refl)
section_no-HasIndex i ((k, s) ∷ m) (there h) = elim (Bool-cases (s.idx == i)) [
  | inl e ↦ (s, rw e refl)
  | inr e ↦ let (t, found) = section_no-HasIndex i m h in (t, rw e found)
]

-- The section with an index has it, and is found under its name.
pub section_no-find :
    (i : ℕ) (m : Map Section) (s : Section)
    → Keyed m
    → section_no i m ≡ some s
    → (find s.name m ≡ some s) × (s.idx ≡ i)
unfolding find
section_no-find i [] s no_section e = absurd cc
section_no-find i ((k, t) ∷ m) s (keyed f u ks) e = elim (Bool-cases (t.idx == i)) [
  | inl h ↦
      let same : some t ≡ some s = rw h at e in
      let eq : t ≡ s = cc in
      let names : k ≡ s.name = cc in
      (
        rw ((bytes_eq_iff k s.name).1 names) same,
        ap (λ (x : Section). x.idx) (sym eq) ∙ (==_iff t.idx i).0 h,
      )
  | inr h ↦
      let (found, at) = section_no-find i m s ks (rw h at e) in
      elim (Bool-cases (bytes_eq k s.name)) [
        | inl b ↦
            let names : k ≡ s.name = (bytes_eq_iff k s.name).0 b in
            let never : none ≡ some s = sym u ∙ ap (λ (x : Bytes). find x m) names ∙ found in
            absurd cc
        | inr b ↦ (rw b found, at)
      ]
]

-- A change of the sections of a name.
abbrev changed : Bytes → (Section → Section) → Section → Section
changed name f s = if bytes_eq s.name name then f s else s

other_names :
    (i : ℕ) (name : Bytes) (f : Section → Section) (m : Map Section)
    → Keyed m
    → find name m ≡ none
    → Option.map (changed name f) (section_no i m) ≡ section_no i m
other_names i name f m ks e = elim (Option-cases (section_no i m)) [
  | inl h ↦ rw h refl
  | inr (s, h) ↦ elim (Bool-cases (bytes_eq s.name name)) [
    | inl b ↦
        let names : s.name ≡ name = (bytes_eq_iff s.name name).0 b in
        let never : none ≡ some s =
          sym e ∙ ap (λ (x : Bytes). find x m) (sym names) ∙ (section_no-find i m s ks h).0 in
        absurd cc
    | inr b ↦ rw (h, b) refl
  ]
]

idx-same : (i : ℕ) {s t : Section} → SameKey s t → (t.idx == i) ≡ (s.idx == i)
idx-same i k = ap (λ (n : ℕ). n == i) k.idx

section_no-update :
    (i : ℕ) (name : Bytes) (f : Section → Section) (m : Map Section)
    → ((s : Section) → SameKey s (f s))
    → Keyed m
    → section_no i (update name f m) ≡ Option.map (changed name f) (section_no i m)
unfolding update
section_no-update i name f [] keeps no_section = refl
section_no-update i name f ((k, s) ∷ m) keeps (keyed e u ks) = elim (Bool-cases (bytes_eq k name)) [
  | inl b ↦
      let names : bytes_eq s.name name ≡ true = ap (λ (x : Bytes). bytes_eq x name) e ∙ b in
      let same : find name m ≡ none =
        ap (λ (x : Bytes). find x m) (sym ((bytes_eq_iff k name).0 b)) ∙ u in
      elim (Bool-cases (s.idx == i)) [
        | inl h ↦ rw (b, idx-same i (keeps s) ∙ h, h) (rw names refl)
        | inr h ↦ rw (b, idx-same i (keeps s) ∙ h, h) (sym (other_names i name f m ks same))
      ]
  | inr b ↦
      let names : bytes_eq s.name name ≡ false = ap (λ (x : Bytes). bytes_eq x name) e ∙ b in
      elim (Bool-cases (s.idx == i)) [
        | inl h ↦ rw (b, h) (rw names refl)
        | inr h ↦ rw (b, h) (section_no-update i name f m keeps ks)
      ]
]

-- A change of the section with an index changes that one.
pub section_no-set :
    (i j : ℕ) (f : Section → Section) (m : Map Section) (s : Section)
    → ((t : Section) → SameKey t (f t))
    → Keyed m
    → section_no i m ≡ some s
    → section_no j (update s.name f m) ≡ (if j == i then some (f s) else section_no j m)
section_no-set i j f m s keeps ks e =
    section_no-update j s.name f m keeps ks ∙ elim (Bool-cases (j == i)) [
      | inl h ↦ rw ((==_iff j i).0 h, e, bytes_eq_refl s.name, (==_iff i i).1 refl) refl
      | inr h ↦ rw h (elim (Option-cases (section_no j m)) [
        | inl n ↦ rw n refl
        | inr (t, n) ↦ elim (Bool-cases (bytes_eq t.name s.name)) [
          | inl b ↦
              let (fs, is) = section_no-find i m s ks e in
              let (ft, it) = section_no-find j m t ks n in
              let one : some t ≡ some s =
                sym ft ∙ ap (λ (x : Bytes). find x m) ((bytes_eq_iff t.name s.name).0 b) ∙ fs in
              let eq : t ≡ s = cc in
              let ij : j ≡ i = sym it ∙ ap (λ (x : Section). x.idx) eq ∙ is in
              let never : true ≡ false = sym ((==_iff j i).1 ij) ∙ h in absurd cc
          | inr b ↦ rw (n, b) refl
        ]
      ])
    ]
