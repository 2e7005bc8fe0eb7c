-- ===== src/Assembler/Keyed.antt =====
-- The sections of src/assembler.hpp under their names.
use bigassm.Prelude.{
  ◌≡◌, refl, ◌∙◌, inl, inr, false, Bool-cases, none, [], ◌∷◌, Bytes, Map, find, update, emplace,
  find-update, find-emplace_new, bytes_eq, bytes_eq_iff, bytes_lt, arith,
}
use bigassm.Section.{Section}
use bigassm.Assembler.Steps.{SameKey}

-- Every section stands under its own name, and no other section does.
pub data Keyed : Map Section → Type 0 where
  no_section : Keyed []
  keyed :
      {k : Bytes} {s : Section} {m : Map Section}
      → s.name ≡ k
      → find k m ≡ none
      → Keyed m
      → Keyed ((k, s) ∷ m)

update-none :
    (j k : Bytes) (f : Section → Section) (m : Map Section)
    → find j m ≡ none
    → find j (update k f m) ≡ none
update-none j k f m e = ground (arith, find-update k j f m)

pub update-Keyed :
    (name : Bytes) (f : Section → Section) (m : Map Section)
    → ((s : Section) → SameKey s (f s))
    → Keyed m
    → Keyed (update name f m)
unfolding update
update-Keyed name f [] keeps no_section = no_section
update-Keyed name f ((k, s) ∷ m) keeps (keyed e u ks) = elim (Bool-cases (bytes_eq k name)) [
  | inl same ↦ rw same (keyed ((keeps s).name ∙ e) u ks)
  | inr other ↦ rw other (keyed e (update-none k name f m u) (update-Keyed name f m keeps ks))
]

emplace-none :
    (j k : Bytes) (s : Section) (m : Map Section)
    → find k m ≡ none
    → bytes_eq k j ≡ false
    → find j m ≡ none
    → find j (emplace k s m) ≡ none
emplace-none j k s m new other e = ground (arith, find-emplace_new k j s m new)

find-none :
    (name k : Bytes) (t : Section) (m : Map Section)
    → find name ((k, t) ∷ m) ≡ none
    → (bytes_eq k name ≡ false) × (bytes_eq name k ≡ false) × (find name m ≡ none)
unfolding find
find-none name k t m e = ground (arith, bytes_eq_iff k name, bytes_eq_iff name k)

pub emplace-Keyed :
    (name : Bytes) (s : Section) (m : Map Section)
    → s.name ≡ name
    → find name m ≡ none
    → Keyed m
    → Keyed (emplace name s m)
unfolding emplace find
emplace-Keyed name s [] named e no_section = keyed named refl no_section
emplace-Keyed name s ((k, t) ∷ m) named e (keyed f u ks) =
    let (other, other', more) = find-none name k t m e in
    elim (Bool-cases (bytes_lt name k)) [
      | inl first ↦ rw (other, first) (keyed named e (keyed f u ks))
      | inr behind ↦
          rw (other, behind)
            (keyed f (emplace-none k name s m more other' u) (emplace-Keyed name s m named more ks))
    ]
