-- ===== src/Elf/Tables/Names.antt =====
-- The names of a string table of src/elfwriter.cpp: each that `lookup` finds stands at its offset.
use bigassm.Prelude.{
  ℕ, ◌≡◌, inl, inr, refl, sym, ◌∙◌, some, [], ◌∷◌, ◌++◌, Bytes, length, length-append, Map, find,
  bytes_eq, bytes_eq_refl, bytes_eq→eq, Bool-cases, arith, if◌then◌else◌,
}
use mathlib.Core.Option.{some-injective}
use bigassm.Elf.Fields.{append_assoc, append-nil}
use bigassm.Elf.Tables.{StringSection}
use bigassm.Elf.Tables.Strings.{terminated, with_name, string_bytes, with_names, find-assign}

-- The string, with the zero behind it, stands at the offset.
abbrev pub StandsAt : ℕ → Bytes → Bytes → Type 0
StandsAt off str bytes =
    (pre : Bytes) × (post : Bytes) × (bytes ≡ pre ++ (terminated str ++ post)) × (length pre ≡ off)

-- The bytes are those of the table.
abbrev pub Placed : StringSection → Bytes → Type 0
Placed s bytes =
    (length bytes ≡ s.offset)
    × ((str : Bytes) (off : ℕ) → find str s.namelist ≡ some off → StandsAt off str bytes)

StandsAt-append :
    (off : ℕ) (str bytes more : Bytes) → StandsAt off str bytes → StandsAt off str (bytes ++ more)
StandsAt-append off str bytes more (pre, post, e, l) = (
  pre,
  post ++ more,
  rw (e, append_assoc pre (terminated str ++ post) more, append_assoc (terminated str) post more)
      refl,
  l,
)

find_named :
    (j str : Bytes) (s : StringSection)
    → find j (with_name str s).namelist
      ≡ (if bytes_eq str j then some s.offset else find j s.namelist)
find_named j str s = find-assign str j s.offset s.namelist

abbrev Known : Bytes → StringSection → Type 0
Known k s = (off : ℕ) × (find k s.namelist ≡ some off)

with_name-Known : (k str : Bytes) (s : StringSection) → Known k s → Known k (with_name str s)
with_name-Known k str s (off, e) = elim (Bool-cases (bytes_eq str k)) [
  | inl same ↦ (s.offset, rw same at (find_named k str s))
  | inr other ↦ (off, (rw other at (find_named k str s)) ∙ e)
]

with_name-Placed :
    (str : Bytes) (s : StringSection) (bytes : Bytes)
    → Placed s bytes
    → Placed (with_name str s) (bytes ++ terminated str)
with_name-Placed str s bytes (l, placed) = (
  omega (arith, length-append bytes (terminated str), length-append str (0 ∷ [])),
  λ j off found. elim (Bool-cases (bytes_eq str j)) [
    | inl same ↦ (
      bytes,
      [],
      rw (append-nil (terminated j), bytes_eq→eq str j same),
      l ∙ some-injective s.offset off (sym (rw same at (find_named j str s)) ∙ found),
    )
    | inr other ↦
        StandsAt-append off j bytes (terminated str)
          (placed j off (sym (rw other at (find_named j str s)) ∙ found))
  ],
)

module _ {ℓ} {V : Type ℓ} where
  pub with_names-Placed :
      (names : Map V) (s : StringSection) (bytes : Bytes)
      → Placed s bytes
      → Placed (with_names names s) (bytes ++ string_bytes names)
  with_names-Placed [] s bytes p = rw (append-nil bytes) p
  with_names-Placed ((name, x) ∷ names) s bytes p =
      rw (sym (append_assoc bytes (terminated name) (string_bytes names))) (
        with_names-Placed names (with_name name s) (bytes ++ terminated name)
          (with_name-Placed name s bytes p))

  -- Every name has an offset.
  pub data AllKnown (s : StringSection) : Map V → Type ℓ where
    nil : AllKnown s []
    cons :
        {name : Bytes} {x : V} {names : Map V} {off : ℕ}
        → find name s.namelist ≡ some off
        → AllKnown s names
        → AllKnown s ((name, x) ∷ names)

  with_names-Known :
      (k : Bytes) (names : Map V) (s : StringSection) → Known k s → Known k (with_names names s)
  with_names-Known k [] s known = known
  with_names-Known k ((name, x) ∷ names) s known =
      with_names-Known k names (with_name name s) (with_name-Known k name s known)

  pub with_names-AllKnown :
      (names : Map V) (s : StringSection) → AllKnown (with_names names s) names
  with_names-AllKnown [] s = nil
  with_names-AllKnown ((name, x) ∷ names) s =
      let here =
        with_names-Known name names (with_name name s)
          (s.offset, rw (bytes_eq_refl name) at (find_named name name s)) in
      let (off, e) = here in cons e (with_names-AllKnown names (with_name name s))
