-- ===== src/Patch/Shape.antt =====
-- The sizes and addresses of the sections, before and behind a closure of src/opcodes.cpp or
-- src/directive.cpp.
use bigassm.Prelude.{
  ℕ, ◌+◌, ◌≡◌, ◌≤◌, ◌⊎◌, refl, ap, ◌∙◌, true, false, Option, some, Bytes, [], length, ltb, leb,
  if◌then◌else◌, find, find-update, bytes_eq, bytes_eq_iff, Bool-cases, Option-cases, inl, inr,
  leb→le,
}
use mathlib.Core.Option
use bigassm.Types.{Error, Result, ok, err, undefined, out_of_range}
use bigassm.Section.{Section}
use bigassm.Assembler.{
  SymbolLocation, Assembler, Asm, pure, throw, and_then, section_at, with_section, address,
}
use bigassm.Patch.{word_index, word_at, change_word, read_word, write_word}
use bigassm.Patch.Words.{length-write_word}

-- A section's size, and all of it but its output; a symbol's place.
abbrev pub extent : Section → ℕ × Section
extent s = (length s.output, record s { output = [] })

abbrev pub shape : Assembler → Bytes → Option (ℕ × Section)
shape a n = Option.map extent (find n a.sections)

abbrev pub place : SymbolLocation → Bytes × ℕ
place loc = (loc.section, loc.offset)

abbrev pub home : Assembler → Bytes → Option (Bytes × ℕ)
home a n = Option.map place (find n a.lookup)

-- The same sections, but for the bytes of their outputs, and the same symbols at their places.
pub record SameShape (a b : Assembler) : Type 0 where
  pub sizes : (n : Bytes) → shape b n ≡ shape a n
  pub homes : (n : Bytes) → home b n ≡ home a n
  pub options : b.options ≡ a.options

pub SameShape-refl : (a : Assembler) → SameShape a a
SameShape-refl a = record { sizes = λ n. refl; homes = λ n. refl; options = refl }

SameShape-trans : (a b c : Assembler) → SameShape a b → SameShape b c → SameShape a c
SameShape-trans a b c h k = record {
  sizes = λ n. k.sizes n ∙ h.sizes n;
  homes = λ n. k.homes n ∙ h.homes n;
  options = k.options ∙ h.options;
}

-- An error, or a result whose state has the shape of `a`.
pub data Shaped {ℓ} {A : Type ℓ} (a : Assembler) : Result (A × Assembler) → Type ℓ where
  shaped : (x : A) (b : Assembler) → SameShape a b → Shaped a (ok (x, b))
  failed : (e : Error) → Shaped a (err e)

from-Shaped {ℓ} :
    {A : Type ℓ} (a b : Assembler) {r : Result (A × Assembler)}
    → SameShape a b
    → Shaped b r
    → Shaped a r
from-Shaped a b h (shaped x c k) = shaped x c (SameShape-trans a b c h k)
from-Shaped a b h (failed e) = failed e

pub bind-Shaped {ℓ κ} :
    {A : Type ℓ} {B : Type κ} {a : Assembler} {r : Result (A × Assembler)} (f : A → Asm B)
    → Shaped a r
    → ((x : A) (b : Assembler) → Shaped b (f x b))
    → Shaped a (and_then r f)
bind-Shaped f (shaped x b h) k = from-Shaped _ b h (k x b)
bind-Shaped f (failed e) k = failed e

pub section_at-Shaped : (name : Bytes) (a : Assembler) → Shaped a (section_at name a)
unfolding section_at
section_at-Shaped name a = elim (Option-cases (find name a.sections)) [
  | inl e ↦ rw (section_at, e) (failed _)
  | inr (s, e) ↦ rw (section_at, e) (shaped s a (SameShape-refl a))
]

-- What the check of `at_location` gives: a word inside the output.
data Indexed (a : Assembler) (loc : SymbolLocation) : Result (ℕ × Assembler) → Type 0 where
  inside :
      (i : ℕ) (s : Section)
      → find loc.section a.sections ≡ some s
      → i + 4 ≤ length s.output
      → Indexed a loc (ok (i, a))
  outside : (e : Error) → Indexed a loc (err e)

checked :
    (a : Assembler) (loc : SymbolLocation) (s : Section) (i : ℕ)
    → find loc.section a.sections ≡ some s
    → Indexed a loc (
        (if ltb i (length s.output)
            then (if leb (i + 4) (length s.output) then pure i else throw undefined)
            else throw out_of_range)
          a)
checked a loc s i h = elim (Bool-cases (ltb i (length s.output))) [
  | inl e ↦ elim (Bool-cases (leb (i + 4) (length s.output))) [
    | inl e' ↦ rw (e, e') (inside i s h (leb→le (i + 4) (length s.output) e'))
    | inr e' ↦ rw (e, e') (outside _)
  ]
  | inr e ↦ rw e (outside _)
]

word_index-Indexed :
    (loc : SymbolLocation) (off : ℕ) (a : Assembler) → Indexed a loc (word_index loc off a)
unfolding word_index section_at
word_index-Indexed loc off a = elim (Option-cases (find loc.section a.sections)) [
  | inl e ↦ rw (word_index, section_at, e) (outside _)
  | inr (s, e) ↦ rw (word_index, section_at, e) (checked a loc s _ e)
]

word_index-Shaped :
    (loc : SymbolLocation) (off : ℕ) (a : Assembler) → Shaped a (word_index loc off a)
word_index-Shaped loc off a = go (word_index-Indexed loc off a)
  where
    go : {r : Result (ℕ × Assembler)} → Indexed a loc r → Shaped a r
    go (inside i s h k) = shaped i a (SameShape-refl a)
    go (outside e) = failed e

-- A write to one section that keeps its extent.
with_section-Shaped :
    (name : Bytes) (g : Section → Section) (a : Assembler) (s : Section)
    → find name a.sections ≡ some s
    → extent (g s) ≡ extent s
    → Shaped a (with_section name g a)
unfolding with_section
with_section-Shaped name g a s h e = shaped tt _ (record {
  sizes = λ n.
      ap (λ (o : Option Section). Option.map extent o) (find-update name n g a.sections)
      ∙ kept n (Bool-cases (bytes_eq name n));
  homes = λ n. refl;
  options = refl;
})
  where
    same : (n : Bytes) → name ≡ n → Option.map extent (Option.map g (find n a.sections)) ≡ shape a n
    same n eq = rw (← eq, h, e) refl

    kept :
        (n : Bytes)
        → (bytes_eq name n ≡ true) ⊎ (bytes_eq name n ≡ false)
        → Option.map extent
            (if bytes_eq name n then Option.map g (find n a.sections) else find n a.sections)
          ≡ shape a n
    kept n (inl b) = rw b (same n ((bytes_eq_iff name n).0 b))
    kept n (inr b) = rw b refl

pub change_word-Shaped :
    (loc : SymbolLocation) (off : ℕ) (f : ℕ → ℕ) (a : Assembler)
    → Shaped a (change_word loc off f a)
unfolding change_word
change_word-Shaped loc off f a = go (word_index-Indexed loc off a)
  where
    go :
        {r : Result (ℕ × Assembler)}
        → Indexed a loc r
        → Shaped a (
            and_then r λ i.
              with_section loc.section
                λ s. record s { output = write_word i (f (read_word i s.output)) s.output })
    go (inside i s h k) = with_section-Shaped loc.section _ a s h (
        ap (λ (n : ℕ). (n, record s { output = [] }))
          (length-write_word i (f (read_word i s.output)) s.output k))
    go (outside e) = failed e

pub word_at-Shaped : (loc : SymbolLocation) (off : ℕ) (a : Assembler) → Shaped a (word_at loc off a)
unfolding word_at
word_at-Shaped loc off a =
    bind-Shaped _ (word_index-Shaped loc off a)
      λ i b. bind-Shaped _ (section_at-Shaped loc.section b) λ s c. shaped _ c (SameShape-refl c)

pub address-Shaped : (loc : SymbolLocation) (a : Assembler) → Shaped a (address loc a)
unfolding address
address-Shaped loc a =
    bind-Shaped _ (section_at-Shaped loc.section a) λ s b. shaped _ b (SameShape-refl b)
