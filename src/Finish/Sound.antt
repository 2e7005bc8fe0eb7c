-- ===== src/Finish/Sound.antt =====
-- `Assembler::finish` of src/assemble.cpp: what it leaves has an address for every symbol.
use bigassm.Prelude.{
  ℕ, zero, suc, ◌≡◌, refl, ap, ◌∙◌, sym, none, some, Option, List, [], ◌∷◌, Bytes, Map, length,
  find, ◌==◌,
}
use mathlib.Core.Option
use mathlib.Core.Path.{subst}
use bigassm.Types.{Error, Result, ok, err}
use bigassm.Section.{Section}
use bigassm.Assembler.{SymbolLocation, Assembler, and_then, ◌>>◌}
use bigassm.Assembler.Steps.{Reach, Reach-trans, Reach-options}
use bigassm.Assembler.Steady.{
  Moves, moved, thrown, Steady, runtime, throw-Steady, pure-Steady, bind-Steady, then-Steady,
  get-Steady, if-Steady,
}
use bigassm.Assembler.Methods.{with_section-Steady, align_section_with_labels-Steady}
use bigassm.Assembler.Sound.{IsSound, Homed, Present, Reach-Present, Reach-IsSound}
use bigassm.Patch.Shape.{SameShape, Shaped, shaped, failed, extent, place}
use bigassm.Finish.{
  Layout, keys, finish_labels, find_index, resolve_loop, resolve_base_addresses,
  finish_scheduled_work, finish,
}
use bigassm.Finish.Rounds.{with_base-SameKey}
use bigassm.Finish.Work.{finish_scheduled_work-Shaped}

finish_labels-Steady : (names : List Bytes) → Steady (finish_labels names)
unfolding finish_labels
finish_labels-Steady [] = pure-Steady tt
finish_labels-Steady (name ∷ names) =
    then-Steady (align_section_with_labels-Steady name 1) (finish_labels-Steady names)

find_index-Steady : (i : ℕ) (m : Map Section) → Steady (find_index i m)
unfolding find_index
find_index-Steady i [] = throw-Steady (runtime _)
find_index-Steady i ((k, s) ∷ m) =
    if-Steady (s.idx == i) _ _ (pure-Steady s) (find_index-Steady i m)

resolve_loop-Steady : (n i : ℕ) (l : Layout) → Steady (resolve_loop n i l)
unfolding resolve_loop
resolve_loop-Steady zero i l = pure-Steady tt
resolve_loop-Steady (suc n) i l = bind-Steady get-Steady λ a.
    bind-Steady (find_index-Steady i a.sections) λ s.
      then-Steady (with_section-Steady s.name _ (with_base-SameKey _))
        (resolve_loop-Steady n (suc i) _)

resolve_base_addresses-Steady : Steady resolve_base_addresses
unfolding resolve_base_addresses
resolve_base_addresses-Steady =
    bind-Steady get-Steady λ a. resolve_loop-Steady (length a.sections) 0 _

module _ {A B : Type 0} where
  some_of :
      (f : A → B) (o : Option A) {y : B}
      → Option.map f o ≡ some y
      → (x : A) × (o ≡ some x) × (f x ≡ y)
  some_of f none e = absurd cc
  some_of f (some x) e = (x, refl, cc)

SameShape-Present :
    (a b : Assembler) (n : Bytes) → SameShape a b → Present a.sections n → Present b.sections n
SameShape-Present a b n h (s, found) =
    let (t, found', _) =
      some_of extent (find n b.sections) (h.sizes n ∙ ap (Option.map extent) found) in
    (t, found')

-- The closures leave every symbol in a section.
SameShape-Homed :
    (a b : Assembler) → SameShape a b → Homed a.sections a.lookup → Homed b.sections b.lookup
SameShape-Homed a b h homed = record { at = at }
  where
    at : (n : Bytes) (l : SymbolLocation) → find n b.lookup ≡ some l → Present b.sections l.section
    at n l e =
        let (l', known, same) =
          some_of place (find n a.lookup) (sym (h.homes n) ∙ ap (Option.map place) e) in
        let names : l'.section ≡ l.section = ap (λ (p : Bytes × ℕ). p.0) same in
        SameShape-Present a b l.section h (subst (Present a.sections) names (homed.at n l' known))

-- A result behind `finish`, by way of the state in front of the closures.
data Finished (a : Assembler) : Result (Unit {0} × Assembler) → Type 0 where
  finished : (b c : Assembler) → Reach a b → SameShape b c → Finished a (ok (tt, c))
  failed_to : (e : Error) → Finished a (err e)

finish-Finished : (a : Assembler) → Finished a (finish a)
unfolding finish
finish-Finished a =
    labels (finish_labels (keys a.sections) a) ((finish_labels-Steady (keys a.sections)).at a)
  where
    closures :
        (b : Assembler) (r : Result (Unit {0} × Assembler)) → Reach a b → Shaped b r → Finished a r
    closures b _ s (shaped tt c h) = finished b c s h
    closures b _ s (failed e) = failed_to e

    bases :
        (b : Assembler) (r : Result (Unit {0} × Assembler))
        → Reach a b
        → Moves b r
        → Finished a (and_then r λ done. finish_scheduled_work)
    bases b _ s (moved x c t) =
        closures c _ (Reach-trans a b c s t) (finish_scheduled_work-Shaped c)
    bases b _ s (thrown {e = e} g) = failed_to e

    labels :
        (r : Result (Unit {0} × Assembler))
        → Moves a r
        → Finished a (and_then r λ done. resolve_base_addresses >> finish_scheduled_work)
    labels _ (moved x b s) = bases b _ s (resolve_base_addresses-Steady.at b)
    labels _ (thrown {e = e} g) = failed_to e

-- Where every symbol lies in a section, the symbols that there are when `finish` returns have
-- addresses, and the options are those of before.
pub finish-Homed :
    (a b : Assembler)
    → IsSound a.sections a.lookup
    → finish a ≡ ok (tt, b)
    → Homed b.sections b.lookup × (b.options ≡ a.options)
finish-Homed a b sound done = go (finish a) (finish-Finished a) done
  where
    go :
        (r : Result (Unit {0} × Assembler))
        → Finished a r
        → r ≡ ok (tt, b)
        → Homed b.sections b.lookup × (b.options ≡ a.options)
    go _ (finished c d s h) e =
        let eq : d ≡ b = cc in
        let there = SameShape-Homed c d h (Reach-IsSound a c s sound).homed in
        subst (λ (x : Assembler). Homed x.sections x.lookup × (x.options ≡ a.options)) eq
          (there, h.options ∙ Reach-options a c s)
    go _ (failed_to e) e' = absurd cc

-- A section that there was is there when `finish` returns.
pub finish-Present :
    (a b : Assembler) (n : Bytes)
    → finish a ≡ ok (tt, b)
    → Present a.sections n
    → Present b.sections n
finish-Present a b n done there = go (finish a) (finish-Finished a) done
  where
    go : (r : Result (Unit {0} × Assembler)) → Finished a r → r ≡ ok (tt, b) → Present b.sections n
    go _ (finished c d s h) e =
        let eq : d ≡ b = cc in
        subst (λ (x : Assembler). Present x.sections n) eq
          (SameShape-Present c d n h (Reach-Present a c n s there))
    go _ (failed_to e) e' = absurd cc
