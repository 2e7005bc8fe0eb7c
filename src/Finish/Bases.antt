-- ===== src/Finish/Bases.antt =====
-- `Assembler::resolve_base_addresses` of src/assemble.cpp on sections that have the indices from
-- zero on: it finds each of them.
use bigassm.Prelude.{
  ℕ, zero, suc, ◌+◌, ◌≤◌, ◌≡◌, refl, false, inl, inr, Bool-cases, length, Map, update,
  if◌then◌else◌, ◌==◌, ==_iff, arith, [], ◌∷◌, if-intro,
}
use bigassm.Types.{ok}
use bigassm.Section.{Section, set_base_address}
use bigassm.Assembler.{Assembler, with_section}
use bigassm.Assembler.Steps.{HasIndex, here, there, Numbered, length-update, update-Numbered}
use bigassm.Finish.{Layout, find_index, place, resolve_loop, resolve_base_addresses}

find_index-HasIndex :
    (i : ℕ) (m : Map Section) (a : Assembler)
    → HasIndex i m
    → (s : Section) × (find_index i m a ≡ ok (s, a))
unfolding find_index
find_index-HasIndex i [] a h = elim h [ ]
find_index-HasIndex i ((k, s) ∷ m) a (here e) = (s, rw (find_index, (==_iff s.idx i).1 e) refl)
find_index-HasIndex i ((k, s) ∷ m) a (there h) = elim (Bool-cases (s.idx == i)) [
  | inl e ↦ (s, rw (find_index, e) refl)
  | inr e ↦ let (t, found) = find_index-HasIndex i m a h in (t, rw (find_index, e, found) refl)
]

keep_base-idx :
    (base : ℕ) (s : Section)
    → (if s.has_base_address then s else set_base_address base s).idx ≡ s.idx
unfolding set_base_address
keep_base-idx base s =
    if-intro (λ (t : Section). t.idx ≡ s.idx) s.has_base_address s (set_base_address base s) refl
      refl

resolve_loop-returns :
    (n i : ℕ) (l : Layout) (a : Assembler)
    → Numbered a.sections
    → i + n ≤ length a.sections
    → (b : Assembler) × (resolve_loop n i l a ≡ ok (tt, b)) × Numbered b.sections
unfolding resolve_loop with_section
resolve_loop-returns zero i l a numbered h = (a, refl, numbered)
resolve_loop-returns (suc n) i l a numbered h =
    let (s, found) = find_index-HasIndex i a.sections a (numbered.at i (omega arith)) in
    let base = (place a.options s l).0 in
    let f = λ (s : Section). if s.has_base_address then s else set_base_address base s in
    let next = record a { sections = update s.name f a.sections } in
    let (b, done, more) =
      resolve_loop-returns n (suc i) (place a.options s l).1 next
        (update-Numbered s.name f a.sections (keep_base-idx base) numbered)
        (omega (arith, length-update s.name f a.sections)) in
    (b, rw (resolve_loop, found, done) refl, more)

-- Where the sections have the indices from zero on, every section is found by its index: the loop
-- over them returns, and they keep their indices.
pub resolve_base_addresses-returns :
    (a : Assembler)
    → Numbered a.sections
    → (b : Assembler) × (resolve_base_addresses a ≡ ok (tt, b)) × Numbered b.sections
unfolding resolve_base_addresses
resolve_base_addresses-returns a numbered =
    resolve_loop-returns (length a.sections) 0
      (record { base_addr = a.options.base; was_executable = false; was_readonly = false }) a
      numbered (omega arith)
