-- ===== src/Finish/Rounds.antt =====
-- `Assembler::resolve_base_addresses` of src/assemble.cpp as a whole: the base addresses of the
-- sections, from the first on.
use bigassm.Prelude.{
  ℕ, zero, suc, ◌+◌, ◌≡◌, ◌≤◌, ◌<◌, refl, ap, ◌∙◌, sym, false, Bool-cases, inl, inr, none, some,
  Map, length, update, ◌==◌, ==_iff, if◌then◌else◌, if-intro, arith,
}
use mathlib.Core.Option
use mathlib.Core.Path.{subst}
use bigassm.Types.{Result, ok}
use bigassm.Section.{Section, set_base_address}
use bigassm.Assembler.{Options, Assembler, with_section}
use bigassm.Assembler.Steps.{SameKey, same-SameKey, Numbered}
use bigassm.Assembler.Keyed.{Keyed, update-Keyed}
use bigassm.Finish.{Layout, find_index, place, resolve_loop, resolve_base_addresses}
use bigassm.Finish.Order.{section_no, find_index-section_no, section_no-HasIndex, section_no-set}

-- The variables of the loop in front of a section, and the section once it is placed.
module _ (options : Options) (m : Map Section) where
  abbrev pub layout_at : ℕ → Layout
  layout_at zero = record { base_addr = options.base; was_executable = false; was_readonly = false }
  layout_at (suc i) = elim (section_no i m) [
    | some s ↦ (place options s (layout_at i)).1
    | none ↦ layout_at i
  ]

  abbrev pub base_at : ℕ → Section → ℕ
  base_at i s = (place options s (layout_at i)).0

  abbrev pub placed : ℕ → Section → Section
  placed i s = if s.has_base_address then s else set_base_address (base_at i s) s

-- What the loop does to a section.
abbrev pub with_base : ℕ → Section → Section
with_base base s = if s.has_base_address then s else set_base_address base s

pub with_base-SameKey : (base : ℕ) (s : Section) → SameKey s (with_base base s)
unfolding set_base_address
with_base-SameKey base s =
    if-intro (SameKey s) s.has_base_address s (set_base_address base s) (same-SameKey refl refl)
      (same-SameKey refl refl)

-- One round, and the rounds behind it.
abbrev after : ℕ → ℕ → Layout → Assembler → Section → Options → Result (Unit {0} × Assembler)
after n i l a s options =
    let (base, l') = place options s l in
    resolve_loop n (suc i) l' (record a { sections = update s.name (with_base base) a.sections })

round :
    (n i : ℕ) (l : Layout) (a : Assembler) (s : Section)
    → find_index i a.sections a ≡ ok (s, a)
    → resolve_loop (suc n) i l a ≡ after n i l a s a.options
unfolding resolve_loop with_section
round n i l a s e = rw (resolve_loop, e) refl

module _ (options : Options) (m : Map Section) where
  -- In front of round `i` the sections of the rounds before have been placed, the others are as ever.
  record IsPlaced (i : ℕ) (a : Assembler) : Type 0 where
    kept : a.options ≡ options
    names : Keyed a.sections
    earlier :
        (j : ℕ) → j < i → section_no j a.sections ≡ Option.map (placed options m j) (section_no j m)
    later : (j : ℕ) → i ≤ j → section_no j a.sections ≡ section_no j m

  pub layout_at-next :
      (i : ℕ) (s : Section)
      → section_no i m ≡ some s
      → layout_at options m (suc i) ≡ (place options s (layout_at options m i)).1
  layout_at-next i s e = rw (layout_at, e) refl

  next_round :
      (i : ℕ) (a : Assembler) (s : Section)
      → IsPlaced i a
      → section_no i m ≡ some s
      → IsPlaced
          (suc i)
          (record a { sections = update s.name (with_base (base_at options m i s)) a.sections })
  next_round i a s p e =
      let f = with_base (base_at options m i s) in
      let now : section_no i a.sections ≡ some s = p.later i (omega arith) ∙ e in
      let set = λ (j : ℕ).
        section_no-set i j f a.sections s (with_base-SameKey (base_at options m i s)) p.names now in
      record {
        kept = p.kept;
        names =
            update-Keyed s.name f a.sections (with_base-SameKey (base_at options m i s)) p.names;
        earlier = λ j h. set j ∙ elim (Bool-cases (j == i)) [
          | inl b ↦ rw ((==_iff j i).0 b, (==_iff i i).1 refl, e) refl
          | inr b ↦ rw b (p.earlier j (ground arith))
        ];
        later = λ j h. set j ∙ rw (not_equal j i h) (p.later j (omega arith));
      }
    where
      not_equal : (j i : ℕ) → suc i ≤ j → (j == i) ≡ false
      not_equal j i h = ground arith

  resolve_loop-IsPlaced :
      (n i : ℕ) (a : Assembler)
      → IsPlaced i a
      → ((j : ℕ) → j < i + n → (s : Section) × (section_no j m ≡ some s))
      → (b : Assembler) × (resolve_loop n i (layout_at options m i) a ≡ ok (tt, b))
        × IsPlaced (i + n) b
  unfolding resolve_loop
  resolve_loop-IsPlaced zero i a p there =
      let same : i ≡ i + zero = omega arith in (a, refl, subst (λ (j : ℕ). IsPlaced j a) same p)
  resolve_loop-IsPlaced (suc n) i a p there =
      let (s, e) = there i (omega arith) in
      let now : section_no i a.sections ≡ some s = p.later i (omega arith) ∙ e in
      let next = record a {
        sections = update s.name (with_base (base_at options m i s)) a.sections;
      } in
      let (b, done, q) =
        resolve_loop-IsPlaced n (suc i) next (next_round i a s p e)
          (λ j h. there j (omega arith)) in
      let same : suc i + n ≡ i + suc n = omega arith in
      (
        b,
        round n i (layout_at options m i) a s (find_index-section_no i a.sections a now)
            ∙ ap (after n i (layout_at options m i) a s) p.kept
            ∙ ap (λ (l : Layout). resolve_loop n (suc i) l next) (sym (layout_at-next i s e))
            ∙ done,
        subst (λ (j : ℕ). IsPlaced j b) same q,
      )

module _ (a : Assembler) (numbered : Numbered a.sections) (names : Keyed a.sections) where
  resolve-IsPlaced :
      (b : Assembler) × (resolve_base_addresses a ≡ ok (tt, b))
      × IsPlaced a.options a.sections (length a.sections) b
  unfolding resolve_base_addresses
  resolve-IsPlaced =
      let (b, done, p) =
        resolve_loop-IsPlaced a.options a.sections (length a.sections) 0 a
          (record {
            kept = refl;
            names = names;
            earlier = λ j h. absurd (omega arith);
            later = λ j h. refl;
          })
          (λ j h. section_no-HasIndex j a.sections (numbered.at j (omega arith))) in
      let same : 0 + length a.sections ≡ length a.sections = omega arith in
      (b, done, subst (λ (j : ℕ). IsPlaced a.options a.sections j b) same p)

  -- Where the sections have the indices from zero on and stand each under its name, all base
  -- addresses are resolved: the section with any of the indices is the one of before, with its own
  -- base address, if it had one, and else with the address that `place` gives it behind all the
  -- sections with lower indices, begun at the base of the options. The
  -- options stay, and every section stands under its name.
  pub resolve_base_addresses-places :
      (i : ℕ)
      → i < length a.sections
      → (b : Assembler) × (s : Section) × (resolve_base_addresses a ≡ ok (tt, b))
        × (section_no i a.sections ≡ some s)
        × (section_no i b.sections ≡ some (placed a.options a.sections i s))
        × (b.options ≡ a.options)
        × Keyed b.sections
  resolve_base_addresses-places i h =
      let (b, done, p) = resolve-IsPlaced in
      let (s, e) = section_no-HasIndex i a.sections (numbered.at i h) in
      (
        b,
        s,
        done,
        e,
        p.earlier i h ∙ ap (Option.map (placed a.options a.sections i)) e,
        p.kept,
        p.names,
      )
