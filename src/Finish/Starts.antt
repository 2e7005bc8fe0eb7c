-- ===== src/Finish/Starts.antt =====
-- `Assembler::resolve_base_addresses` of src/assemble.cpp held to where the sections are to begin,
-- worked out from their sizes, their attributes and the options.
use bigassm.Prelude.{
  ℕ, zero, suc, ◌+◌, ◌*◌, ◌/◌, ◌%◌, ◌^◌, ◌&&◌, ◌||◌, not, ◌≡◌, ◌<◌, refl, ap, ◌∙◌, Bool, false,
  Bool-cases, Option-cases, inl, inr, none, some, Map, length, if◌then◌else◌, arith,
}
use bigassm.Prelude.Bits.{bit_and_clear}
use bigassm.Types.{ok}
use bigassm.Section.{Section, size, set_base_address}
use bigassm.Assembler.{Options, Assembler}
use bigassm.Assembler.Steps.{Numbered}
use bigassm.Assembler.Keyed.{Keyed}
use bigassm.Finish.{Layout, round_up, realign, place, resolve_base_addresses}
use bigassm.Finish.Order.{section_no}
use bigassm.Finish.Rounds.{layout_at, base_at, resolve_base_addresses-places}

-- The next multiple of 4096, and of 16, on addresses of 128 bits.
abbrev pub next_page : ℕ → ℕ
next_page x = (x + 4095) % 2 ^ 128 / 4096 * 4096

abbrev pub next_sixteen : ℕ → ℕ
next_sixteen x = (x + 15) % 2 ^ 128 / 16 * 16

module _ (options : Options) (m : Map Section) where
  -- Whether code of a fixed section is in front of section `i`, with no break to a page since.
  abbrev pub in_code : ℕ → Bool
  in_code zero = false
  in_code (suc i) = elim (section_no i m) [
    | none ↦ in_code i
    | some s ↦
        if s.has_base_address
        then s.code
        else in_code i && (s.code || not options.section_attr_page_separation)
  ]

  -- Where a section begins whose predecessors end at `free`.
  abbrev pub start_from : ℕ → ℕ → Section → ℕ
  start_from i free s =
      if s.has_base_address
      then s.base_address
      else if options.section_attr_page_separation && (in_code i && not s.code)
      then next_page free
      else free

  -- The first multiple of 16 behind the sections in front of section `i`.
  abbrev pub free_at : ℕ → ℕ
  free_at zero = options.base
  free_at (suc i) = elim (section_no i m) [
    | none ↦ free_at i
    | some s ↦ next_sixteen ((start_from i (free_at i) s + length s.output) % 2 ^ 128)
  ]

  abbrev pub start_at : ℕ → Section → ℕ
  start_at i s = start_from i (free_at i) s

round_up-next_page : (x : ℕ) → round_up 0xFFF x ≡ next_page x
unfolding round_up
round_up-next_page x = bit_and_clear 128 12 ((x + 4095) % 2 ^ 128) (omega arith) (omega arith)

round_up-next_sixteen : (x : ℕ) → round_up 0xF x ≡ next_sixteen x
unfolding round_up
round_up-next_sixteen x = bit_and_clear 128 4 ((x + 15) % 2 ^ 128) (omega arith) (omega arith)

-- One section, from a state of the loop that never saw read-only data.
abbrev state : ℕ → Bool → Layout
state base executable = record {
  base_addr = base;
  was_executable = executable;
  was_readonly = false;
}

still_in_code :
    (separate executable code : Bool)
    → (if separate && (executable && not code) then false else executable)
      ≡ (executable && (code || not separate))
still_in_code separate executable code = ground arith

module _ (options : Options) (s : Section) where
  realign-state :
      (base : ℕ) (executable : Bool)
      → realign options s (state base executable) ≡ (
          let opened = options.section_attr_page_separation && (executable && not s.code) in
          state (if opened then next_page base else base) (if opened then false else executable))
  unfolding realign
  realign-state base executable = elim (Bool-cases options.section_attr_page_separation) [
    | inl sep ↦ elim (Bool-cases (executable && not s.code)) [
      | inl e ↦ rw (realign, sep, e, round_up-next_page base) refl
      | inr e ↦ rw (realign, sep, e) refl
    ]
    | inr sep ↦ rw (realign, sep) refl
  ]

  -- What the loop does about the section, from such a state.
  abbrev start : ℕ → Bool → ℕ
  start base executable =
      if s.has_base_address
      then s.base_address
      else if options.section_attr_page_separation && (executable && not s.code)
      then next_page base
      else base

  place-state :
      (base : ℕ) (executable : Bool)
      → place options s (state base executable) ≡ (
        start base executable,
        state (next_sixteen ((start base executable + length s.output) % 2 ^ 128)) (
            if s.has_base_address
            then s.code
            else executable && (s.code || not options.section_attr_page_separation)),
      )
  unfolding place size
  place-state base executable = elim (Bool-cases s.has_base_address) [
    | inl own ↦ rw (place, own, round_up-next_sixteen) refl
    | inr own ↦
        rw
          (
            place,
            own,
            realign-state,
            round_up-next_sixteen,
            still_in_code options.section_attr_page_separation executable s.code,
          )
          refl
  ]

module _ (options : Options) (m : Map Section) where
  layout_at-state :
      (i : ℕ) → layout_at options m i ≡ state (free_at options m i) (in_code options m i)
  layout_at-state zero = refl
  layout_at-state (suc i) = elim (Option-cases (section_no i m)) [
    | inl e ↦ rw (layout_at, free_at, in_code, e) (layout_at-state i)
    | inr (s, e) ↦
        rw (layout_at, free_at, in_code, e)
          (ap (λ (l : Layout). (place options s l).1) (layout_at-state i)
            ∙ ap (λ (p : ℕ × Layout). p.1)
                (place-state options s (free_at options m i) (in_code options m i)))
  ]

  base_at-start : (i : ℕ) (s : Section) → base_at options m i s ≡ start_at options m i s
  base_at-start i s =
      ap (λ (l : Layout). (place options s l).0) (layout_at-state i)
      ∙ ap (λ (p : ℕ × Layout). p.0)
          (place-state options s (free_at options m i) (in_code options m i))

-- Where the sections have the indices from zero on and stand each under its name, all base
-- addresses are resolved: the section with any of the indices is the one of before, with its own
-- base address, if it had one, and else with the first multiple of 16 behind the end of the section
-- with the index in front of its, or the base of the options for the first one. Where the options
-- separate pages and the section has no code, but the last section in front of it with a base
-- address of its own has code, and so have all sections between the two, that is taken to the next
-- page. The options stay, and every section stands under its name.
pub resolve_base_addresses-starts :
    (a : Assembler) (i : ℕ)
    → Numbered a.sections
    → Keyed a.sections
    → i < length a.sections
    → (b : Assembler) × (s : Section) × (resolve_base_addresses a ≡ ok (tt, b))
      × (section_no i a.sections ≡ some s)
      × (section_no i b.sections
          ≡ some (
              if s.has_base_address
              then s
              else set_base_address (start_at a.options a.sections i s) s))
      × (b.options ≡ a.options)
      × Keyed b.sections
resolve_base_addresses-starts a i numbered names h =
    let (b, s, done, e, placed_at, kept, names') =
      resolve_base_addresses-places a numbered names i h in
    (
      b,
      s,
      done,
      e,
      placed_at
          ∙ ap (λ (n : ℕ). some (if s.has_base_address then s else set_base_address n s))
              (base_at-start a.options a.sections i s),
      kept,
      names',
    )
