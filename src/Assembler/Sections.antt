-- ===== src/Assembler/Sections.antt =====
-- src/assemble.cpp: the sections, and output to the current one.
use bigassm.Prelude.{ℕ, none, some, Bytes, length, find, update, emplace}
use bigassm.Types.{undefined}
use bigassm.Section
use bigassm.Section.{Section, new_section, OutputType}
use bigassm.Assembler.State.{SymbolLocation, Asm, pure, from_option, get, modify, ◌>>=◌, ◌>>◌}

-- The section that a pointer to it points to; every such pointer is the key of a section.
unfoldable pub section_at : Bytes → Asm Section
unfolding find
section_at name = do a ← get; from_option undefined (find name a.sections)

unfoldable pub with_section : Bytes → (Section → Section) → Asm (Unit {0})
unfolding update
with_section name f = modify (λ a. record a { sections = update name f a.sections })

unfoldable pub current : Asm Section
unfolding section_at
current = do a ← get; section_at a.current_section

unfoldable pub on_current : (Section → Section) → Asm (Unit {0})
unfolding with_section
on_current f = do a ← get; with_section a.current_section f

-- `section(name)`: found, or created with the next index
unfoldable pub section : Bytes → Asm Bytes
unfolding find emplace new_section
section name = do
  a ← get
  elim (find name a.sections) [
    | some s ↦ pure name
    | none ↦ do
      modify λ a. record a {
        sections = emplace name (new_section name (length a.sections)) a.sections;
      }
      pure name
  ]

unfoldable pub set_section : Bytes → Asm (Unit {0})
unfolding section
set_section name = do sect ← section name; modify λ a. record a { current_section = sect }

unfoldable pub add_output : OutputType → Bytes → Asm (Unit {0})
unfolding on_current Section.add_output
add_output ot vdata = on_current (Section.add_output ot vdata)

unfoldable pub allocate : ℕ → Asm (Unit {0})
unfolding on_current Section.allocate
allocate len = on_current (Section.allocate len)

unfoldable pub current_location : Asm SymbolLocation
unfolding current Section.size
current_location = do
  a ← get
  s ← current
  pure (record { section = a.current_section; offset = Section.size s; type = 0; size = 0 })
