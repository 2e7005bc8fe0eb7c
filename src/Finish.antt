-- ===== src/Finish.antt =====
-- src/assemble.cpp: `Assembler::finish`: the last labels, the base addresses of the sections, and
-- the scheduled work.
pub mod Place
pub mod Work
pub mod Order
pub mod Rounds
pub mod Starts
pub mod Disjoint
pub mod Sound
pub mod Bases
use bigassm.Prelude.{
  ℕ, zero, suc, ◌+◌, ◌-◌, ◌%◌, ◌^◌, bit_and, Bool, false, not, ◌&&◌, none, some, List, [], ◌∷◌,
  Bytes, codes, length, ◌==◌, if◌then◌else◌, ◌++◌, Map, find,
}
use bigassm.Types.{runtime_error}
use bigassm.Types.Print.{int_to_string}
use bigassm.Section
use bigassm.Section.{Section, set_base_address}
use bigassm.Assembler.{
  Options, Scheduled, Asm, pure, throw, get, ◌>>=◌, ◌>>◌, with_section, align_section_with_labels,
}
use bigassm.Patch.{run_scheduled}

abbrev pub keys {ℓ} : {V : Type ℓ} → Map V → List Bytes
keys [] = []
keys ((k, v) ∷ m) = k ∷ keys m

-- `for (auto& sit : sections()) sit.second.align_with_labels(*this, 1);`
unfoldable pub finish_labels : List Bytes → Asm (Unit {0})
unfolding align_section_with_labels
finish_labels [] = pure tt
finish_labels (name ∷ names) = do align_section_with_labels name 1; finish_labels names

-- The lambda `section_at`.
unfoldable pub find_index : ℕ → Map Section → Asm Section
find_index idx [] =
    throw (runtime_error (codes "Could not find section index " ++ int_to_string idx))
find_index idx ((k, s) ∷ m) = if s.idx == idx then pure s else find_index idx m

-- `(x + mask) & ~(address_t)mask`
unfoldable pub round_up : ℕ → ℕ → ℕ
round_up mask x = bit_and ((x + mask) % 2 ^ 128) (2 ^ 128 - 1 - mask)

-- The variables of the loop over the sections.
pub record Layout : Type 0 where
  pub base_addr : ℕ
  pub was_executable : Bool
  pub was_readonly : Bool

-- The realignment to a page in front of a section that has no base address of its own.
unfoldable pub realign : Options → Section → Layout → Layout
unfolding round_up
realign options s l =
    if options.section_attr_page_separation
    then if l.was_executable && not s.code
      then record l { was_executable = false; base_addr = round_up 0xFFF l.base_addr }
      else if l.was_readonly && not s.readonly
      then record l { was_readonly = false; base_addr = round_up 0xFFF l.base_addr }
      else l
    else l

-- What the loop does about one section: its base address, and the variables for the next.
unfoldable pub place : Options → Section → Layout → ℕ × Layout
unfolding realign round_up Section.size
place options s l =
    let l' =
      if s.has_base_address
      then record l { base_addr = s.base_address; was_executable = s.code }
      else realign options s l in
    (
      l'.base_addr,
      record l' { base_addr = round_up 0xF ((l'.base_addr + Section.size s) % 2 ^ 128) },
    )

-- `for (size_t idx = 0; idx < m_sections.size(); idx++)`, with the rounds left.
unfoldable pub resolve_loop : ℕ → ℕ → Layout → Asm (Unit {0})
unfolding find_index place with_section set_base_address
resolve_loop zero idx l = pure tt
resolve_loop (suc n) idx l = do
  a ← get
  s ← find_index idx a.sections
  let (base, l') = place a.options s l
  with_section s.name (λ s. if s.has_base_address then s else set_base_address base s)
  resolve_loop n (suc idx) l'

unfoldable pub resolve_base_addresses : Asm (Unit {0})
unfolding resolve_loop
resolve_base_addresses = do
  a ← get
  resolve_loop (length a.sections) 0
      (record { base_addr = a.options.base; was_executable = false; was_readonly = false })

unfoldable pub run_all : List Scheduled → Bytes → Asm (Unit {0})
unfolding run_scheduled
run_all [] name = pure tt
run_all (op ∷ ops) name = do run_scheduled op name; run_all ops name

unfoldable pub finish_scheduled_loop : Map (List Scheduled) → Asm (Unit {0})
unfolding run_all find
finish_scheduled_loop [] = pure tt
finish_scheduled_loop ((name, ops) ∷ rest) = do
  a ← get
  elim (find name a.lookup) [
    | some sym ↦ run_all ops name
    | none ↦ throw (runtime_error (codes "Unknown symbol scheduled: " ++ name))
  ]
  finish_scheduled_loop rest

unfoldable pub finish_scheduled_work : Asm (Unit {0})
unfolding finish_scheduled_loop
finish_scheduled_work = do a ← get; finish_scheduled_loop a.schedule

unfoldable pub finish : Asm (Unit {0})
unfolding finish_labels resolve_base_addresses finish_scheduled_work
finish = do a ← get; finish_labels (keys a.sections); resolve_base_addresses; finish_scheduled_work
