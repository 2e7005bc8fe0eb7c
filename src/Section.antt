-- ===== src/Section.antt =====
-- src/section.hpp and src/section.cpp: a section of the output, with what concerns it alone.
-- `align_with_labels` and `add_label_here`, which call the assembler back, stand in Assembler.
pub mod Align
use bigassm.Prelude.{
  ℕ, ◌+◌, ◌-◌, ◌%◌, ◌^◌, bit_and, Bool, true, false, List, [], ◌∷◌, ◌++◌, Bytes, length, resize,
  ◌==◌, if◌then◌else◌,
}

pub data OutputType : Type 0 where
  ot_code ot_data ot_resv : OutputType

-- `struct Section`; the member `data` is `has_data` here.
pub record Section : Type 0 where
  pub output : Bytes
  pub code : Bool
  pub has_data : Bool
  pub resv : Bool
  pub execonly : Bool
  pub readonly : Bool
  pub name : Bytes
  pub idx : ℕ
  pub has_base_address : Bool
  pub label_queue : List Bytes
  pub base_address : ℕ

-- `Section(const std::string& name, int idx)`
unfoldable pub new_section : Bytes → ℕ → Section
new_section name idx = record {
  output = [];
  code = false;
  has_data = false;
  resv = false;
  execonly = false;
  readonly = false;
  name = name;
  idx = idx;
  has_base_address = false;
  label_queue = [];
  base_address = 0;
}

unfoldable pub size : Section → ℕ
size s = length s.output

unfoldable pub set_base_address : ℕ → Section → Section
set_base_address nba s = record s { base_address = nba; has_base_address = true }

-- `m_base_address + offset`, in `__uint128_t`
unfoldable pub address_at : Section → ℕ → ℕ
address_at s offset = (s.base_address + offset) % 2 ^ 128

unfoldable pub current_address : Section → ℕ
unfolding size address_at
current_address s = address_at s (size s)

unfoldable pub add_label_soon : Bytes → Section → Section
add_label_soon name s = record s { label_queue = s.label_queue ++ name ∷ [] }

abbrev pub set_kind : OutputType → Section → Section
set_kind ot_code s = record s { code = true }
set_kind ot_data s = record s { has_data = true }
set_kind ot_resv s = record s { resv = true }

unfoldable pub add_output : OutputType → Bytes → Section → Section
add_output type vdata s = set_kind type (record s { output = s.output ++ vdata })

-- `output.resize(output.size() + len)`, in `size_t`
unfoldable pub allocate : ℕ → Section → Section
unfolding resize
allocate len s = record s {
  output = resize ((length s.output + len) % 2 ^ 64) s.output;
  resv = true;
}

-- `(output.size() + (alignment-1)) & ~(alignment-1)`, in `size_t`
unfoldable pub aligned_size : ℕ → ℕ → ℕ
aligned_size size alignment =
    let mask = (alignment + 2 ^ 64 - 1) % 2 ^ 64 in
    bit_and ((size + mask) % 2 ^ 64) (2 ^ 64 - 1 - mask)

unfoldable pub align : ℕ → Section → Section
unfolding resize aligned_size size
align alignment s =
    let newsize = aligned_size (size s) alignment in
    if size s == newsize then s else record s { output = resize newsize s.output }
