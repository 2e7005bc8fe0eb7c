-- ===== src/Tests/Samples.antt =====
-- A state of the assembler to run the operations on.
use bigassm.Prelude.{ℕ, true, false, none, List, [], ◌∷◌, Bytes, codes}
use bigassm.Types.{Token, bits, tk_constant, tk_operator, tk_register}
use bigassm.Section.{Section}
use bigassm.Assembler.{Assembler}

-- `.text` with an output, a base address and labels that wait.
abbrev pub text_with : Bytes → List Bytes → Section
text_with out labels = record {
  output = out;
  code = true;
  has_data = false;
  resv = false;
  execonly = false;
  readonly = false;
  name = codes ".text";
  idx = 0;
  has_base_address = true;
  label_queue = labels;
  base_address = 0x100000;
}

abbrev pub data_with : List Bytes → Section
data_with labels = record {
  output = [];
  code = false;
  has_data = true;
  resv = false;
  execonly = false;
  readonly = false;
  name = codes ".data";
  idx = 1;
  has_base_address = false;
  label_queue = labels;
  base_address = 0;
}

abbrev pub sample : List Token → Section → Section → Assembler
sample tokens text data_section = record {
  options = record {
    base = 0x100000;
    entry = codes "_start";
    section_attr_page_separation = true;
    verbose_labels = false;
  };
  tokens = tokens;
  index = 0;
  current_section = codes ".text";
  sections = (codes ".text", text) ∷ (codes ".data", data_section) ∷ [];
  lookup = [];
  schedule = [];
  globals = [];
  realpath = none;
}

abbrev pub constant : ℕ → Token
constant n = record { type = tk_constant; line = 1; value = []; payload = bits n }

abbrev pub register : ℕ → Token
register n = record { type = tk_register; line = 1; value = []; payload = bits n }

abbrev pub operator : Bytes → Token
operator s = record { type = tk_operator; line = 1; value = s; payload = bits 0 }
