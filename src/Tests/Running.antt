-- ===== src/Tests/Running.antt =====
-- The loop over the tokens on samples.
use bigassm.Prelude.{◌≡◌, refl, none, some, List, [], ◌∷◌, codes, find, update, bytes_eq, arith}
use bigassm.Types.{Token, tk_label, bits, ok}
use bigassm.Section.{add_label_soon}
use bigassm.Assembler.{Assembler, SymbolLocation, on_current, with_section, next_token, done}
use bigassm.Host.{Host}
use bigassm.Assemble.{assemble, assemble_with, assemble_loop, assemble_token}
use bigassm.Assemble.Termination.{
  NoInclude, no_token, other_token, Restores, begin, assemble-Restores, assemble-find,
}
use bigassm.Tests.Samples.{text_with, data_with, sample}

-- A system without files.
abbrev no_files : Host
no_files = record { fopen = λ name. none; get_realpath = λ name. none }

-- `y:`
abbrev tokens : List Token
tokens = record { type = tk_label; line = 1; value = codes "y"; payload = bits 0 } ∷ []

tokens-NoInclude : NoInclude tokens
tokens-NoInclude = other_token refl no_token

abbrev start : SymbolLocation
start = record { section = codes ".text"; offset = 0; type = 0; size = 0 }

abbrev state : Assembler
state = record (sample [] (text_with (1 ∷ 2 ∷ []) []) (data_with [])) {
  lookup = (codes "_start", start) ∷ [];
}

abbrev after : Assembler
after = record state {
  sections =
      (codes ".text", text_with (1 ∷ 2 ∷ []) (codes "y" ∷ [])) ∷ (codes ".data", data_with []) ∷ [];
}

assembled : assemble no_files 1 tokens none state ≡ ok (tt, after)
unfolding assemble assemble_with assemble_loop assemble_token on_current with_section update
    bytes_eq next_token done add_label_soon
assembled = refl

assemble-Restores_example :
    Restores state (begin tokens none state) (assemble no_files 1 tokens none state)
assemble-Restores_example =
    assemble-Restores no_files 1 tokens none state tokens-NoInclude (omega arith)

assemble-find_example : find (codes "_start") after.lookup ≡ some start
unfolding find bytes_eq
assemble-find_example =
    assemble-find no_files 1 tokens none state after tokens-NoInclude (omega arith) assembled
      (codes "_start") start refl
