-- ===== src/Assemble.antt =====
-- src/assemble.cpp: `Assembler::assemble`, the loop over the tokens.
pub mod Termination
pub mod Output
pub mod Addresses
use bigassm.Prelude.{
  ℕ, zero, suc, ◌%◌, true, false, Option, List, [], ◌∷◌, ◌++◌, Bytes, codes, take, ◌==◌,
  if◌then◌else◌,
}
use bigassm.Types.{
  Token, tk_directive, tk_label, tk_opcode, tk_pseudoop, Payload, opcode, pseudoop, assertion,
  runtime_error, undefined, out_of_fuel,
}
use bigassm.Types.Print.{to_string}
use bigassm.Section.{ot_code, add_label_soon}
use bigassm.Assembler.{
  Asm, pure, throw, get, modify, ◌>>=◌, ◌>>◌, next_token, done, on_current, add_output,
  align_with_labels,
}
use bigassm.Host.{Host}
use bigassm.Instr.{Instruction}
use bigassm.Patch.{word_bytes}
use bigassm.Opcodes.Build.{InstructionList}
use bigassm.Opcodes.Handlers.{handler}
use bigassm.PseudoOps.Handlers.{pseudo_handler}
use bigassm.Directive.{directive}

-- `instr.length()`: `2 + 2 * is_long()`
unfoldable pub instr_length : Instruction → ℕ
instr_length i = if i % 4 == 3 then 4 else 2

-- `for (auto instr : il) add_output(OT_CODE, instr.raw, instr.length());`
unfoldable pub output_list : InstructionList → Asm (Unit {0})
unfolding add_output instr_length
output_list [] = pure tt
output_list (i ∷ il) = do add_output ot_code (take (instr_length i) (word_bytes i)); output_list il

unfoldable pub assemble_opcode : Payload → Asm (Unit {0})
unfolding align_with_labels handler output_list
assemble_opcode (opcode o) = do align_with_labels 4; il ← handler o; output_list il
assemble_opcode _ = throw undefined

unfoldable pub assemble_pseudoop : Host → Payload → Asm (Unit {0})
unfolding pseudo_handler
assemble_pseudoop host (pseudoop p) = pseudo_handler host p
assemble_pseudoop host _ = throw undefined

-- The body of the loop.
unfoldable pub assemble_token :
    Host → (List Token → Option Bytes → Asm (Unit {0})) → Token → Asm (Unit {0})
unfolding directive on_current add_label_soon assemble_opcode assemble_pseudoop to_string
assemble_token host assemble token = elim token.type [
  | tk_directive ↦ directive host assemble token
  | tk_label ↦ on_current (add_label_soon token.value)
  | tk_opcode ↦ assemble_opcode token.payload
  | tk_pseudoop ↦ assemble_pseudoop host token.payload
  | _ ↦ throw (runtime_error (codes "Unexpected token: " ++ to_string token))
]

-- `assemble` around its loop: the tokens, the cursor and the path of before come back.
unfoldable pub assemble_with : Asm (Unit {0}) → List Token → Option Bytes → Asm (Unit {0})
assemble_with loop tv rpath = do
  prev ← get
  modify λ a. record a { tokens = tv; index = 0; realpath = rpath }
  a ← get
  if a.options.base % 16 == 0 then pure tt else throw assertion
  loop
  modify λ a. record a { tokens = prev.tokens; index = prev.index; realpath = prev.realpath }

-- The loop, with fuel for its rounds, those of included files among them.
unfoldable pub assemble_loop : Host → ℕ → Asm (Unit {0})
unfolding done next_token assemble_token assemble_with
assemble_loop host zero a = if done a then pure tt a else throw out_of_fuel a
assemble_loop host (suc fuel) a = elim (done a) [
  | true ↦ pure tt a
  | false ↦
      (do
        token ← next_token
        assemble_token host (assemble_with (assemble_loop host fuel)) token
        assemble_loop host fuel)
        a
]

unfoldable pub assemble : Host → ℕ → List Token → Option Bytes → Asm (Unit {0})
unfolding assemble_with assemble_loop
assemble host fuel = assemble_with (assemble_loop host fuel)
