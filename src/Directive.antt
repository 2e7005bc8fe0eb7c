-- ===== src/Directive.antt =====
-- src/directive.cpp: `Assembler::directive`. The recursive call of `assemble`, for `.include`, is
-- an argument.
pub mod Steady
use bigassm.Prelude.{
  ◌||◌, true, Option, List, [], ◌∷◌, ◌++◌, Bytes, codes, bytes_eq, length, ltb, if◌then◌else◌,
}
use bigassm.Types.{Token, u64, u128, tk_constant, tk_directive, tk_string, tk_symbol, runtime_error}
use bigassm.Section
use bigassm.Section.{ot_data, align, set_base_address}
use bigassm.Assembler.{
  end_function, set_size, Asm, pure, throw, get, lift, ◌>>=◌, ◌>>◌, next, current, on_current,
  set_section, current_location, align_with_labels, add_output, schedule, symbol_set_type,
  make_global,
}
use bigassm.Host.{Host, load_file}
use bigassm.Tokenizer.Split.{split}
use bigassm.PseudoOps.Handlers.{le_bytes}

unfoldable pub directive_align : Asm (Unit {0})
unfolding next u64 on_current align
directive_align = do tk ← next tk_constant; on_current (align (u64 tk))

unfoldable pub directive_endfunc : Asm (Unit {0})
unfolding next current_location schedule
directive_endfunc = do
  sym ← next tk_symbol
  loc ← current_location
  schedule sym.value (end_function loc)

unfoldable pub directive_global : Asm (Unit {0})
unfolding next make_global
directive_global = do sym ← next tk_symbol; make_global sym.value

module _ (host : Host) (assemble : List Token → Option Bytes → Asm (Unit {0})) where
  unfoldable pub directive_include : Asm (Unit {0})
  unfolding next load_file split
  directive_include = do
    sym ← next tk_string
    a ← get
    contents ← lift (load_file host sym.value a.realpath)
    tokens ← lift (split contents)
    assemble tokens (host.get_realpath sym.value)

unfoldable pub directive_section : Asm (Unit {0})
unfolding next set_section
directive_section = do section ← next tk_directive; set_section section.value

unfoldable pub directive_org : Asm (Unit {0})
unfolding next current on_current set_base_address u128 Section.size
directive_org = do
  ba ← next tk_constant
  s ← current
  if ltb 0 (Section.size s)
      then throw
          (runtime_error (codes "Cannot change base address when instructions already generated"))
      else on_current (set_base_address (u128 ba))

-- STT_OBJECT is 1, STT_FUNC is 2.
unfoldable pub directive_type : Asm (Unit {0})
unfolding next symbol_set_type bytes_eq
directive_type = do
  sym ← next tk_symbol
  info ← next tk_symbol
  if bytes_eq info.value (codes "object")
      then symbol_set_type sym.value 1
      else if bytes_eq info.value (codes "func") || bytes_eq info.value (codes "function")
      then symbol_set_type sym.value 2
      else throw (runtime_error (codes "Unknown type: " ++ info.value))

unfoldable pub directive_size : Asm (Unit {0})
unfolding next current_location align_with_labels schedule add_output
directive_size = do
  sym ← next tk_symbol
  dataloc ← current_location
  align_with_labels 4
  loc ← current_location
  schedule sym.value (set_size loc dataloc)
  add_output ot_data (0 ∷ 0 ∷ 0 ∷ 0 ∷ [])

unfoldable pub directive_string : Asm (Unit {0})
unfolding next align_with_labels add_output
directive_string = do
  str ← next tk_string
  align_with_labels 0
  add_output ot_data (str.value ++ 0 ∷ [])

unfoldable pub directive_strlen : Asm (Unit {0})
unfolding next align_with_labels add_output le_bytes
directive_strlen = do
  str ← next tk_string
  align_with_labels 4
  add_output ot_data (le_bytes 4 (length str.value))

unfoldable pub directive_ascii : Asm (Unit {0})
unfolding next align_with_labels add_output
directive_ascii = do str ← next tk_string; align_with_labels 0; add_output ot_data str.value

unfoldable pub make_execonly : Asm (Unit {0})
unfolding on_current
make_execonly = on_current λ s. record s { execonly = true }

unfoldable pub make_readonly : Asm (Unit {0})
unfolding on_current
make_readonly = on_current λ s. record s { readonly = true }

-- An unknown directive only prints a message.
unfoldable pub directive :
    Host → (List Token → Option Bytes → Asm (Unit {0})) → Token → Asm (Unit {0})
unfolding bytes_eq directive_align directive_endfunc align_with_labels directive_global
    directive_include directive_section directive_org make_execonly make_readonly directive_type
    directive_size directive_string directive_strlen directive_ascii
directive host assemble token =
    let is = λ (name : Bytes). bytes_eq token.value name in
    if is (codes ".align")
    then directive_align
    else if is (codes ".endfunc")
    then directive_endfunc
    else if is (codes ".finish_labels")
    then align_with_labels 0
    else if is (codes ".global")
    then directive_global
    else if is (codes ".include")
    then directive_include host assemble
    else if is (codes ".section")
    then directive_section
    else if is (codes ".org")
    then directive_org
    else if is (codes ".execonly")
    then make_execonly
    else if is (codes ".readonly")
    then make_readonly
    else if is (codes ".type")
    then directive_type
    else if is (codes ".size")
    then directive_size
    else if is (codes ".string")
    then directive_string
    else if is (codes ".strlen")
    then directive_strlen
    else if is (codes ".ascii")
    then directive_ascii
    else pure tt
