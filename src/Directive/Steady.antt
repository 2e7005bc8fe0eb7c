-- ===== src/Directive/Steady.antt =====
-- The directives of src/directive.cpp but `.include`: each changes the state in steps, or throws.
use bigassm.Prelude.{Option, List, Bytes, ◌≡◌, false, codes, bytes_eq, Bool, true, if◌then◌else◌}
use bigassm.Types.{Token}
use bigassm.Assembler.{Asm}
use bigassm.Assembler.Steady.{Steady, monad_rules}
use bigassm.Assembler.Methods.{
  key_rules, next-Steady, current-Steady, on_current-Steady, set_section-Steady,
  current_location-Steady, schedule-Steady, symbol_set_type-Steady, make_global-Steady,
  align_with_labels-Steady, add_output-Steady,
}
use bigassm.Host.{Host}
use bigassm.Directive.{
  directive_align, directive_endfunc, directive_global, directive_section, directive_org,
  directive_type, directive_size, directive_string, directive_strlen, directive_ascii, directive,
}

ruleset steps = (
  monad_rules, key_rules, next-Steady, current-Steady, on_current-Steady, set_section-Steady,
  current_location-Steady, schedule-Steady, symbol_set_type-Steady, make_global-Steady,
  align_with_labels-Steady, add_output-Steady,
)

directive_align-Steady : Steady directive_align
unfolding directive_align
directive_align-Steady = search steps

directive_endfunc-Steady : Steady directive_endfunc
unfolding directive_endfunc
directive_endfunc-Steady = search steps depth 8

directive_global-Steady : Steady directive_global
unfolding directive_global
directive_global-Steady = search steps

directive_section-Steady : Steady directive_section
unfolding directive_section
directive_section-Steady = search steps

directive_org-Steady : Steady directive_org
unfolding directive_org
directive_org-Steady = search steps depth 8

directive_type-Steady : Steady directive_type
unfolding directive_type
directive_type-Steady = search steps depth 8

directive_size-Steady : Steady directive_size
unfolding directive_size
directive_size-Steady = search steps depth 9

directive_string-Steady : Steady directive_string
unfolding directive_string
directive_string-Steady = search steps depth 8

directive_strlen-Steady : Steady directive_strlen
unfolding directive_strlen
directive_strlen-Steady = search steps depth 8

directive_ascii-Steady : Steady directive_ascii
unfolding directive_ascii
directive_ascii-Steady = search steps depth 8

-- Where the test fails, the other branch is what runs.
else-Steady : (t : Bool) (m n : Asm (Unit {0})) → t ≡ false → Steady n → Steady (if t then m else n)
else-Steady true m n e q = absurd cc
else-Steady false m n e q = q

pub directive-Steady :
    (host : Host) (assemble : List Token → Option Bytes → Asm (Unit {0})) (token : Token)
    → bytes_eq token.value (codes ".include") ≡ false
    → Steady (directive host assemble token)
unfolding directive
directive-Steady host assemble token h =
    search
      (
        steps, directive_align-Steady, directive_endfunc-Steady, directive_global-Steady,
        directive_section-Steady, directive_org-Steady, directive_type-Steady,
        directive_size-Steady, directive_string-Steady, directive_strlen-Steady,
        directive_ascii-Steady, else-Steady,
      )
      depth 20
