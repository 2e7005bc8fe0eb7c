-- ===== src/Assemble/Addresses.antt =====
-- OP_LA of src/opcodes.cpp from its tokens to the registers: the handler, the output of its
-- instructions, and the closure that it has scheduled; and the handler of OP_LAQ.
use bigassm.Prelude.{
  codes, bytes_eq, ℕ, ◌+◌, ◌^◌, ◌≡◌, ◌<◌, refl, ap, ◌∙◌, sym, true, some, List, [], ◌∷◌, ◌++◌,
  Bytes, length, Map, find, update, emplace, arith,
}
use bigassm.Types.{Token, ok, err, undefined, tk_register, tk_symbol, i64, op_la, op_laq}
use bigassm.Types.Print.{is_type}
use bigassm.Section.{Section, size}
use bigassm.Assembler.{
  SymbolLocation, Scheduled, patch_la, patch_laq, Assembler, ◌>>=◌, and_then, current_location,
}
use bigassm.Constants.Termination.{advance}
use bigassm.Constants.Ahead.{ahead, next_here, drop-suc}
use bigassm.Rv128.{Registers, write, run}
use bigassm.Opcodes.Build.Load.{build_uint32-overflows}
use bigassm.Opcodes.Jumps
use bigassm.Opcodes.Jumps.{schedule_here}
use bigassm.Opcodes.Handlers.{handler}
use bigassm.Patch.{link_la}
use bigassm.Patch.Output.{Located, word_in, words}
use bigassm.Patch.LoadAddress.{la_high, la_low, IsNear, link_la-loads}
use bigassm.Assemble.{output_list}
use bigassm.Opcodes.Words.{handler-AreWords}
use bigassm.Assemble.Output.{output_list-reads}

-- The current location, and the work behind what was scheduled for a symbol.
abbrev pub here_in : Assembler → Section → SymbolLocation
here_in a s = record { section = a.current_section; offset = length s.output; type = 0; size = 0 }

abbrev pub scheduled : Bytes → Scheduled → Map (List Scheduled) → Map (List Scheduled)
scheduled sym op m = update sym (λ ops. ops ++ op ∷ []) (emplace sym [] m)

schedule_here-runs :
    (label : Token) (op : SymbolLocation → Scheduled) (a : Assembler) (s : Section)
    → find a.current_section a.sections ≡ some s
    → schedule_here label op a
      ≡ ok (tt, record a { schedule = scheduled label.value (op (here_in a s)) a.schedule })
unfolding schedule_here current_location size
schedule_here-runs label op a s found = rw (schedule_here, current_location, found) refl

-- The state behind the handler.
abbrev pub la_state : Token → Assembler → Section → Assembler
la_state label a s = record (advance (advance a)) {
  schedule = scheduled label.value (patch_la (here_in a s)) a.schedule;
}

op_la-runs :
    (reg label : Token) (rest : List Token) (a : Assembler) (s : Section)
    → ahead a ≡ reg ∷ label ∷ rest
    → is_type reg.type tk_register ≡ true
    → is_type label.type tk_symbol ≡ true
    → find a.current_section a.sections ≡ some s
    → Jumps.op_la a ≡ ok (la_high (i64 reg) ∷ la_low (i64 reg) ∷ [], la_state label a s)
unfolding Jumps.op_la
op_la-runs reg label rest a s h rt lt found =
    rw
      (
        Jumps.op_la,
        next_here a h tk_register rt,
        next_here (advance a) (drop-suc a.index a.tokens h) tk_symbol lt,
        schedule_here-runs label patch_la (advance (advance a)) s found,
      )
      refl

-- From two registers and a symbol, and with a current section, OP_LAQ is undefined.
pub op_laq-undefined :
    (dst temp label : Token) (rest : List Token) (a : Assembler) (s : Section)
    → ahead a ≡ dst ∷ temp ∷ label ∷ rest
    → is_type dst.type tk_register ≡ true
    → is_type temp.type tk_register ≡ true
    → is_type label.type tk_symbol ≡ true
    → find a.current_section a.sections ≡ some s
    → handler op_laq a ≡ err undefined
unfolding handler Jumps.op_laq
op_laq-undefined dst temp label rest a s h dt tt' lt found =
    let h₁ = drop-suc a.index a.tokens h in
    let h₂ = drop-suc (advance a).index a.tokens h₁ in
    let undef = λ (b : Assembler).
      build_uint32-overflows [] (i64 dst) 0x7FFFFFFF b (omega arith) (omega arith) in
    rw
      (
        Jumps.op_laq,
        next_here a h tk_register dt,
        next_here (advance a) h₁ tk_register tt',
        next_here (advance (advance a)) h₂ tk_symbol lt,
        schedule_here-runs label patch_laq (advance (advance (advance a))) s found,
        undef,
      )
      refl

-- From a register of 1 to 31 and a symbol, and with a current section that stays below 2 ^ 64
-- bytes, OP_LA takes the two tokens, schedules its closure for the symbol at the current location,
-- and its two instructions are output there. The closure then succeeds for any target that is near
-- to the address that the location is given, both below 2 ^ 128; run by the RV128I specification
-- from that address, the two words put the target into the register and change no other.
pub op_la-loads :
    (reg label : Token) (rest : List Token) (a : Assembler) (s : Section) (here target : ℕ)
    (r : Registers)
    → ahead a ≡ reg ∷ label ∷ rest
    → is_type reg.type tk_register ≡ true
    → is_type label.type tk_symbol ≡ true
    → find a.current_section a.sections ≡ some s
    → s.base_address < 2 ^ 128
    → length s.output + 8 < 2 ^ 64
    → 0 < i64 reg
    → i64 reg < 32
    → target < 2 ^ 128
    → here < 2 ^ 128
    → IsNear target here
    → (b c : Assembler) × (t : Section) × ((handler op_la >>= output_list) a ≡ ok (tt, b))
      × (b.schedule ≡ scheduled label.value (patch_la (here_in a s)) a.schedule)
      × (link_la (here_in a s) target here b ≡ ok (tt, c))
      × (find a.current_section c.sections ≡ some t)
      × (run here (words (here_in a s) 2 0 t) r ≡ some (write (i64 reg) target r))
unfolding handler find bytes_eq
op_la-loads reg label rest a s here target r h rt lt found hb room h₀ hr ht hh near =
    let ran = op_la-runs reg label rest a s h rt lt found in
    let loc = here_in a s in
    let (b, u, e, fu, ws, len, base, sch, lk) =
      output_list-reads (la_high (i64 reg) ∷ la_low (i64 reg) ∷ []) (la_state label a s) s loc
        (handler-AreWords (codes "la") op_la a (la_state label a s) _ refl ran) found refl refl in
    let l : Located b loc u 8 = record {
      found = fu;
      base = omega (arith, base);
      inside = omega (arith, len);
      bounded = omega (arith, len);
    } in
    let first : word_in loc 0 u ≡ la_high (i64 reg) = cc in
    let second : word_in loc 4 u ≡ la_low (i64 reg) = cc in
    let (c, t, e', l', runs) =
      link_la-loads b loc (i64 reg) target here l first second hr h₀ ht hh near r in
    (b, c, t, ap (λ x. and_then x output_list) ran ∙ e, sch, e', l'.found, runs)
