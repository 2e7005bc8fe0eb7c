-- ===== src/Tests/Assembling.antt =====
-- Scheduled work and data on the sample state.
use bigassm.Prelude.{
  ◌%◌, ◌^◌, ◌≡◌, refl, true, some, [], ◌∷◌, ◌++◌, Bytes, codes, find, bytes_eq, length, arith,
}
use bigassm.Types.{ok, u64}
use bigassm.Types.Print.{is_type}
use bigassm.Section.{Section}
use bigassm.Assembler.{SymbolLocation, Assembler, patch_jump, patch_farcall}
use bigassm.Assembler.Labels.{aligned}
use bigassm.Finish.{finish_scheduled_work}
use bigassm.Finish.Work.{finish_scheduled_work-Shaped}
use bigassm.Instr.Itype
use bigassm.Instr.Utype
use bigassm.Patch.{read_word, word_of, link_farcall}
use bigassm.Patch.Output.{Located, word_in}
use bigassm.Patch.Shape.{Shaped}
use bigassm.Patch.Farcall.{link_farcall-lands}
use bigassm.Rv128.{write, run, jump}
use bigassm.PseudoOps.Handlers.{data_handler}
use bigassm.PseudoOps.Data.{data_handler-appends}
use bigassm.Tests.Samples.{text_with, data_with, sample, constant}

abbrev here : SymbolLocation
here = record { section = codes ".text"; offset = 0; type = 0; size = 0 }

-- `lui t0, 0` and `jalr ra, t0, 0`
abbrev farcall_text : Section
farcall_text = text_with (0xB7 ∷ 0x02 ∷ 0 ∷ 0 ∷ 0xE7 ∷ 0x80 ∷ 0x02 ∷ 0 ∷ []) []

abbrev state : Assembler
state = sample [] farcall_text (data_with [])

farcall_text-Located : Located state here farcall_text 8
unfolding find bytes_eq
farcall_text-Located = record {
  found = refl;
  base = omega arith;
  inside = omega arith;
  bounded = omega arith;
}

link_farcall-lands_example :
    (a' : Assembler) × (s' : Section) × (link_farcall here 0x100ABC state ≡ ok (tt, a'))
    × Located a' here s' 8
    × (let r' = write 5 0x100000 (λ n. 0) in
        (run 0x2000 (word_in here 0 s' ∷ []) (λ n. 0) ≡ some r')
        × (jump 0x2004 (word_in here 4 s') r' ≡ some (0xFFABC, write 1 0x2008 r')))
unfolding Utype.set_rd read_word Itype.set_rd Itype.set_rs1
link_farcall-lands_example =
    link_farcall-lands state here farcall_text 5 0x100ABC 0x2000 (λ n. 0) farcall_text-Located refl
      refl (omega arith) (omega arith) (omega arith) (omega arith)

-- Two closures wait for `main`.
abbrev scheduled : Assembler
scheduled = record state {
  lookup = (codes "main", here) ∷ [];
  schedule = (codes "main", patch_farcall here ∷ patch_jump here ∷ []) ∷ [];
}

finish_scheduled_work-Shaped_example : Shaped scheduled (finish_scheduled_work scheduled)
finish_scheduled_work-Shaped_example = finish_scheduled_work-Shaped scheduled

-- `dw 0x12345678`
abbrev data_state : Assembler
data_state = sample (constant 0x12345678 ∷ []) (text_with (1 ∷ []) (codes "x" ∷ [])) (data_with [])

abbrev text : Section
text = text_with (1 ∷ []) (codes "x" ∷ [])

data_handler-appends_example :
    (bytes : Bytes) × (a' : Assembler) × (data_handler 4 data_state ≡ ok (tt, a'))
    × (find (codes ".text") a'.sections
        ≡ some (record (aligned 4 text) {
          output = (aligned 4 text).output ++ bytes;
          has_data = true;
          label_queue = [];
        }))
    × (length bytes ≡ 4)
    × (word_of bytes ≡ u64 (constant 0x12345678) % 256 ^ 4)
unfolding find bytes_eq is_type
data_handler-appends_example =
    data_handler-appends 4 (constant 0x12345678) [] data_state text refl refl refl
