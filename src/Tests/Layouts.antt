-- ===== src/Tests/Layouts.antt =====
-- Alignment and labels on samples.
use bigassm.Prelude.{
  ◌+◌, ◌-◌, ◌%◌, ◌^◌, ◌≡◌, ◌≤◌, ◌<◌, refl, none, some, [], ◌∷◌, ◌++◌, Bytes, codes, find, bytes_eq,
  replicate, if◌then◌else◌, arith,
}
use bigassm.Types.{ok}
use bigassm.Section.{Section, size, align, aligned_size}
use bigassm.Section.Align.{aligned_size-least, align-output}
use bigassm.Assembler.{Assembler, align_with_labels, align_section_with_labels}
use bigassm.Assembler.Labels.{
  aligned, contains, end_of, first_known, align_with_labels-binds,
  align_section_with_labels-elsewhere,
}
use bigassm.Tests.Samples.{text_with, data_with, sample}

aligned_size-least_example :
    (aligned_size 5 (2 ^ 3) % 2 ^ 3 ≡ 0)
    × (5 ≤ aligned_size 5 (2 ^ 3))
    × (aligned_size 5 (2 ^ 3) < 5 + 2 ^ 3)
aligned_size-least_example = aligned_size-least 5 3 (omega arith) (omega arith)

abbrev text : Section
text = text_with (1 ∷ 2 ∷ 3 ∷ 4 ∷ 5 ∷ []) (codes "main" ∷ [])

align-output_example : align (2 ^ 2) text ≡ record text {
  output = text.output ++ replicate (aligned_size (size text) (2 ^ 2) - size text) 0;
}
unfolding size
align-output_example = align-output text 2 (omega arith) (omega arith)

abbrev state : Assembler
state = sample [] text (data_with (codes "end" ∷ []))

align_with_labels-binds_example :
    (a' : Assembler) × (align_with_labels 4 state ≡ ok (tt, a'))
    × ((n : Bytes)
        → find n a'.lookup
          ≡ first_known (find n state.lookup) (
              if contains n text.label_queue
              then some (end_of (codes ".text") (aligned 4 text))
              else none))
    × (find (codes ".text") a'.sections ≡ some (record (aligned 4 text) { label_queue = [] }))
unfolding find bytes_eq
align_with_labels-binds_example = align_with_labels-binds 4 state text refl

align_section_with_labels-elsewhere_example :
    (a' : Assembler) × (align_section_with_labels (codes ".data") 1 state ≡ ok (tt, a'))
    × ((n : Bytes)
        → find n a'.lookup
          ≡ first_known
              (find n state.lookup)
              (if contains n (codes "end" ∷ []) then some (end_of (codes ".text") text) else none))
unfolding find bytes_eq
align_section_with_labels-elsewhere_example =
    align_section_with_labels-elsewhere (codes ".data") state (data_with (codes "end" ∷ [])) text
      refl refl
