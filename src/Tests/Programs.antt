-- ===== src/Tests/Programs.antt =====
-- Whole programs: the text assembled to the bytes of `.text`.
use Prim.Native.String.{String}
use bigassm.Prelude.{List, none, some, [], ◌∷◌, ◌++◌, Bytes, codes, bytes_eq, if◌then◌else◌}
use bigassm.Types.{Result, ok, err}
use bigassm.Host.{Host}
use bigassm.Main.{Output, main}

-- A system with one file, `a.asm`.
one_file : Bytes → Host
unfolding bytes_eq
one_file text = record {
  fopen = λ name. if bytes_eq name (codes "a.asm") then some (some text) else none;
  get_realpath = λ name. some (codes "/");
}

run : Bytes → Result Output
unfolding main one_file
run text =
    main (one_file text) 1000 (λ symbols. symbols) (codes "asm" ∷ codes "a.asm" ∷ codes "out" ∷ [])

text_of : Bytes → Result Bytes
unfolding run
text_of text = elim (run text) [ ok files ↦ ok files.binary | err e ↦ err e ]

-- Lines of text.
lines : List String → Bytes
lines [] = []
lines (l ∷ ls) = codes l ++ 10 ∷ lines ls

run_tiny : Result Output
unfolding run lines
run_tiny = run (
    lines (
      ".org 0x100020003000400050006000" ∷ ".section .text" ∷ ".global _start" ∷ "_start:"
      ∷ "li sp, -16 ;; comment" ∷ "sq zero, sp+0" ∷ "li a0, 0x666" ∷ "syscall 1" ∷ ".endfunc _start"
      ∷ []))
