-- ===== src/Finish/Work.antt =====
-- `Assembler::finish_scheduled_work` of src/assemble.cpp and the sections' sizes and
-- addresses.
use bigassm.Prelude.{List, [], ◌∷◌, Bytes, Map, find, Option-cases, inl, inr}
use bigassm.Assembler.{Scheduled, Assembler}
use bigassm.Patch.Shape.{SameShape-refl, Shaped, shaped, failed, bind-Shaped}
use bigassm.Patch.Closures.{run_scheduled-Shaped}
use bigassm.Finish.{run_all, finish_scheduled_loop, finish_scheduled_work}

run_all-Shaped :
    (ops : List Scheduled) (name : Bytes) (a : Assembler) → Shaped a (run_all ops name a)
unfolding run_all
run_all-Shaped [] name a = shaped tt a (SameShape-refl a)
run_all-Shaped (op ∷ ops) name a =
    bind-Shaped _ (run_scheduled-Shaped op name a) λ u b. run_all-Shaped ops name b

finish_scheduled_loop-Shaped :
    (m : Map (List Scheduled)) (a : Assembler) → Shaped a (finish_scheduled_loop m a)
unfolding finish_scheduled_loop
finish_scheduled_loop-Shaped [] a = shaped tt a (SameShape-refl a)
finish_scheduled_loop-Shaped ((name, ops) ∷ rest) a = elim (Option-cases (find name a.lookup)) [
  | inl e ↦ rw (finish_scheduled_loop, e) (failed _)
  | inr (sym, e) ↦
      rw (finish_scheduled_loop, e)
        (bind-Shaped _ (run_all-Shaped ops name a) λ u b. finish_scheduled_loop-Shaped rest b)
]

-- The scheduled work, all of it, throws, or keeps the options, every symbol's section and offset, and
-- of every section all but the bytes of its output, whose number it keeps; it adds and removes none.
pub finish_scheduled_work-Shaped : (a : Assembler) → Shaped a (finish_scheduled_work a)
unfolding finish_scheduled_work
finish_scheduled_work-Shaped a = finish_scheduled_loop-Shaped a.schedule a
