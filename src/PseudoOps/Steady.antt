-- ===== src/PseudoOps/Steady.antt =====
-- The handlers of src/pseudo_ops.cpp: each changes the state in steps, or throws.
use bigassm.Prelude.{ℕ, Option, none, some, Bytes, codes, ◌++◌}
use bigassm.Types.{PseudoOp, data_8, err, ok, runtime_error}
use bigassm.Assembler.{lift}
use bigassm.Assembler.Steady.{Steady, monad_rules, throw-Steady, pure-Steady, runtime}
use bigassm.Assembler.Methods.{
  next-Steady, align_with_labels-Steady, add_output-Steady, allocate-Steady,
}
use bigassm.Host.{Host, open_file, load_file}
use bigassm.PseudoOps.Handlers.{
  data_handler, data_8_handler, resv_handler, resv_8_handler, incbin_handler, pseudo_handler,
}

pub load_file-Steady :
    (host : Host) (filename : Bytes) (rpath : Option Bytes)
    → Steady (lift (load_file host filename rpath))
unfolding load_file
load_file-Steady host filename rpath = go (open_file host filename rpath)
  where
    go :
        (f : Option (Option Bytes))
        → Steady (
            lift (elim f [
              | none ↦ err (runtime_error (codes "Could not open file: " ++ filename))
              | some none ↦ err (runtime_error (codes "Error when reading from file: " ++ filename))
              | some (some contents) ↦ ok contents
            ]))
    go none = throw-Steady (runtime _)
    go (some none) = throw-Steady (runtime _)
    go (some (some contents)) = pure-Steady contents

ruleset steps =
    (monad_rules, next-Steady, align_with_labels-Steady, add_output-Steady, allocate-Steady)

data_handler-Steady : (n : ℕ) → Steady (data_handler n)
unfolding data_handler
data_handler-Steady n = search steps depth 8

resv_handler-Steady : (n : ℕ) → Steady (resv_handler n)
unfolding resv_handler
resv_handler-Steady n = search steps depth 8

pub pseudo_handler-Steady : (host : Host) (p : PseudoOp) → Steady (pseudo_handler host p)
unfolding pseudo_handler data_8_handler resv_8_handler incbin_handler
pseudo_handler-Steady host data_8 = search steps depth 8
pseudo_handler-Steady host _ =
    search (steps, data_handler-Steady, resv_handler-Steady, load_file-Steady) depth 9
