-- ===== src/Host.antt =====
-- What the program takes from the system: files and paths; `load_file` of src/main.cpp over them.
use bigassm.Prelude.{Option, none, some, ◌++◌, Bytes, codes}
use bigassm.Types.{Result, ok, err, runtime_error}

-- An open file has its contents, or `none` where reading it fails.
pub record Host : Type 0 where
  pub fopen : Bytes → Option (Option Bytes)
  -- `get_realpath(path)`: `realpath(dirname(path), NULL)`, `none` for NULL
  pub get_realpath : Bytes → Option Bytes

module _ (host : Host) where
  abbrev open_relative : Bytes → Option Bytes → Option (Option Bytes)
  open_relative filename none = none
  open_relative filename (some rpath) = host.fopen (rpath ++ (codes "/" ++ filename))

  abbrev pub open_file : Bytes → Option Bytes → Option (Option Bytes)
  open_file filename rpath = elim (host.fopen filename) [
    | some f ↦ some f
    | none ↦ open_relative filename rpath
  ]

  unfoldable pub load_file : Bytes → Option Bytes → Result Bytes
  load_file filename rpath = elim (open_file filename rpath) [
    | none ↦ err (runtime_error (codes "Could not open file: " ++ filename))
    | some none ↦ err (runtime_error (codes "Error when reading from file: " ++ filename))
    | some (some contents) ↦ ok contents
  ]
