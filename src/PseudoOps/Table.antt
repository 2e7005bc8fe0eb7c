-- ===== src/PseudoOps/Table.antt =====
-- src/pseudo_ops.cpp: `pseudo_list` and `pseudo_op`.
use bigassm.Prelude.{none, some, [], ◌∷◌, Bytes, codes, Map, find}
use bigassm.Types.{
  PseudoOp, data_8, data_16, data_32, data_64, data_128, resv_8, resv_16, resv_32, resv_64,
  resv_128, incbin, Token, pseudoop, new_token, tk_unspec, tk_pseudoop, tk_symbol,
}

abbrev pub pseudo_list : Map PseudoOp
pseudo_list =
    (codes "db", data_8)
    ∷ (codes "dh", data_16)
    ∷ (codes "dw", data_32)
    ∷ (codes "dd", data_64)
    ∷ (codes "dq", data_128)
    ∷ (codes "resb", resv_8)
    ∷ (codes "resh", resv_16)
    ∷ (codes "resw", resv_32)
    ∷ (codes "resd", resv_64)
    ∷ (codes "resq", resv_128)
    ∷ (codes "incbin", incbin)
    ∷ []

-- `pseudo_op(value)`
unfoldable pub pseudo_op : Bytes → Token
unfolding find new_token
pseudo_op value =
    let tk = record (new_token tk_unspec) { value = value } in
    elim (find value pseudo_list) [
      | some p ↦ record tk { type = tk_pseudoop; payload = pseudoop p }
      | none ↦ record tk { type = tk_symbol }
    ]
