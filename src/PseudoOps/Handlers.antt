-- ===== src/PseudoOps/Handlers.antt =====
-- src/pseudo_ops.cpp: the handlers. An object is output as its bytes in memory, the lowest first.
use bigassm.Prelude.{ℕ, zero, suc, ◌*◌, ◌/◌, ◌%◌, ◌^◌, [], ◌∷◌, Bytes}
use bigassm.Types.{
  PseudoOp, data_8, data_16, data_32, data_64, data_128, resv_8, resv_16, resv_32, resv_64,
  resv_128, incbin, u64, tk_constant, tk_string,
}
use bigassm.Section.{ot_data}
use bigassm.Assembler.{Asm, get, lift, ◌>>=◌, ◌>>◌, next, align_with_labels, add_output, allocate}
use bigassm.Host.{Host, load_file}

-- The `n` bytes of a number in memory.
unfoldable pub le_bytes : ℕ → ℕ → Bytes
le_bytes zero v = []
le_bytes (suc n) v = (v % 256) ∷ le_bytes n (v / 256)

-- DATA_16 to DATA_128: `n` bytes of the constant's `u64`, aligned to their number.
unfoldable pub data_handler : ℕ → Asm (Unit {0})
unfolding next align_with_labels add_output u64 le_bytes
data_handler n = do
  constant ← next tk_constant
  align_with_labels n
  add_output ot_data (le_bytes n (u64 constant))

-- DATA_8 takes no part of the queue of labels.
unfoldable pub data_8_handler : Asm (Unit {0})
unfolding next add_output u64 le_bytes
data_8_handler = do constant ← next tk_constant; add_output ot_data (le_bytes 1 (u64 constant))

-- RESV_16 to RESV_128; the product is a `size_t`.
unfoldable pub resv_handler : ℕ → Asm (Unit {0})
unfolding next align_with_labels allocate u64
resv_handler n = do times ← next tk_constant; align_with_labels n; allocate (u64 times * n % 2 ^ 64)

unfoldable pub resv_8_handler : Asm (Unit {0})
unfolding next allocate u64
resv_8_handler = do times ← next tk_constant; allocate (u64 times)

unfoldable pub incbin_handler : Host → Asm (Unit {0})
unfolding next load_file align_with_labels add_output
incbin_handler host = do
  filename ← next tk_string
  a ← get
  contents ← lift (load_file host filename.value a.realpath)
  align_with_labels 1
  add_output ot_data contents

-- `token.pseudoop->handler`
unfoldable pub pseudo_handler : Host → PseudoOp → Asm (Unit {0})
unfolding data_handler data_8_handler resv_handler resv_8_handler incbin_handler
pseudo_handler host data_8 = data_8_handler
pseudo_handler host data_16 = data_handler 2
pseudo_handler host data_32 = data_handler 4
pseudo_handler host data_64 = data_handler 8
pseudo_handler host data_128 = data_handler 16
pseudo_handler host resv_8 = resv_8_handler
pseudo_handler host resv_16 = resv_handler 2
pseudo_handler host resv_32 = resv_handler 4
pseudo_handler host resv_64 = resv_handler 8
pseudo_handler host resv_128 = resv_handler 16
pseudo_handler host incbin = incbin_handler host
