-- ===== src/Registers/Names.antt =====
-- The names of src/registers.cpp as src/tokenizer.cpp reads them.
use bigassm.Prelude.{
  every, every-find, and-true, ℕ, ◌≡◌, ◌<◌, refl, ap, ◌∙◌, Bool, true, false, ◌&&◌, some, Bytes,
  find, bytes_eq, ltb, ltb→lt, arith,
}
use bigassm.Types.{Token, new_token, tk_unspec, tk_symbol, tk_register, i64, set_u64}
use bigassm.Types.Print.{is_type}
use bigassm.Registers.{reg_list, to_reg}
use bigassm.Opcodes.Table.{lookup_opcode}
use bigassm.Tokenizer.Parse.{parse_name}

-- A register's number is below 32, and no opcode has its name.
abbrev register_entry : Bytes → ℕ → Bool
register_entry k n = ltb n 32 && is_type (lookup_opcode k).type tk_symbol

entries : every register_entry reg_list ≡ true
unfolding lookup_opcode is_type find bytes_eq
entries = refl

to_reg-found :
    (name : Bytes) (n : ℕ)
    → find name reg_list ≡ some n
    → to_reg name ≡ set_u64 n (record (new_token tk_unspec) { value = name; type = tk_register })
unfolding to_reg
to_reg-found name n h = rw (to_reg, h) refl

parse_name-to_reg :
    (name : Bytes)
    → is_type (lookup_opcode name).type tk_symbol ≡ true
    → is_type (to_reg name).type tk_symbol ≡ false
    → parse_name name ≡ to_reg name
unfolding parse_name
parse_name-to_reg name e f = rw (parse_name, e, f) refl

register_value :
    (name : Bytes) (n : ℕ)
    → n < 32
    → let tk = set_u64 n (record (new_token tk_unspec) { value = name; type = tk_register }) in
      (is_type tk.type tk_register ≡ true) × (is_type tk.type tk_symbol ≡ false) × (i64 tk ≡ n)
unfolding set_u64 new_token is_type i64
register_value name n h = (refl, refl, omega arith)

-- Every name of the register table is read as a register, with the number that the table has for
-- it, below 32.
pub parse_name-register :
    (name : Bytes) (n : ℕ)
    → find name reg_list ≡ some n
    → (is_type (parse_name name).type tk_register ≡ true) × (i64 (parse_name name) ≡ n) × (n < 32)
parse_name-register name n h =
    let (small, free) = and-true (every-find register_entry reg_list entries h) in
    let (is_reg, no_sym, value) = register_value name n (ltb→lt n 32 small) in
    let found = to_reg-found name n h in
    let parsed : parse_name name ≡ _ =
      parse_name-to_reg name free (ap (λ (tk : Token). is_type tk.type tk_symbol) found ∙ no_sym)
      ∙ found in
    (
      ap (λ (tk : Token). is_type tk.type tk_register) parsed ∙ is_reg,
      ap i64 parsed ∙ value,
      ltb→lt n 32 small,
    )
