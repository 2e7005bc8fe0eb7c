-- ===== src/Registers.antt =====
-- src/registers.cpp: the names of the registers. `Registers::print_all` only prints.
pub mod Names
use bigassm.Prelude.{ℕ, none, some, [], ◌∷◌, Bytes, codes, Map, find}
use bigassm.Types.{Token, new_token, set_u64, tk_unspec, tk_register, tk_symbol}

abbrev pub reg_list : Map ℕ
reg_list =
    (codes "zero", 0)
    ∷ (codes "ra", 1)
    ∷ (codes "sp", 2)
    ∷ (codes "gp", 3)
    ∷ (codes "tp", 4)
    ∷ (codes "t0", 5)
    ∷ (codes "t1", 6)
    ∷ (codes "t2", 7)
    ∷ (codes "fp", 8)
    ∷ (codes "s0", 8)
    ∷ (codes "s1", 9)
    ∷ (codes "a0", 10)
    ∷ (codes "a1", 11)
    ∷ (codes "a2", 12)
    ∷ (codes "a3", 13)
    ∷ (codes "a4", 14)
    ∷ (codes "a5", 15)
    ∷ (codes "a6", 16)
    ∷ (codes "a7", 17)
    ∷ (codes "s2", 18)
    ∷ (codes "s3", 19)
    ∷ (codes "s4", 20)
    ∷ (codes "s5", 21)
    ∷ (codes "s6", 22)
    ∷ (codes "s7", 23)
    ∷ (codes "s8", 24)
    ∷ (codes "s9", 25)
    ∷ (codes "s10", 26)
    ∷ (codes "s11", 27)
    ∷ (codes "t3", 28)
    ∷ (codes "t4", 29)
    ∷ (codes "t5", 30)
    ∷ (codes "t6", 31)
    ∷ (codes "x0", 0)
    ∷ (codes "x1", 1)
    ∷ (codes "x2", 2)
    ∷ (codes "x3", 3)
    ∷ (codes "x4", 4)
    ∷ (codes "x5", 5)
    ∷ (codes "x6", 6)
    ∷ (codes "x7", 7)
    ∷ (codes "x8", 8)
    ∷ (codes "x9", 9)
    ∷ (codes "x10", 10)
    ∷ (codes "x11", 11)
    ∷ (codes "x12", 12)
    ∷ (codes "x13", 13)
    ∷ (codes "x14", 14)
    ∷ (codes "x15", 15)
    ∷ (codes "x16", 16)
    ∷ (codes "x17", 17)
    ∷ (codes "x18", 18)
    ∷ (codes "x19", 19)
    ∷ (codes "x20", 20)
    ∷ (codes "x21", 21)
    ∷ (codes "x22", 22)
    ∷ (codes "x23", 23)
    ∷ (codes "x24", 24)
    ∷ (codes "x25", 25)
    ∷ (codes "x26", 26)
    ∷ (codes "x27", 27)
    ∷ (codes "x28", 28)
    ∷ (codes "x29", 29)
    ∷ (codes "x30", 30)
    ∷ (codes "x31", 31)
    ∷ []

-- `Registers::to_reg(value)`
unfoldable pub to_reg : Bytes → Token
unfolding find new_token set_u64
to_reg value =
    let tk = record (new_token tk_unspec) { value = value } in
    elim (find value reg_list) [
      | some n ↦ set_u64 n (record tk { type = tk_register })
      | none ↦ record tk { type = tk_symbol }
    ]
