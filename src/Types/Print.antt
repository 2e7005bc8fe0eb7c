-- ===== src/Types/Print.antt =====
-- src/token.cpp: the texts of tokens.
use bigassm.Prelude.{
  ℕ, zero, suc, ◌+◌, ◌-◌, ◌/◌, ◌%◌, ◌^◌, [], ◌∷◌, ltb, if◌then◌else◌, Bytes, codes, ◌++◌, Bool,
  true, false,
}
use bigassm.Types.{
  TokenType, tk_directive, tk_label, tk_string, tk_symbol, tk_opcode, tk_pseudoop, tk_register,
  tk_constant, tk_operator, tk_unspec, Token,
}

-- The equality of token types that `tk.type == T` tests.
unfoldable pub is_type : TokenType → TokenType → Bool
is_type tk_directive tk_directive = true
is_type tk_label tk_label = true
is_type tk_string tk_string = true
is_type tk_symbol tk_symbol = true
is_type tk_opcode tk_opcode = true
is_type tk_pseudoop tk_pseudoop = true
is_type tk_register tk_register = true
is_type tk_constant tk_constant = true
is_type tk_operator tk_operator = true
is_type tk_unspec tk_unspec = true
is_type _ _ = false

-- `Token::to_string(TokenType)`; the last case appends `std::to_string(tt)`
unfoldable pub type_to_string : TokenType → Bytes
type_to_string tk_directive = codes "[Directive]"
type_to_string tk_label = codes "[Label]"
type_to_string tk_string = codes "[String]"
type_to_string tk_opcode = codes "[Opcode]"
type_to_string tk_register = codes "[Register]"
type_to_string tk_symbol = codes "[Symbol]"
type_to_string tk_constant = codes "[Constant]"
type_to_string tk_pseudoop = codes "Unknown token: 5"
type_to_string tk_operator = codes "Unknown token: 8"
type_to_string tk_unspec = codes "Unknown token: 9"

-- `Token::to_string() const`
unfoldable pub to_string : Token → Bytes
unfolding type_to_string
to_string t = type_to_string t.type ++ codes " " ++ t.value

abbrev digits_of : ℕ → ℕ → Bytes → Bytes
digits_of zero n acc = acc
digits_of (suc fuel) n acc =
    let rest = digits_of fuel (n / 10) ((b'0' + n % 10) ∷ acc) in
    if ltb n 10 then (b'0' + n % 10) ∷ acc else rest

-- `std::to_string` of an `int64_t`, which has 19 digits at most
unfoldable pub int_to_string : ℕ → Bytes
int_to_string x = if ltb x (2 ^ 63) then digits_of 20 x [] else b'-' ∷ digits_of 20 (2 ^ 64 - x) []
