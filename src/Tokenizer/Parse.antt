-- ===== src/Tokenizer/Parse.antt =====
-- src/tokenizer.cpp: `Assembler::parse`, the token of a word.
use bigassm.Prelude.{
  ℕ, ◌-◌, ◌*◌, ◌%◌, ◌^◌, bit_or, Bool, false, ◌&&◌, ◌||◌, none, some, List, [], ◌∷◌, ◌++◌, Bytes,
  codes, bytes_eq, length, get_elem?, take, drop, ltb, leb, ◌==◌, if◌then◌else◌,
}
use bigassm.Prelude.Words.{sext}
use bigassm.Types.{
  Token, RawToken, new_token, set_u64, set_u128, tk_directive, tk_label, tk_string, tk_symbol,
  tk_constant, tk_operator, Result, ok, err, ◌>>=◌, assertion, runtime_error,
}
use bigassm.Types.Print.{is_type}
use bigassm.Tokenizer.Numbers.{stoull, atoi}
use bigassm.Opcodes.Table.{lookup_opcode}
use bigassm.Registers.{to_reg}
use bigassm.PseudoOps.Table.{pseudo_op}

abbrev contains : List Bytes → Bytes → Bool
contains [] word = false
contains (x ∷ xs) word = bytes_eq word x || contains xs word

unfoldable pub is_operator : Bytes → Bool
unfolding bytes_eq
is_operator = contains (
    codes "+"
    ∷ codes "-"
    ∷ codes "*"
    ∷ codes "/"
    ∷ codes "<<"
    ∷ codes ">>"
    ∷ codes "%"
    ∷ codes "|"
    ∷ codes "&"
    ∷ codes "^"
    ∷ codes "~"
    ∷ [])

unfoldable pub is_number : ℕ → Bool
is_number c = c == b'-' || (c == b'+' || (leb b'0' c && leb c b'9'))

-- `word[i] == c`
abbrev pub char_is : Bytes → ℕ → ℕ → Bool
char_is word i c = elim (get_elem? word i) [ some x ↦ x == c | none ↦ false ]

-- `word.back() == c`
abbrev pub back_is : Bytes → ℕ → Bool
back_is word c = char_is word (length word - 1) c

-- `word.substr(1, word.size() - 2)`; the length of a word of one byte wraps to no limit.
abbrev pub unquote : Bytes → Bytes
unquote word = if ltb (length word) 2 then drop 1 word else take (length word - 2) (drop 1 word)

-- The value of a constant token is the word.
abbrev pub constant_token : Bytes → (Token → Token) → Token
constant_token word set = record (set (new_token tk_symbol)) { type = tk_constant; value = word }

-- A number of more than 16 hexadecimal digits: its two halves.
unfoldable pub parse_wide : Bytes → Result ℕ
unfolding stoull
parse_wide word = do
  let upsize = length word - 18
  upper ← stoull 16 (take upsize (drop 2 word))
  lower ← stoull 16 (drop (length word - 16) word)
  ok (bit_or (upper * 2 ^ 64 % 2 ^ 128) lower)

unfoldable pub parse_number : Bytes → Result Token
unfolding stoull atoi parse_wide new_token set_u64 set_u128
parse_number word =
    if ltb 2 (length word) && char_is word 1 b'x'
    then if ltb 18 (length word)
      then (do n ← parse_wide word; ok (constant_token word (set_u128 n)))
      else (do n ← stoull 16 (drop 2 word); ok (constant_token word (set_u64 n)))
    else if ltb 2 (length word) && char_is word 1 b'b'
    then (do n ← stoull 2 (drop 2 word); ok (constant_token word (set_u64 n)))
    else (do n ← atoi word; ok (constant_token word (set_u64 n)))

-- A character constant. A `char` is signed; the value of the token stays empty.
unfoldable pub parse_char : Bytes → Result Token
unfolding new_token set_u64
parse_char word =
    if ltb 2 (length word) && char_is word 2 b'\''
    then elim (get_elem? word 1) [
      | some c ↦ ok (set_u64 (sext 8 64 c) (record (new_token tk_symbol) { type = tk_constant }))
      | none ↦ err assertion
    ]
    else err
        (runtime_error (codes "Invalid character constant: " ++ (word ++ codes ". Missing quote?")))

-- An opcode, a register or a pseudo-op, in this order; else a symbol.
unfoldable pub parse_name : Bytes → Token
unfolding lookup_opcode to_reg pseudo_op is_type
parse_name word =
    let opcode = lookup_opcode word in
    let register = to_reg word in
    if is_type opcode.type tk_symbol
    then if is_type register.type tk_symbol then pseudo_op word else register
    else opcode

unfoldable pub parse_word : Bytes → Result Token
unfolding new_token is_operator is_number parse_char parse_number parse_name
parse_word [] = err assertion
parse_word (c ∷ s) =
    let word = c ∷ s in
    if c == b'.'
    then ok (record (new_token tk_directive) { value = word })
    else if back_is word b':'
    then ok (record (new_token tk_label) { value = take (length word - 1) word })
    else if c == b'"'
    then ok (record (new_token tk_string) { value = unquote word })
    else if c == b'\''
    then parse_char word
    else if is_operator word
    then ok (record (new_token tk_operator) { value = word })
    else if is_number c
    then parse_number word
    else ok (parse_name word)

-- `Assembler::parse(rt)`
unfoldable pub parse : RawToken → Result Token
unfolding parse_word
parse rt = do tk ← parse_word rt.name; ok (record tk { line = rt.line })
