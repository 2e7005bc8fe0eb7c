-- ===== src/Tests/Parsing.antt =====
-- `resolve_constants` of src/assemble.cpp, `to_hex` of src/hex128.cpp and `split` of
-- src/raw_split.cpp on samples.
use bigassm.Prelude.{
  ℕ, length, ◌+◌, ◌-◌, ◌*◌, ◌/◌, ◌%◌, ◌^◌, ◌≤◌, Bytes, ◌≡◌, ◌≢◌, refl, List, [], ◌∷◌, ◌++◌, codes,
  bytes_eq, find, true, ◌<◌, arith,
}
use bigassm.Types.{Token, ok, err, out_of_fuel, token_exception, tk_register, i64, u128}
use bigassm.Types.Print.{is_type}
use bigassm.Assembler.{Assembler, and_then}
use bigassm.Constants.{add, apply_op, read_op, resolve_constants}
use bigassm.Constants.Termination.{advance, resolve_constants-Answers}
use bigassm.Constants.Chains.{resolve_constants-refuses}
use bigassm.Constants.Operators.{plus, fold_operator, Resolves, behind, resolve_constants-computes}
use bigassm.Tokenizer.Parse.{parse_name}
use bigassm.Registers.Names.{parse_name-register}
use bigassm.Hex.{to_hex}
use bigassm.Hex.Digits.{read_hex, to_hex-reads}
use bigassm.Tokenizer.Words.{
  outside, Plain, AllPlain, plain_byte, no_word, spaced, text_of, parse_words, split-parse_words,
}
use bigassm.Tokenizer.Split.{start, split_loop, split}
use bigassm.Tokenizer.Strings.{NoBackslash, other_byte, quoted, string_token, split_loop-quoted}
use bigassm.Tokenizer.Comments
use bigassm.Tokenizer.Comments.{line_end, split_loop-comment}
use bigassm.Tokenizer.Backslash.{split_loop-NoBackslash}
use bigassm.Tests.Samples.{text_with, data_with, sample, constant, register, operator}

abbrev state : List Token → Assembler
state tokens = sample tokens (text_with [] []) (data_with [])

-- `1 + 2 3`, in front of a register
abbrev sum : Assembler
sum = state (constant 1 ∷ operator (codes "+") ∷ constant 2 ∷ constant 3 ∷ register 10 ∷ [])

resolve_constants-computes_example :
    Resolves
      (behind 4 sum)
      (resolve_constants sum)
      (fold_operator (λ x y. ok (x + y)) (u128 (constant 1)) (constant 2 ∷ constant 3 ∷ []))
unfolding is_type
resolve_constants-computes_example =
    resolve_constants-computes (λ x y. ok (x + y)) (constant 1) (operator (codes "+"))
      (constant 2 ∷ constant 3 ∷ []) (register 10 ∷ []) sum refl refl refl plus refl refl

-- `1 + 2 + 3`
abbrev sum_of_three : Assembler
sum_of_three =
    state (constant 1 ∷ operator (codes "+") ∷ constant 2 ∷ operator (codes "+") ∷ constant 3 ∷ [])

resolve_constants-refuses_example :
    resolve_constants sum_of_three
    ≡ and_then
        (apply_op add
          (constant 2)
          (u128 (constant 1))
          (u128 (constant 2))
          (advance (advance (advance sum_of_three))))
        λ v b. err (token_exception (operator (codes "+")) (codes "Unexpected operator"))
unfolding is_type bytes_eq read_op
resolve_constants-refuses_example =
    resolve_constants-refuses add (constant 1) (operator (codes "+")) (constant 2)
      (operator (codes "+")) (constant 3 ∷ []) sum_of_three refl refl refl refl refl refl refl refl
      refl

resolve_constants-Answers_example : resolve_constants sum ≢ err out_of_fuel
resolve_constants-Answers_example = resolve_constants-Answers sum

to_hex-reads_example :
    (read_hex 0 (to_hex 0x123456789ABCDEF).1 ≡ 0x123456789ABCDEF)
    × (length (to_hex 0x123456789ABCDEF).1 ≡ (to_hex 0x123456789ABCDEF).0)
    × ((to_hex 0x123456789ABCDEF).0 % 2 ≡ 0)
    × (8 ≤ (to_hex 0x123456789ABCDEF).0)
    × ((to_hex 0x123456789ABCDEF).0 ≤ 32)
    × (8 < (to_hex 0x123456789ABCDEF).0
        → 2 ^ (((to_hex 0x123456789ABCDEF).0 / 2 - 1) * 8) ≤ 0x123456789ABCDEF)
to_hex-reads_example = to_hex-reads 0x123456789ABCDEF (omega arith)

parse_name-register_example :
    (is_type (parse_name (codes "sp")).type tk_register ≡ true)
    × (i64 (parse_name (codes "sp")) ≡ 2)
    × (2 < 32)
unfolding find bytes_eq
parse_name-register_example = parse_name-register (codes "sp") 2 refl

letter-Plain : (c : ℕ) → 97 ≤ c → c < 123 → Plain c
letter-Plain c lo hi = record {
  comment = λ e. absurd (omega arith);
  escape = λ e. absurd (omega arith);
  plus = λ e. absurd (omega arith);
  minus = λ e. absurd (omega arith);
  times = λ e. absurd (omega arith);
  quote = λ e. absurd (omega arith);
  blank = ground arith;
}

word-AllPlain : AllPlain (codes "li")
word-AllPlain =
    plain_byte (letter-Plain b'l' (omega arith) (omega arith))
      (plain_byte (letter-Plain b'i' (omega arith) (omega arith)) AllPlain.no_byte)

-- "li", an empty line, and "li" again
abbrev two_words : List (Bytes × ℕ)
two_words = (codes "li", 10) ∷ ([], 10) ∷ []

split-parse_words_example :
    split (text_of two_words (codes "li")) ≡ parse_words 1 two_words (codes "li")
split-parse_words_example =
    split-parse_words two_words (codes "li")
      (spaced word-AllPlain refl (spaced AllPlain.no_byte refl no_word)) word-AllPlain

-- The string of `l`, a quote and a newline, and a word behind it
split_loop-quoted_example :
    split_loop (quoted (codes "l\"\n") ++ codes "a") (outside [] [] 3)
    ≡ split_loop (codes "a") (outside ([] ++ string_token (codes "l\"\n") 3 ∷ []) [] 3)
split_loop-quoted_example = split_loop-quoted (codes "l\"\n") (codes "a") [] 3 (
    other_byte (λ e. absurd (omega (arith, e)))
      (other_byte (λ e. absurd (omega (arith, e)))
        (other_byte (λ e. absurd (omega (arith, e))) NoBackslash.no_byte)))

-- A comment behind a word that it does not end: `1`, a comment, and `add` in the next line
split_loop-comment_example :
    split_loop (b';' ∷ codes "c" ++ 10 ∷ codes "add") (outside [] (codes "1") 1)
    ≡ split_loop (codes "add") (outside [] (codes "1") 2)
split_loop-comment_example =
    split_loop-comment (codes "c") (codes "add") [] (codes "1") 1
      (Comments.other_byte (λ e. absurd (omega (arith, e))) line_end)

-- `a`, and a backslash that another one escapes
split_loop-NoBackslash_example : NoBackslash (b'a' ∷ [])
unfolding split_loop start
split_loop-NoBackslash_example =
    split_loop-NoBackslash (b'a' ∷ b'\\' ∷ b'\\' ∷ []) start
      (record start { word = b'a' ∷ []; begin_escape = true }) NoBackslash.no_byte refl
