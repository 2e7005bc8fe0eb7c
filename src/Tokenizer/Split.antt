-- ===== src/Tokenizer/Split.antt =====
-- src/raw_split.cpp: `Assembler::split`, the words of a text.
use bigassm.Prelude.{
  ℕ, ◌+◌, ◌%◌, ◌^◌, Bool, true, false, not, ◌&&◌, ◌||◌, List, [], ◌∷◌, ◌++◌, Bytes, ◌==◌,
  if◌then◌else◌,
}
use bigassm.Types.{Token, Result, ok, ◌>>=◌}
use bigassm.Tokenizer.Parse.{parse}

-- An unknown character stands for itself; the code prints a message too.
unfoldable pub escape_character : ℕ → ℕ
escape_character c =
    if c == b'n'
    then 10
    else if c == b'r'
    then 13
    else if c == b't'
    then 9
    else if c == b'b'
    then 8
    else if c == b'0'
    then 0
    else c

-- The variables of the loop.
pub record Splitter : Type 0 where
  pub tokens : List Token
  pub word : Bytes
  pub line : ℕ
  pub begin_quotes : Bool
  pub begin_comment : Bool
  pub begin_escape : Bool

unfoldable pub start : Splitter
start = record {
  tokens = [];
  word = [];
  line = 1;
  begin_quotes = false;
  begin_comment = false;
  begin_escape = false;
}

-- `tokens.push_back(Assembler::parse({word, line})); word.clear();`
unfoldable pub push_word : Splitter → Result Splitter
push_word s = do
  tk ← parse (record { name = s.word; line = s.line })
  ok (record s { tokens = s.tokens ++ tk ∷ []; word = [] })

-- `FLUSH_WORD()`
unfoldable pub flush_word : Splitter → Result Splitter
unfolding push_word
flush_word s = elim s.word [ [] ↦ ok s | c ∷ cs ↦ push_word s ]

abbrev pub append_char : ℕ → Splitter → Splitter
append_char c s = record s { word = s.word ++ c ∷ [] }

-- `line++`, of a `uint32_t`
abbrev pub next_line : Splitter → Splitter
next_line s = record s { line = (s.line + 1) % 2 ^ 32 }

unfoldable pub split_quoted : ℕ → Bool → Splitter → Result Splitter
unfolding push_word
split_quoted c is_escaped s =
    if c == b'\\'
    then ok (record s { begin_escape = true })
    else if c == b'"' && not is_escaped
    then (do s' ← push_word (append_char c s); ok (record s' { begin_quotes = false }))
    else ok (append_char c s)

unfoldable pub split_comment : ℕ → Splitter → Splitter
split_comment c s = if c == 10 then next_line (record s { begin_comment = false }) else s

abbrev pub is_blank : ℕ → Bool
is_blank c = c == b',' || (c == b' ' || (c == 9 || (c == 10 || c == 13)))

unfoldable pub split_plain : ℕ → Splitter → Result Splitter
unfolding flush_word
split_plain c s =
    if c == b';'
    then ok (record s { begin_comment = true })
    else if c == b'\\'
    then ok (record s { begin_escape = true })
    else if c == b'+' || (c == b'-' || c == b'*')
    then (do s' ← flush_word s; ok (append_char c s'))
    else if is_blank c
    then (do s' ← flush_word s; ok (if c == 10 then next_line s' else s'))
    else ok (append_char c (if c == b'"' then record s { begin_quotes = true } else s))

-- One round of the loop.
unfoldable pub split_char : ℕ → Splitter → Result Splitter
unfolding escape_character split_quoted split_comment split_plain
split_char ch s =
    let is_escaped = s.begin_escape in
    let c = if is_escaped then escape_character ch else ch in
    let s' = record s { begin_escape = false } in
    if s.begin_quotes
    then split_quoted c is_escaped s'
    else if s.begin_comment
    then ok (split_comment c s')
    else split_plain c s'

unfoldable pub split_loop : Bytes → Splitter → Result Splitter
unfolding split_char
split_loop [] s = ok s
split_loop (c ∷ cs) s = do s' ← split_char c s; split_loop cs s'

unfoldable pub split : Bytes → Result (List Token)
unfolding split_loop start flush_word
split text = do s ← split_loop text start; s' ← flush_word s; ok s'.tokens
