-- ===== src/Tokenizer/Comments.antt =====
-- `Assembler::split` of src/raw_split.cpp on comments.
use bigassm.Prelude.{ℕ, ◌+◌, ◌%◌, ◌^◌, ◌≡◌, ◌≢◌, refl, ap, ◌∙◌, List, [], ◌∷◌, ◌++◌, Bytes, true}
use bigassm.Types.{Token, Result, ok, ◌>>=◌}
use bigassm.Tokenizer.Split.{Splitter, split_comment, split_plain, split_char, split_loop}
use bigassm.Tokenizer.Words.{outside, unequal}

-- The rest of a line.
pub data NoNewline : Bytes → Type 0 where
  line_end : NoNewline []
  other_byte : {c : ℕ} {cs : Bytes} → c ≢ 10 → NoNewline cs → NoNewline (c ∷ cs)

-- The loop's variables inside of a comment.
abbrev in_comment : List Token → Bytes → ℕ → Splitter
in_comment tokens word line = record (outside tokens word line) { begin_comment = true }

split_char-in_comment :
    (c : ℕ) (tokens : List Token) (word : Bytes) (line : ℕ)
    → c ≢ 10
    → split_char c (in_comment tokens word line) ≡ ok (in_comment tokens word line)
unfolding split_char split_comment
split_char-in_comment c tokens word line h = rw (split_comment, unequal c 10 h) refl

split_loop-in_comment :
    (text rest : Bytes) (tokens : List Token) (word : Bytes) (line : ℕ)
    → NoNewline text
    → split_loop (text ++ 10 ∷ rest) (in_comment tokens word line)
      ≡ split_loop rest (outside tokens word ((line + 1) % 2 ^ 32))
unfolding split_loop
split_loop-in_comment [] rest tokens word line line_end = refl
split_loop-in_comment (c ∷ text) rest tokens word line (other_byte h hs) =
    ap (λ (r : Result Splitter). r >>= split_loop (text ++ 10 ∷ rest))
      (split_char-in_comment c tokens word line h)
    ∙ split_loop-in_comment text rest tokens word line hs

-- Outside of strings, a comment and its newline count one line and make no token; they do not end
-- the word in front of them, which goes on behind them.
pub split_loop-comment :
    (text rest : Bytes) (tokens : List Token) (word : Bytes) (line : ℕ)
    → NoNewline text
    → split_loop (b';' ∷ text ++ 10 ∷ rest) (outside tokens word line)
      ≡ split_loop rest (outside tokens word ((line + 1) % 2 ^ 32))
unfolding split_loop split_char split_plain
split_loop-comment text rest tokens word line h = split_loop-in_comment text rest tokens word line h
