-- ===== src/Tokenizer/Words.antt =====
-- `Assembler::split` of src/raw_split.cpp on a text of plain words and blanks.
use bigassm.Prelude.{
  ℕ, ◌+◌, ◌%◌, ◌^◌, ◌≡◌, ◌≢◌, refl, sym, ap, ◌∙◌, Bool, true, false, List, [], ◌∷◌, ◌++◌, Bytes,
  ◌==◌, if◌then◌else◌, arith,
}
use mathlib.Core.List.{append_assoc, append-nil}
use bigassm.Types.{Token, Result, ok, err, ◌>>=◌}
use bigassm.Tokenizer.Parse.{parse}
use bigassm.Tokenizer.Split.{
  Splitter, start, push_word, flush_word, next_line, is_blank, split_plain, split_char, split_loop,
  split,
}

-- A byte that neither separates words nor begins a string, a comment, an escape or an operator.
pub record Plain (c : ℕ) : Type 0 where
  pub comment : c ≢ b';'
  pub escape : c ≢ b'\\'
  pub plus : c ≢ b'+'
  pub minus : c ≢ b'-'
  pub times : c ≢ b'*'
  pub quote : c ≢ b'"'
  pub blank : is_blank c ≡ false

pub data AllPlain : Bytes → Type 0 where
  no_byte : AllPlain []
  plain_byte : {c : ℕ} {cs : Bytes} → Plain c → AllPlain cs → AllPlain (c ∷ cs)

-- Words, empty where blanks follow each other, each with the blank behind it.
pub data Spaced : List (Bytes × ℕ) → Type 0 where
  no_word : Spaced []
  spaced :
      {w : Bytes} {b : ℕ} {ws : List (Bytes × ℕ)}
      → AllPlain w
      → is_blank b ≡ true
      → Spaced ws
      → Spaced ((w, b) ∷ ws)

-- The text of the words and a last one.
abbrev pub text_of : List (Bytes × ℕ) → Bytes → Bytes
text_of [] last = last
text_of ((w, b) ∷ ws) last = w ++ b ∷ text_of ws last

-- The token of a word, if it is one.
abbrev pub word_token : Bytes → ℕ → Result (List Token)
word_token [] line = ok []
word_token (c ∷ cs) line = do tk ← parse (record { name = c ∷ cs; line = line }); ok (tk ∷ [])

abbrev pub line_after : ℕ → ℕ → ℕ
line_after b line = if b == 10 then (line + 1) % 2 ^ 32 else line

-- The words parsed in turn, each with the number of its line.
abbrev pub parse_words : ℕ → List (Bytes × ℕ) → Bytes → Result (List Token)
parse_words line [] last = word_token last line
parse_words line ((w, b) ∷ ws) last = do
  tks ← word_token w line
  more ← parse_words (line_after b line) ws last
  ok (tks ++ more)

-- The loop's variables outside of strings and comments.
abbrev pub outside : List Token → Bytes → ℕ → Splitter
outside tokens word line = record {
  tokens = tokens;
  word = word;
  line = line;
  begin_quotes = false;
  begin_comment = false;
  begin_escape = false;
}

pub unequal : (a b : ℕ) → a ≢ b → (a == b) ≡ false
unequal a b h = ground arith

-- A blank is none of the other special characters.
blank-other :
    (b : ℕ)
    → is_blank b ≡ true
    → ((b == b';') ≡ false)
      × ((b == b'\\') ≡ false)
      × ((b == b'+') ≡ false)
      × ((b == b'-') ≡ false)
      × ((b == b'*') ≡ false)
blank-other b h = (ground arith, ground arith, ground arith, ground arith, ground arith)

split_char-Plain :
    (c : ℕ) (tokens : List Token) (word : Bytes) (line : ℕ)
    → Plain c
    → split_char c (outside tokens word line) ≡ ok (outside tokens (word ++ c ∷ []) line)
unfolding split_char split_plain
split_char-Plain c tokens word line p =
    rw
      (
        split_plain,
        unequal c b';' p.comment,
        unequal c b'\\' p.escape,
        unequal c b'+' p.plus,
        unequal c b'-' p.minus,
        unequal c b'*' p.times,
        p.blank,
        unequal c b'"' p.quote,
      )
      refl

split_loop-AllPlain :
    (w rest : Bytes) (tokens : List Token) (word : Bytes) (line : ℕ)
    → AllPlain w
    → split_loop (w ++ rest) (outside tokens word line)
      ≡ split_loop rest (outside tokens (word ++ w) line)
unfolding split_loop
split_loop-AllPlain [] rest tokens word line no_byte = rw append-nil refl
split_loop-AllPlain (c ∷ w) rest tokens word line (plain_byte p ps) =
    rw (split_char-Plain c tokens word line p) (
      split_loop-AllPlain w rest tokens (word ++ c ∷ []) line ps
      ∙ ap (λ (t : Bytes). split_loop rest (outside tokens t line)) (append_assoc word (c ∷ []) w))

next_blank :
    (t : Bool) (tokens : List Token) (line : ℕ)
    → (if t then next_line (outside tokens [] line) else outside tokens [] line)
      ≡ outside tokens [] (if t then (line + 1) % 2 ^ 32 else line)
next_blank true tokens line = refl
next_blank false tokens line = refl

-- The blank behind a word that has been parsed.
after_parse :
    (r : Result Token) (b : ℕ) (tokens : List Token) (line : ℕ)
    → (r >>= (λ tk. ok (outside (tokens ++ tk ∷ []) [] line)) >>= λ s.
        ok (if b == 10 then next_line s else s))
      ≡ (r >>= (λ tk. ok (tk ∷ [])) >>= λ tks. ok (outside (tokens ++ tks) [] (line_after b line)))
after_parse (err e) b tokens line = refl
after_parse (ok tk) b tokens line = ap ok (next_blank (b == 10) (tokens ++ tk ∷ []) line)

-- A blank ends the word.
split_char-blank :
    (b : ℕ) (tokens : List Token) (word : Bytes) (line : ℕ)
    → is_blank b ≡ true
    → split_char b (outside tokens word line)
      ≡ (word_token word line >>= λ tks. ok (outside (tokens ++ tks) [] (line_after b line)))
unfolding split_char split_plain flush_word push_word
split_char-blank b tokens [] line h =
    let (comment, escape, plus, minus, times) = blank-other b h in
    rw (split_plain, comment, escape, plus, minus, times, h)
      (rw append-nil (ap ok (next_blank (b == 10) tokens line)))
split_char-blank b tokens (c ∷ cs) line h =
    let (comment, escape, plus, minus, times) = blank-other b h in
    rw (split_plain, comment, escape, plus, minus, times, h)
      (after_parse (parse (record { name = c ∷ cs; line = line })) b tokens line)

collect :
    (r : Result (List Token)) (tokens tks : List Token)
    → (r >>= λ more. ok ((tokens ++ tks) ++ more))
      ≡ ((r >>= λ more. ok (tks ++ more)) >>= λ all. ok (tokens ++ all))
collect (err e) tokens tks = refl
collect (ok more) tokens tks = ap ok (append_assoc tokens tks more)

-- The last word, behind which the text ends.
abbrev finish : Splitter → Result (List Token)
finish s = do s' ← flush_word s; ok s'.tokens

finish-word :
    (w : Bytes) (tokens : List Token) (line : ℕ)
    → finish (outside tokens w line) ≡ (word_token w line >>= λ tks. ok (tokens ++ tks))
unfolding flush_word push_word
finish-word [] tokens line = rw append-nil refl
finish-word (c ∷ cs) tokens line = go (parse (record { name = c ∷ cs; line = line }))
  where
    go :
        (r : Result Token)
        → (r >>= (λ tk. ok (outside (tokens ++ tk ∷ []) [] line)) >>= λ s. ok s.tokens)
          ≡ (r >>= (λ tk. ok (tk ∷ [])) >>= λ tks. ok (tokens ++ tks))
    go (err e) = refl
    go (ok tk) = refl

one_word :
    (r : Result (List Token)) (text : Bytes) (tokens : List Token) (line : ℕ)
    (later : Result (List Token))
    → ((tks : List Token)
        → (split_loop text (outside (tokens ++ tks) [] line) >>= finish)
          ≡ (later >>= λ all. ok ((tokens ++ tks) ++ all)))
    → ((r >>= λ tks. ok (outside (tokens ++ tks) [] line)) >>= split_loop text >>= finish)
      ≡ ((r >>= λ tks. later >>= λ more. ok (tks ++ more)) >>= λ all. ok (tokens ++ all))
one_word (err e) text tokens line later k = refl
one_word (ok tks) text tokens line later k = k tks ∙ collect later tokens tks

split_loop-Spaced :
    (ws : List (Bytes × ℕ)) (last : Bytes) (tokens : List Token) (line : ℕ)
    → Spaced ws
    → AllPlain last
    → (split_loop (text_of ws last) (outside tokens [] line) >>= finish)
      ≡ (parse_words line ws last >>= λ all. ok (tokens ++ all))
unfolding split_loop
split_loop-Spaced [] last tokens line no_word p =
    ap (λ (t : Bytes). split_loop t (outside tokens [] line) >>= finish) (sym (append-nil last))
    ∙ ap (λ (r : Result Splitter). r >>= finish) (split_loop-AllPlain last [] tokens [] line p)
    ∙ finish-word last tokens line
split_loop-Spaced ((w, b) ∷ ws) last tokens line (spaced pw hb rest) p =
    let text = text_of ws last in
    let next = line_after b line in
    ap (λ (r : Result Splitter). r >>= finish)
      (split_loop-AllPlain w (b ∷ text) tokens [] line pw
        ∙ ap (λ (r : Result Splitter). r >>= split_loop text) (split_char-blank b tokens w line hb))
    ∙ one_word (word_token w line) text tokens next (parse_words next ws last)
        (λ tks. split_loop-Spaced ws last (tokens ++ tks) next rest p)

-- The tokens of a text of words of plain bytes, with a blank behind each of them but the last, are
-- those of the words, each parsed with its line, which counts the newlines in front of it from one
-- and wraps at 2 ^ 32; blanks that follow each other make no token, and the first word that is
-- refused is the error.
pub split-parse_words :
    (ws : List (Bytes × ℕ)) (last : Bytes)
    → Spaced ws
    → AllPlain last
    → split (text_of ws last) ≡ parse_words 1 ws last
unfolding split start
split-parse_words ws last hs hl =
    split_loop-Spaced ws last [] 1 hs hl ∙ same (parse_words 1 ws last)
  where
    same : (r : Result (List Token)) → (r >>= λ all. ok all) ≡ r
    same (err e) = refl
    same (ok tks) = refl
