-- ===== src/Tokenizer/Strings.antt =====
-- `Assembler::split` of src/raw_split.cpp on quoted strings.
use bigassm.Prelude.{
  ℕ, suc, ◌-◌, ◌≡◌, ◌≢◌, refl, ap, ◌∙◌, true, false, List, [], ◌∷◌, ◌++◌, Bytes, ◌==◌,
  if◌then◌else◌, arith, length, inl, inr, Bool-cases, ==_iff, some, get_elem?, take, ltb,
}
use mathlib.Core.List.{append_assoc, append-nil}
use bigassm.Types.{Token, ok, new_token, tk_string}
use bigassm.Tokenizer.Parse.{parse, char_is, back_is, unquote}
use bigassm.Tokenizer.Split.{Splitter, split_quoted, split_char, split_loop}
use bigassm.Tokenizer.Words.{outside, unequal}

-- How a byte is written in a string, and a string of such bytes.
abbrev pub escaped : ℕ → Bytes
escaped c =
    if c == 10
    then b'\\' ∷ b'n' ∷ []
    else if c == 13
    then b'\\' ∷ b'r' ∷ []
    else if c == 9
    then b'\\' ∷ b't' ∷ []
    else if c == 8
    then b'\\' ∷ b'b' ∷ []
    else if c == 0
    then b'\\' ∷ b'0' ∷ []
    else if c == b'"'
    then b'\\' ∷ b'"' ∷ []
    else c ∷ []

abbrev pub all_escaped : Bytes → Bytes
all_escaped [] = []
all_escaped (c ∷ cs) = escaped c ++ all_escaped cs

pub data NoBackslash : Bytes → Type 0 where
  no_byte : NoBackslash []
  other_byte : {c : ℕ} {cs : Bytes} → c ≢ b'\\' → NoBackslash cs → NoBackslash (c ∷ cs)

-- The loop's variables inside of a string.
abbrev pub inside : List Token → Bytes → ℕ → Splitter
inside tokens word line = record (outside tokens word line) { begin_quotes = true }

split_char-inside :
    (c : ℕ) (tokens : List Token) (word : Bytes) (line : ℕ)
    → c ≢ b'\\'
    → (c == b'"') ≡ false
    → split_char c (inside tokens word line) ≡ ok (inside tokens (word ++ c ∷ []) line)
unfolding split_char split_quoted
split_char-inside c tokens word line h k = rw (split_quoted, unequal c b'\\' h, k) refl

split_loop-escaped :
    (c : ℕ) (rest : Bytes) (tokens : List Token) (word : Bytes) (line : ℕ)
    → c ≢ b'\\'
    → split_loop (escaped c ++ rest) (inside tokens word line)
      ≡ split_loop rest (inside tokens (word ++ c ∷ []) line)
unfolding split_loop
split_loop-escaped c rest tokens word line h = elim (Bool-cases (c == 10)) [
  | inl e ↦ rw ((==_iff c 10).0 e) refl
  | inr e₁ ↦ elim (Bool-cases (c == 13)) [
    | inl e ↦ rw ((==_iff c 13).0 e) refl
    | inr e₂ ↦ elim (Bool-cases (c == 9)) [
      | inl e ↦ rw ((==_iff c 9).0 e) refl
      | inr e₃ ↦ elim (Bool-cases (c == 8)) [
        | inl e ↦ rw ((==_iff c 8).0 e) refl
        | inr e₄ ↦ elim (Bool-cases (c == 0)) [
          | inl e ↦ rw ((==_iff c 0).0 e) refl
          | inr e₅ ↦ elim (Bool-cases (c == b'"')) [
            | inl e ↦ rw ((==_iff c b'"').0 e) refl
            | inr e₆ ↦ rw (e₁, e₂, e₃, e₄, e₅, e₆, split_char-inside c tokens word line h e₆) refl
          ]
        ]
      ]
    ]
  ]
]

split_loop-all_escaped :
    (s rest : Bytes) (tokens : List Token) (word : Bytes) (line : ℕ)
    → NoBackslash s
    → split_loop (all_escaped s ++ rest) (inside tokens word line)
      ≡ split_loop rest (inside tokens (word ++ s) line)
split_loop-all_escaped [] rest tokens word line no_byte =
    ap (λ (w : Bytes). split_loop rest (inside tokens w line)) (rw append-nil refl)
split_loop-all_escaped (c ∷ s) rest tokens word line (other_byte h hs) =
    ap (λ (t : Bytes). split_loop t (inside tokens word line))
      (append_assoc (escaped c) (all_escaped s) rest)
    ∙ split_loop-escaped c (all_escaped s ++ rest) tokens word line h
    ∙ split_loop-all_escaped s rest tokens (word ++ c ∷ []) line hs
    ∙ ap (λ (w : Bytes). split_loop rest (inside tokens w line)) (append_assoc word (c ∷ []) s)

-- A string between its quotes, and its token.
abbrev pub quoted : Bytes → Bytes
quoted s = b'"' ∷ all_escaped s ++ b'"' ∷ []

abbrev pub string_token : Bytes → ℕ → Token
string_token s line = record (new_token tk_string) { value = s; line = line }

last-closed : (s : Bytes) → get_elem? (s ++ b'"' ∷ []) (length s) ≡ some b'"'
last-closed [] = refl
last-closed (c ∷ s) = last-closed s

take-closed : (s : Bytes) → take (length s) (s ++ b'"' ∷ []) ≡ s
take-closed [] = refl
take-closed (c ∷ s) = ap (λ (t : Bytes). c ∷ t) (take-closed s)

length-closed : (s : Bytes) → length (s ++ b'"' ∷ []) ≡ suc (length s)
length-closed [] = refl
length-closed (c ∷ s) = ap suc (length-closed s)

char_is-some : (w : Bytes) (i x c : ℕ) → get_elem? w i ≡ some x → char_is w i c ≡ (x == c)
char_is-some w i x c e = rw (char_is, e) refl

last_index : (n : ℕ) → suc (suc n) - 1 ≡ suc n
last_index n = omega arith

inner_length : (n : ℕ) → suc (suc n) - 2 ≡ n
inner_length n = omega arith

not_short : (n : ℕ) → ltb (suc (suc n)) 2 ≡ false
not_short n = ground arith

back_is-closed : (s : Bytes) → back_is (b'"' ∷ s ++ b'"' ∷ []) b':' ≡ false
back_is-closed s =
    rw (length-closed s, last_index (length s))
      (char_is-some (b'"' ∷ s ++ b'"' ∷ []) (suc (length s)) b'"' b':' (last-closed s))

unquote-closed : (s : Bytes) → unquote (b'"' ∷ s ++ b'"' ∷ []) ≡ s
unquote-closed s =
    rw (length-closed s, not_short (length s), inner_length (length s)) (take-closed s)

parse-closed :
    (s : Bytes) (line : ℕ)
    → parse (record { name = b'"' ∷ s ++ b'"' ∷ []; line = line }) ≡ ok (string_token s line)
unfolding parse
parse-closed s line = rw (back_is-closed s, unquote-closed s) refl

split_char-closes :
    (s : Bytes) (tokens : List Token) (line : ℕ)
    → split_char b'"' (inside tokens (b'"' ∷ s) line)
      ≡ ok (outside (tokens ++ string_token s line ∷ []) [] line)
unfolding split_char
split_char-closes s tokens line = rw (parse-closed s line) refl

-- Between words, the text of a string of bytes other than the backslash, in quotes and with its
-- special bytes escaped, makes one token, a string of those bytes, and nothing else changes.
pub split_loop-quoted :
    (s rest : Bytes) (tokens : List Token) (line : ℕ)
    → NoBackslash s
    → split_loop (quoted s ++ rest) (outside tokens [] line)
      ≡ split_loop rest (outside (tokens ++ string_token s line ∷ []) [] line)
unfolding split_loop
split_loop-quoted s rest tokens line h =
    ap (λ (t : Bytes). split_loop t (inside tokens (b'"' ∷ []) line))
      (append_assoc (all_escaped s) (b'"' ∷ []) rest)
    ∙ split_loop-all_escaped s (b'"' ∷ rest) tokens (b'"' ∷ []) line h
    ∙ rw (split_char-closes s tokens line) refl
