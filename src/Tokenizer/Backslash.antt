-- ===== src/Tokenizer/Backslash.antt =====
-- `Assembler::split` of src/raw_split.cpp on backslashes: an escaped one begins another escape.
use bigassm.Prelude.{
  ℕ, ◌≡◌, ◌≢◌, refl, Bool, true, false, not, [], ◌∷◌, ◌++◌, Bytes, ◌==◌, ◌&&◌, ◌||◌, if◌then◌else◌,
  inl, inr, Bool-cases, ==_iff, if-intro, arith,
}
use bigassm.Types.{Token, Result, ok, err, ◌>>=◌}
use bigassm.Tokenizer.Parse.{parse}
use bigassm.Tokenizer.Split.{
  Splitter, escape_character, push_word, flush_word, append_char, next_line, is_blank, split_quoted,
  split_comment, split_plain, split_char, split_loop,
}
use bigassm.Tokenizer.Strings.{NoBackslash, no_byte, other_byte}

-- What a call leaves of the word, if it returns.
Leaves : Result Splitter → Type 0
Leaves (err e) = Unit {0}
Leaves (ok s) = NoBackslash s.word

append-NoBackslash : (w : Bytes) (c : ℕ) → NoBackslash w → c ≢ b'\\' → NoBackslash (w ++ c ∷ [])
append-NoBackslash [] c no_byte h = other_byte h no_byte
append-NoBackslash (d ∷ w) c (other_byte k hs) h = other_byte k (append-NoBackslash w c hs h)

push_word-Leaves :
    (s : Splitter) (k : Splitter → Result Splitter)
    → ((s' : Splitter) → NoBackslash s'.word → Leaves (k s'))
    → Leaves (push_word s >>= k)
unfolding push_word Leaves
push_word-Leaves s k h = go (parse (record { name = s.word; line = s.line }))
  where
    go :
        (r : Result Token)
        → Leaves ((r >>= λ tk. ok (record s { tokens = s.tokens ++ tk ∷ []; word = [] })) >>= k)
    go (err e) = tt
    go (ok tk) = h (record s { tokens = s.tokens ++ tk ∷ []; word = [] }) no_byte

flush_word-Leaves :
    (s : Splitter) (k : Splitter → Result Splitter)
    → NoBackslash s.word
    → ((s' : Splitter) → NoBackslash s'.word → Leaves (k s'))
    → Leaves (flush_word s >>= k)
unfolding flush_word Leaves
flush_word-Leaves s k p h =
    elim s.word as (λ (w : Bytes). Leaves (elim w [ [] ↦ ok s | c ∷ cs ↦ push_word s ] >>= k)) [
      | [] ↦ h s p
      | c ∷ cs ↦ push_word-Leaves s k h
    ]

not_equal : (a b : ℕ) → (a == b) ≡ false → a ≢ b
not_equal a b e h = absurd (ground arith)

split_quoted-Leaves :
    (c : ℕ) (b : Bool) (s : Splitter) → NoBackslash s.word → Leaves (split_quoted c b s)
unfolding split_quoted Leaves
split_quoted-Leaves c b s p = elim (Bool-cases (c == b'\\')) [
  | inl e ↦ rw (split_quoted, e) p
  | inr e ↦
      let q = append-NoBackslash s.word c p (not_equal c b'\\' e) in
      rw (split_quoted, e)
        (if-intro Leaves (c == b'"' && not b)
          (push_word (append_char c s) >>= λ s'. ok (record s' { begin_quotes = false }))
          (ok (append_char c s))
          (push_word-Leaves (append_char c s) (λ s'. ok (record s' { begin_quotes = false }))
            (λ s' h. h))
          q)
]

split_comment-word : (c : ℕ) (s : Splitter) → (split_comment c s).word ≡ s.word
unfolding split_comment
split_comment-word c s =
    if-intro (λ (t : Splitter). t.word ≡ s.word) (c == 10)
      (next_line (record s { begin_comment = false })) s refl refl

after_blank-word :
    (b : Bool) (s : Splitter) → NoBackslash s.word → NoBackslash (if b then next_line s else s).word
after_blank-word b s p = if-intro (λ (t : Splitter). NoBackslash t.word) b (next_line s) s p p

split_plain-Leaves : (c : ℕ) (s : Splitter) → NoBackslash s.word → Leaves (split_plain c s)
unfolding split_plain Leaves
split_plain-Leaves c s p = elim (Bool-cases (c == b'\\')) [
  | inl e ↦ rw ((==_iff c b'\\').0 e) p
  | inr e ↦
      let h = not_equal c b'\\' e in
      rw (split_plain, e)
        (if-intro Leaves (c == b';') _ _ p (
          if-intro Leaves (c == b'+' || (c == b'-' || c == b'*')) _ _
            (flush_word-Leaves s (λ s'. ok (append_char c s')) p
              (λ s' q. append-NoBackslash s'.word c q h))
            (if-intro Leaves (is_blank c) _ _
              (flush_word-Leaves s (λ s'. ok (if c == 10 then next_line s' else s')) p
                (λ s' q. after_blank-word (c == 10) s' q))
              (if-intro (λ (t : Splitter). NoBackslash (append_char c t).word) (c == b'"')
                (record s { begin_quotes = true }) s (append-NoBackslash s.word c p h)
                (append-NoBackslash s.word c p h)))))
]

split_char-Leaves : (c : ℕ) (s : Splitter) → NoBackslash s.word → Leaves (split_char c s)
unfolding split_char Leaves
split_char-Leaves c s p =
    let b = s.begin_escape in
    let c' = if b then escape_character c else c in
    let s' = record s { begin_escape = false } in
    if-intro Leaves s.begin_quotes (split_quoted c' b s')
      (if s.begin_comment then ok (split_comment c' s') else split_plain c' s')
      (split_quoted-Leaves c' b s' p)
      (if-intro Leaves s.begin_comment (ok (split_comment c' s')) (split_plain c' s')
        (rw (split_comment-word c' s') p) (split_plain-Leaves c' s' p))

next_char :
    (r : Result Splitter) (k : Splitter → Result Splitter)
    → Leaves r
    → ((s : Splitter) → NoBackslash s.word → Leaves (k s))
    → Leaves (r >>= k)
unfolding Leaves
next_char (err e) k p h = tt
next_char (ok s) k p h = h s p

split_loop-Leaves : (text : Bytes) (s : Splitter) → NoBackslash s.word → Leaves (split_loop text s)
unfolding split_loop Leaves
split_loop-Leaves [] s p = p
split_loop-Leaves (c ∷ cs) s p =
    next_char (split_char c s) (split_loop cs) (split_char-Leaves c s p) (split_loop-Leaves cs)

-- No text makes the loop of split put a backslash into a word that has none, inside of quotes or
-- outside, escaped or not: where the loop returns, its word has no backslash.
pub split_loop-NoBackslash :
    (text : Bytes) (s s' : Splitter)
    → NoBackslash s.word
    → split_loop text s ≡ ok s'
    → NoBackslash s'.word
unfolding Leaves
split_loop-NoBackslash text s s' p e = rw e at (split_loop-Leaves text s p)
