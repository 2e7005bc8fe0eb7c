-- ===== src/Patch/Words.antt =====
-- Words read from the output and written to it, for `Assembler::at_location` of src/assembler.hpp.
use Prim.Native.Nat.add
use bigassm.Prelude.{
  sym, length-append, length-take, length-drop, ℕ, zero, suc, ◌+◌, ◌-◌, ◌%◌, ◌^◌, ◌≡◌, ◌≤◌, List,
  [], ◌∷◌, ◌++◌, Bytes, length, take, drop, ap, refl, arith, ◌∙◌,
}
use bigassm.Patch.{word_of, word_bytes, read_word, write_word}

module _ {A : Type 0} where
  drop_behind : (i : ℕ) (xs ys : List A) → i ≤ length xs → drop i (take i xs ++ ys) ≡ ys
  drop_behind zero xs ys h = refl
  drop_behind (suc i) [] ys h = absurd (omega arith)
  drop_behind (suc i) (x ∷ xs) ys h = drop_behind i xs ys (omega arith)

  take_front :
      (n i : ℕ) (xs ys : List A) → n ≤ i → i ≤ length xs → take n (take i xs ++ ys) ≡ take n xs
  take_front zero i xs ys h k = refl
  take_front (suc n) zero xs ys h k = absurd (omega arith)
  take_front (suc n) (suc i) [] ys h k = absurd (omega arith)
  take_front (suc n) (suc i) (x ∷ xs) ys h k =
      ap (λ l. x ∷ l) (take_front n i xs ys (omega arith) (omega arith))

  take_before :
      (n j i : ℕ) (xs ys : List A)
      → j + n ≤ i
      → i ≤ length xs
      → take n (drop j (take i xs ++ ys)) ≡ take n (drop j xs)
  take_before n zero i xs ys h k = take_front n i xs ys (omega arith) k
  take_before n (suc j) zero xs ys h k = rw (none_taken n (omega arith))
    where
      none_taken : (n : ℕ) → n ≤ 0 → n ≡ 0
      none_taken n h = omega arith
  take_before n (suc j) (suc i) [] ys h k = absurd (omega arith)
  take_before n (suc j) (suc i) (x ∷ xs) ys h k =
      take_before n j i xs ys (omega arith) (omega arith)

  drop_beyond :
      (k i : ℕ) (xs ys : List A) → i ≤ length xs → drop (i + k) (take i xs ++ ys) ≡ drop k ys
  drop_beyond k zero xs ys h = rw add.zero
  drop_beyond k (suc i) [] ys h = absurd (omega arith)
  drop_beyond k (suc i) (x ∷ xs) ys h = rw add.suc (drop_beyond k i xs ys (omega arith))

  drop-drop : (i k : ℕ) (xs : List A) → drop k (drop i xs) ≡ drop (i + k) xs
  drop-drop zero k xs = rw add.zero
  drop-drop (suc i) zero [] = rw add.suc
  drop-drop (suc i) (suc k) [] = rw add.suc
  drop-drop (suc i) k (x ∷ xs) = rw add.suc (drop-drop i k xs)

pub word_of-word_bytes : (w : ℕ) → word_of (word_bytes w) ≡ w % 2 ^ 32
unfolding word_of
word_of-word_bytes w = omega arith

module _ (i w : ℕ) (out : Bytes) (room : i + 4 ≤ length out) where
  pub read_word-write_word : read_word i (write_word i w out) ≡ w % 2 ^ 32
  unfolding read_word write_word
  read_word-write_word =
      rw (drop_behind i out (word_bytes w ++ drop (i + 4) out) (omega arith)) (word_of-word_bytes w)

  pub read_word-write_word_below :
      (j : ℕ) → j + 4 ≤ i → read_word j (write_word i w out) ≡ read_word j out
  unfolding read_word write_word
  read_word-write_word_below j h =
      ap word_of (take_before 4 j i out (word_bytes w ++ drop (i + 4) out) h (omega arith))

  pub drop-write_word : (k : ℕ) → drop (i + (4 + k)) (write_word i w out) ≡ drop (i + (4 + k)) out
  unfolding write_word
  drop-write_word k =
      drop_beyond (4 + k) i out (word_bytes w ++ drop (i + 4) out) (omega arith)
      ∙ rw (four k, drop-drop (i + 4) k out) (ap (λ n. drop n out) (omega arith))
    where
      four : (k : ℕ) → 4 + k ≡ suc (suc (suc (suc k)))
      four k = omega arith

  pub read_word-write_word_above :
      (j : ℕ) → i + 4 ≤ j → read_word j (write_word i w out) ≡ read_word j out
  unfolding read_word
  read_word-write_word_above j h =
      ap (λ (l : Bytes). word_of (take 4 l))
        (ap (λ n. drop n (write_word i w out)) (apart j h)
          ∙ drop-write_word (j - (i + 4))
          ∙ ap (λ n. drop n out) (sym (apart j h)))
    where
      apart : (j : ℕ) → i + 4 ≤ j → j ≡ i + (4 + (j - (i + 4)))
      apart j h = omega arith

  pub length-write_word : length (write_word i w out) ≡ length out
  unfolding write_word
  length-write_word = omega (
    arith,
    length-append (take i out) (word_bytes w ++ drop (i + 4) out),
    length-take i out,
    length-drop (i + 4) out,
  )
