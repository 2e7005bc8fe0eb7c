-- ===== src/Elf/Fields.antt =====
-- The structures of src/elf128.h in memory: their sizes, and their members read back.
use bigassm.Prelude.{
  ℕ, zero, suc, ◌+◌, ◌%◌, ◌^◌, ◌≤◌, ◌≡◌, refl, ap, List, [], ◌∷◌, ◌++◌, Bytes, length, take, drop,
  length-append, arith,
}
use bigassm.PseudoOps.Handlers.{le_bytes}
use bigassm.PseudoOps.Data.{length-le_bytes, word_of-le_bytes}
use bigassm.Elf.Format.{
  ElfClass, elf64, elf128, width, fields, Ehdr, Shdr, Phdr, Sym, ehdr_bytes, shdr_bytes, phdr_bytes,
  sym_bytes, ehdr_members, sizeof_ehdr, sizeof_shdr, sizeof_phdr, sizeof_sym,
}
use bigassm.Elf.Reader.{read_fields}

module _ {A : Type 0} where
  pub take-append : (n : ℕ) (xs ys : List A) → length xs ≡ n → take n (xs ++ ys) ≡ xs
  take-append zero [] ys h = refl
  take-append zero (x ∷ xs) ys h = absurd (omega arith)
  take-append (suc n) [] ys h = absurd (omega arith)
  take-append (suc n) (x ∷ xs) ys h = ap (λ l. x ∷ l) (take-append n xs ys (omega arith))

  pub drop-append : (n : ℕ) (xs ys : List A) → length xs ≡ n → drop n (xs ++ ys) ≡ ys
  drop-append zero [] ys h = refl
  drop-append zero (x ∷ xs) ys h = absurd (omega arith)
  drop-append (suc n) [] ys h = absurd (omega arith)
  drop-append (suc n) (x ∷ xs) ys h = drop-append n xs ys (omega arith)

  pub append_assoc : (xs ys zs : List A) → (xs ++ ys) ++ zs ≡ xs ++ (ys ++ zs)
  append_assoc [] ys zs = refl
  append_assoc (x ∷ xs) ys zs = ap (λ l. x ∷ l) (append_assoc xs ys zs)

  pub append-nil : (xs : List A) → xs ++ [] ≡ xs
  append-nil [] = refl
  append-nil (x ∷ xs) = ap (λ l. x ∷ l) (append-nil xs)

abbrev pub sizes : List (ℕ × ℕ) → List ℕ
sizes [] = []
sizes ((n, v) ∷ fs) = n ∷ sizes fs

-- What a member of its size keeps of a value.
abbrev pub values : List (ℕ × ℕ) → List ℕ
values [] = []
values ((n, v) ∷ fs) = (v % 256 ^ n) ∷ values fs

abbrev pub total : List (ℕ × ℕ) → ℕ
total [] = 0
total ((n, v) ∷ fs) = n + total fs

pub read_fields-fields :
    (fs : List (ℕ × ℕ)) (rest : Bytes) → read_fields (sizes fs) (fields fs ++ rest) ≡ values fs
unfolding read_fields fields
read_fields-fields [] rest = refl
read_fields-fields ((n, v) ∷ fs) rest =
    rw
      (
        append_assoc (le_bytes n v) (fields fs) rest,
        take-append n (le_bytes n v) (fields fs ++ rest) (length-le_bytes n v),
        drop-append n (le_bytes n v) (fields fs ++ rest) (length-le_bytes n v),
        word_of-le_bytes n v,
        read_fields-fields fs rest,
      )
      refl

pub length-fields : (fs : List (ℕ × ℕ)) → length (fields fs) ≡ total fs
unfolding fields
length-fields [] = refl
length-fields ((n, v) ∷ fs) =
    omega (arith, length-append (le_bytes n v) (fields fs), length-le_bytes n v, length-fields fs)

pub width-wide : (c : ElfClass) → 8 ≤ width c
unfolding width
width-wide elf64 = omega arith
width-wide elf128 = omega arith

module _ (c : ElfClass) where
  pub length-shdr_bytes : (h : Shdr) → length (shdr_bytes c h) ≡ sizeof_shdr c
  unfolding shdr_bytes sizeof_shdr
  length-shdr_bytes h = rw (length-fields) (omega (arith, width-wide c))

  pub length-phdr_bytes : (h : Phdr) → length (phdr_bytes c h) ≡ sizeof_phdr c
  unfolding phdr_bytes sizeof_phdr
  length-phdr_bytes h = rw (length-fields) (omega (arith, width-wide c))

  pub length-sym_bytes : (s : Sym) → length (sym_bytes c s) ≡ sizeof_sym c
  unfolding sym_bytes sizeof_sym
  length-sym_bytes s = rw (length-fields) (omega (arith, width-wide c))

  pub length-ehdr_bytes :
      (h : Ehdr) → length h.e_ident ≡ 16 → length (ehdr_bytes c h) ≡ sizeof_ehdr c
  unfolding ehdr_bytes sizeof_ehdr
  length-ehdr_bytes h e =
      rw (length-append h.e_ident (fields (ehdr_members c h)), length-fields (ehdr_members c h), e)
        (omega (arith, width-wide c))
