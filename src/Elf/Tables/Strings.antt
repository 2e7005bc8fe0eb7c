-- ===== src/Elf/Tables/Strings.antt =====
-- `struct ElfStringSection` of src/elfwriter.cpp: what it appends, and where its names stand.
use Prim.Native.Nat.{max}
use bigassm.Prelude.{
  ℕ, ◌+◌, ◌≤◌, ◌≡◌, ◌≢◌, inl, inr, refl, ap, sym, false, some, none, [], ◌∷◌, ◌++◌, Bytes, length,
  length-append, le→leb, if◌then◌else◌, Map, find, update, emplace, find-update, bytes_eq,
  bytes_eq_iff, bytes_eq_refl, bytes_eq→eq, Bool-cases, Option-cases, arith,
}
use bigassm.Types.{ok}
use bigassm.Elf.Fields.{append_assoc, append-nil}
use bigassm.Elf.Format.{zero_shdr}
use bigassm.Elf.Vector.{Vector, access}
use bigassm.Elf.Tables.{StringSection, append_null, new_string_section, add, add_all}

-- The vector with bytes appended, and that it stays where it is when `n` bytes are.
abbrev pub extend : Vector → Bytes → Vector
extend v bytes = record v { body = v.body ++ bytes }

abbrev pub Fits : Vector → ℕ → Type 0
Fits v n = v.head + (length v.body + n) ≤ max 262144 v.head

pub extend-extend : (v : Vector) (a b : Bytes) → extend (extend v a) b ≡ extend v (a ++ b)
extend-extend v a b = ap (λ (t : Bytes). record v { body = t }) (append_assoc v.body a b)

pub access-runs : (v : Vector) (n : ℕ) → Fits v n → access v ≡ ok (tt, v)
access-runs v n h = rw (le→leb (v.head + length v.body) (max 262144 v.head) (omega arith)) refl

pub access-extend :
    (v : Vector) (bytes : Bytes)
    → Fits v (length bytes)
    → access (extend v bytes) ≡ ok (tt, extend v bytes)
access-extend v bytes h = access-runs (extend v bytes) 0 (omega (arith, length-append v.body bytes))

-- Room for two pieces is room for the first, and then for the second.
pub Fits-first : (v : Vector) (a b : Bytes) → Fits v (length (a ++ b)) → Fits v (length a)
Fits-first v a b h = omega (arith, length-append a b)

pub Fits-second :
    (v : Vector) (a b : Bytes) → Fits v (length (a ++ b)) → Fits (extend v a) (length b)
Fits-second v a b h = omega (arith, length-append a b, length-append v.body a)

abbrev pub terminated : Bytes → Bytes
terminated str = str ++ 0 ∷ []

abbrev pub with_name : Bytes → StringSection → StringSection
with_name str s = record s {
  shdr = record s.shdr { sh_size = s.shdr.sh_size + (length str + 1) };
  namelist = update str (λ _. s.offset) (emplace str s.offset s.namelist);
  offset = s.offset + (length str + 1);
}

pub add-runs :
    (str : Bytes) (s : StringSection) (v : Vector)
    → Fits v (length (terminated str))
    → add str s v ≡ ok ((s.offset, with_name str s), extend v (terminated str))
unfolding add
add-runs str s v h = rw (access-extend v (terminated str) h) refl

module _ {ℓ} {V : Type ℓ} where
  abbrev pub string_bytes : Map V → Bytes
  string_bytes [] = []
  string_bytes ((name, x) ∷ names) = terminated name ++ string_bytes names

  abbrev pub with_names : Map V → StringSection → StringSection
  with_names [] s = s
  with_names ((name, x) ∷ names) s = with_names names (with_name name s)

  pub add_all-runs :
      (names : Map V) (s : StringSection) (v : Vector)
      → Fits v (length (string_bytes names))
      → add_all names s v ≡ ok (with_names names s, extend v (string_bytes names))
  unfolding add_all
  add_all-runs [] s v h =
      ap (λ (t : Bytes). ok (s, record v { body = t })) (sym (append-nil v.body))
  add_all-runs ((name, x) ∷ names) s v h =
      rw
        (
          add-runs name s v (Fits-first v (terminated name) (string_bytes names) h),
          add_all-runs names (with_name name s) (extend v (terminated name))
              (Fits-second v (terminated name) (string_bytes names) h),
          append_assoc v.body (terminated name) (string_bytes names),
        )
        refl

abbrev pub empty_strings : ℕ → ℕ → StringSection
empty_strings idx offset = record {
  shdr = record zero_shdr {
    sh_type = 3;
    sh_entsize = 1;
    sh_offset = offset;
    sh_size = 1;
    sh_addralign = 1;
  };
  namelist = [];
  shindex = idx;
  offset = 1;
}

pub new_string_section-runs :
    (idx : ℕ) (v : Vector)
    → Fits v 1
    → new_string_section idx v ≡ ok (empty_strings idx (v.head + length v.body), extend v (0 ∷ []))
unfolding new_string_section append_null
new_string_section-runs idx v h = rw (access-runs v 1 h, access-extend v (0 ∷ []) h) refl

module _ {ℓ} {V : Type ℓ} (k : Bytes) (v : V) where
  find-emplace_other :
      (j : Bytes) (m : Map V) → bytes_eq k j ≡ false → find j (emplace k v m) ≡ find j m
  unfolding find emplace
  find-emplace_other j [] h = rw h refl
  find-emplace_other j ((i, w) ∷ m) h = ground (arith, bytes_eq_iff i k, find-emplace_other j m h)

  find-emplace_known : (m : Map V) → find k (emplace k v m) ≢ none
  unfolding find emplace
  find-emplace_known [] e = ground (arith, bytes_eq_refl k)
  find-emplace_known ((i, w) ∷ m) e = ground (arith, bytes_eq_refl k, find-emplace_known m)

-- `namelist[k] = v`
pub find-assign {ℓ} :
    {V : Type ℓ} (k j : Bytes) (v : V) (m : Map V)
    → find j (update k (λ _. v) (emplace k v m)) ≡ (if bytes_eq k j then some v else find j m)
find-assign k j v m = elim (Option-cases (find k (emplace k v m))) [
  | inl e ↦ absurd (find-emplace_known k v m e)
  | inr (w, e) ↦ elim (Bool-cases (bytes_eq k j)) [
    | inl same ↦
        rw
          (sym (bytes_eq→eq k j same), find-update k k (λ _. v) (emplace k v m), bytes_eq_refl k, e)
          refl
    | inr other ↦
        rw (find-update k j (λ _. v) (emplace k v m), other, find-emplace_other k v j m other) refl
  ]
]
