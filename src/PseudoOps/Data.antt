-- ===== src/PseudoOps/Data.antt =====
-- The data of src/pseudo_ops.cpp: what DATA_16 to DATA_128 append to the current section.
use bigassm.Prelude.{
  ℕ, zero, suc, ◌+◌, ◌*◌, ◌/◌, ◌%◌, ◌^◌, ◌≡◌, refl, ap, true, some, List, [], ◌∷◌, ◌++◌, Bytes,
  length, find, update, find-update, bytes_eq_refl, arith,
}
use native.Mathlib.Nat.{pow-succ', mod-eq-sub-mul-div, div-div-eq-div-mul}
use bigassm.Types.{Token, ok, tk_constant, u64}
use bigassm.Types.Print.{is_type}
use bigassm.Section
use bigassm.Section.{Section, ot_data}
use bigassm.Assembler.{Assembler, align_with_labels, add_output, on_current, with_section}
use bigassm.Assembler.Labels.{
  aligned, emplace_all, end_of, aligned_sections, align_section_with_labels-runs,
  find-aligned_sections,
}
use bigassm.Constants.Termination.{advance}
use bigassm.Constants.Ahead.{ahead, next_here}
use bigassm.Patch.{word_of}
use bigassm.PseudoOps.Handlers.{le_bytes, data_handler}

pub length-le_bytes : (n v : ℕ) → length (le_bytes n v) ≡ n
unfolding le_bytes
length-le_bytes zero v = refl
length-le_bytes (suc n) v = ap suc (length-le_bytes n (v / 256))

pub above_byte : (v p : ℕ) → v % 256 + 256 * (v / 256 % p) ≡ v % (256 * p)
above_byte v p = omega (
  arith,
  mod-eq-sub-mul-div v (256 * p),
  mod-eq-sub-mul-div (v / 256) p,
  ap (λ (t : ℕ). 256 * p * t) (div-div-eq-div-mul v 256 p),
)

pub word_of-le_bytes : (n v : ℕ) → word_of (le_bytes n v) ≡ v % 256 ^ n
unfolding le_bytes word_of
word_of-le_bytes zero v = omega arith
word_of-le_bytes (suc n) v = rw (word_of-le_bytes n (v / 256), pow-succ') (above_byte v (256 ^ n))

-- The handler of DATA_16 to DATA_128, for n bytes, takes a constant, aligns the current section to
-- n and appends n bytes that read, the lowest first, as the low bytes of the constant's low 64
-- bits; the section holds data then, and no label waits in it.
pub data_handler-appends :
    (n : ℕ) (tk : Token) (rest : List Token) (a : Assembler) (s : Section)
    → ahead a ≡ tk ∷ rest
    → is_type tk.type tk_constant ≡ true
    → find a.current_section a.sections ≡ some s
    → (bytes : Bytes) × (a' : Assembler) × (data_handler n a ≡ ok (tt, a'))
      × (find a.current_section a'.sections
          ≡ some (record (aligned n s) {
            output = (aligned n s).output ++ bytes;
            has_data = true;
            label_queue = [];
          }))
      × (length bytes ≡ n)
      × (word_of bytes ≡ u64 tk % 256 ^ n)
unfolding data_handler align_with_labels add_output on_current with_section Section.add_output
data_handler-appends n tk rest a s h ct found =
    let bytes = le_bytes n (u64 tk) in
    let key = a.current_section in
    let here = find-aligned_sections key n a.sections s found in
    let emptied =
      update key (λ (t : Section). record t { label_queue = [] })
        (aligned_sections key n a.sections) in
    (
      bytes,
      record (advance a) {
        sections = update key (Section.add_output ot_data bytes) emptied;
        lookup = emplace_all (end_of key (aligned n s)) (aligned n s).label_queue a.lookup;
      },
      rw
          (
            next_here a h tk_constant ct,
            align_section_with_labels-runs key n (advance a) (aligned n s) (aligned n s) here here,
          )
          refl,
      rw
          (
            find-update key key (Section.add_output ot_data bytes) emptied,
            bytes_eq_refl key,
            find-update key key (λ (t : Section). record t { label_queue = [] })
                (aligned_sections key n a.sections),
            bytes_eq_refl key,
            here,
          )
          refl,
      length-le_bytes n (u64 tk),
      word_of-le_bytes n (u64 tk),
    )
