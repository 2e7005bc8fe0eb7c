-- ===== src/Finish/Disjoint.antt =====
-- `Assembler::resolve_base_addresses` of src/assemble.cpp: sections that follow each other do not
-- overlap.
use bigassm.Prelude.{
  ℕ, suc, ◌+◌, ◌%◌, ◌^◌, ◌≡◌, ◌≤◌, ◌<◌, refl, ap, ◌∙◌, sym, Bool, true, false, if◌then◌else◌, some,
  length, arith,
}
use bigassm.Types.{ok}
use bigassm.Section.{Section, size, set_base_address}
use bigassm.Assembler.{Options, Assembler}
use bigassm.Assembler.Steps.{Numbered}
use bigassm.Assembler.Keyed.{Keyed}
use bigassm.Finish.{Layout, round_up, realign, place, resolve_base_addresses}
use bigassm.Finish.Order.{section_no}
use bigassm.Finish.Place.{next_base, realign-forward}
use bigassm.Finish.Rounds.{
  layout_at, layout_at-next, base_at, placed, resolve_base_addresses-places,
}

place-next :
    (options : Options) (s : Section) (l : Layout)
    → (place options s l).1.base_addr ≡ round_up 0xF (((place options s l).0 + size s) % 2 ^ 128)
unfolding place
place-next options s l = refl

place-own :
    (options : Options) (s : Section) (l : Layout)
    → s.has_base_address ≡ true
    → (place options s l).0 ≡ s.base_address
unfolding place
place-own options s l h = rw h refl

place-free :
    (options : Options) (s : Section) (l : Layout)
    → s.has_base_address ≡ false
    → (place options s l).0 ≡ (realign options s l).base_addr
unfolding place
place-free options s l h = rw h refl

chosen :
    (own : Bool) (base : ℕ) (s : Section)
    → (own ≡ true → s.base_address ≡ base)
    → let s' = if own then s else set_base_address base s in
      (s'.base_address ≡ base) × (size s' ≡ size s)
unfolding set_base_address size
chosen true base s h = (h refl, refl)
chosen false base s h = (refl, refl)

-- A placed section has the base address of its place, and its output.
placed-base :
    (options : Options) (a : Assembler) (i : ℕ) (s : Section)
    → ((placed options a.sections i s).base_address ≡ base_at options a.sections i s)
      × (size (placed options a.sections i s) ≡ size s)
placed-base options a i s =
    chosen s.has_base_address (base_at options a.sections i s) s
      (λ h. sym (place-own options s (layout_at options a.sections i) h))

-- Where the sections have the indices from zero on, stand each under its name and
-- resolve_base_addresses returns, a section without a base address of its own begins behind the end
-- of the section with the index in front of its, and less than a page and 16 bytes behind it, where
-- that is far enough below 2 ^ 128.
pub resolve_base_addresses-separates :
    (a b : Assembler) (i : ℕ) (s t u : Section)
    → Numbered a.sections
    → Keyed a.sections
    → resolve_base_addresses a ≡ ok (tt, b)
    → suc i < length a.sections
    → section_no i b.sections ≡ some s
    → section_no (suc i) a.sections ≡ some u
    → section_no (suc i) b.sections ≡ some t
    → u.has_base_address ≡ false
    → s.base_address + size s + 0x100E < 2 ^ 128
    → (s.base_address + size s ≤ t.base_address)
      × (t.base_address < s.base_address + size s + 0x100F)
resolve_base_addresses-separates a b i s t u numbered names done h es eu et free fits =
    let options = a.options in
    let m = a.sections in
    let (b₁, s₀, done₁, e₁, f₁, _, _) =
      resolve_base_addresses-places a numbered names i (omega arith) in
    let (b₂, t₀, done₂, e₂, f₂, _, _) = resolve_base_addresses-places a numbered names (suc i) h in
    let same₁ : b₁ ≡ b = cc in
    let same₂ : b₂ ≡ b = cc in
    let u₀ : u ≡ t₀ = cc in
    let s' : placed options m i s₀ ≡ s =
      some_eq (sym f₁ ∙ ap (λ (x : Assembler). section_no i x.sections) same₁ ∙ es) in
    let t' : placed options m (suc i) t₀ ≡ t =
      some_eq (sym f₂ ∙ ap (λ (x : Assembler). section_no (suc i) x.sections) same₂ ∙ et) in
    let l = layout_at options m i in
    let x = base_at options m i s₀ in
    let sb : s.base_address ≡ x =
      ap (λ (y : Section). y.base_address) (sym s') ∙ (placed-base options a i s₀).0 in
    let sz : size s ≡ size s₀ = ap size (sym s') ∙ (placed-base options a i s₀).1 in
    let tb : t.base_address ≡ base_at options m (suc i) t₀ =
      ap (λ (y : Section). y.base_address) (sym t') ∙ (placed-base options a (suc i) t₀).0 in
    let free₀ : t₀.has_base_address ≡ false =
      ap (λ (y : Section). y.has_base_address) (sym u₀) ∙ free in
    let l' = layout_at options m (suc i) in
    let next : l'.base_addr ≡ round_up 0xF ((x + size s₀) % 2 ^ 128) =
      ap (λ (y : Layout). y.base_addr) (layout_at-next options m i s₀ e₁)
      ∙ place-next options s₀ l in
    let (mult, lo, up) = next_base (x + size s₀) (omega arith) in
    let (lo', up') = realign-forward options t₀ l' (omega arith) in
    let at : base_at options m (suc i) t₀ ≡ (realign options t₀ l').base_addr =
      place-free options t₀ l' free₀ in
    (omega arith, omega arith)
  where
    some_eq : {x y : Section} → some x ≡ some y → x ≡ y
    some_eq e = cc
