-- ===== src/Prelude/Maps.antt =====
-- `std::map` and `std::unordered_map` with string keys, as association lists. An entry is added
-- only where the key is not present, so the first entry of a key is the only one.
use mathlib.Core.Option
use mathlib.Core.Path.{◌≡◌, refl, sym, ap, ◌∙◌}
use mathlib.Core.Bool.{Bool, true, false, ◌&&◌}
use mathlib.Core.Logic.{inl, inr}
use mathlib.Core.List.{List, [], ◌∷◌}
use mathlib.Core.Option.{Option, none, some}
use native.Mathlib.Omega.{arith}
use bigassm.Prelude.Tests.{if◌then◌else◌, Bool-cases}
use bigassm.Prelude.Lists.{Bytes, bytes_eq, bytes_eq_iff, bytes_eq→eq, bytes_lt}

abbrev pub Map {ℓ} : Type ℓ → Type ℓ
Map V = List (Bytes × V)

module _ {ℓ} {V : Type ℓ} where
  -- `find(k)`
  unfoldable pub find : Bytes → Map V → Option V
  find k [] = none
  find k ((j, v) ∷ m) = if bytes_eq j k then some v else find k m

  -- A write through the iterator of `k`.
  unfoldable pub update : Bytes → (V → V) → Map V → Map V
  update k f [] = []
  update k f ((j, v) ∷ m) = if bytes_eq j k then (j, f v) ∷ m else (j, v) ∷ update k f m

  -- `emplace(k, v)` of an ordered map: the keys stay in order
  unfoldable pub emplace : Bytes → V → Map V → Map V
  emplace k v [] = (k, v) ∷ []
  emplace k v ((j, w) ∷ m) =
      if bytes_eq j k
      then (j, w) ∷ m
      else if bytes_lt k j
      then (k, v) ∷ (j, w) ∷ m
      else (j, w) ∷ emplace k v m

  -- `emplace(k, v)` of an unordered map, here in the order of insertion
  unfoldable pub emplace_last : Bytes → V → Map V → Map V
  emplace_last k v [] = (k, v) ∷ []
  emplace_last k v ((j, w) ∷ m) = if bytes_eq j k then (j, w) ∷ m else (j, w) ∷ emplace_last k v m

  pub find-update :
      (k j : Bytes) (f : V → V) (m : Map V)
      → find j (update k f m) ≡ (if bytes_eq k j then Option.map f (find j m) else find j m)
  unfolding find update
  find-update k j f [] = ground arith
  find-update k j f ((i, v) ∷ m) =
      ground (arith, bytes_eq_iff i k, bytes_eq_iff i j, bytes_eq_iff k j, find-update k j f m)

  pub find-emplace_last :
      (k j : Bytes) (v : V) (m : Map V)
      → find j (emplace_last k v m)
        ≡ elim (find j m) [ some w ↦ some w | none ↦ if bytes_eq k j then some v else none ]
  unfolding find emplace_last
  find-emplace_last k j v [] = refl
  find-emplace_last k j v ((i, w) ∷ m) =
      ground
        (arith, bytes_eq_iff i k, bytes_eq_iff i j, bytes_eq_iff k j, find-emplace_last k j v m)

  -- A new entry, where it is placed in order.
  pub find-emplace_new :
      (k j : Bytes) (v : V) (m : Map V)
      → find k m ≡ none
      → find j (emplace k v m) ≡ (if bytes_eq k j then some v else find j m)
  unfolding find emplace
  find-emplace_new k j v [] e = refl
  find-emplace_new k j v ((i, w) ∷ m) e =
      ground (arith, bytes_eq_iff i k, bytes_eq_iff i j, bytes_eq_iff k j, find-emplace_new k j v m)

-- A test that all the entries of a map pass.
abbrev pub every {ℓ} : {V : Type ℓ} → (Bytes → V → Bool) → Map V → Bool
every p [] = true
every p ((k, v) ∷ m) = p k v && every p m

pub and-true : {b c : Bool} → b && c ≡ true → (b ≡ true) × (c ≡ true)
and-true {b = true} e = (refl, e)
and-true {b = false} e = absurd cc

pub every-find {ℓ} :
    {V : Type ℓ} (p : Bytes → V → Bool) (m : Map V) {k : Bytes} {v : V}
    → every p m ≡ true
    → find k m ≡ some v
    → p k v ≡ true
unfolding find
every-find p [] e h = absurd cc
every-find p ((j, w) ∷ m) {k} {v} e h =
    let (here, rest) = and-true e in
    elim (Bool-cases (bytes_eq j k)) [
      | inl same ↦
          hit (bytes_eq→eq j k same)
            (sym (ap (λ (b : Bool). if b then some w else find k m) same) ∙ h) here
      | inr other ↦
          every-find p m rest (sym (ap (λ (b : Bool). if b then some w else find k m) other) ∙ h)
    ]
  where
    hit : j ≡ k → some w ≡ some v → p j w ≡ true → p k v ≡ true
    hit ek ev t = cc
