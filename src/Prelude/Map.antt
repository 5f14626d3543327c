-- ===== src/Prelude/Map.antt =====
-- std::unordered_map as an association list: `find`, `operator[] =` and `erase`. The key's equality
-- is the argument `eq`.
use chttp.Prelude.Tests.{if◌then◌else◌, Bool-cases}
use chttp.Prelude.Lists.{All}
use mathlib.Core.Path.{◌≡◌, refl, subst}
use mathlib.Core.Logic.{◌↔◌, inl, inr}
use mathlib.Core.Bool.{Bool, true}
use mathlib.Core.Option.{Option, none, some}
use mathlib.Core.List.{List, [], ◌∷◌}
use native.Mathlib.Omega.{arith}

abbrev pub Map {ℓ κ} : Type ℓ → Type κ → Type (ℓ ⊔ κ)
Map K V = List (K × V)

module _ {ℓ κ} {K : Type ℓ} {V : Type κ} (eq : K → K → Bool) where
  unfoldable pub lookup : K → Map K V → Option V
  lookup k [] = none
  lookup k ((j, v) ∷ m) = if eq j k then some v else lookup k m

  unfoldable pub assign : K → V → Map K V → Map K V
  assign k v [] = (k, v) ∷ []
  assign k v ((j, w) ∷ m) = if eq j k then (k, v) ∷ m else (j, w) ∷ assign k v m

  unfoldable pub erase : K → Map K V → Map K V
  erase k [] = []
  erase k ((j, w) ∷ m) = let rest = erase k m in if eq j k then rest else (j, w) ∷ rest

module _ {ℓ κ} {K : Type ℓ} {V : Type κ} (eq : K → K → Bool)
    (eq_iff : (a b : K) → (eq a b ≡ true) ↔ (a ≡ b)) where
  pub lookup-assign :
      (k j : K) (v : V) (m : Map K V)
      → lookup eq j (assign eq k v m) ≡ (if eq k j then some v else lookup eq j m)
  unfolding lookup assign
  lookup-assign k j v [] = refl
  lookup-assign k j v ((i, w) ∷ m) =
      ground (arith, eq_iff k j, eq_iff i k, eq_iff i j, lookup-assign k j v m)

  pub lookup-erase :
      (k j : K) (m : Map K V)
      → lookup eq j (erase eq k m) ≡ (if eq k j then none else lookup eq j m)
  unfolding lookup erase
  lookup-erase k j [] = ground arith
  lookup-erase k j ((i, w) ∷ m) =
      ground (arith, eq_iff k j, eq_iff i k, eq_iff i j, lookup-erase k j m)

  -- What holds of every pair of a map holds of the pair that is found.
  pub lookup-All {μ} :
      (P : K × V → Type μ) (k : K) (v : V) (m : Map K V)
      → All P m
      → lookup eq k m ≡ some v
      → P (k, v)
  unfolding lookup
  lookup-All P k v [] h e = cc
  lookup-All P k v ((j, w) ∷ m) (p, h) e = elim (Bool-cases (eq j k)) [
    | inl t ↦
        let found : some w ≡ some v = rw t at e in
        let same : w ≡ v = cc found in
        subst (λ x. P (x, v)) ((eq_iff j k).0 t) (subst (λ x. P (j, x)) same p)
    | inr f ↦ lookup-All P k v m h (rw f at e)
  ]
