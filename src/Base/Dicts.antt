-- ===== src/Base/Dicts.antt =====
-- A `dict` as an association list in insertion order.
use mathlib.Core.Path.{◌≡◌, refl}
use mathlib.Core.Logic.{inl, inr}
use mathlib.Core.List.{List, [], ◌∷◌}
use mathlib.Core.Option.{Option, none, some}
use native.Mathlib.Omega.{arith}
use the_retinue.Base.Results.{Result, ok, err, key_error}
use the_retinue.Base.Tests.{Option-cases, Eq, ◌==◌, if◌then◌else◌}

abbrev pub Dict {ℓ κ} : Type ℓ → Type κ → Type (ℓ ⊔ κ)
Dict K V = List (K × V)

unfoldable pub keys {ℓ κ} : {K : Type ℓ} {V : Type κ} → Dict K V → List K
keys [] = []
keys ((k, v) ∷ d) = k ∷ keys d

module _ {ℓ κ} {K : Type ℓ} {V : Type κ} ⦃e : Eq K⦄ where
  -- `d.get(k)`
  unfoldable pub lookup : K → Dict K V → Option V
  lookup k [] = none
  lookup k ((j, v) ∷ d) = if j == k then some v else lookup k d

  pub lookup-nil : (k : K) {v : V} → ¬ (lookup k [] ≡ some v)
  unfolding lookup
  lookup-nil k h = cc

  -- `d[k]`
  unfoldable pub get_item : K → Dict K V → Result V
  unfolding lookup
  get_item k d = elim (lookup k d) [ none ↦ err key_error | some v ↦ ok v ]

  pub get_item-eq-ok : (k : K) (d : Dict K V) {v : V} → get_item k d ≡ ok v → lookup k d ≡ some v
  unfolding get_item
  get_item-eq-ok k d h = elim (Option-cases (lookup k d)) [
    | inl e ↦ cc
    | inr (w, e) ↦ ground (arith, e, h)
  ]

  -- `d[k] = v`
  unfoldable pub insert : K → V → Dict K V → Dict K V
  insert k v [] = (k, v) ∷ []
  insert k v ((j, w) ∷ d) = if j == k then (j, v) ∷ d else (j, w) ∷ insert k v d

  pub lookup-insert :
      (k j : K) (v : V) (d : Dict K V)
      → lookup j (insert k v d) ≡ (if k == j then some v else lookup j d)
  unfolding lookup insert
  lookup-insert k j v [] = refl
  lookup-insert k j v ((i, w) ∷ d) =
      ground (arith, e.equals_iff k j, e.equals_iff i k, e.equals_iff i j, lookup-insert k j v d)

  -- No key stands twice.
  abbrev pub NodupKeys : Dict K V → Type κ
  NodupKeys [] = Unit
  NodupKeys ((k, v) ∷ d) = (lookup k d ≡ none) × NodupKeys d

  pub insert-NodupKeys : (k : K) (v : V) (d : Dict K V) → NodupKeys d → NodupKeys (insert k v d)
  unfolding insert lookup
  insert-NodupKeys k v [] h = (refl, tt)
  insert-NodupKeys k v ((j, w) ∷ d) h =
      ground (
        arith,
        insert-NodupKeys k v d h.1,
        lookup-insert k j v d,
        e.equals_iff j k,
        e.equals_iff k j,
      )
