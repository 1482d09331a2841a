-- ===== src/Base/Dict.antt =====
-- Python's `dict` in insertion order. Proofs elsewhere go by the laws in `if` form.
use mathlib.Core.Path.{◌≡◌, refl, subst}
use mathlib.Core.Bool.{Bool}
use mathlib.Core.Logic.{inl, inr}
use mathlib.Core.Option.{Option, none, some, some-injective}
use mathlib.Core.List.{List, [], ◌∷◌}
use native.Mathlib.Omega.{arith}
use mcp_gateway.Base.Tests.{if◌then◌else◌, is_some, Bool-cases}
use mcp_gateway.Base.Equality.{Eq, ◌==◌}

abbrev pub Dict {ℓ κ} : Type ℓ → Type κ → Type (ℓ ⊔ κ)
Dict K V = List (K × V)

module _ {ℓ κ} {K : Type ℓ} {V : Type κ} ⦃e : Eq K⦄ where
  -- `d.get(k)`
  unfoldable pub lookup : K → Dict K V → Option V
  lookup k [] = none
  lookup k ((j, w) ∷ d) = if k == j then some w else lookup k d

  -- `d[k] = v`: an old key keeps its place.
  unfoldable pub insert : K → V → Dict K V → Dict K V
  insert k v [] = (k, v) ∷ []
  insert k v ((j, w) ∷ d) = if k == j then (k, v) ∷ d else (j, w) ∷ insert k v d

  -- `d.pop(k, None)`
  unfoldable pub erase : K → Dict K V → Dict K V
  erase k [] = []
  erase k ((j, w) ∷ d) = let rest = erase k d in if k == j then rest else (j, w) ∷ rest

  -- `k in d`
  abbrev pub has_key : K → Dict K V → Bool
  has_key k d = is_some (lookup k d)

  -- `d.values()`
  unfoldable pub values : Dict K V → List V
  values [] = []
  values ((j, w) ∷ d) = w ∷ values d

  pub lookup-nil : (k : K) → lookup k [] ≡ none
  unfolding lookup
  lookup-nil k = refl

  pub lookup-insert :
      (j k : K) (v : V) (d : Dict K V)
      → lookup j (insert k v d) ≡ (if j == k then some v else lookup j d)
  unfolding insert lookup
  lookup-insert j k v [] = ground arith
  lookup-insert j k v (_ ∷ d) = ground (arith, lookup-insert j k v d)

  pub lookup-erase :
      (j k : K) (d : Dict K V) → lookup j (erase k d) ≡ (if j == k then none else lookup j d)
  unfolding erase lookup
  lookup-erase j k [] = ground arith
  lookup-erase j k (_ ∷ d) = ground (arith, lookup-erase j k d)

  pub lookup-insert_self : (k : K) (v : V) (d : Dict K V) → lookup k (insert k v d) ≡ some v
  lookup-insert_self k v d = ground (arith, lookup-insert k k v d)

  -- What holds of every value still does when one is written that it holds of.
  pub every-insert {μ} :
      (P : V → Type μ) (d : Dict K V) (k : K) (v : V)
      → ((j : K) (w : V) → lookup j d ≡ some w → P w)
      → P v
      → (j : K) (w : V) → lookup j (insert k v d) ≡ some w
      → P w
  every-insert P d k v h p j w e = elim (Bool-cases (j == k)) [
    | inl same ↦ subst P (some-injective v w (ground (arith, lookup-insert j k v d, same, e))) p
    | inr other ↦ h j w (ground (arith, lookup-insert j k v d, other, e))
  ]
