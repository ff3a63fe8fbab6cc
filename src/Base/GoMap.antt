-- ===== src/Base/GoMap.antt =====
-- Go's built-in `map[string]V`. A nil map can be read and not written: a write to it panics.
-- The program's only iteration over one is in the agent's collectors, so order is not modelled.
use Prim.Native.String.{String}
use mathlib.Core.Path.{◌≡◌, refl}
use mathlib.Core.Logic.{◌⊎◌, inl, inr}
use mathlib.Core.Option.{Option, none, some}
use mathlib.Core.List.{List, [], ◌∷◌}
use native.Mathlib.Omega.{arith}
use text.Mathlib.Text.{◌==◌}
use text.Mathlib.TextEquality.{eq_iff}
use metrify.Base.Tests.{if◌then◌else◌}

pub data GoMap {ℓ} (V : Type ℓ) : Type ℓ where
  nil : GoMap V
  made : List (String × V) → GoMap V

module _ {ℓ} {V : Type ℓ} where
  unfoldable pub lookup : String → List (String × V) → Option V
  lookup k [] = none
  lookup k ((j, v) ∷ m) = if j == k then some v else lookup k m

  unfoldable pub insert : String → V → List (String × V) → List (String × V)
  insert k v [] = (k, v) ∷ []
  insert k v ((j, w) ∷ m) = if j == k then (k, v) ∷ m else (j, w) ∷ insert k v m

  -- `v, ok := m[k]`
  unfoldable pub get : GoMap V → String → Option V
  get nil k = none
  get (made m) k = lookup k m

  pub lookup-insert :
      (entries : List (String × V)) (at wanted : String) (new : V)
      → lookup wanted (insert at new entries)
        ≡ (if at == wanted then some new else lookup wanted entries)
  unfolding lookup insert
  lookup-insert [] at wanted new = refl
  lookup-insert ((key, old) ∷ rest) at wanted new =
      let later = lookup-insert rest at wanted new in
      ground (arith, eq_iff at wanted, eq_iff key at, eq_iff key wanted, later)

  -- A write to a map that is not nil is seen at its key, and at no other.
  pub get-insert :
      (m : List (String × V)) (k j : String) (v : V)
      → get (made (insert k v m)) j ≡ (if k == j then some v else get (made m) j)
  unfolding get
  get-insert m k j v = lookup-insert m k j v

  pub GoMap-cases : (m : GoMap V) → (m ≡ nil) ⊎ ((l : List (String × V)) × (m ≡ made l))
  GoMap-cases nil = inl refl
  GoMap-cases (made l) = inr (l, refl)
