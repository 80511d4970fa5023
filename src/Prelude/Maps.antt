-- ===== src/Prelude/Maps.antt =====
-- Go's `map[string]T` as a list of keys and values, and Redis itself. A loop over a map goes through
-- the list.
use mathlib.Core.Path.{◌≡◌, refl}
use mathlib.Core.Option.{Option, none, some}
use mathlib.Core.List.{List, [], ◌∷◌}
use native.Mathlib.Omega.{arith}
use Prim.Native.String.{String}
use text.Mathlib.Text.{◌==◌ as str_eq}
use text.Mathlib.TextEquality.{eq_iff as str_eq_iff}
use x_scope_hub_svc_plus.Prelude.Tests.{if◌then◌else◌}

module _ {A : Type 0} where
  unfoldable pub lookup : String → List (String × A) → Option A
  lookup k [] = none
  lookup k ((j, a) ∷ m) = if str_eq j k then some a else lookup k m

  unfoldable pub insert : String → A → List (String × A) → List (String × A)
  insert k a [] = (k, a) ∷ []
  insert k a ((j, b) ∷ m) = if str_eq j k then (k, a) ∷ m else (j, b) ∷ insert k a m

  pub lookup-insert :
      (k j : String) (a : A) (m : List (String × A))
      → lookup j (insert k a m) ≡ (if str_eq k j then some a else lookup j m)
  unfolding lookup insert
  lookup-insert k j a [] = refl
  lookup-insert k j a ((i, b) ∷ m) =
      ground (arith, str_eq_iff k j, str_eq_iff i k, str_eq_iff i j, lookup-insert k j a m)
