-- ===== src/Prelude/Dict.antt =====
-- Python's dicts with text keys, in insertion order, and one law for each pair of operations.
use mathlib.Core.Path.{◌≡◌, refl}
use mathlib.Core.List.{List, [], ◌∷◌}
use mathlib.Core.Option.{Option, none, some}
use native.Mathlib.Omega.{arith}
use Prim.Native.String.{String}
use text.Mathlib.Text.{◌==◌ as str_eq}
use text.Mathlib.TextEquality.{eq_iff}
use dragon_sniff.Prelude.Tests.{if◌then◌else◌}

abbrev pub Dict {ℓ} : Type ℓ → Type ℓ
Dict A = List (String × A)

module _ {ℓ} {A : Type ℓ} where
  -- `d.get(k)`.
  unfoldable pub lookup : String → Dict A → Option A
  lookup k [] = none
  lookup k ((j, a) ∷ d) = let later = lookup k d in if str_eq j k then some a else later

  -- `d[k] = a`: a new key comes last.
  unfoldable pub assign : String → A → Dict A → Dict A
  assign k a [] = (k, a) ∷ []
  assign k a ((j, b) ∷ d) =
      let later = assign k a d in if str_eq j k then (j, a) ∷ d else (j, b) ∷ later

  -- `d.pop(k, None)`.
  unfoldable pub erase : String → Dict A → Dict A
  erase k [] = []
  erase k ((j, b) ∷ d) = let later = erase k d in if str_eq j k then later else (j, b) ∷ later

  pub lookup-assign :
      (k j : String) (a : A) (d : Dict A)
      → lookup j (assign k a d) ≡ (if str_eq k j then some a else lookup j d)
  unfolding lookup assign
  lookup-assign k j a [] = refl
  lookup-assign k j a ((i, b) ∷ d) =
      ground (arith, lookup-assign k j a d, eq_iff i k, eq_iff i j, eq_iff k j)

  pub lookup-erase :
      (k j : String) (d : Dict A) → lookup j (erase k d) ≡ (if str_eq k j then none else lookup j d)
  unfolding lookup erase
  lookup-erase k j [] = ground arith
  lookup-erase k j ((i, b) ∷ d) =
      ground (arith, lookup-erase k j d, eq_iff i k, eq_iff i j, eq_iff k j)
