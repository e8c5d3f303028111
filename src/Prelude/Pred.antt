-- ===== src/Prelude/Pred.antt =====
-- A predicate that holds of every element of a list, and membership, by recursion.
use mathlib.Core.Path.{◌≡◌, refl, sym, subst}
use mathlib.Core.Logic.{◌⊎◌, inl, inr}
use mathlib.Core.Bool.{Bool, true, false}
use mathlib.Core.List.{List, [], ◌∷◌, ◌++◌, map}
use native.Mathlib.Omega.{arith}
use dragon_sniff.Prelude.Lists.{select, all, is_empty}
use dragon_sniff.Prelude.Tests.{Bool-cases}

module _ {ℓ} {A : Type ℓ} where
  abbrev pub All {κ} : (A → Type κ) → List A → Type κ
  All P [] = Unit
  All P (x ∷ xs) = P x × All P xs

  pub All-append {κ} : (P : A → Type κ) (xs ys : List A) → All P xs → All P ys → All P (xs ++ ys)
  All-append P [] ys p q = q
  All-append P (x ∷ xs) ys p q = (p.0, All-append P xs ys p.1 q)

  pub All-select : (p : A → Bool) (xs : List A) → All (λ x. p x ≡ true) (select p xs)
  All-select p [] = tt
  All-select p (x ∷ xs) = elim (Bool-cases (p x)) [
    | inl kept ↦ rw kept (kept, All-select p xs)
    | inr dropped ↦ rw dropped (All-select p xs)
  ]

-- An occurrence of `a` in the list.
abbrev pub In : {A : Type 0} → A → List A → Type 0
In a [] = ⊥
In a (x ∷ xs) = (a ≡ x) ⊎ In a xs

pub All-In {κ} : {A : Type 0} (P : A → Type κ) (x : A) (xs : List A) → All P xs → In x xs → P x
All-In P x [] h m = absurd m
All-In P x (y ∷ ys) h (inl e) = subst P (sym e) h.0
All-In P x (y ∷ ys) h (inr m) = All-In P x ys h.1 m

-- Where something is selected, the first of it is in the list, and in it what holds of all does.
pub first-select :
    {A : Type 0} (p r : A → Bool) (xs : List A)
    → is_empty (select p xs) ≡ false
    → (x : A) × In x xs × (p x ≡ true) × (all r (select p xs) ≡ true → r x ≡ true)
first-select p r [] h = cc
first-select p r (x ∷ xs) h = elim (Bool-cases (p x)) [
  | inl kept ↦ (x, inl refl, kept, rw kept (λ q. ground arith))
  | inr dropped ↦
      let (y, m, k, q) = first-select p r xs (rw dropped at h) in (y, inr m, k, rw dropped q)
]

pub In-map :
    {A B : Type 0} (f : A → B) (y : B) (xs : List A)
    → In y (map f xs)
    → (x : A) × In x xs × (y ≡ f x)
In-map f y [] m = absurd m
In-map f y (x ∷ xs) (inl e) = (x, inl refl, e)
In-map f y (x ∷ xs) (inr m) = let (z, n, e) = In-map f y xs m in (z, inr n, e)
