-- ===== src/Prelude/TextOrder.antt =====
-- The order of texts is total and transitive, also where a second text decides between equal ones.
use Prim.Native.Nat.{ℕ, compare as compare_ℕ, Ordering}
use Prim.Native.String.{String, compare, then, [], ◌∷◌}
use Prim.Native.String.compare
use Prim.Native.Char.{code}
use mathlib.Core.Path.{◌≡◌, refl, sym, ap, ◌∙◌, subst}
use mathlib.Core.Bool.{Bool, true, false, ◌&&◌, ◌||◌}
use native.Mathlib.Omega.{arith}
use text.Mathlib.Text.{is_lt, is_eq, is_le}

abbrev flip : Ordering → Ordering
flip Ordering.lt = Ordering.gt
flip Ordering.eq = Ordering.eq
flip Ordering.gt = Ordering.lt

flip-then : (o p : Ordering) → flip (then o p) ≡ then (flip o) (flip p)
flip-then Ordering.lt p = refl
flip-then Ordering.eq p = refl
flip-then Ordering.gt p = refl

-- The outcomes that three texts `a`, `b`, `c` can have, for `a` and `b`, `b` and `c`, `a` and `c`.
abbrev Fits : Ordering → Ordering → Ordering → Type 0
Fits Ordering.eq p q = q ≡ p
Fits Ordering.lt Ordering.gt q = Unit
Fits Ordering.gt Ordering.lt q = Unit
Fits o p q = q ≡ o

then-Fits :
    (o p q o' p' q' : Ordering)
    → Fits o p q
    → Fits o' p' q'
    → Fits (then o o') (then p p') (then q q')
then-Fits Ordering.lt Ordering.lt q o' p' q' h k = rw h refl
then-Fits Ordering.lt Ordering.eq q o' Ordering.lt q' h k = rw h refl
then-Fits Ordering.lt Ordering.eq q o' Ordering.eq q' h k = rw h refl
then-Fits Ordering.lt Ordering.eq q o' Ordering.gt q' h k = tt
then-Fits Ordering.lt Ordering.gt q o' p' q' h k = tt
then-Fits Ordering.eq Ordering.lt q Ordering.lt p' q' h k = rw h refl
then-Fits Ordering.eq Ordering.lt q Ordering.eq p' q' h k = rw h refl
then-Fits Ordering.eq Ordering.lt q Ordering.gt p' q' h k = tt
then-Fits Ordering.eq Ordering.eq q o' p' q' h k = rw h k
then-Fits Ordering.eq Ordering.gt q Ordering.lt p' q' h k = tt
then-Fits Ordering.eq Ordering.gt q Ordering.eq p' q' h k = rw h refl
then-Fits Ordering.eq Ordering.gt q Ordering.gt p' q' h k = rw h refl
then-Fits Ordering.gt Ordering.lt q o' p' q' h k = tt
then-Fits Ordering.gt Ordering.eq q o' Ordering.lt q' h k = tt
then-Fits Ordering.gt Ordering.eq q o' Ordering.eq q' h k = rw h refl
then-Fits Ordering.gt Ordering.eq q o' Ordering.gt q' h k = rw h refl
then-Fits Ordering.gt Ordering.gt q o' p' q' h k = rw h refl

compare_ℕ-flip : (m n : ℕ) → compare_ℕ n m ≡ flip (compare_ℕ m n)
compare_ℕ-flip m n = ground arith

compare_ℕ-Fits : (m n k : ℕ) → Fits (compare_ℕ m n) (compare_ℕ n k) (compare_ℕ m k)
compare_ℕ-Fits m n k = ground arith

pub compare-flip : (s t : String) → compare t s ≡ flip (compare s t)
compare-flip [] [] = rw compare.nil-nil refl
compare-flip [] (d ∷ t) = rw (compare.cons-nil d t, compare.nil-cons d t) refl
compare-flip (c ∷ s) [] = rw (compare.cons-nil c s, compare.nil-cons c s) refl
compare-flip (c ∷ s) (d ∷ t) =
    compare.cons-cons d c t s
    ∙ ap (λ o. then o (compare t s)) (compare_ℕ-flip (code c) (code d))
    ∙ ap (λ o. then (flip (compare_ℕ (code c) (code d))) o) (compare-flip s t)
    ∙ sym (flip-then (compare_ℕ (code c) (code d)) (compare s t))
    ∙ ap flip (sym (compare.cons-cons c d s t))

lt-Fits : (p : Ordering) → Fits Ordering.lt p Ordering.lt
lt-Fits Ordering.lt = refl
lt-Fits Ordering.eq = refl
lt-Fits Ordering.gt = tt

gt-Fits : (o : Ordering) → Fits o Ordering.gt Ordering.gt
gt-Fits Ordering.lt = tt
gt-Fits Ordering.eq = refl
gt-Fits Ordering.gt = refl

pub compare-Fits : (s t u : String) → Fits (compare s t) (compare t u) (compare s u)
compare-Fits [] [] u = subst (λ o. Fits o (compare [] u) (compare [] u)) (sym compare.nil-nil) refl
compare-Fits [] (d ∷ t) [] = rw (compare.nil-cons d t, compare.cons-nil d t) tt
compare-Fits [] (d ∷ t) (e ∷ u) =
    rw (compare.nil-cons d t, compare.nil-cons e u) (lt-Fits (compare (d ∷ t) (e ∷ u)))
compare-Fits (c ∷ s) [] [] = rw (compare.cons-nil c s) refl
compare-Fits (c ∷ s) [] (e ∷ u) = rw (compare.cons-nil c s, compare.nil-cons e u) tt
compare-Fits (c ∷ s) (d ∷ t) [] =
    rw (compare.cons-nil d t, compare.cons-nil c s) (gt-Fits (compare (c ∷ s) (d ∷ t)))
compare-Fits (c ∷ s) (d ∷ t) (e ∷ u) =
    rw (compare.cons-cons c d s t, compare.cons-cons d e t u, compare.cons-cons c e s u)
      (then-Fits _ _ _ _ _ _ (compare_ℕ-Fits (code c) (code d) (code e)) (compare-Fits s t u))

-- Two pairs of texts, the first texts deciding before the second.
abbrev pub pair_le : String × String → String × String → Bool
pair_le a b = is_lt (compare a.0 b.0) || (is_eq (compare a.0 b.0) && is_le (compare a.1 b.1))

abbrev pair_order : String × String → String × String → Ordering
pair_order a b = then (compare a.0 b.0) (compare a.1 b.1)

is_le-then : (o p : Ordering) → is_le (then o p) ≡ (is_lt o || (is_eq o && is_le p))
is_le-then Ordering.lt p = refl
is_le-then Ordering.eq p = refl
is_le-then Ordering.gt p = refl

is_le-flip : (o : Ordering) → is_le o ≡ false → is_le (flip o) ≡ true
is_le-flip Ordering.lt h = cc
is_le-flip Ordering.eq h = cc
is_le-flip Ordering.gt h = refl

is_le-Fits : (o p q : Ordering) → Fits o p q → is_le o ≡ true → is_le p ≡ true → is_le q ≡ true
is_le-Fits Ordering.lt Ordering.lt q h j k = rw h refl
is_le-Fits Ordering.lt Ordering.eq q h j k = rw h refl
is_le-Fits Ordering.lt Ordering.gt q h j k = cc
is_le-Fits Ordering.eq p q h j k = rw h k
is_le-Fits Ordering.gt p q h j k = cc

pub pair_le_total : (a b : String × String) → pair_le a b ≡ false → pair_le b a ≡ true
pair_le_total a b h =
    sym (is_le-then (compare b.0 a.0) (compare b.1 a.1))
    ∙ ap is_le turned
    ∙ is_le-flip (pair_order a b) (is_le-then (compare a.0 b.0) (compare a.1 b.1) ∙ h)
  where
    turned : pair_order b a ≡ flip (pair_order a b)
    turned =
        ap (λ o. then o (compare b.1 a.1)) (compare-flip a.0 b.0)
        ∙ ap (λ o. then (flip (compare a.0 b.0)) o) (compare-flip a.1 b.1)
        ∙ sym (flip-then (compare a.0 b.0) (compare a.1 b.1))

pub pair_le_trans :
    (a b c : String × String) → pair_le a b ≡ true → pair_le b c ≡ true → pair_le a c ≡ true
pair_le_trans a b c h k =
    sym (is_le-then (compare a.0 c.0) (compare a.1 c.1))
    ∙ is_le-Fits (pair_order a b) (pair_order b c) (pair_order a c)
        (then-Fits _ _ _ _ _ _ (compare-Fits a.0 b.0 c.0) (compare-Fits a.1 b.1 c.1))
        (is_le-then (compare a.0 b.0) (compare a.1 b.1) ∙ h)
        (is_le-then (compare b.0 c.0) (compare b.1 c.1) ∙ k)
