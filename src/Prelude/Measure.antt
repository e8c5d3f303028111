-- ===== src/Prelude/Measure.antt =====
-- The number of instants of a range at which a test holds: the measure that integrals are held to.
use Prim.Native.Nat.{ℕ, zero, suc, ◌+◌, ◌≤◌, ◌<◌}
use mathlib.Core.Path.{◌≡◌, refl}
use mathlib.Core.Bool.{Bool, true, false, ◌&&◌}
use Prim.Native.Nat.add
use native.Mathlib.Nat.{add-zero}
use native.Mathlib.Decide.{dec_le}
use native.Mathlib.Omega.{arith}
use dragon_sniff.Prelude.Tests.{if◌then◌else◌}

unfoldable pub count_time : (ℕ → Bool) → ℕ → ℕ → ℕ
count_time p low zero = 0
count_time p low (suc n) = (if p low then 1 else 0) + count_time p (low + 1) n

pub count_time-le : (p : ℕ → Bool) (low n : ℕ) → count_time p low n ≤ n
unfolding count_time
count_time-le p low zero = omega arith
count_time-le p low (suc n) = ground (arith, count_time-le p (low + 1) n)

pub count_time_ext :
    (p q : ℕ → Bool) (low n : ℕ)
    → ((t : ℕ) → low ≤ t → t < low + n → p t ≡ q t)
    → count_time p low n ≡ count_time q low n
unfolding count_time
count_time_ext p q low zero same = refl
count_time_ext p q low (suc n) same =
    rw (same low (omega arith) (omega arith))
      (omega (arith, count_time_ext p q (low + 1) n (λ t a b. same t (omega arith) (omega arith))))

pub count_time_split :
    (p : ℕ → Bool) (low m n : ℕ)
    → count_time p low (m + n) ≡ count_time p low m + count_time p (low + m) n
unfolding count_time
count_time_split p low zero n =
    let e : 0 + n ≡ n = add.zero n in
    let f : low + 0 ≡ low = add-zero low in rw (e, f) (omega arith)
count_time_split p low (suc m) n =
    let e : low + suc m ≡ low + 1 + m = omega arith in
    rw (add.suc, e) (omega (arith, count_time_split p (low + 1) m n))

pub count_time_const : (b : Bool) (low n : ℕ) → count_time (λ t. b) low n ≡ (if b then n else 0)
unfolding count_time
count_time_const b low zero = ground arith
count_time_const b low (suc n) = ground (arith, count_time_const b (low + 1) n)

-- Where the whole range is counted, the test holds at each of its instants.
pub count_time_full :
    (p : ℕ → Bool) (low n t : ℕ) → count_time p low n ≡ n → low ≤ t → t < low + n → p t ≡ true
unfolding count_time
count_time_full p low zero t e a b = absurd (omega arith)
count_time_full p low (suc n) t e a b =
    let bound = count_time-le p (low + 1) n in
    elim (dec_le t low) [
      | yes here ↦ let same : t ≡ low = omega arith in rw same (ground arith)
      | no past ↦ count_time_full p (low + 1) n t (ground arith) (omega arith) (omega arith)
    ]

-- Two tests that are never true together share the range.
pub count_time_disjoint :
    (p q : ℕ → Bool) (low n : ℕ)
    → ((t : ℕ) → (p t && q t) ≡ false)
    → count_time p low n + count_time q low n ≤ n
unfolding count_time
count_time_disjoint p q low zero d = omega arith
count_time_disjoint p q low (suc n) d = ground (arith, d low, count_time_disjoint p q (low + 1) n d)

pub count_time_mono :
    (p q : ℕ → Bool) (low n : ℕ)
    → ((t : ℕ) → p t ≡ true → q t ≡ true)
    → count_time p low n ≤ count_time q low n
unfolding count_time
count_time_mono p q low zero h = omega arith
count_time_mono p q low (suc n) h = ground (arith, h low, count_time_mono p q (low + 1) n h)
