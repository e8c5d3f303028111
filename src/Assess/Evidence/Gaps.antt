-- ===== src/Assess/Evidence/Gaps.antt =====
-- The gaps of the evidence are exactly the sequences that no record carries.
use dragon_sniff.Prelude.{
  ℕ, zero, suc, ◌+◌, ◌≤◌, ◌<◌, Bool, false, not, ◌&&◌, ◌||◌, List, [], ◌∷◌, ◌≡◌, refl, arith, ltb,
  ◌==◌, any, any-append, last_of, Bool-cases, inl, inr, All, All-append,
}
use dragon_sniff.Assess.Evidence.{Record, missing_between, gap_after, gaps_from, gaps}
use dragon_sniff.Assess.Evidence.Order.{IsAscending}

-- A record carries the sequence `s`.
abbrev pub is_present : List Record → ℕ → Bool
is_present rs s = any (λ r. r.sequence == s) rs

-- Records carry all of the `n + 1` sequences from `low` on.
abbrev pub all_present : List Record → ℕ → ℕ → Bool
all_present rs low zero = is_present rs low
all_present rs low (suc n) = is_present rs low && all_present rs (low + 1) n

de_morgan : (a b : Bool) → (not a || not b) ≡ not (a && b)
de_morgan a b = ground arith

-- Below and at the first record there is no later gap and no later record.
below :
    (r : Record) (rs : List Record) (s : ℕ)
    → IsAscending r.sequence rs
    → s ≤ r.sequence
    → (missing_between (gaps_from r rs) s s ≡ false) × (is_present rs s ≡ false)
unfolding missing_between gaps_from
below r [] s asc le = (refl, refl)
below r (c ∷ rs) s asc le = rw any-append (ground (arith, below c rs s asc.1))

above :
    (r : Record) (rs : List Record) (s : ℕ)
    → IsAscending r.sequence rs
    → r.sequence < s
    → s ≤ (last_of r rs).sequence
    → missing_between (gaps_from r rs) s s ≡ not (is_present rs s)
unfolding missing_between gaps_from
above r [] s asc lo hi = absurd (omega arith)
above r (c ∷ rs) s asc lo hi =
    rw any-append (ground (arith, below c rs s asc.1, above c rs s asc.1))

-- A sequence is missing exactly when no record carries it.
missing-not-present :
    (r : Record) (rs : List Record) (s : ℕ)
    → IsAscending 0 (r ∷ rs)
    → 0 < s
    → s ≤ (last_of r rs).sequence
    → missing_between (gaps (r ∷ rs)) s s ≡ not (is_present (r ∷ rs) s)
unfolding missing_between gaps
missing-not-present r rs s asc lo hi =
    rw any-append (ground (arith, below r rs s asc.1, above r rs s asc.1))

-- Every gap is a range that is not empty.
abbrev AreRanges : List (ℕ × ℕ) → Type 0
AreRanges = All (λ g. g.0 ≤ g.1)

gap_after-AreRanges : (a b : ℕ) → AreRanges (gap_after a b)
gap_after-AreRanges a b = elim (Bool-cases (ltb (a + 1) b)) [
  | inl wide ↦ rw wide (ground arith, tt)
  | inr narrow ↦ rw narrow tt
]

gaps_from-AreRanges : (r : Record) (rs : List Record) → AreRanges (gaps_from r rs)
unfolding gaps_from
gaps_from-AreRanges r [] = tt
gaps_from-AreRanges r (c ∷ rs) =
    All-append _ (gap_after r.sequence c.sequence) (gaps_from c rs)
      (gap_after-AreRanges r.sequence c.sequence) (gaps_from-AreRanges c rs)

gaps-AreRanges : (rs : List Record) → AreRanges (gaps rs)
unfolding gaps
gaps-AreRanges [] = tt
gaps-AreRanges (r ∷ rs) = elim (Bool-cases (ltb 1 r.sequence)) [
  | inl late ↦ rw late (ground arith, gaps_from-AreRanges r rs)
  | inr first ↦ rw first (gaps_from-AreRanges r rs)
]

-- A range meets a gap at its first sequence or in the rest of the range.
missing-step :
    (g : List (ℕ × ℕ)) (low high : ℕ)
    → AreRanges g
    → low < high
    → missing_between g low high ≡ (missing_between g low low || missing_between g (low + 1) high)
unfolding missing_between
missing-step [] low high v lt = refl
missing-step ((a, b) ∷ g) low high v lt = ground (arith, missing-step g low high v.1)

-- For accepted records and a range between 1 and the last sequence, `missing_between` over their
-- gaps is true exactly when some sequence of the range has no record.
pub missing_between-gaps :
    (r : Record) (rs : List Record) (low n high : ℕ)
    → IsAscending 0 (r ∷ rs)
    → 0 < low
    → low + n ≡ high
    → high ≤ (last_of r rs).sequence
    → missing_between (gaps (r ∷ rs)) low high ≡ not (all_present (r ∷ rs) low n)
missing_between-gaps r rs low zero high asc lo e hi =
    let e' : high ≡ low = omega arith in rw e' (missing-not-present r rs low asc lo (omega arith))
missing_between-gaps r rs low (suc n) high asc lo e hi =
    let here = missing-not-present r rs low asc lo (omega arith) in
    let rest = missing_between-gaps r rs (low + 1) n high asc (omega arith) (omega arith) hi in
    rw (missing-step _ low high (gaps-AreRanges (r ∷ rs)) (omega arith), here, rest)
      (de_morgan (is_present (r ∷ rs) low) (all_present (r ∷ rs) (low + 1) n))
