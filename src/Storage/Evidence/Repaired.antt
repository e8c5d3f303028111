-- ===== src/Storage/Evidence/Repaired.antt =====
-- What repairing the tail keeps and what it sets aside.
use dragon_sniff.Prelude.{
  ℕ, zero, suc, ◌+◌, ◌-◌, ◌≤◌, ◌<◌, true, false, List, [], ◌∷◌, ◌++◌, none, some, ◌==◌, length,
  take, length-append, ◌≡◌, refl, arith, ap, sym, ◌∙◌, Bool-cases, Option-cases, inl, inr,
  some-injective,
}
use mathlib.Core.Path.{subst}
use mathlib.Core.List.{append-nil}
use dragon_sniff.Runtime.{Bytes}
use dragon_sniff.Storage.Evidence.{
  drop, newline, rfind, Repair, unchanged, cut, ends_complete, repair_partial_tail, count_newlines,
  evidence_after,
}
use dragon_sniff.Storage.Evidence.Writing.{take-drop, length-drop}
use dragon_sniff.Storage.Evidence.Tail.{
  complete_end, end_after, rfind-append-none, last_complete_record_end-eq,
}

-- No record begins behind the last newline.
count_newlines-none : (s : Bytes) → rfind s ≡ none → count_newlines s ≡ 0
unfolding rfind count_newlines
count_newlines-none [] h = refl
count_newlines-none (c ∷ cs) h = elim (Option-cases (rfind cs)) [
  | inr (i, e) ↦ cc (rw e at h)
  | inl e ↦ elim (Bool-cases (c == newline)) [
    | inl is ↦ cc (rw (e, is) at h)
    | inr other ↦ rw other (count_newlines-none cs e)
  ]
]

-- The front that ends with the last newline, and what is behind it.
abbrev Splits : Bytes → ℕ → Type 0
Splits s i =
    (i < length s) × (ends_complete (take (suc i) s) ≡ true) × (count_newlines (drop (suc i) s) ≡ 0)

take-ends_complete :
    (n c : ℕ) (s : Bytes)
    → 0 < n
    → n ≤ length s
    → ends_complete (take n s) ≡ true
    → ends_complete (c ∷ take n s) ≡ true
unfolding ends_complete
take-ends_complete zero c s h k e = absurd (omega arith)
take-ends_complete (suc n) c [] h k e = absurd (omega arith)
take-ends_complete (suc n) c (x ∷ s) h k e = e

rfind-Splits : (s : Bytes) (i : ℕ) → rfind s ≡ some i → Splits s i
unfolding rfind ends_complete count_newlines
rfind-Splits [] i h = cc
rfind-Splits (c ∷ cs) i h = elim (Option-cases (rfind cs)) [
  | inr (j, e) ↦
      let inner = rfind-Splits cs j e in
      let at : suc j ≡ i = some-injective (rw e at h) in
      subst (Splits (c ∷ cs)) at (
        omega (arith, inner.0),
        take-ends_complete (suc j) c cs (omega arith) (omega (arith, inner.0)) inner.1,
        inner.2,
      )
  | inl e ↦ elim (Bool-cases (c == newline)) [
    | inl is ↦
        let at : 0 ≡ i = some-injective (rw (e, is) at h) in
        subst (Splits (c ∷ cs)) at (omega arith, is, count_newlines-none cs e)
    | inr other ↦ cc (rw (e, other) at h)
  ]
]

pub count_newlines-append :
    (xs ys : Bytes) → count_newlines (xs ++ ys) ≡ count_newlines xs + count_newlines ys
unfolding count_newlines
count_newlines-append [] ys = omega arith
count_newlines-append (x ∷ xs) ys = ground (arith, count_newlines-append xs ys)

-- The stream is what is kept and what is set aside; the kept part ends with a newline, or is empty,
-- and the other part has none.
pub record IsCut (stream kept torn : Bytes) : Type 0 where
  pub whole : kept ++ torn ≡ stream
  pub complete : ends_complete kept ≡ true
  pub no_record : count_newlines torn ≡ 0

complete_end-IsCut :
    (stream : Bytes)
    → IsCut stream (take (complete_end stream) stream) (drop (complete_end stream) stream)
complete_end-IsCut stream = record {
  whole = take-drop (complete_end stream) stream;
  complete = parts.0;
  no_record = parts.1;
}
  where
    parts :
        (ends_complete (take (complete_end stream) stream) ≡ true)
        × (count_newlines (drop (complete_end stream) stream) ≡ 0)
    parts = elim (Option-cases (rfind stream)) [
      | inl e ↦ rw e (unfold ends_complete in refl, count_newlines-none stream e)
      | inr (i, e) ↦ let s = rfind-Splits stream i e in rw e (s.1, s.2)
    ]

-- The same of a repair, which reports the size of the part that is set aside; a cut is only made of a
-- stream that does not end with a newline.
abbrev pub Reports : Bytes → Repair → Type 0
Reports stream unchanged = ends_complete stream ≡ true
Reports stream (cut kept torn n) =
    (ends_complete stream ≡ false)
    × IsCut stream kept torn
    × (n ≡ length torn)
    × (count_newlines kept ≡ count_newlines stream)

complete_end-Reports :
    (stream : Bytes)
    → ends_complete stream ≡ false
    → Reports stream (
        cut
          (take (complete_end stream) stream)
          (drop (complete_end stream) stream)
          (length stream - complete_end stream))
complete_end-Reports stream incomplete =
    let c = complete_end-IsCut stream in
    (
      incomplete,
      c,
      sym (length-drop (complete_end stream) stream),
      omega (
        arith,
        count_newlines-append (take (complete_end stream) stream)
            (drop (complete_end stream) stream),
        ap count_newlines c.whole,
        c.no_record,
      ),
    )

-- A repair leaves a file alone that is empty or ends with a newline. It cuts any other into the
-- complete records, none of them lost, and the rest, which has no newline and whose size it reports.
pub repair_partial_tail-Reports :
    (stream : Bytes) → Reports stream (repair_partial_tail (some stream))
unfolding repair_partial_tail
repair_partial_tail-Reports stream = elim (Bool-cases (ends_complete stream)) [
  | inl complete ↦ rw complete complete
  | inr incomplete ↦
      rw (incomplete, last_complete_record_end-eq stream) (complete_end-Reports stream incomplete)
]

count_newlines_zero : (s : Bytes) → count_newlines s ≡ 0 → rfind s ≡ none
unfolding rfind count_newlines
count_newlines_zero [] h = refl
count_newlines_zero (c ∷ cs) h = elim (Bool-cases (c == newline)) [
  | inl is ↦ absurd (let e : count_newlines cs + 1 ≡ 0 = rw is at h in omega arith)
  | inr other ↦ rw (count_newlines_zero cs (rw other at h), other) refl
]

rfind_last :
    (c : ℕ) (cs : Bytes) → ends_complete (c ∷ cs) ≡ true → rfind (c ∷ cs) ≡ some (length cs)
unfolding rfind ends_complete
rfind_last c [] h = rw h refl
rfind_last c (x ∷ cs) h = rw (rfind_last x cs h) refl

complete_end-append :
    (kept torn : Bytes)
    → ends_complete kept ≡ true
    → count_newlines torn ≡ 0
    → complete_end (kept ++ torn) ≡ length kept
unfolding rfind
complete_end-append [] torn complete none_torn = ap end_after (count_newlines_zero torn none_torn)
complete_end-append (c ∷ cs) torn complete none_torn = ap end_after (
    rfind-append-none (c ∷ cs) torn (count_newlines_zero torn none_torn) ∙ rfind_last c cs complete)

take_front : {A : Type 0} (xs ys : List A) → take (length xs) (xs ++ ys) ≡ xs
take_front [] ys = refl
take_front (x ∷ xs) ys = ap (λ l. x ∷ l) (take_front xs ys)

-- However much of the next record reached the file when the service went down, the repaired file is
-- exactly the complete records that were in it.
pub evidence_after-repair :
    (kept torn : Bytes)
    → ends_complete kept ≡ true
    → count_newlines torn ≡ 0
    → evidence_after (repair_partial_tail (some (kept ++ torn))) (some (kept ++ torn)) ≡ some kept
unfolding repair_partial_tail count_newlines
evidence_after-repair kept torn complete none_torn =
    elim (Bool-cases (ends_complete (kept ++ torn))) [
      | inl all ↦ rw all (ap some (drop_nothing torn (same_length all)))
      | inr incomplete ↦
          rw
            (
              incomplete,
              last_complete_record_end-eq (kept ++ torn),
              complete_end-append kept torn complete none_torn,
            )
            (ap some (take_front kept torn))
    ]
  where
    same_length : ends_complete (kept ++ torn) ≡ true → length torn ≡ 0
    same_length all =
        let one = complete_end-append (kept ++ torn) [] all refl in
        let two = complete_end-append kept torn complete none_torn in
        omega
          (arith, one, two, ap complete_end (append-nil (kept ++ torn)), length-append kept torn)

    drop_nothing : (t : Bytes) → length t ≡ 0 → kept ++ t ≡ kept
    drop_nothing [] h = append-nil kept
    drop_nothing (c ∷ cs) h = absurd (omega arith)
