-- ===== src/Assess/Engine/Violations.antt =====
-- When a check fails, and what a gap in the evidence does to it.
use dragon_sniff.Prelude.{
  ℕ, ◌-◌, ◌*◌, ◌≤◌, ◌<◌, Bool, true, false, not, ◌&&◌, List, [], ◌∷◌, none, some, ◌≡◌, refl, arith,
  leb, Bool-cases, inl, inr, All, map, is_empty, any, select, ap, sym, ◌∙◌, some-injective,
}
use dragon_sniff.Prelude.Int.{pos_part}
use dragon_sniff.Runtime.{Runtime}
use dragon_sniff.Json.{Number, numerator, denominator}
use dragon_sniff.Assess.Evidence.{Record, Evidence, missing_between}
use dragon_sniff.Assess.Profile.{
  Signal, Profile, Check, Predicate, Criterion, holds_throughout, time_in_band,
}
use dragon_sniff.Assess.Attempts.{attempts_for}
use dragon_sniff.Assess.Attempts.Pairing.{IsTimed, attempts_for-IsTimed}
use dragon_sniff.Assess.Timeline.{Attempt, Integral}
use dragon_sniff.Assess.Timeline.Integrate.{integrate_none}
use dragon_sniff.Assess.Engine.{
  Slice, Survey, Finding, Verdict, fail, inconclusive, truth, judge, survey, verdict_of, window,
  evaluate, predicate_of, timeline, lookup_signal, open_window, overlaps, contained, is_false,
  reaches,
}
use dragon_sniff.Assess.Engine.Cases.{
  Evaluated, closed, opened, evaluate-Evaluated, window-open-lt, evaluate-open, result-conclude,
  window-terminal,
}

abbrev pub is_fail : Verdict → Bool
is_fail fail = true
is_fail _ = false

-- The attempt lies in the window, and its value contradicts the predicate.
abbrev pub violates : Predicate → Slice → Attempt → Bool
violates p s a =
    (elim (truth p a) [ none ↦ false | some b ↦ not b ])
    && (leb s.start a.start_ns && leb a.end_ns s.stop)

-- The loop's violations, in an evidence that is complete or is not.
violations_found :
    (incomplete : Bool) (p : Predicate) (s : Slice) (as' : List Attempt)
    → All IsTimed as'
    → s.start ≤ s.stop
    → is_empty (
        select
          (λ j. is_false j && contained s j)
          (select (overlaps s) (map (judge incomplete p) as')))
      ≡ not (not incomplete && any (violates p s) as')
violations_found incomplete p s [] timed le = ground arith
violations_found incomplete p s (a ∷ as') timed le =
    let rest = violations_found incomplete p s as' timed.1 le in
    elim (Bool-cases (overlaps s (judge incomplete p a))) [
      | inl met ↦
          rw met
            (elim (Bool-cases
              (is_false (judge incomplete p a) && contained s (judge incomplete p a))) [
                | inl bad ↦ rw bad (ground arith)
                | inr good ↦ rw good (ground (arith, rest))
              ])
      | inr outside ↦ rw outside (ground (arith, rest))
    ]

fail_if_violated :
    (p : Predicate) (s : Slice) (v : Survey)
    → is_fail (verdict_of (holds_throughout p) s v) ≡ not (is_empty v.violations)
unfolding verdict_of
fail_if_violated p s v = ground arith

survey-violations :
    (e : Evidence) (hold_ns : ℕ) (s : Slice) (p : Predicate) (as' : List Attempt)
    → All IsTimed as'
    → s.start ≤ s.stop
    → not (is_empty (survey e hold_ns s p as').violations)
      ≡ (not (missing_between e.gaps 1 s.terminal_sequence) && any (violates p s) as')
unfolding survey
survey-violations e hold_ns s p as' timed le =
    rw (violations_found (missing_between e.gaps 1 s.terminal_sequence) p s as' timed le)
      (not_not _)
  where
    not_not : (b : Bool) → not (not b) ≡ b
    not_not b = ground arith

-- A `holds_throughout` check whose window is open fails exactly when no sequence is missing up to
-- the end of the run and some attempt that lies in the window contradicts the predicate.
pub evaluate_fails_iff :
    (py : Runtime) (e : Evidence) (profile : Profile) (c : Check) (signal : Signal) (s : Slice)
    (as' : List Attempt) (p : Predicate) (f : Finding)
    → lookup_signal c.signal profile.signals ≡ some signal
    → window e c ≡ some (open_window s)
    → attempts_for py e signal ≡ some as'
    → c.criterion ≡ holds_throughout p
    → evaluate py e profile c ≡ some f
    → is_fail f.result
      ≡ (not (missing_between e.gaps 1 s.terminal_sequence) && any (violates p s) as')
evaluate_fails_iff py e profile c signal s as' p f a b d kind done =
    let hold_ns = profile.max_hold_ns in
    let is = some-injective (sym done ∙ evaluate-open py e profile c signal s as' a b d) in
    let result =
      ap (λ (g : Finding). g.result) is
      ∙ result-conclude py hold_ns signal c s (survey e hold_ns s (predicate_of c.criterion) as')
      ∙ ap (λ k. verdict_of k s (survey e hold_ns s (predicate_of k) as')) kind in
    ap is_fail result
    ∙ fail_if_violated p s (survey e hold_ns s p as')
    ∙ survey-violations e hold_ns s p as' (attempts_for-IsTimed py e signal as' d)
        (omega (arith, window-open-lt e c s b))

gap-integral :
    (e : Evidence) (hold_ns : ℕ) (s : Slice) (p : Predicate) (as' : List Attempt)
    → missing_between e.gaps 1 s.terminal_sequence ≡ true
    → let i : Integral = (survey e hold_ns s p as').integral in (i.true_ns ≡ 0) × (i.false_ns ≡ 0)
unfolding survey timeline
gap-integral e hold_ns s p as' gap = rw gap (integrate_none s.start s.stop)

-- The fraction of a band lies in (0, 1], as `load_profile` requires.
abbrev pub IsAttainable : Criterion → Type 0
IsAttainable (holds_throughout p) = Unit
IsAttainable (time_in_band low high fraction) =
    (0 < pos_part (numerator fraction)) × (pos_part (numerator fraction) ≤ denominator fraction)

mul_pos : (a b : ℕ) → 0 < a → 0 < b → 0 < a * b
mul_pos a b p q = grind arith

mul_mono : (a b d : ℕ) → a ≤ b → a * d ≤ d * b
mul_mono a b d le = grind arith

unknown_band :
    (low high fraction : Number) (s : Slice) (v : Survey)
    → IsAttainable (time_in_band low high fraction)
    → s.start < s.stop
    → v.integral.true_ns ≡ 0
    → v.integral.false_ns ≡ 0
    → verdict_of (time_in_band low high fraction) s v ≡ inconclusive
unfolding verdict_of
unknown_band low high fraction s v (positive, at_most) lt no_true no_false =
    let n = pos_part (numerator fraction) in
    let d = denominator fraction in
    let whole = s.stop - s.start in
    let unreached : reaches fraction v.integral.true_ns whole ≡ false =
      rw no_true (ground (arith, mul_pos n whole positive (omega arith))) in
    let reachable : reaches fraction (whole - v.integral.false_ns) whole ≡ true =
      rw no_false (ground (arith, mul_mono n d whole at_most)) in
    rw (unreached, reachable) refl

unknown_hold :
    (p : Predicate) (s : Slice) (v : Survey)
    → s.start < s.stop
    → v.integral.true_ns ≡ 0
    → not (is_empty v.violations) ≡ false
    → verdict_of (holds_throughout p) s v ≡ inconclusive
unfolding verdict_of
unknown_hold p s v lt no_true quiet = ground arith

gap_verdict :
    (e : Evidence) (hold_ns : ℕ) (k : Criterion) (s : Slice) (as' : List Attempt)
    → IsAttainable k
    → s.start < s.stop
    → All IsTimed as'
    → missing_between e.gaps 1 s.terminal_sequence ≡ true
    → verdict_of k s (survey e hold_ns s (predicate_of k) as') ≡ inconclusive
gap_verdict e hold_ns (time_in_band low high fraction) s as' ok_fraction lt timed gap =
    let (no_true, no_false) = gap-integral e hold_ns s _ as' gap in
    unknown_band low high fraction s _ ok_fraction lt no_true no_false
gap_verdict e hold_ns (holds_throughout p) s as' ok_fraction lt timed gap =
    let (no_true, _) = gap-integral e hold_ns s p as' gap in
    unknown_hold p s _ lt no_true
      (survey-violations e hold_ns s p as' timed (omega arith) ∙ rw gap refl)

-- A gap in the evidence anywhere up to the end of the run, however early or late, leaves every
-- check INCONCLUSIVE: neither a PASS nor a FAIL is given.
pub evaluate_gap :
    (py : Runtime) (e : Evidence) (profile : Profile) (c : Check) (terminal : Record) (f : Finding)
    → e.run.terminal ≡ some terminal
    → missing_between e.gaps 1 terminal.sequence ≡ true
    → IsAttainable c.criterion
    → evaluate py e profile c ≡ some f
    → f.result ≡ inconclusive
evaluate_gap py e profile c terminal f ends gap ok_fraction done =
    conclude_gap (evaluate-Evaluated py e profile c f done)
  where
    conclude_gap : Evaluated py e profile c f → f.result ≡ inconclusive
    conclude_gap (closed signal reason at is) = ap (λ (g : Finding). g.result) is
    conclude_gap (opened signal s as' at of is) =
        ap (λ (g : Finding). g.result) is
        ∙ result-conclude py profile.max_hold_ns signal c s _
        ∙ gap_verdict e profile.max_hold_ns c.criterion s as' ok_fraction (window-open-lt e c s at)
            (attempts_for-IsTimed py e signal as' of)
            (rw (window-terminal e c s terminal ends at) gap)
