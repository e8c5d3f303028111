-- ===== src/Assess/Engine.antt =====
-- Evaluating one check: `_truth`, `_window` and `evaluate` of src/dragonsniff/assess/engine.py.
pub mod Cases
pub mod Soundness
pub mod Verdicts
pub mod Violations
use dragon_sniff.Prelude.{
  ℕ, ◌+◌, ◌-◌, ◌*◌, ◌≤◌, String, Bool, true, false, not, ◌&&◌, ◌||◌, List, [], ◌∷◌, ◌++◌, Option,
  none, some, str_eq, ltb, leb, ◌==◌, if◌then◌else◌, length, take, select, map, is_empty, min, max,
  ◌>>=◌,
}
use dragon_sniff.Prelude.Int.{pos_part}
use dragon_sniff.Json.{
  Value, Number, bool, str, num, numerator, denominator, num_le, num_lt, num_eq,
}
use dragon_sniff.Runtime.{Runtime}
use dragon_sniff.Assess.Evidence.{RunProblem, Evidence, missing_between}
use dragon_sniff.Assess.Profile.{
  Signal, Profile, Check, Predicate, between, eq, ne, lt, le, gt, ge, Criterion, holds_throughout,
  time_in_band,
}
use dragon_sniff.Assess.Pointer.{numeric_of}
use dragon_sniff.Assess.Attempts.{attempts_for}
use dragon_sniff.Assess.Timeline.{
  Attempt, Truth, Judged, Integral, Bounds, Piece, pieces, integrate,
}

-- Equality of values of one kind: numbers, bools or strings; `none` where they are not comparable.
unfoldable pub compare_values : Value → Value → Option Bool
compare_values (bool a) (bool b) = some ((a && b) || not (a || b))
compare_values (str a) (str b) = some (str_eq a b)
compare_values a b = elim (numeric_of a) [
  | none ↦ none
  | some m ↦ elim (numeric_of b) [ none ↦ none | some n ↦ some (num_eq m n) ]
]

abbrev pub negate : Truth → Truth
negate none = none
negate (some b) = some (not b)

-- A test of a value that must be a number.
abbrev pub of_number : Value → (Number → Bool) → Truth
of_number v test = elim (numeric_of v) [ none ↦ none | some n ↦ some (test n) ]

unfoldable pub truth_of : Predicate → Value → Truth
truth_of (between low high) v = of_number v (λ n. num_le low n && num_le n high)
truth_of (eq expected) v = compare_values v expected
truth_of (ne expected) v = negate (compare_values v expected)
truth_of (lt expected) v = of_number v (λ n. num_lt n expected)
truth_of (le expected) v = of_number v (λ n. num_le n expected)
truth_of (gt expected) v = of_number v (λ n. num_lt expected n)
truth_of (ge expected) v = of_number v (λ n. num_le expected n)

-- `_truth`: an invalid attempt is unknown.
unfoldable pub truth : Predicate → Attempt → Truth
truth predicate attempt = if attempt.valid then truth_of predicate attempt.value else none

pub data Verdict : Type 0 where
  pass fail inconclusive : Verdict

-- The reasons, in the order of their names, in which the source sorts them.
pub data Reason : Type 0 where
  coverage_incomplete evidence_ended held_violation invalid_observations : Reason
  no_hold_declared no_observations : Reason
  run_ambiguous run_invalid run_missing run_not_terminated : Reason
  sequence_gap violation_at_window_edge window_empty : Reason

abbrev pub reason_of : RunProblem → Reason
reason_of RunProblem.run_missing = Reason.run_missing
reason_of RunProblem.run_ambiguous = Reason.run_ambiguous
reason_of RunProblem.run_invalid = Reason.run_invalid

-- What `_window` needs of a run that is closed.
pub record Slice : Type 0 where
  pub started_ns : ℕ
  pub horizon_ns : ℕ
  pub terminal_sequence : ℕ
  pub start : ℕ
  pub stop : ℕ

pub data WindowResult : Type 0 where
  open_window : Slice → WindowResult
  closed_window : Reason → WindowResult

abbrev pub window_end : Option ℕ → ℕ → ℕ → ℕ
window_end none started_ns horizon_ns = horizon_ns
window_end (some offset) started_ns horizon_ns = started_ns + offset

-- `none` is the `TypeError` of a run with an end and no start, which `_run` does not make.
unfoldable pub window : Evidence → Check → Option WindowResult
window e check = elim e.run.problem [
  | some problem ↦ some (closed_window (reason_of problem))
  | none ↦ elim e.run.terminal [
    | none ↦ some (closed_window run_not_terminated)
    | some terminal ↦ elim e.run.started [
      | none ↦ none
      | some started ↦
          (let start = started.monotonic_ns + check.window.start_offset_ns in
            let stop =
              window_end check.window.end_offset_ns started.monotonic_ns terminal.monotonic_ns in
            if leb stop start
            then some (closed_window window_empty)
            else some (
                open_window (record {
                  started_ns = started.monotonic_ns;
                  horizon_ns = terminal.monotonic_ns;
                  terminal_sequence = terminal.sequence;
                  start = start;
                  stop = stop;
                })))
    ]
  ]
]

pub record Listed : Type 0 where
  pub count : ℕ
  pub sequences : List ℕ

abbrev pub max_listed_records : ℕ
max_listed_records = 32

unfoldable pub insert_sequence : ℕ → List ℕ → List ℕ
insert_sequence n [] = n ∷ []
insert_sequence n (m ∷ ms) =
    let rest = insert_sequence n ms in if leb n m then n ∷ m ∷ ms else m ∷ rest

unfoldable pub sort_sequences : List ℕ → List ℕ
unfolding insert_sequence
sort_sequences [] = []
sort_sequences (n ∷ ns) = insert_sequence n (sort_sequences ns)

unfoldable pub listed : List ℕ → Listed
unfolding sort_sequences
listed ns =
    let ordered = sort_sequences ns in
    record { count = length ordered; sequences = take max_listed_records ordered }

-- An attempt that meets the closed window, and one that lies in it.
abbrev pub overlaps : Slice → Judged → Bool
overlaps s j = leb s.start j.0.end_ns && leb j.0.start_ns s.stop

abbrev pub contained : Slice → Judged → Bool
contained s j = leb s.start j.0.start_ns && leb j.0.end_ns s.stop

abbrev pub is_false : Judged → Bool
is_false j = elim j.1 [ none ↦ false | some b ↦ not b ]

abbrev pub is_unknown : Judged → Bool
is_unknown j = elim j.1 [ none ↦ true | some b ↦ false ]

abbrev pub last_sequences : List Judged → List ℕ
last_sequences = map (λ (j : Judged). j.0.last_sequence)

-- `min` and `max` over the overlapping attempts.
unfoldable pub supporting : List Judged → Option (ℕ × ℕ)
supporting [] = none
supporting (j ∷ js) = elim (supporting js) [
  | none ↦ some (j.0.first_sequence, j.0.last_sequence)
  | some (low, high) ↦ some (min j.0.first_sequence low, max j.0.last_sequence high)
]

-- What the loop over the overlapping attempts has gathered, with the timeline.
pub record Survey : Type 0 where
  pub incomplete : Bool
  pub integral : Integral
  pub overlapping : List Judged
  pub violations : List Judged
  pub edge_violations : List Judged
  pub unusable : List Judged
  pub invalid : List Judged

abbrev pub judge : Bool → Predicate → Attempt → Judged
judge incomplete predicate a = (a, if incomplete then none else truth predicate a)

-- The attempts with their truth values, and the pieces that are integrated.
abbrev pub judged_of : Evidence → Slice → Predicate → List Attempt → List Judged
judged_of e s predicate attempts =
    map (judge (missing_between e.gaps 1 s.terminal_sequence) predicate) attempts

abbrev pub bounds_of : Evidence → ℕ → Slice → Bounds
bounds_of e hold_ns s = record {
  gaps = e.gaps;
  hold_ns = hold_ns;
  horizon_ns = some s.horizon_ns;
  terminal_sequence = some s.terminal_sequence;
}

unfoldable pub timeline : Evidence → ℕ → Slice → Predicate → List Attempt → List Piece
timeline e hold_ns s predicate attempts =
    if missing_between e.gaps 1 s.terminal_sequence
    then []
    else pieces (bounds_of e hold_ns s) (judged_of e s predicate attempts)

unfoldable pub survey : Evidence → ℕ → Slice → Predicate → List Attempt → Survey
survey e hold_ns s predicate attempts =
    let incomplete = missing_between e.gaps 1 s.terminal_sequence in
    let overlapping = select (overlaps s) (judged_of e s predicate attempts) in
    record {
      incomplete = incomplete;
      integral = integrate (timeline e hold_ns s predicate attempts) s.start s.stop;
      overlapping = overlapping;
      violations = select (λ j. is_false j && contained s j) overlapping;
      edge_violations = select (λ j. is_false j && not (contained s j)) overlapping;
      unusable = select (λ j. is_unknown j && not incomplete) overlapping;
      invalid = select (λ (j : Judged). not j.0.valid) overlapping;
    }

abbrev pub reason_if : Bool → Reason → List Reason
reason_if b r = if b then r ∷ [] else []

-- `sorted(reasons)`; the flag is that of `held_violation`.
unfoldable pub reasons : ℕ → Slice → Bool → Survey → List Reason
reasons hold_ns s held v =
    reason_if (ltb 0 v.integral.unknown_ns) coverage_incomplete
    ++ (reason_if (ltb s.horizon_ns s.stop) evidence_ended
        ++ (reason_if held held_violation
            ++ (reason_if (not (is_empty v.unusable)) invalid_observations
                ++ (reason_if (hold_ns == 0) no_hold_declared
                    ++ (reason_if (is_empty v.overlapping) no_observations
                        ++ (reason_if v.incomplete sequence_gap
                            ++ reason_if (not (is_empty v.edge_violations))
                                violation_at_window_edge))))))

-- `band` of `time_in_band` is judged as `between`.
abbrev pub predicate_of : Criterion → Predicate
predicate_of (holds_throughout p) = p
predicate_of (time_in_band low high fraction) = between low high

-- `true_ns * denominator >= numerator * window_ns`; the fraction of a profile is positive.
abbrev pub reaches : Number → ℕ → ℕ → Bool
reaches fraction part whole =
    leb (pos_part (numerator fraction) * whole) (part * denominator fraction)

unfoldable pub verdict_of : Criterion → Slice → Survey → Verdict
verdict_of (holds_throughout p) s v =
    if not (is_empty v.violations)
    then fail
    else (if v.integral.false_ns == 0
          && (v.integral.unknown_ns == 0 && v.integral.true_ns == s.stop - s.start)
        then pass
        else inconclusive)
verdict_of (time_in_band low high fraction) s v =
    if reaches fraction v.integral.true_ns (s.stop - s.start)
    then pass
    else (if reaches fraction (s.stop - s.start - v.integral.false_ns) (s.stop - s.start)
        then inconclusive
        else fail)

-- `held_violation` is a reason of one kind of check only.
abbrev pub held_flag : Criterion → Survey → Bool
held_flag (holds_throughout p) v = ltb 0 v.integral.false_ns
held_flag (time_in_band low high fraction) v = false

-- PASS and FAIL drop the reasons.
abbrev pub kept_reasons : Verdict → List Reason → List Reason
kept_reasons pass rs = []
kept_reasons fail rs = []
kept_reasons inconclusive rs = rs

pub record Measurement : Type 0 where
  pub lower : Number
  pub upper : Number
  pub of_known : Option Number

abbrev pub measurement_of : Runtime → Criterion → Slice → Integral → Option Measurement
measurement_of py (holds_throughout p) s i = none
measurement_of py (time_in_band low high fraction) s i =
    let known = i.true_ns + i.false_ns in
    some (record {
      lower = py.divide i.true_ns (s.stop - s.start);
      upper = py.divide (s.stop - s.start - i.false_ns) (s.stop - s.start);
      of_known = if known == 0 then none else some (py.divide i.true_ns known);
    })

abbrev pub violations_of : Criterion → Survey → Option Listed
violations_of (holds_throughout p) v = some (listed (last_sequences v.violations))
violations_of (time_in_band low high fraction) v = none

-- The entries of a finding whose window is not null.
pub record Details : Type 0 where
  pub slice : Slice
  pub integral : Integral
  pub known_fraction : Number
  pub attempts : ℕ
  pub valid : ℕ
  pub invalid : Listed
  pub supporting : Option (ℕ × ℕ)
  pub violations : Option Listed
  pub measurement : Option Measurement

pub record Finding : Type 0 where
  pub id : String
  pub signal : Signal
  pub criterion : Criterion
  pub result : Verdict
  pub reasons : List Reason
  pub details : Option Details

unfoldable pub conclude : Runtime → ℕ → Signal → Check → Slice → Survey → Finding
conclude py hold_ns signal check s v =
    let result = verdict_of check.criterion s v in
    record {
      id = check.id;
      signal = signal;
      criterion = check.criterion;
      result = result;
      reasons = kept_reasons result (reasons hold_ns s (held_flag check.criterion v) v);
      details = some (record {
        slice = s;
        integral = v.integral;
        known_fraction = py.divide (v.integral.true_ns + v.integral.false_ns) (s.stop - s.start);
        attempts = length v.overlapping;
        valid = length (select (λ (j : Judged). j.0.valid) v.overlapping);
        invalid = listed (last_sequences v.invalid);
        supporting = supporting v.overlapping;
        violations = violations_of check.criterion v;
        measurement = measurement_of py check.criterion s v.integral;
      });
    }

abbrev pub closed_finding : Signal → Check → Reason → Finding
closed_finding signal check reason = record {
  id = check.id;
  signal = signal;
  criterion = check.criterion;
  result = inconclusive;
  reasons = reason ∷ [];
  details = none;
}

abbrev pub lookup_signal : String → List (String × Signal) → Option Signal
lookup_signal k [] = none
lookup_signal k ((j, s) ∷ m) = if str_eq j k then some s else lookup_signal k m

-- `evaluate` once the window is known.
unfoldable pub evaluate_window :
    Runtime → Evidence → Profile → Check → Signal → WindowResult → Option Finding
evaluate_window py e profile check signal (closed_window reason) =
    some (closed_finding signal check reason)
evaluate_window py e profile check signal (open_window s) = do
  attempts ← attempts_for py e signal
  some (
      conclude py profile.max_hold_ns signal check s
        (survey e profile.max_hold_ns s (predicate_of check.criterion) attempts))

-- `none` is an exception that leaves `evaluate`: a check of an unknown signal, which `load_profile`
-- refuses, or an exception of `_window` or of `_resolve`.
unfoldable pub evaluate : Runtime → Evidence → Profile → Check → Option Finding
evaluate py e profile check = do
  signal ← lookup_signal check.signal profile.signals
  found ← window e check
  evaluate_window py e profile check signal found
