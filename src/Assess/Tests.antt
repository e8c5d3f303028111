-- ===== src/Assess/Tests.antt =====
-- Concrete evidence and checks: tests of the definitions and instances of the theorems.
use dragon_sniff.Prelude.{
  ℕ, ◌+◌, ◌-◌, ◌<◌, Bool, true, false, not, List, [], ◌∷◌, Option, none, some, ◌≡◌, refl, arith,
  All, length, String, ◌&&◌, any,
}
use dragon_sniff.Prelude.Int.{pos, ◌+ℤ◌, ◌*ℤ◌}
use dragon_sniff.Prelude.Measure.{count_time}
use dragon_sniff.Prelude.Result.{ok}
use dragon_sniff.Json.{
  Value, Fields, int, float, bool, num, str, obj, field, end, get, find, is_finite, num_le, num_lt,
  num_eq, item,
}
use dragon_sniff.Runtime.{Runtime, Bytes}
use dragon_sniff.Assess.Evidence.{
  Record, Run, Evidence, load_evidence, parse_line, parse_lines, split_lines, check_order, gaps,
  gaps_from, inversions, inversions_from, run, session, missing_between, without_last,
}
use dragon_sniff.Assess.Evidence.Order
use dragon_sniff.Assess.Evidence.Order.{IsAscending}
use dragon_sniff.Assess.Evidence.Gaps
use dragon_sniff.Assess.Evidence.Gaps.{all_present}
use dragon_sniff.Assess.Profile.{
  Signal, Profile, Check, Predicate, lt, between, holds_throughout, time_in_band, dragon,
}
use dragon_sniff.Assess.Pointer.{
  resolve, walk, step, index_in, split_path, unescape, replace_escape, has_leading_zero, extract,
  usable, difference,
}
use dragon_sniff.Assess.Attempts.{
  attempts_for, dragon_attempts, prusalink_attempts, run_records, in_run, same_text, error_free,
  file_record, sort_record, exchanges_from, read_response, pair_attempt, settle, settle_all,
  insert_attempt, sort_attempts,
}
use dragon_sniff.Assess.Attempts.Pairing
use dragon_sniff.Assess.Timeline.{
  Piece, Integral, Bounds, Attempt, combine, holdable, own_piece, held_piece, pieces_from, pieces,
  slot_of, event_le, events_of, insert_event, sort_events, verdict, activate, credit, sweep,
  integrate,
}
use dragon_sniff.Assess.Timeline.Integrate
use dragon_sniff.Assess.Timeline.Sweep
use dragon_sniff.Assess.Timeline.Integrate.{truth_at}
use dragon_sniff.Assess.Timeline.Holds
use dragon_sniff.Assess.Timeline.Holds.{IsHeld}
use dragon_sniff.Assess.Engine.{
  Finding, pass, inconclusive, Slice, compare_values, truth_of, truth, window, insert_sequence,
  sort_sequences, listed, supporting, timeline, survey, reasons, verdict_of, conclude,
  evaluate_window, evaluate, closed_finding, Reason, open_window, reaches,
}
use dragon_sniff.Assess.Report
use dragon_sniff.Assess.Report.{Evaluates, Counts}
use dragon_sniff.Assess.Report.{run_report, tally, count_results, build_report}
use dragon_sniff.Assess.Engine.Soundness
use dragon_sniff.Assess.Engine.Soundness.{PassRests}
use dragon_sniff.Assess.Engine.Verdicts
use dragon_sniff.Assess.Engine.Verdicts.{explained, agrees, AgreesWith}
use dragon_sniff.Assess.Engine.Violations
use dragon_sniff.Assess.Engine.Violations.{is_fail, violates}

program : Unit {0}
unfolding ◌+ℤ◌ ◌*ℤ◌ get find is_finite num_le num_lt num_eq item load_evidence parse_line
    parse_lines split_lines check_order gaps gaps_from inversions inversions_from run session
    missing_between resolve walk step index_in split_path unescape replace_escape has_leading_zero
    extract usable difference attempts_for dragon_attempts prusalink_attempts run_records in_run
    same_text error_free file_record sort_record exchanges_from read_response pair_attempt settle
    settle_all insert_attempt sort_attempts combine holdable own_piece held_piece pieces_from pieces
    slot_of event_le events_of insert_event sort_events verdict activate credit sweep integrate
    compare_values truth_of truth window insert_sequence sort_sequences listed supporting timeline
    survey reasons verdict_of conclude evaluate_window evaluate run_report tally count_results
    build_report
program = tt

-- A line of `n` bytes stands for a record with the sequence `n`.
abbrev line_record : Bytes → Value
line_record line = obj (
    field "sequence" (num (int (pos (length line)))) (
      field "monotonic_ns" (num (int (pos 7)))
        (field "kind" (str "note") (field "timestamp" (str "t") end))))

abbrev py : Runtime
py = record {
  json_loads = λ line. some (line_record line);
  json_dumps = λ value. [];
  json_pretty = λ value. [];
  toml_loads = λ text. none;
  sha256 = λ text. "digest";
  is_digit = λ token. false;
  int_of = λ token. none;
  subtract = λ a b. some a;
  divide = λ a b. float (pos a) b;
  ceil_ratio = λ a b. 0;
  times = λ a b. a;
  to_float = λ a. some a;
  strip = λ text. text;
  lower = λ text. text;
  decimal = λ n. "0";
  is_utf8 = λ text. true;
  uuid = λ text. some text;
  urlsplit = λ text. none;
}

-- Lines of two and of four bytes.
abbrev file : Bytes
file = 97 ∷ 97 ∷ 10 ∷ 97 ∷ 97 ∷ 97 ∷ 97 ∷ 10 ∷ []

abbrev parsed : ℕ → Record
parsed n = record {
  sequence = n;
  monotonic_ns = 7;
  kind = "note";
  timestamp = "t";
  fields = field "sequence" (num (int (pos n))) (
      field "monotonic_ns" (num (int (pos 7)))
        (field "kind" (str "note") (field "timestamp" (str "t") end)));
}

abbrev loaded : Evidence
loaded = record {
  sha256 = "digest";
  byte_length = 8;
  records = parsed 2 ∷ parsed 4 ∷ [];
  gaps = (1, 1) ∷ (3, 3) ∷ [];
  monotonic_inversions = 0;
  run = record {
    run_id = none;
    started = none;
    terminal = none;
    problem = some dragon_sniff.Assess.Evidence.run_missing;
  };
  session = none;
}

file_loads : load_evidence py file none ≡ ok loaded
unfolding program
file_loads = refl

load_evidence-IsAscending_example :
    IsAscending 0 loaded.records
    × (length loaded.records ≡ length (split_lines (without_last file)))
    × (0 < length loaded.records)
load_evidence-IsAscending_example = Order.load_evidence-IsAscending py file none loaded file_loads

missing_between-gaps_example :
    missing_between (gaps (parsed 2 ∷ parsed 4 ∷ [])) 2 3
    ≡ not (all_present (parsed 2 ∷ parsed 4 ∷ []) 2 1)
missing_between-gaps_example =
    Gaps.missing_between-gaps (parsed 2) (parsed 4 ∷ []) 2 1 3 (omega arith) (omega arith)
      (omega arith) (omega arith)

abbrev entry : ℕ → ℕ → String → Fields → Record
entry sequence at kind fields = record {
  sequence = sequence;
  monotonic_ns = at;
  kind = kind;
  timestamp = "t";
  fields = field "run_id" (str "r") fields;
}

abbrev started : Record
started = entry 1 0 "capture_run_started" end

abbrev request : Record
request =
    entry 2 10 "http_request"
      (field "endpoint" (str "/e") (field "request_id" (num (int (pos 1))) end))

abbrev response : Record
response = entry 3 20 "http_response" (
    field "endpoint" (str "/e") (
      field "request_id" (num (int (pos 1)))
        (field "ok" (bool true) (field "parsed" (obj (field "x" (num (int (pos 5))) end)) end))))

abbrev terminal : ℕ → Record
terminal n = entry n 100 "capture_run_completed" end

-- One exchange of a run that ends with the sequence `n`.
abbrev evidence : ℕ → List (ℕ × ℕ) → Evidence
evidence n missing = record {
  sha256 = "digest";
  byte_length = 9;
  records = started ∷ request ∷ response ∷ terminal n ∷ [];
  gaps = missing;
  monotonic_inversions = 0;
  run = record {
    run_id = some "r";
    started = some started;
    terminal = some (terminal n);
    problem = none;
  };
  session = none;
}

abbrev signal : Signal
signal = record {
  id = "temp";
  source = dragon;
  pointer = "/x";
  endpoint = some "/e";
  reference_pointer = none;
  source_id = none;
}

abbrev profile : Profile
profile = record {
  name = "p";
  version = "1";
  sha256 = "digest";
  byte_length = 1;
  max_hold_ns = 1000;
  max_hold_s = int (pos 0);
  signals = ("temp", signal) ∷ [];
  checks = [];
}

abbrev below : ℕ → Predicate
below n = lt (int (pos n))

abbrev hold_check : ℕ → Check
hold_check n = record {
  id = "c";
  signal = "temp";
  window = record { start_offset_ns = 20; end_offset_ns = none };
  criterion = holds_throughout (below n);
}

abbrev band_check : Check
band_check = record {
  id = "b";
  signal = "temp";
  window = record { start_offset_ns = 0; end_offset_ns = none };
  criterion = time_in_band (int (pos 0)) (int (pos 9)) (float (pos 1) 1);
}

abbrev finding_of : Option Finding → Finding
finding_of none = closed_finding signal band_check Reason.window_empty
finding_of (some f) = f

abbrev finding : Evidence → Check → Finding
finding e c = finding_of (evaluate py e profile c)

abbrev whole : Evidence
whole = evidence 4 []

abbrev gapped : Evidence
gapped = evidence 5 ((4, 4) ∷ [])

passes :
    (evaluate py whole profile (hold_check 6) ≡ some (finding whole (hold_check 6)))
    × ((finding whole (hold_check 6)).result ≡ pass)
unfolding program
passes = (refl, refl)

evaluate-PassRests_example : PassRests py whole profile (hold_check 6) (below 6)
evaluate-PassRests_example =
    Soundness.evaluate-PassRests py whole profile (hold_check 6) (below 6)
      (finding whole (hold_check 6)) refl passes.0 passes.1

evaluate-explained_example :
    explained (finding whole (hold_check 6)).result (finding whole (hold_check 6)).reasons ≡ true
evaluate-explained_example =
    Verdicts.evaluate-explained py whole profile (hold_check 6) (finding whole (hold_check 6))
      passes.0

abbrev attempt : Attempt
attempt = record {
  start_ns = 10;
  end_ns = 20;
  first_sequence = 2;
  last_sequence = 3;
  value = num (int (pos 5));
  valid = true;
}

observed : attempts_for py whole signal ≡ some (attempt ∷ [])
unfolding program
observed = refl

attempts_for-IsTimed_example : All Pairing.IsTimed (attempt ∷ [])
attempts_for-IsTimed_example = Pairing.attempts_for-IsTimed py whole signal (attempt ∷ []) observed

abbrev slice : ℕ → Slice
slice start = record {
  started_ns = 0;
  horizon_ns = 100;
  terminal_sequence = 4;
  start = start;
  stop = 100;
}

fails :
    (window whole (hold_check 5) ≡ some (open_window (slice 20)))
    × (evaluate py whole profile (hold_check 5) ≡ some (finding whole (hold_check 5)))
unfolding program
fails = (refl, refl)

evaluate_fails_iff_example :
    is_fail (finding whole (hold_check 5)).result
    ≡ (not (missing_between whole.gaps 1 4) && any (violates (below 5) (slice 20)) (attempt ∷ []))
evaluate_fails_iff_example =
    Violations.evaluate_fails_iff py whole profile (hold_check 5) signal (slice 20) (attempt ∷ [])
      (below 5) (finding whole (hold_check 5)) refl fails.0 observed refl fails.1

banded :
    (window whole band_check ≡ some (open_window (slice 0)))
    × (evaluate py whole profile band_check ≡ some (finding whole band_check))
    × ((finding whole band_check).result ≡ pass)
unfolding program
banded = (refl, refl, refl)

abbrev in_band : Predicate
in_band = between (int (pos 0)) (int (pos 9))

one_piece :
    timeline whole 1000 (slice 0) in_band (attempt ∷ [])
    ≡ record { start = 20; stop = 100; truth = some true } ∷ []
unfolding program
one_piece = refl

all_agrees :
    (t : ℕ) (b : Bool)
    → truth_at (record { start = 20; stop = 100; truth = some true } ∷ []) t ≡ some b
    → true ≡ b
unfolding truth_at
all_agrees t b h = ground arith

always_agrees :
    AgreesWith (λ t. true) (truth_at (timeline whole 1000 (slice 0) in_band (attempt ∷ [])))
always_agrees t b h = all_agrees t b (rw one_piece at h)

evaluate-agrees_example :
    agrees
      (finding whole band_check).result
      (reaches (float (pos 1) 1) (count_time (λ t. true) 0 (100 - 0)) (100 - 0))
    ≡ true
evaluate-agrees_example =
    Verdicts.evaluate-agrees py whole profile band_check signal (slice 0) (attempt ∷ [])
      (int (pos 0)) (int (pos 9)) (float (pos 1) 1) (finding whole band_check) (λ t. true) refl
      banded.0 observed refl banded.1 always_agrees

incomplete :
    (missing_between gapped.gaps 1 5 ≡ true)
    × (evaluate py gapped profile band_check ≡ some (finding gapped band_check))
unfolding program
incomplete = (refl, refl)

evaluate_gap_example : (finding gapped band_check).result ≡ inconclusive
evaluate_gap_example =
    Violations.evaluate_gap py gapped profile band_check (terminal 5) (finding gapped band_check)
      refl incomplete.0 (omega arith) incomplete.1

-- Two pieces that overlap and disagree on [4, 6).
abbrev disputed : List Piece
disputed =
    record { start = 0; stop = 6; truth = some true }
    ∷ record { start = 4; stop = 9; truth = some false }
    ∷ []

disputed_time : integrate disputed 1 12 ≡ record { true_ns = 3; false_ns = 3; unknown_ns = 5 }
unfolding program
disputed_time = refl

integrate-eq-measure_example :
    let r : Integral = integrate disputed 1 12 in
    (r.true_ns ≡ count_time (λ t. Sweep.is_known true (truth_at disputed t)) 1 (12 - 1))
    × (r.false_ns ≡ count_time (λ t. Sweep.is_known false (truth_at disputed t)) 1 (12 - 1))
    × (r.true_ns + r.false_ns + r.unknown_ns ≡ 12 - 1)
integrate-eq-measure_example = Integrate.integrate-eq-measure disputed 1 12 (omega arith)

abbrev bounds : Bounds
bounds = record { gaps = []; hold_ns = 1000; horizon_ns = some 100; terminal_sequence = some 4 }

pieces-IsHeld_example :
    All (IsHeld bounds ((attempt, some true) ∷ [])) (pieces bounds ((attempt, some true) ∷ []))
pieces-IsHeld_example = Holds.pieces-IsHeld bounds ((attempt, some true) ∷ []) (omega arith)

abbrev two_checks : Profile
two_checks = record profile { checks = hold_check 6 ∷ band_check ∷ [] }

abbrev report_of : Option Report.Report → List Finding
report_of none = []
report_of (some r) = r.findings

abbrev report : Report.Report
report = record {
  profile_name = "p";
  profile_version = profile.version;
  profile_sha256 = profile.sha256;
  profile_byte_length = profile.byte_length;
  evidence = record {
    sha256 = "digest";
    byte_length = 9;
    record_count = 4;
    first_sequence = 1;
    last_sequence = 4;
    sequence_gaps = [];
    monotonic_inversions = whole.monotonic_inversions;
    run = run_report whole.run;
    session = whole.session;
  };
  hold_is_bounded = true;
  max_hold_s = profile.max_hold_s;
  max_hold_ns = profile.max_hold_ns;
  summary = tally (report_of (build_report py whole two_checks none));
  findings = report_of (build_report py whole two_checks none);
  assessed_at = none;
}

built : build_report py whole two_checks none ≡ some report
unfolding program
built = refl

build_report-Counts_example :
    Evaluates py whole two_checks two_checks.checks report.findings
    × Counts report.findings report.summary.passed report.summary.failed report.summary.undecided
build_report-Counts_example = Report.build_report-Counts py whole two_checks none report built

both_pass : report.summary.passed ≡ 2
unfolding program
both_pass = refl
