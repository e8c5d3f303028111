-- ===== src/Assess/Evidence.antt =====
-- Loading evidence: src/dragonsniff/assess/evidence.py.
pub mod Gaps
pub mod Order
use dragon_sniff.Prelude.{
  ℕ, zero, suc, ◌+◌, ◌-◌, String, Bool, true, false, not, ◌&&◌, ◌||◌, List, [], ◌∷◌, ◌++◌, Option,
  none, some, str_eq, ltb, leb, ◌==◌, if◌then◌else◌, length, head?, tail, any, all, select,
  is_empty,
}
use dragon_sniff.Json.{
  Value, Fields, obj, num, str, get, text_of, fields_of, natural_of, is_hashable, among,
}
use dragon_sniff.Prelude.Result.{Result, ok, err, ◌>>=◌, ◌>>◌, raise_if, or_raise}
use dragon_sniff.Runtime.{Runtime, Bytes}

-- The exceptions that leave `load_evidence`: `EvidenceError`, by message, and the `TypeError` of a
-- set that is asked for a list or a dict.
pub data EvidenceError : Type 0 where
  empty incomplete_record : EvidenceError
  not_json not_object invalid_sequence invalid_monotonic invalid_kind invalid_timestamp :
      ℕ → EvidenceError
  blank_line duplicate_sequence out_of_order : ℕ → EvidenceError
  session_not_json session_not_object session_not_terminal unhashable : EvidenceError

-- A record whose four required entries have been checked, beside the whole `dict`.
pub record Record : Type 0 where
  pub sequence : ℕ
  pub monotonic_ns : ℕ
  pub kind : String
  pub timestamp : String
  pub fields : Fields

pub data RunProblem : Type 0 where
  run_missing run_ambiguous run_invalid : RunProblem

pub record Run : Type 0 where
  pub run_id : Option String
  pub started : Option Record
  pub terminal : Option Record
  pub problem : Option RunProblem

pub record Session : Type 0 where
  pub session_id : Value
  pub kind : Value
  pub status : Value
  pub format_version : Value
  pub records : Value

pub record Evidence : Type 0 where
  pub sha256 : String
  pub byte_length : ℕ
  pub records : List Record
  pub gaps : List (ℕ × ℕ)
  pub monotonic_inversions : ℕ
  pub run : Run
  pub session : Option Session

-- Whether a gap meets [low, high].
unfoldable pub missing_between : List (ℕ × ℕ) → ℕ → ℕ → Bool
missing_between gaps low high = any (λ g. leb g.0 high && leb low g.1) gaps

-- `_is_int(sequence) and sequence >= 1`, as its value.
abbrev pub positive_of : Value → Option ℕ
positive_of v = elim (natural_of v) [ none ↦ none | some n ↦ if ltb n 1 then none else some n ]

-- `isinstance(kind, str) and kind`, as its value.
abbrev pub name_of : Value → Option String
name_of v = elim (text_of v) [ none ↦ none | some s ↦ if str_eq s "" then none else some s ]

unfoldable pub parse_line : Runtime → ℕ → Bytes → Result EvidenceError Record
parse_line py number line = do
  value ← or_raise (py.json_loads line) (not_json number)
  fields ← or_raise (fields_of value) (not_object number)
  sequence ← or_raise (positive_of (get fields "sequence")) (invalid_sequence number)
  monotonic ← or_raise (natural_of (get fields "monotonic_ns")) (invalid_monotonic number)
  kind ← or_raise (name_of (get fields "kind")) (invalid_kind number)
  timestamp ← or_raise (text_of (get fields "timestamp")) (invalid_timestamp number)
  ok (record {
    sequence = sequence;
    monotonic_ns = monotonic;
    kind = kind;
    timestamp = timestamp;
    fields = fields;
  })

abbrev pub terminal_kinds : List String
terminal_kinds = "capture_run_completed" ∷ "capture_run_cancelled" ∷ "capture_run_failed" ∷ []

abbrev pub terminal_session_statuses : List String
terminal_session_statuses = "completed" ∷ "cancelled" ∷ "failed" ∷ "interrupted" ∷ []

-- `status not in TERMINAL_SESSION_STATUSES`.
abbrev pub terminal_status : Value → Bool
terminal_status v = elim (text_of v) [ none ↦ false | some s ↦ among terminal_session_statuses s ]

unfoldable pub session : Runtime → Option Bytes → Result EvidenceError (Option Session)
session py none = ok none
session py (some metadata) = do
  value ← or_raise (py.json_loads metadata) session_not_json
  fields ← or_raise (fields_of value) session_not_object
  raise_if (not (is_hashable (get fields "status"))) unhashable
  raise_if (not (terminal_status (get fields "status"))) session_not_terminal
  ok (
      some (record {
        session_id = get fields "session_id";
        kind = get fields "kind";
        status = get fields "status";
        format_version = get fields "format_version";
        records = get fields "records";
      }))

abbrev pub is_start : Record → Bool
is_start r = str_eq r.kind "capture_run_started"

abbrev pub is_terminal_after : Record → Record → Bool
is_terminal_after started r = among terminal_kinds r.kind && ltb started.sequence r.sequence

-- `terminal is None or r["sequence"] < terminal["sequence"]`.
abbrev pub before_end : Option Record → Record → Bool
before_end none r = true
before_end (some terminal) r = ltb r.sequence terminal.sequence

-- `not run_id or terminal.get("run_id") != run_id`.
abbrev pub foreign : Option String → Record → Bool
foreign none terminal = true
foreign (some id) terminal = str_eq id "" || (elim (text_of (get terminal.fields "run_id")) [
  | none ↦ true
  | some other ↦ not (str_eq other id)
])

-- The terminal marker of the slice is known to be consistent with its start, or is not.
abbrev pub close_run : Option String → Record → Option Record → Run
close_run id started none = record {
  run_id = id;
  started = some started;
  terminal = none;
  problem = none;
}
close_run id started (some terminal) = record {
  run_id = id;
  started = some started;
  terminal = some terminal;
  problem =
      if foreign id terminal || ltb terminal.monotonic_ns started.monotonic_ns
      then some run_invalid
      else none;
}

abbrev pub failed_run : Option String → RunProblem → Run
failed_run id problem = record {
  run_id = id;
  started = none;
  terminal = none;
  problem = some problem;
}

-- `_run` once `starts` is known.
abbrev pub run_of : List Record → List Record → Run
run_of records [] = failed_run none run_missing
run_of records (started ∷ later) =
    let id = text_of (get started.fields "run_id") in
    let terminal = head? (select (is_terminal_after started) records) in
    if any (before_end terminal) later
    then failed_run id run_ambiguous
    else close_run id started terminal

unfoldable pub run : List Record → Run
run records = run_of records (select is_start records)

-- `data.endswith(b"\n")`.
abbrev pub ends_with_newline : Bytes → Bool
ends_with_newline [] = false
ends_with_newline (c ∷ []) = c == 10
ends_with_newline (c ∷ d ∷ cs) = ends_with_newline (d ∷ cs)

-- `data[:-1]`.
abbrev pub without_last : Bytes → Bytes
without_last [] = []
without_last (c ∷ []) = []
without_last (c ∷ d ∷ cs) = c ∷ without_last (d ∷ cs)

abbrev pub prepend : ℕ → List Bytes → List Bytes
prepend c [] = (c ∷ []) ∷ []
prepend c (l ∷ ls) = (c ∷ l) ∷ ls

-- `data.split(b"\n")`.
unfoldable pub split_lines : Bytes → List Bytes
split_lines [] = [] ∷ []
split_lines (c ∷ cs) = let rest = split_lines cs in if c == 10 then [] ∷ rest else prepend c rest

-- `not line.strip()`: nothing but ASCII whitespace.
abbrev pub is_blank : Bytes → Bool
is_blank = all (λ c. c == 32 || (leb 9 c && leb c 13))

-- `record["sequence"] <= records[-1]["sequence"]`, with the error that is raised.
unfoldable pub check_order : ℕ → Option Record → Record → Result EvidenceError (Unit {0})
check_order number none r = ok tt
check_order number (some previous) r =
    if leb r.sequence previous.sequence
    then if r.sequence == previous.sequence
      then err (duplicate_sequence number)
      else err (out_of_order number)
    else ok tt

-- The loop over the numbered lines, with the last record that was appended.
unfoldable pub parse_lines :
    Runtime → ℕ → Option Record → List Bytes → Result EvidenceError (List Record)
parse_lines py number previous [] = ok []
parse_lines py number previous (line ∷ lines) = do
  raise_if (is_blank line) (blank_line number)
  r ← parse_line py number line
  check_order number previous r
  rest ← parse_lines py (number + 1) (some r) lines
  ok (r ∷ rest)

-- The gap between two neighbours, then those of the rest.
abbrev pub gap_after : ℕ → ℕ → List (ℕ × ℕ)
gap_after previous current =
    if ltb (previous + 1) current then (previous + 1, current - 1) ∷ [] else []

unfoldable pub gaps_from : Record → List Record → List (ℕ × ℕ)
gaps_from previous [] = []
gaps_from previous (current ∷ rest) =
    gap_after previous.sequence current.sequence ++ gaps_from current rest

unfoldable pub gaps : List Record → List (ℕ × ℕ)
unfolding gaps_from
gaps [] = []
gaps (r ∷ rest) = (if ltb 1 r.sequence then (1, r.sequence - 1) ∷ [] else []) ++ gaps_from r rest

unfoldable pub inversions_from : Record → List Record → ℕ
inversions_from previous [] = 0
inversions_from previous (current ∷ rest) =
    (if ltb current.monotonic_ns previous.monotonic_ns then 1 else 0) + inversions_from current rest

unfoldable pub inversions : List Record → ℕ
unfolding inversions_from
inversions [] = 0
inversions (r ∷ rest) = inversions_from r rest

unfoldable pub load_evidence : Runtime → Bytes → Option Bytes → Result EvidenceError Evidence
load_evidence py data_bytes metadata = do
  raise_if (is_empty data_bytes) empty
  raise_if (not (ends_with_newline data_bytes)) incomplete_record
  records ← parse_lines py 1 none (split_lines (without_last data_bytes))
  found ← session py metadata
  ok (record {
    sha256 = py.sha256 data_bytes;
    byte_length = length data_bytes;
    records = records;
    gaps = gaps records;
    monotonic_inversions = inversions records;
    run = run records;
    session = found;
  })
