-- ===== src/Annotations/Checks.antt =====
-- `AnnotationRequest.from_value` and `_validate_correlation` of src/dragonsniff/annotations.py.
use dragon_sniff.Prelude.{
  ℕ, String, Bool, false, not, ◌&&◌, List, [], ◌∷◌, Option, none, some, str_eq, ltb, all,
}
use dragon_sniff.Prelude.Int.{pos, negsuc}
use dragon_sniff.Prelude.Result.{Result, ok, ◌>>=◌, ◌>>◌, raise_if, or_raise}
use dragon_sniff.Json.{
  Value, Fields, Number, int, null, str, find, get, keys, text_of, fields_of, number_of, is_finite,
  num_le, among,
}
use dragon_sniff.Runtime.{Runtime}
use dragon_sniff.Annotations.{
  AnnotationError, not_object, unknown_field, not_uuid, not_canonical, bad_run_id, bad_session_id,
  bad_marker, note_not_string, note_too_long, not_utf8, blank_note, operator_not_string,
  operator_too_long, correlation_not_object, unknown_correlation, correlation_not_string,
  correlation_too_long, offset_not_finite, offset_out_of_range, annotation_markers,
  max_note_characters, max_operator_characters, max_correlation_text_characters,
  max_known_offset_ms, Correlation, AnnotationRequest, text_length, is_run_id, correlation_fields,
}

abbrev pub Checked : Type 0 → Type 0
Checked A = Result AnnotationError A

-- A text of at most `bound` characters that UTF-8 can carry.
unfoldable pub check_text : Runtime → ℕ → AnnotationError → String → Checked String
check_text py bound too_long s = do
  raise_if (ltb bound (text_length s)) too_long
  raise_if (not (py.is_utf8 s)) not_utf8
  ok s

unfoldable pub check_id : Runtime → Value → Checked String
check_id py value = do
  id ← or_raise (text_of value) not_uuid
  canonical ← or_raise (py.uuid id) not_uuid
  raise_if (not (str_eq canonical (py.lower id))) not_canonical
  ok canonical

unfoldable pub check_run_id : AnnotationError → Value → Checked String
check_run_id error value = do
  id ← or_raise (text_of value) error
  raise_if (not (is_run_id id)) error
  ok id

-- An entry that may be null or missing.
abbrev pub unless_null : {A : Type 0} → (Value → Checked A) → Value → Checked (Option A)
unless_null check null = ok none
unless_null check v = do a ← check v; ok (some a)

unfoldable pub check_marker : Value → Checked String
check_marker value = do
  marker ← or_raise (text_of value) bad_marker
  raise_if (not (among annotation_markers marker)) bad_marker
  ok marker

abbrev pub or_empty : Option Value → Value
or_empty none = str ""
or_empty (some v) = v

unfoldable pub check_note : Runtime → String → Value → Checked String
check_note py marker value = do
  note ← or_raise (text_of value) note_not_string
  checked ← check_text py max_note_characters note_too_long note
  raise_if (str_eq marker "operator_note" && str_eq (py.strip note) "") blank_note
  ok checked

unfoldable pub check_operator : Runtime → Value → Checked String
check_operator py value = do
  operator ← or_raise (text_of value) operator_not_string
  check_text py max_operator_characters operator_too_long operator

unfoldable pub check_correlation_text : Runtime → Value → Checked String
check_correlation_text py value = do
  item ← or_raise (text_of value) correlation_not_string
  check_text py max_correlation_text_characters correlation_too_long item

-- `isfinite(float(offset))`, where an `OverflowError` counts as not finite.
abbrev pub is_finite_float : Runtime → Number → Bool
is_finite_float py n = elim (py.to_float n) [ none ↦ false | some f ↦ is_finite f ]

-- `abs(offset) > MAX_KNOWN_OFFSET_MS`, for a finite number.
abbrev pub offset_in_range : Number → Bool
offset_in_range n = num_le (int (negsuc 999_999_999)) n && num_le n (int (pos max_known_offset_ms))

unfoldable pub check_offset : Runtime → Value → Checked Number
check_offset py value = do
  offset ← or_raise (number_of value) offset_not_finite
  raise_if (not (is_finite_float py offset)) offset_not_finite
  raise_if (not (offset_in_range offset)) offset_out_of_range
  ok offset

-- `result or None`.
abbrev pub unless_empty : Correlation → Option Correlation
unless_empty c = elim c.instrument [
  | some s ↦ some c
  | none ↦ elim c.file_reference [
    | some s ↦ some c
    | none ↦ elim c.clock_sync_method [
      | some s ↦ some c
      | none ↦ elim c.known_offset_ms [ some n ↦ some c | none ↦ none ]
    ]
  ]
]

unfoldable pub check_entries : Runtime → Fields → Checked (Option Correlation)
check_entries py fields = do
  instrument ← unless_null (check_correlation_text py) (get fields "instrument")
  file_reference ← unless_null (check_correlation_text py) (get fields "file_reference")
  clock_sync_method ← unless_null (check_correlation_text py) (get fields "clock_sync_method")
  offset ← unless_null (check_offset py) (get fields "known_offset_ms")
  ok (
      unless_empty (record {
        instrument = instrument;
        file_reference = file_reference;
        clock_sync_method = clock_sync_method;
        known_offset_ms = offset;
      }))

unfoldable pub check_correlation_fields : Runtime → Value → Checked (Option Correlation)
check_correlation_fields py value = do
  fields ← or_raise (fields_of value) correlation_not_object
  raise_if (not (all (among correlation_fields) (keys fields))) unknown_correlation
  check_entries py fields

unfoldable pub validate_correlation : Runtime → Value → Checked (Option Correlation)
validate_correlation py null = ok none
validate_correlation py value = check_correlation_fields py value

abbrev pub allowed_fields : List String
allowed_fields =
    "annotation_id" ∷ "run_id" ∷ "capture_session_id" ∷ "marker" ∷ "note" ∷ "operator"
    ∷ "external_correlation" ∷ []

unfoldable pub check_fields : Runtime → Fields → Checked AnnotationRequest
check_fields py fields = do
  annotation_id ← check_id py (get fields "annotation_id")
  run_id ← check_run_id bad_run_id (get fields "run_id")
  session ← unless_null (check_run_id bad_session_id) (get fields "capture_session_id")
  marker ← check_marker (get fields "marker")
  note ← check_note py marker (or_empty (find "note" fields))
  operator ← unless_null (check_operator py) (get fields "operator")
  correlation ← validate_correlation py (get fields "external_correlation")
  ok (record {
    annotation_id = annotation_id;
    run_id = run_id;
    capture_session_id = session;
    marker = marker;
    note = note;
    operator = operator;
    external_correlation = correlation;
  })

unfoldable pub from_value : Runtime → Value → Checked AnnotationRequest
from_value py value = do
  fields ← or_raise (fields_of value) not_object
  raise_if (not (all (among allowed_fields) (keys fields))) unknown_field
  check_fields py fields
