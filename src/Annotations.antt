-- ===== src/Annotations.antt =====
-- Operator annotation requests: src/dragonsniff/annotations.py.
pub mod Checks
pub mod Accepted
mod Tests
use Prim.Native.Char.{code}
use dragon_sniff.Prelude.{
  ℕ, zero, suc, String, Bool, true, false, not, ◌&&◌, ◌||◌, List, [], ◌∷◌, Option, none, some,
  str_eq, ltb, leb, ◌==◌, if◌then◌else◌, is_some, all,
}
use dragon_sniff.Prelude.Int.{pos}
use dragon_sniff.Json.{
  Value, Fields, Number, int, num, bool, str, obj, field, end, find, get, keys, num_eq, text_of,
  among, is_null,
}

pub data AnnotationError : Type 0 where
  not_object unknown_field not_uuid not_canonical bad_run_id bad_session_id bad_marker :
      AnnotationError
  note_not_string note_too_long not_utf8 blank_note operator_not_string operator_too_long :
      AnnotationError
  correlation_not_object unknown_correlation correlation_not_string correlation_too_long :
      AnnotationError
  offset_not_finite offset_out_of_range : AnnotationError

abbrev pub quick_markers : List String
quick_markers =
    "fan_blocked" ∷ "fan_unblocked" ∷ "airflow_partial" ∷ "airflow_restored"
    ∷ "thermistor_unplugged" ∷ "thermistor_reconnected" ∷ "chamber_opened" ∷ "chamber_closed"
    ∷ "printer_stopped" ∷ "bed_target_changed" ∷ "printer_link_lost" ∷ "jumpjet_power_off"
    ∷ "jumpjet_power_on" ∷ "stimulus_applied" ∷ "stimulus_removed" ∷ "baseline_start"
    ∷ "recovery_start" ∷ "external_log_start" ∷ "scope_trigger" ∷ "flir_capture" ∷ "abort"
    ∷ "operator_intervention" ∷ []

abbrev pub annotation_markers : List String
annotation_markers = "operator_note" ∷ quick_markers

abbrev pub max_note_characters : ℕ
max_note_characters = 2_048

abbrev pub max_operator_characters : ℕ
max_operator_characters = 128

abbrev pub max_correlation_text_characters : ℕ
max_correlation_text_characters = 512

abbrev pub max_known_offset_ms : ℕ
max_known_offset_ms = 1_000_000_000

-- The entries of `external_correlation` that are there; the source keeps None for none at all.
pub record Correlation : Type 0 where
  pub instrument : Option String
  pub file_reference : Option String
  pub clock_sync_method : Option String
  pub known_offset_ms : Option Number

pub record AnnotationRequest : Type 0 where
  pub annotation_id : String
  pub run_id : String
  pub capture_session_id : Option String
  pub marker : String
  pub note : String
  pub operator : Option String
  pub external_correlation : Option Correlation

-- `len(text)`.
unfoldable pub text_length : String → ℕ
text_length String.[] = 0
text_length (String.◌∷◌ c s) = suc (text_length s)

abbrev pub is_hex : ℕ → Bool
is_hex c = (leb b'0' c && leb c b'9') || (leb b'a' c && leb c b'f')

abbrev pub is_hex_of : ℕ → String → Bool
is_hex_of zero String.[] = true
is_hex_of zero (String.◌∷◌ c s) = false
is_hex_of (suc n) String.[] = false
is_hex_of (suc n) (String.◌∷◌ c s) = is_hex (code c) && is_hex_of n s

-- `RUN_ID_PATTERN.fullmatch`: 32 lower-case hexadecimal digits.
unfoldable pub is_run_id : String → Bool
is_run_id = is_hex_of 32

-- Binds the client's content to the authoritative capture.
unfoldable pub for_capture : Option String → AnnotationRequest → AnnotationRequest
for_capture session r = record r { capture_session_id = session }

-- `record.get(name) == value` for a text or None.
abbrev pub is_text : Option String → Value → Bool
is_text none v = is_null v
is_text (some s) v = elim (text_of v) [ none ↦ false | some t ↦ str_eq t s ]

-- Python's `==` of a number with any value; True is 1 and False is 0.
abbrev pub is_number_value : Number → Value → Bool
is_number_value n (num m) = num_eq m n
is_number_value n (bool true) = num_eq (int (pos 1)) n
is_number_value n (bool false) = num_eq (int (pos 0)) n
is_number_value n _ = false

-- An entry that is there with this value, or is not there.
abbrev pub has_entry : {A : Type 0} → (A → Value → Bool) → Option A → Option Value → Bool
has_entry same none none = true
has_entry same (some a) (some v) = same a v
has_entry same _ _ = false

abbrev pub same_string : String → Value → Bool
same_string s v = is_text (some s) v

abbrev pub correlation_fields : List String
correlation_fields = "instrument" ∷ "file_reference" ∷ "clock_sync_method" ∷ "known_offset_ms" ∷ []

-- Equality of two dicts: the same keys with equal values.
unfoldable pub same_entries : Correlation → Fields → Bool
same_entries c fs =
    all (among correlation_fields) (keys fs)
    && (has_entry same_string c.instrument (find "instrument" fs)
        && (has_entry same_string c.file_reference (find "file_reference" fs)
            && (has_entry same_string c.clock_sync_method (find "clock_sync_method" fs)
                && has_entry is_number_value c.known_offset_ms (find "known_offset_ms" fs))))

unfoldable pub same_correlation : Option Correlation → Value → Bool
same_correlation none v = is_null v
same_correlation (some c) (obj fs) = same_entries c fs
same_correlation (some c) _ = false

-- Whether durable evidence is the result of this exact request.
unfoldable pub matches_record : AnnotationRequest → Value → Bool
matches_record r (obj fs) =
    is_text (some r.annotation_id) (get fs "annotation_id")
    && (is_text (some r.run_id) (get fs "run_id")
        && (is_text r.capture_session_id (get fs "capture_session_id")
            && (is_text (some r.marker) (get fs "marker")
                && (is_text (some r.note) (get fs "note")
                    && (is_text (some "operator") (get fs "source")
                        && (is_text r.operator (get fs "operator")
                            && same_correlation r.external_correlation
                                (get fs "external_correlation")))))))
matches_record r _ = false

abbrev pub text_value : Option String → Value
text_value none = Value.null
text_value (some s) = str s

abbrev pub optional_field : String → Option Value → Fields → Fields
optional_field k none fs = fs
optional_field k (some v) fs = field k v fs

abbrev pub as_text : Option String → Option Value
as_text none = none
as_text (some s) = some (str s)

abbrev pub as_number : Option Number → Option Value
as_number none = none
as_number (some n) = some (num n)

-- The dict that `_validate_correlation` builds.
unfoldable pub correlation_entries : Correlation → Fields
correlation_entries c = optional_field "instrument" (as_text c.instrument) (
    optional_field "file_reference" (as_text c.file_reference) (
      optional_field "clock_sync_method" (as_text c.clock_sync_method)
        (optional_field "known_offset_ms" (as_number c.known_offset_ms) end)))
