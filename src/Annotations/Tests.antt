-- ===== src/Annotations/Tests.antt =====
-- A note of an operator with a clock offset, as it is submitted and as it is accepted.
use dragon_sniff.Prelude.{[], ℕ, String, true, false, none, some, ◌≡◌, refl}
use dragon_sniff.Prelude.Int.{pos, ◌*ℤ◌}
use dragon_sniff.Prelude.Result.{ok, err}
use dragon_sniff.Json.{
  Value, int, float, num, str, obj, field, end, get, find, keys, is_finite, num_le,
}
use dragon_sniff.Runtime.{Runtime}
use dragon_sniff.Annotations.{
  AnnotationRequest, text_length, is_run_id, blank_note, offset_out_of_range,
}
use dragon_sniff.Annotations.Checks.{
  check_text, check_id, check_run_id, check_marker, check_note, check_operator,
  check_correlation_text, check_offset, check_entries, check_correlation_fields,
  validate_correlation, check_fields, from_value,
}
use dragon_sniff.Annotations.Accepted
use dragon_sniff.Annotations.Accepted.{IsAccepted}

program : Unit {0}
unfolding ◌*ℤ◌ get find keys is_finite num_le text_length is_run_id check_text check_id check_run_id
    check_marker check_note check_operator check_correlation_text check_offset check_entries
    check_correlation_fields validate_correlation check_fields from_value
program = tt

abbrev py : Runtime
py = record {
  json_loads = λ line. none;
  json_dumps = λ value. [];
  json_pretty = λ value. [];
  toml_loads = λ text. none;
  sha256 = λ text. "digest";
  is_digit = λ token. false;
  int_of = λ token. none;
  subtract = λ a b. some a;
  divide = λ a b. float (pos a) b;
  ceil_ratio = λ a b. 0;
  times = λ a b. a;
  to_float = λ a. some a;
  strip = λ text. text;
  lower = λ text. text;
  decimal = λ n. "0";
  is_utf8 = λ text. true;
  uuid = λ text. some text;
  urlsplit = λ text. none;
}

abbrev id : String
id = "0b7c4f6e-0000-4000-8000-000000000000"

abbrev run : String
run = "0123456789abcdef0123456789abcdef"

abbrev submitted : String → ℕ → Value
submitted note offset = obj (
    field "annotation_id" (str id) (
      field "run_id" (str run) (
        field "marker" (str "operator_note") (
          field "note" (str note) (
            field "external_correlation"
              (obj (field "known_offset_ms" (num (int (pos offset))) end)) end)))))

abbrev note : AnnotationRequest
note = record {
  annotation_id = id;
  run_id = run;
  capture_session_id = none;
  marker = "operator_note";
  note = "fan";
  operator = none;
  external_correlation = some (record {
    instrument = none;
    file_reference = none;
    clock_sync_method = none;
    known_offset_ms = some (int (pos 1_000_000_000));
  });
}

accepted_note : from_value py (submitted "fan" 1_000_000_000) ≡ ok note
unfolding program
accepted_note = refl

blank : from_value py (submitted "" 4) ≡ err blank_note
unfolding program
blank = refl

far : from_value py (submitted "fan" 1_000_000_001) ≡ err offset_out_of_range
unfolding program
far = refl

from_value-IsAccepted_example : IsAccepted py note
from_value-IsAccepted_example =
    Accepted.from_value-IsAccepted py (submitted "fan" 1_000_000_000) note accepted_note
