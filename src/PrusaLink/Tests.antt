-- ===== src/PrusaLink/Tests.antt =====
-- A status with an optional field that is no number.
use dragon_sniff.Prelude.{String, true, false, [], ◌∷◌, some, none, ◌≡◌, refl}
use dragon_sniff.Prelude.Int.{pos}
use dragon_sniff.Prelude.Result.{ok, err}
use dragon_sniff.Json.{Value, int, float, num, str, obj, field, end, find, get, is_finite}
use dragon_sniff.Runtime.{Runtime}
use dragon_sniff.Annotations.{text_length}
use dragon_sniff.PrusaLink.{
  Status, bad_state, finite_number, check_state, optional_number, parse_printer,
  parse_prusalink_status,
}
use dragon_sniff.PrusaLink.Sample
use dragon_sniff.PrusaLink.Sample.{IsSample}

program : Unit {0}
unfolding find get is_finite text_length finite_number check_state optional_number parse_printer
    parse_prusalink_status
program = tt

abbrev py : Runtime
py = record {
  json_loads = λ line. none;
  json_dumps = λ value. [];
  json_pretty = λ value. [];
  toml_loads = λ text. none;
  sha256 = λ text. "digest";
  is_digit = λ token. false;
  int_of = λ token. none;
  subtract = λ a b. some a;
  divide = λ a b. float (pos a) b;
  ceil_ratio = λ a b. 0;
  times = λ a b. a;
  to_float = λ a. some a;
  strip = λ text. text;
  lower = λ text. text;
  decimal = λ n. "0";
  is_utf8 = λ text. true;
  uuid = λ text. some text;
  urlsplit = λ text. none;
}

abbrev printer : String → Value
printer state = obj (
    field "printer"
      (obj (
        field "state" (str state) (
          field "temp_bed" (num (int (pos 60)))
            (field "target_bed" (num (float (pos 121) 1)) (field "temp_nozzle" (str "hot") end)))))
      end)

abbrev status : Status
status = record {
  printer_state = "PRINTING";
  bed_temperature_c = int (pos 60);
  bed_target_c = float (pos 121) 1;
  nozzle_temperature_c = none;
  nozzle_target_c = none;
}

parsed : parse_prusalink_status py (printer "PRINTING") ≡ ok (status, "temp_nozzle" ∷ [])
unfolding program
parsed = refl

stateless : parse_prusalink_status py (printer "") ≡ err bad_state
unfolding program
stateless = refl

parse_prusalink_status-IsSample_example : IsSample py status
parse_prusalink_status-IsSample_example =
    Sample.parse_prusalink_status-IsSample py (printer "PRINTING") (status, "temp_nozzle" ∷ [])
      parsed
