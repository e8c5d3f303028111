-- ===== src/PrusaLink.antt =====
-- The printer's status: `parse_prusalink_status` of src/dragonsniff/prusalink.py.
pub mod Sample
mod Tests
use dragon_sniff.Prelude.{
  ℕ, String, Bool, true, false, not, ◌&&◌, ◌||◌, List, [], ◌∷◌, Option, none, some, str_eq, ltb,
  if◌then◌else◌, map_option, ◌++◌,
}
use dragon_sniff.Prelude.Result.{Result, ok, err, ◌>>=◌, ◌>>◌, raise_if, or_raise}
use dragon_sniff.Json.{Value, Fields, Number, find, get, fields_of, text_of, number_of, is_finite}
use dragon_sniff.Runtime.{Runtime}
use dragon_sniff.Annotations.{text_length}

-- A `PrusaLinkPayloadError`, by message, or the `OverflowError` of `float` on a large int, which
-- `_finite_number` lets through.
pub data StatusError : Type 0 where
  status_not_object no_printer bad_state not_finite int_too_large : StatusError

abbrev pub max_printer_state_characters : ℕ
max_printer_state_characters = 128

pub record Status : Type 0 where
  pub printer_state : String
  pub bed_temperature_c : Number
  pub bed_target_c : Number
  pub nozzle_temperature_c : Option Number
  pub nozzle_target_c : Option Number

unfoldable pub finite_number : Runtime → Value → Result StatusError Number
finite_number py value = do
  n ← or_raise (number_of value) not_finite
  result ← or_raise (py.to_float n) int_too_large
  raise_if (not (is_finite result)) not_finite
  ok result

unfoldable pub check_state : Runtime → Value → Result StatusError String
check_state py value = do
  state ← or_raise (text_of value) bad_state
  raise_if (str_eq (py.strip state) "") bad_state
  raise_if (ltb max_printer_state_characters (text_length state)) bad_state
  ok state

-- The number, and whether the field is listed as omitted.
abbrev pub unless_payload_error :
    Result StatusError Number → Result StatusError (Option Number × Bool)
unless_payload_error (ok n) = ok (some n, false)
unless_payload_error (err int_too_large) = err int_too_large
unless_payload_error (err _) = ok (none, true)

unfoldable pub optional_number :
    Runtime → Fields → String → Result StatusError (Option Number × Bool)
optional_number py printer name = elim (find name printer) [
  | none ↦ ok (none, false)
  | some v ↦ unless_payload_error (finite_number py v)
]

abbrev pub listed_if : Bool → String → List String
listed_if omitted name = if omitted then name ∷ [] else []

unfoldable pub parse_printer : Runtime → Fields → Result StatusError (Status × List String)
parse_printer py printer = do
  state ← check_state py (get printer "state")
  bed ← finite_number py (get printer "temp_bed")
  target ← finite_number py (get printer "target_bed")
  nozzle ← optional_number py printer "temp_nozzle"
  nozzle_target ← optional_number py printer "target_nozzle"
  ok (
    record {
      printer_state = state;
      bed_temperature_c = bed;
      bed_target_c = target;
      nozzle_temperature_c = nozzle.0;
      nozzle_target_c = nozzle_target.0;
    },
    listed_if nozzle.1 "temp_nozzle" ++ listed_if nozzle_target.1 "target_nozzle",
  )

unfoldable pub parse_prusalink_status : Runtime → Value → Result StatusError (Status × List String)
parse_prusalink_status py value = do
  fields ← or_raise (fields_of value) status_not_object
  printer ← or_raise (fields_of (get fields "printer")) no_printer
  parse_printer py printer
