-- ===== src/Storage/Metadata.antt =====
-- A session's metadata: the dict that `create_recorder` builds, as it is written to metadata.json and
-- as `_read_metadata_file_locked` of src/dragonsniff/storage.py checks it. Entries that the program
-- does not name are left out.
pub mod Roundtrip
use dragon_sniff.Prelude.{
  ℕ, String, Bool, true, false, not, ◌&&◌, ◌||◌, List, [], ◌∷◌, ◌++◌, Option, none, some, str_eq,
  if◌then◌else◌,
}
use dragon_sniff.Prelude.Int.{pos}
use dragon_sniff.Prelude.Result.{Result, ok, err, ◌>>=◌, ◌>>◌, raise_if, or_raise}
use dragon_sniff.Json.{
  Value, Fields, Number, int, num, bool, str, null, obj, field, end, find, get, text_of, fields_of,
}
use dragon_sniff.Runtime.{Runtime, Bytes}
use dragon_sniff.Storage.Evidence.{newline}
use dragon_sniff.Annotations.{is_run_id, is_number_value, optional_field}

pub data Kind : Type 0 where
  observation capture churn : Kind

pub data Status : Type 0 where
  active completed cancelled failed interrupted : Status

pub record Metadata : Type 0 where
  pub session_id : String
  pub kind : Kind
  pub target : String
  pub status : Status
  pub created_at : String
  pub updated_at : String
  pub finished_at : Option String
  pub records : ℕ
  pub bytes : ℕ
  pub failure : Option String
  pub recovery : Option String
  pub recovered_partial_bytes : Option ℕ

-- Why a session is not loaded; a `TypeError` of a set that is asked for a list is caught there too.
pub data LoadError : Type 0 where
  unreadable not_metadata id_mismatch bad_version bad_kind bad_status bad_text bad_count
        bad_partial :
      LoadError
  not_loaded_at_startup : LoadError

-- `is_valid_session_id`: the pattern is that of a run id.
abbrev pub is_valid_session_id : String → Bool
is_valid_session_id = is_run_id

abbrev pub kind_text : Kind → String
kind_text observation = "observation"
kind_text capture = "capture"
kind_text churn = "churn"

abbrev pub status_text : Status → String
status_text active = "active"
status_text completed = "completed"
status_text cancelled = "cancelled"
status_text failed = "failed"
status_text interrupted = "interrupted"

-- `value.get("kind") in SESSION_KINDS`.
unfoldable pub kind_of : String → Option Kind
kind_of s =
    if str_eq s "observation"
    then some observation
    else (if str_eq s "capture"
        then some capture
        else (if str_eq s "churn" then some churn else none))

unfoldable pub status_of : String → Option Status
status_of s =
    if str_eq s "active"
    then some active
    else (if str_eq s "completed"
        then some completed
        else (if str_eq s "cancelled"
            then some cancelled
            else (if str_eq s "failed"
                then some failed
                else (if str_eq s "interrupted" then some interrupted else none))))

-- An `int` that is not negative. A `bool` is an `int`.
abbrev pub count_of : Value → Option ℕ
count_of (num (int (pos n))) = some n
count_of (bool true) = some 1
count_of (bool false) = some 0
count_of _ = none

abbrev pub checked_text : Value → Result LoadError String
checked_text v = or_raise (text_of v) bad_text

abbrev pub optional_text : Value → Option String
optional_text (str s) = some s
optional_text _ = none

-- `value.get("recovered_partial_bytes", 0)`, a missing one kept apart.
unfoldable pub check_partial : Fields → Result LoadError (Option ℕ)
check_partial fs = elim (find "recovered_partial_bytes" fs) [
  | none ↦ ok none
  | some v ↦ elim (count_of v) [ none ↦ err bad_partial | some n ↦ ok (some n) ]
]

unfoldable pub check_metadata : String → Fields → Result LoadError Metadata
check_metadata session_id fs = do
  id ← or_raise (text_of (get fs "session_id")) id_mismatch
  raise_if (not (str_eq id session_id) || not (is_valid_session_id session_id)) id_mismatch
  raise_if (not (is_number_value (int (pos 1)) (get fs "format_version"))) bad_version
  kind_name ← or_raise (text_of (get fs "kind")) bad_kind
  kind ← or_raise (kind_of kind_name) bad_kind
  status_name ← or_raise (text_of (get fs "status")) bad_status
  status ← or_raise (status_of status_name) bad_status
  target ← checked_text (get fs "target")
  created_at ← checked_text (get fs "created_at")
  updated_at ← checked_text (get fs "updated_at")
  records ← or_raise (count_of (get fs "records")) bad_count
  bytes ← or_raise (count_of (get fs "bytes")) bad_count
  recovered ← check_partial fs
  ok (record {
    session_id = id;
    kind = kind;
    target = target;
    status = status;
    created_at = created_at;
    updated_at = updated_at;
    finished_at = optional_text (get fs "finished_at");
    records = records;
    bytes = bytes;
    failure = optional_text (get fs "failure");
    recovery = optional_text (get fs "recovery");
    recovered_partial_bytes = recovered;
  })

-- The file's bytes, or `none` where it is missing or a link.
unfoldable pub read_metadata : Runtime → String → Option Bytes → Result LoadError Metadata
read_metadata py session_id file = do
  content ← or_raise file unreadable
  value ← or_raise (py.json_loads content) unreadable
  fields ← or_raise (fields_of value) not_metadata
  check_metadata session_id fields

abbrev pub text_or_null : Option String → Value
text_or_null none = null
text_or_null (some s) = str s

abbrev pub count_value : ℕ → Value
count_value n = num (int (pos n))

abbrev pub optional_str : Option String → Option Value
optional_str none = none
optional_str (some s) = some (str s)

abbrev pub optional_count : Option ℕ → Option Value
optional_count none = none
optional_count (some n) = some (count_value n)

-- The dict of a session, in the order in which its entries come about.
unfoldable pub metadata_fields : Metadata → Fields
metadata_fields m = field "format_version" (count_value 1) (
    field "session_id" (str m.session_id) (
      field "kind" (str (kind_text m.kind)) (
        field "target" (str m.target) (
          field "status" (str (status_text m.status)) (
            field "created_at" (str m.created_at) (
              field "updated_at" (str m.updated_at) (
                field "finished_at" (text_or_null m.finished_at) (
                  field "records" (count_value m.records) (
                    field "bytes" (count_value m.bytes) (
                      optional_field "failure" (optional_str m.failure) (
                        optional_field "recovery" (optional_str m.recovery) (
                          optional_field "recovered_partial_bytes"
                            (optional_count m.recovered_partial_bytes) end))))))))))))

-- What `_write_metadata_locked` puts into the file.
unfoldable pub encoded_metadata : Runtime → Metadata → Bytes
encoded_metadata py m = py.json_pretty (obj (metadata_fields m)) ++ newline ∷ []
