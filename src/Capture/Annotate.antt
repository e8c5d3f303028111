-- ===== src/Capture/Annotate.antt =====
-- `CaptureRunner.record_annotation` of src/dragonsniff/capture.py, with the runner's state it uses.
use dragon_sniff.Prelude.{
  ℕ, String, Bool, true, false, not, ◌&&◌, List, [], ◌∷◌, ◌++◌, Option, none, some, str_eq, leb,
  if◌then◌else◌, length,
}
use dragon_sniff.Json.{Value, Fields, num_eq, str, obj, field, end, is_null}
use dragon_sniff.Recording.{Recorder, Outcome, recorded, refused, append}
use dragon_sniff.Annotations.{
  AnnotationRequest, Correlation, for_capture, is_text, matches_record, text_value,
  correlation_entries,
}

-- The texts of `_state["state"]`.
pub data Phase : Type 0 where
  idle running stopping completed cancelled failed : Phase

pub data AnnotateError : Type 0 where
  identity_mismatch conflict not_running limit_reached not_recorded : AnnotateError

-- An item of `_annotations`: the key, and the request and the record under it.
pub record Entry : Type 0 where
  pub id : String
  pub request : AnnotationRequest
  pub stored : Fields

-- What the runner asks the session store: a session's status, and an annotation in its evidence.
-- A missing store, session or status is null.
pub record Durable : Type 0 where
  pub status : String → Value
  pub find_annotation : String → String → Option Fields

-- The runner's fields that an annotation reads or writes.
pub record Runner : Type 0 where
  pub run_id : String
  pub session_id : Option String
  pub recorder : Recorder
  pub phase : Phase
  pub annotations : List Entry
  pub annotation_limit : ℕ
  pub annotation_count : ℕ
  pub last_annotation : Option Fields

-- The clocks at the call, and whether the recorder can persist a record.
pub record Moment : Type 0 where
  pub timestamp : String
  pub monotonic_ns : ℕ
  pub elapsed_ms : Value
  pub persist : Fields → Bool

-- `inserted` and the record, or an exception.
pub data Reply : Type 0 where
  replied : Bool → Fields → Reply
  raised : AnnotateError → Reply

abbrev pub same_option : {A : Type 0} → (A → A → Bool) → Option A → Option A → Bool
same_option same none none = true
same_option same (some a) (some b) = same a b
same_option same _ _ = false

abbrev pub same_content : Correlation → Correlation → Bool
same_content a b =
    same_option str_eq a.instrument b.instrument
    && (same_option str_eq a.file_reference b.file_reference
        && (same_option str_eq a.clock_sync_method b.clock_sync_method
            && same_option num_eq a.known_offset_ms b.known_offset_ms))

-- The equality of the dataclass.
unfoldable pub same_request : AnnotationRequest → AnnotationRequest → Bool
same_request a b =
    str_eq a.annotation_id b.annotation_id
    && (str_eq a.run_id b.run_id
        && (same_option str_eq a.capture_session_id b.capture_session_id
            && (str_eq a.marker b.marker
                && (str_eq a.note b.note
                    && (same_option str_eq a.operator b.operator
                        && same_option same_content a.external_correlation
                            b.external_correlation)))))

-- `_annotations.get(id)`.
unfoldable pub find_entry : String → List Entry → Option Entry
find_entry id [] = none
find_entry id (e ∷ es) = let rest = find_entry id es in if str_eq e.id id then some e else rest

-- `_annotations[id] = …` for an id that is not there yet, and the two fields that follow it.
unfoldable pub remember : AnnotationRequest → Fields → Runner → Runner
remember r stored s =
    let entries =
      s.annotations ++ record { id = r.annotation_id; request = r; stored = stored } ∷ [] in
    record s {
      annotations = entries;
      annotation_count = length entries;
      last_annotation = some stored;
    }

-- The record that an interrupted submission left in evidence that is no longer active.
unfoldable pub durable_record : Durable → Option String → String → Option Fields
durable_record d none id = none
durable_record d (some session) id =
    if is_null (d.status session)
    then none
    else if is_text (some "active") (d.status session)
    then none
    else d.find_annotation session id

abbrev pub correlation_field : Option Correlation → Fields
correlation_field none = end
correlation_field (some c) = field "external_correlation" (obj (correlation_entries c)) end

unfoldable pub annotation_fields : Value → AnnotationRequest → Fields
annotation_fields elapsed_ms r = field "annotation_id" (str r.annotation_id) (
    field "run_id" (str r.run_id) (
      field "capture_session_id" (text_value r.capture_session_id) (
        field "capture_relative_ms" elapsed_ms (
          field "marker" (str r.marker) (
            field "note" (str r.note) (
              field "source" (str "operator") (
                field "operator" (text_value r.operator) (
                  field "time_basis" (str "operator_submission_received")
                    (correlation_field r.external_correlation)))))))))

abbrev pub is_running : Phase → Bool
is_running running = true
is_running _ = false

abbrev pub keep_record : AnnotationRequest → Runner → Outcome → Runner × Reply
keep_record r s (recorded recorder stored) =
    (remember r stored (record s { recorder = recorder }), replied true stored)
keep_record r s (refused recorder e) = (record s { recorder = recorder }, raised not_recorded)

-- The part behind the lookups.
unfoldable pub insert : Moment → AnnotationRequest → Runner → Runner × Reply
insert m r s =
    if not (is_running s.phase)
    then (s, raised not_running)
    else (if leb s.annotation_limit (length s.annotations)
        then (s, raised limit_reached)
        else keep_record r s (
            append m.persist "operator_annotation" m.timestamp m.monotonic_ns
              (annotation_fields m.elapsed_ms r) s.recorder))

unfoldable pub answer_durable : Moment → AnnotationRequest → Runner → Option Fields → Runner × Reply
answer_durable m r s none = insert m r s
answer_durable m r s (some stored) =
    if matches_record r (obj stored)
    then (remember r stored s, replied false stored)
    else (s, raised conflict)

-- For a request that is bound to the capture.
unfoldable pub answer :
    Durable → Moment → AnnotationRequest → Runner → Option Entry → Runner × Reply
answer d m r s (some e) =
    if same_request e.request r then (s, replied false e.stored) else (s, raised conflict)
answer d m r s none = answer_durable m r s (durable_record d s.session_id r.annotation_id)

abbrev pub is_own_session : Option String → Option String → Bool
is_own_session none session = true
is_own_session (some id) session = same_option str_eq (some id) session

unfoldable pub record_annotation : Durable → Moment → AnnotationRequest → Runner → Runner × Reply
record_annotation d m request s =
    if str_eq request.run_id s.run_id && is_own_session request.capture_session_id s.session_id
    then answer d m (for_capture s.session_id request) s
        (find_entry request.annotation_id s.annotations)
    else (s, raised identity_mismatch)

-- What happens to a runner between two calls: another request, with the store and the moment it meets,
-- a step of the run to another state, and records of the run.
pub data Meanwhile : Type 0 where
  asks : Durable → Moment → AnnotationRequest → Meanwhile
  moves : Phase → Meanwhile
  records_more : Recorder → Meanwhile

abbrev pub meet : Meanwhile → Runner → Runner
meet (asks d m r) s = (record_annotation d m r s).0
meet (moves phase) s = record s { phase = phase }
meet (records_more recorder) s = record s { recorder = recorder }

unfoldable pub serve : Runner → List Meanwhile → Runner
serve s [] = s
serve s (x ∷ rest) = serve (meet x s) rest
