-- ===== src/Capture/Tests.antt =====
-- A running capture with no session store, and one note that is submitted twice.
use dragon_sniff.Prelude.{true, false, [], ◌∷◌, none, some, ◌≡◌, refl, length}
use dragon_sniff.Prelude.Int.{pos}
use dragon_sniff.Json.{is_finite, Fields, null, num, int, put, merge, find, get}
use dragon_sniff.Recording.{draft, push, store, append}
use dragon_sniff.Annotations.{AnnotationRequest, for_capture}
use dragon_sniff.Capture.Annotate.{
  Runner, Durable, Moment, asks, moves, completed, replied, raised, running, conflict,
  identity_mismatch, record_annotation, serve, same_request, find_entry, remember, durable_record,
  annotation_fields, insert, answer_durable, answer,
}
use dragon_sniff.Capture.Once.{has_finite_offset}
use dragon_sniff.Capture.Replies
use dragon_sniff.Capture.Replies.{Kept}

program : Unit {0}
unfolding record_annotation serve same_request find_entry remember durable_record annotation_fields
    insert answer_durable answer append draft push store put merge find get for_capture
program = tt

abbrev no_store : Durable
no_store = record { status = λ s. null; find_annotation = λ s i. none }

abbrev now : Moment
now = record {
  timestamp = "t";
  monotonic_ns = 7;
  elapsed_ms = num (int (pos 3));
  persist = λ r. true;
}

abbrev start : Runner
start = record {
  run_id = "r";
  session_id = some "s";
  phase = running;
  annotations = [];
  annotation_limit = 2;
  annotation_count = 0;
  last_annotation = none;
  recorder = record { max_records = 5; records = []; next_sequence = 1; dropped = 0 };
}

abbrev request : AnnotationRequest
request = record {
  annotation_id = "a";
  run_id = "r";
  capture_session_id = none;
  marker = "abort";
  note = "x";
  operator = none;
  external_correlation = some (record {
    instrument = some "scope";
    file_reference = none;
    clock_sync_method = none;
    known_offset_ms = some (int (pos 4));
  });
}

abbrev first : Runner
first = (record_annotation no_store now request start).0

abbrev written : Fields
written = put "sequence" (num (int (pos 1))) (
    draft "operator_annotation" "t" 7
      (annotation_fields (num (int (pos 3))) (for_capture (some "s") request)))

first_reply : record_annotation no_store now request start ≡ (first, replied true written)
unfolding program
first_reply = refl

counted : (first.annotation_count ≡ 1) × (length first.recorder.records ≡ 1)
unfolding program
counted = (refl, refl)

-- The same id with another note is a conflict, another run is refused, and a third id is over the limit.
conflicting :
    (record_annotation no_store now (record request { note = "y" }) first).1 ≡ raised conflict
unfolding program
conflicting = refl

foreign :
    (record_annotation no_store now (record request { run_id = "q" }) first).1
    ≡ raised identity_mismatch
unfolding program
foreign = refl

abbrev other : AnnotationRequest
other = record request { annotation_id = "b" }

finite : has_finite_offset request.external_correlation ≡ true
unfolding is_finite
finite = refl

record_annotation-again_example :
    record_annotation no_store now request
      (serve first (asks no_store now other ∷ moves completed ∷ []))
    ≡ (serve first (asks no_store now other ∷ moves completed ∷ []), replied false written)
record_annotation-again_example =
    Replies.record_annotation-again no_store no_store now now request start first true written
      (asks no_store now other ∷ moves completed ∷ []) finite first_reply

record_annotation-Kept_example : Kept start request true written first
record_annotation-Kept_example =
    Replies.record_annotation-Kept no_store now request start first true written finite first_reply
