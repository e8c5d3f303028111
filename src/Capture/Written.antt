-- ===== src/Capture/Written.antt =====
-- The record that an annotation leaves is one that `matches_record` knows again.
use dragon_sniff.Prelude.{ℕ, String, true, Option, none, some, ◌≡◌, refl}
use text.Mathlib.TextPositions.{eq_refl}
use dragon_sniff.Json.{Number, obj, get, find, put, merge, keys}
use dragon_sniff.Recording.{natural, draft}
use dragon_sniff.Annotations.{
  AnnotationRequest, Correlation, is_text, text_value, matches_record, same_correlation,
  same_entries, correlation_entries,
}
use dragon_sniff.Capture.Annotate.{Moment, annotation_fields}
use dragon_sniff.Capture.Once.{has_finite_offset, num_eq_refl}

is_text-text_value : (o : Option String) → is_text o (text_value o) ≡ true
is_text-text_value none = refl
is_text-text_value (some s) = eq_refl s

abbrev of_parts : Option String → Option String → Option String → Option Number → Correlation
of_parts a b c n = record {
  instrument = a;
  file_reference = b;
  clock_sync_method = c;
  known_offset_ms = n;
}

same_entries-of_parts :
    (a b c : Option String) (n : Option Number)
    → has_finite_offset (some (of_parts a b c n)) ≡ true
    → same_entries (of_parts a b c n) (correlation_entries (of_parts a b c n)) ≡ true
unfolding same_entries correlation_entries find keys
same_entries-of_parts none none none none h = refl
same_entries-of_parts none none none (some n) h = num_eq_refl n h
same_entries-of_parts none none (some c) none h = rw (eq_refl c) refl
same_entries-of_parts none none (some c) (some n) h = rw (eq_refl c) (num_eq_refl n h)
same_entries-of_parts none (some b) none none h = rw (eq_refl b) refl
same_entries-of_parts none (some b) none (some n) h = rw (eq_refl b) (num_eq_refl n h)
same_entries-of_parts none (some b) (some c) none h = rw (eq_refl b) (rw (eq_refl c) refl)
same_entries-of_parts none (some b) (some c) (some n) h =
    rw (eq_refl b) (rw (eq_refl c) (num_eq_refl n h))
same_entries-of_parts (some a) none none none h = rw (eq_refl a) refl
same_entries-of_parts (some a) none none (some n) h = rw (eq_refl a) (num_eq_refl n h)
same_entries-of_parts (some a) none (some c) none h = rw (eq_refl a) (rw (eq_refl c) refl)
same_entries-of_parts (some a) none (some c) (some n) h =
    rw (eq_refl a) (rw (eq_refl c) (num_eq_refl n h))
same_entries-of_parts (some a) (some b) none none h = rw (eq_refl a) (rw (eq_refl b) refl)
same_entries-of_parts (some a) (some b) none (some n) h =
    rw (eq_refl a) (rw (eq_refl b) (num_eq_refl n h))
same_entries-of_parts (some a) (some b) (some c) none h =
    rw (eq_refl a) (rw (eq_refl b) (rw (eq_refl c) refl))
same_entries-of_parts (some a) (some b) (some c) (some n) h =
    rw (eq_refl a) (rw (eq_refl b) (rw (eq_refl c) (num_eq_refl n h)))

matches_parts :
    (m : Moment) (id run marker note : String) (session operator : Option String)
    (c : Option Correlation) (n : ℕ)
    → has_finite_offset c ≡ true
    → matches_record
        (record {
          annotation_id = id;
          run_id = run;
          capture_session_id = session;
          marker = marker;
          note = note;
          operator = operator;
          external_correlation = c;
        })
        (obj (
          put "sequence" (natural n) (
            draft "operator_annotation" m.timestamp m.monotonic_ns (
              annotation_fields m.elapsed_ms (record {
                annotation_id = id;
                run_id = run;
                capture_session_id = session;
                marker = marker;
                note = note;
                operator = operator;
                external_correlation = c;
              })))))
      ≡ true
unfolding matches_record get find put merge draft annotation_fields same_correlation
matches_parts m id run marker note session operator none n finite = rw (eq_refl id) (
    rw (eq_refl run) (
      rw (is_text-text_value session)
        (rw (eq_refl marker) (rw (eq_refl note) (rw (is_text-text_value operator) refl)))))
matches_parts m id run marker note session operator (some c) n finite = rw (eq_refl id) (
    rw (eq_refl run) (
      rw (is_text-text_value session) (
        rw (eq_refl marker) (
          rw (eq_refl note) (
            rw (is_text-text_value operator) (
              same_entries-of_parts c.instrument c.file_reference c.clock_sync_method
                c.known_offset_ms finite))))))

pub matches_record-written :
    (m : Moment) (r : AnnotationRequest) (n : ℕ)
    → has_finite_offset r.external_correlation ≡ true
    → matches_record r (
        obj (
          put "sequence" (natural n) (
            draft "operator_annotation" m.timestamp m.monotonic_ns
              (annotation_fields m.elapsed_ms r))))
      ≡ true
matches_record-written m r n finite =
    matches_parts m r.annotation_id r.run_id r.marker r.note r.capture_session_id r.operator
      r.external_correlation n finite
