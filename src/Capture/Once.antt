-- ===== src/Capture/Once.antt =====
-- Requests only add entries to a capture, and a held request gets its record.
use dragon_sniff.Prelude.{
  String, Bool, true, false, ◌&&◌, List, [], ◌∷◌, ◌++◌, Option, none, some, str_eq, ◌≡◌, refl,
  arith, Bool-cases, inl, inr, length, ap, sym, ◌∙◌, leb,
}
use text.Mathlib.TextPositions.{eq_refl}
use mathlib.Core.List.{append_assoc, append-nil}
use dragon_sniff.Json.{Fields, obj, Number, num_eq, is_finite}
use dragon_sniff.Recording.{Outcome, recorded, refused}
use dragon_sniff.Annotations.{AnnotationRequest, Correlation, for_capture, matches_record}
use dragon_sniff.Capture.Annotate.{
  Runner, Durable, Moment, replied, Entry, same_request, same_content, same_option, find_entry,
  remember, durable_record, is_running, insert, answer_durable, answer, is_own_session,
  record_annotation, serve, Meanwhile, asks, moves, records_more, meet, keep_record,
}

-- The capture holds this record for this request.
pub record Holds (s : Runner) (r : AnnotationRequest) (stored : Fields) : Type 0 where
  pub own_run : str_eq r.run_id s.run_id ≡ true
  pub own_session : is_own_session r.capture_session_id s.session_id ≡ true
  pub entry : Entry
  pub found : find_entry r.annotation_id s.annotations ≡ some entry
  pub same : same_request entry.request (for_capture s.session_id r) ≡ true
  pub is_stored : entry.stored ≡ stored

-- What a request leaves as it was: the capture's identity and every entry.
pub record Extends (s t : Runner) : Type 0 where
  pub run : t.run_id ≡ s.run_id
  pub session : t.session_id ≡ s.session_id
  pub entries : List Entry
  pub appended : t.annotations ≡ s.annotations ++ entries

find_entry-append :
    (id : String) (es fs : List Entry) (e : Entry)
    → find_entry id es ≡ some e
    → find_entry id (es ++ fs) ≡ some e
unfolding find_entry
find_entry-append id [] fs e h = cc
find_entry-append id (x ∷ es) fs e h = elim (Bool-cases (str_eq x.id id)) [
  | inl same ↦ rw same (rw same at h)
  | inr other ↦ rw other (find_entry-append id es fs e (rw other at h))
]

pub find_entry-last :
    (id : String) (es : List Entry) (e : Entry)
    → find_entry id es ≡ none
    → str_eq e.id id ≡ true
    → find_entry id (es ++ e ∷ []) ≡ some e
unfolding find_entry
find_entry-last id [] e h same = rw same refl
find_entry-last id (x ∷ es) e h same = elim (Bool-cases (str_eq x.id id)) [
  | inl equal ↦ cc (rw equal at h)
  | inr other ↦ rw other (find_entry-last id es e (rw other at h) same)
]

pub Holds-Extends :
    (s t : Runner) (r : AnnotationRequest) (stored : Fields)
    → Extends s t
    → Holds s r stored
    → Holds t r stored
Holds-Extends s t r stored x h = record {
  own_run = rw x.run h.own_run;
  own_session = rw x.session h.own_session;
  entry = h.entry;
  found = rw x.appended (find_entry-append r.annotation_id s.annotations x.entries h.entry h.found);
  same = rw x.session h.same;
  is_stored = h.is_stored;
}

-- A held request gets its record, and nothing changes.
pub record_annotation-Holds :
    (d : Durable) (m : Moment) (r : AnnotationRequest) (s : Runner) (stored : Fields)
    → Holds s r stored
    → record_annotation d m r s ≡ (s, replied false stored)
unfolding record_annotation answer
record_annotation-Holds d m r s stored h =
    rw h.own_run (rw h.own_session (rw h.found (rw h.same (rw h.is_stored refl))))

stays : (s : Runner) → Extends s s
stays s = record {
  run = refl;
  session = refl;
  entries = [];
  appended = sym (append-nil s.annotations);
}

remember-Extends :
    (r : AnnotationRequest) (stored : Fields) (s : Runner) → Extends s (remember r stored s)
unfolding remember
remember-Extends r stored s = record {
  run = refl;
  session = refl;
  entries = record { id = r.annotation_id; request = r; stored = stored } ∷ [];
  appended = refl;
}

keep_record-Extends :
    (r : AnnotationRequest) (s : Runner) (o : Outcome) → Extends s (keep_record r s o).0
keep_record-Extends r s (recorded recorder stored) =
    let x = remember-Extends r stored (record s { recorder = recorder }) in
    record { run = x.run; session = x.session; entries = x.entries; appended = x.appended }
keep_record-Extends r s (refused recorder e) = record {
  run = refl;
  session = refl;
  entries = [];
  appended = sym (append-nil s.annotations);
}

insert-Extends : (m : Moment) (r : AnnotationRequest) (s : Runner) → Extends s (insert m r s).0
unfolding insert
insert-Extends m r s = elim (Bool-cases (is_running s.phase)) [
  | inr still ↦ rw still (stays s)
  | inl live ↦ rw live (elim (Bool-cases (leb s.annotation_limit (length s.annotations))) [
    | inl full ↦ rw full (stays s)
    | inr room ↦ rw room (keep_record-Extends r s _)
  ])
]

answer-Extends :
    (d : Durable) (m : Moment) (r : AnnotationRequest) (s : Runner) (known : Option Entry)
    → Extends s (answer d m r s known).0
unfolding answer answer_durable
answer-Extends d m r s (some e) = elim (Bool-cases (same_request e.request r)) [
  | inl same ↦ rw same (stays s)
  | inr other ↦ rw other (stays s)
]
answer-Extends d m r s none = durable (durable_record d s.session_id r.annotation_id)
  where
    durable : (o : Option Fields) → Extends s (answer_durable m r s o).0
    durable none = insert-Extends m r s
    durable (some stored) = elim (Bool-cases (matches_record r (obj stored))) [
      | inl same ↦ rw same (remember-Extends r stored s)
      | inr other ↦ rw other (stays s)
    ]

record_annotation-Extends :
    (d : Durable) (m : Moment) (r : AnnotationRequest) (s : Runner)
    → Extends s (record_annotation d m r s).0
unfolding record_annotation
record_annotation-Extends d m r s =
    elim (Bool-cases
      (str_eq r.run_id s.run_id && is_own_session r.capture_session_id s.session_id)) [
        | inl own ↦ rw own (answer-Extends d m (for_capture s.session_id r) s _)
        | inr other ↦ rw other (stays s)
      ]

meet-Extends : (x : Meanwhile) (s : Runner) → Extends s (meet x s)
meet-Extends (asks d m r) s = record_annotation-Extends d m r s
meet-Extends (moves phase) s = record {
  run = refl;
  session = refl;
  entries = [];
  appended = sym (append-nil s.annotations);
}
meet-Extends (records_more recorder) s = record {
  run = refl;
  session = refl;
  entries = [];
  appended = sym (append-nil s.annotations);
}

pub serve-Extends : (s : Runner) (calls : List Meanwhile) → Extends s (serve s calls)
unfolding serve
serve-Extends s [] = stays s
serve-Extends s (w ∷ rest) =
    let t = meet w s in
    let x = meet-Extends w s in
    let y = serve-Extends t rest in
    record {
      run = y.run ∙ x.run;
      session = y.session ∙ x.session;
      entries = x.entries ++ y.entries;
      appended =
          y.appended
          ∙ ap (λ es. es ++ y.entries) x.appended
          ∙ append_assoc s.annotations x.entries y.entries;
    }

pub num_eq_refl : (n : Number) → is_finite n ≡ true → num_eq n n ≡ true
unfolding num_eq is_finite
num_eq_refl n h = ground arith

-- The offset, where there is one, is finite.
abbrev pub has_finite_offset : Option Correlation → Bool
has_finite_offset none = true
has_finite_offset (some c) = elim c.known_offset_ms [ none ↦ true | some n ↦ is_finite n ]

same_option_refl : (o : Option String) → same_option str_eq o o ≡ true
same_option_refl none = refl
same_option_refl (some s) = eq_refl s

same_content_refl :
    (o : Option Correlation) → has_finite_offset o ≡ true → same_option same_content o o ≡ true
same_content_refl none h = refl
same_content_refl (some c) h = rw (same_option_refl c.instrument) (
    rw (same_option_refl c.file_reference)
      (rw (same_option_refl c.clock_sync_method) (offset c.known_offset_ms h)))
  where
    offset :
        (o : Option Number)
        → elim o [ none ↦ true | some n ↦ is_finite n ] ≡ true
        → same_option num_eq o o ≡ true
    offset none h = refl
    offset (some n) h = num_eq_refl n h

pub same_request_refl :
    (r : AnnotationRequest)
    → has_finite_offset r.external_correlation ≡ true
    → same_request r r ≡ true
unfolding same_request
same_request_refl r h = rw (eq_refl r.annotation_id) (
    rw (eq_refl r.run_id) (
      rw (same_option_refl r.capture_session_id) (
        rw (eq_refl r.marker) (
          rw (eq_refl r.note)
            (rw (same_option_refl r.operator) (same_content_refl r.external_correlation h))))))
