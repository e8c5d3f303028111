-- ===== src/Capture/Replies.antt =====
-- What a reply to an annotation request says of the capture.
use dragon_sniff.Prelude.{
  ◌<◌, Bool, true, false, ◌&&◌, List, [], ◌∷◌, ◌++◌, Option, none, some, str_eq, ◌≡◌, refl, arith,
  Bool-cases, Option-cases, inl, inr, length, ap, sym, ◌∙◌, leb,
}
use text.Mathlib.TextPositions.{eq_refl}
use mathlib.Core.Path.{subst}
use dragon_sniff.Json.{Fields, obj, put}
use dragon_sniff.Recording.{Outcome, Recorder, natural, draft, recorded, refused, append}
use dragon_sniff.Annotations.{AnnotationRequest, for_capture, matches_record}
use dragon_sniff.Capture.Annotate.{
  Runner, Durable, Moment, replied, Entry, Phase, running, same_request, find_entry, remember,
  durable_record, is_running, insert, answer_durable, answer, is_own_session, record_annotation,
  Meanwhile, serve, annotation_fields, keep_record,
}
use dragon_sniff.Capture.Written.{matches_record-written}
use dragon_sniff.Capture.Once.{
  Holds, Holds-Extends, record_annotation-Holds, serve-Extends, same_request_refl,
  has_finite_offset, find_entry-last,
}

-- The capture holds the record for a request that is bound to it.
record Answers (s : Runner) (r : AnnotationRequest) (b : Bool) (stored : Fields)
    (known : Option Entry) (t : Runner) : Type 0 where
  run : t.run_id ≡ s.run_id
  session : t.session_id ≡ s.session_id
  entry : Entry
  found : find_entry r.annotation_id t.annotations ≡ some entry
  same : same_request entry.request r ≡ true
  is_stored : entry.stored ≡ stored
  fresh :
      (b ≡ true
        → (known ≡ none)
          × (s.phase ≡ running)
          × (length s.annotations < s.annotation_limit)
          × (matches_record r (obj stored) ≡ true))

remember-Answers :
    (r : AnnotationRequest) (b : Bool) (stored : Fields) (s u : Runner)
    → find_entry r.annotation_id s.annotations ≡ none
    → has_finite_offset r.external_correlation ≡ true
    → u.run_id ≡ s.run_id
    → u.session_id ≡ s.session_id
    → u.annotations ≡ s.annotations
    → (b ≡ true
        → (s.phase ≡ running)
          × (length s.annotations < s.annotation_limit)
          × (matches_record r (obj stored) ≡ true))
    → Answers s r b stored none (remember r stored u)
unfolding remember
remember-Answers r b stored s u new finite e₁ e₂ e₃ fresh = record {
  run = e₁;
  session = e₂;
  entry = record { id = r.annotation_id; request = r; stored = stored };
  found =
      ap
        (λ es.
          find_entry r.annotation_id
            (es ++ record { id = r.annotation_id; request = r; stored = stored } ∷ []))
        e₃
      ∙ find_entry-last r.annotation_id s.annotations _ new (eq_refl r.annotation_id);
  same = same_request_refl r finite;
  is_stored = refl;
  fresh = λ h. (refl, (fresh h).0, (fresh h).1, (fresh h).2);
}

replied-record : {b c : Bool} {a d : Fields} → replied b a ≡ replied c d → a ≡ d
replied-record h = cc

is_running-eq : (p : Phase) → is_running p ≡ true → p ≡ running
is_running-eq p h = ground arith

keep_record-Answers :
    (r : AnnotationRequest) (s t : Runner) (o : Outcome) (b : Bool) (stored : Fields)
    → find_entry r.annotation_id s.annotations ≡ none
    → has_finite_offset r.external_correlation ≡ true
    → s.phase ≡ running
    → length s.annotations < s.annotation_limit
    → ((after : Recorder) (saved : Fields)
        → o ≡ recorded after saved
        → matches_record r (obj saved) ≡ true)
    → keep_record r s o ≡ (t, replied b stored)
    → Answers s r b stored none t
keep_record-Answers r s t (refused recorder e) b stored new finite live room written h = cc
keep_record-Answers r s t (recorded recorder saved) b stored new finite live room written h =
    subst (λ q. Answers s r b q none t) (replied-record (ap (λ p. p.1) h))
      (subst (λ q. Answers s r b saved none q) (ap (λ p. p.0) h)
        (remember-Answers r b saved s (record s { recorder = recorder }) new finite refl refl refl
          (λ _. (live, room, written recorder saved refl))))

recorded-fields : {u v : Recorder} {f g : Fields} → recorded u f ≡ recorded v g → f ≡ g
recorded-fields h = cc

append-written :
    (m : Moment) (r : AnnotationRequest) (u : Recorder)
    → has_finite_offset r.external_correlation ≡ true
    → (after : Recorder) (saved : Fields)
    → append m.persist "operator_annotation" m.timestamp m.monotonic_ns
        (annotation_fields m.elapsed_ms r)
        u
      ≡ recorded after saved
    → matches_record r (obj saved) ≡ true
unfolding append
append-written m r u finite after saved h =
    let w =
      put "sequence" (natural u.next_sequence) (
        draft "operator_annotation" m.timestamp m.monotonic_ns
          (annotation_fields m.elapsed_ms r)) in
    elim (Bool-cases (m.persist w)) [
      | inr lost ↦ cc (rw lost at h)
      | inl kept ↦
          subst (λ f. matches_record r (obj f) ≡ true) (recorded-fields (rw kept at h))
            (matches_record-written m r u.next_sequence finite)
    ]

insert-Answers :
    (m : Moment) (r : AnnotationRequest) (s t : Runner) (b : Bool) (stored : Fields)
    → find_entry r.annotation_id s.annotations ≡ none
    → has_finite_offset r.external_correlation ≡ true
    → insert m r s ≡ (t, replied b stored)
    → Answers s r b stored none t
unfolding insert
insert-Answers m r s t b stored new finite h = elim (Bool-cases (is_running s.phase)) [
  | inr still ↦ cc (rw still at h)
  | inl live ↦ elim (Bool-cases (leb s.annotation_limit (length s.annotations))) [
    | inl full ↦ cc (rw (live, full) at h)
    | inr room ↦
        keep_record-Answers r s t
          (append m.persist "operator_annotation" m.timestamp m.monotonic_ns
            (annotation_fields m.elapsed_ms r) s.recorder)
          b stored new finite (is_running-eq s.phase live) (ground arith)
          (append-written m r s.recorder finite) (rw (live, room) at h)
  ]
]

replied-flag : {b c : Bool} {a d : Fields} → replied b a ≡ replied c d → b ≡ c
replied-flag h = cc

not-both : {A : Type 0} (b : Bool) → b ≡ false → b ≡ true → A
not-both b h k = cc

answer-Answers :
    (d : Durable) (m : Moment) (r : AnnotationRequest) (s t : Runner) (b : Bool) (stored : Fields)
    (known : Option Entry)
    → find_entry r.annotation_id s.annotations ≡ known
    → has_finite_offset r.external_correlation ≡ true
    → answer d m r s known ≡ (t, replied b stored)
    → Answers s r b stored known t
unfolding answer answer_durable
answer-Answers d m r s t b stored (some e) known finite h =
    elim (Bool-cases (same_request e.request r)) [
      | inr other ↦ cc (rw other at h)
      | inl same ↦
          let is : (s, replied false e.stored) ≡ (t, replied b stored) = rw same at h in
          let old : b ≡ false = sym (replied-flag (ap (λ p. p.1) is)) in
          subst (λ q. Answers s r b stored (some e) q) (ap (λ p. p.0) is)
            (record {
              run = refl;
              session = refl;
              entry = e;
              found = known;
              same = same;
              is_stored = replied-record (ap (λ p. p.1) is);
              fresh = not-both b old;
            })
    ]
answer-Answers d m r s t b stored none new finite h =
    elim (Option-cases (durable_record d s.session_id r.annotation_id)) [
      | inl missing ↦ insert-Answers m r s t b stored new finite (rw missing at h)
      | inr (saved, kept) ↦ elim (Bool-cases (matches_record r (obj saved))) [
        | inr other ↦ cc (rw (kept, other) at h)
        | inl same ↦
            let is : (remember r saved s, replied false saved) ≡ (t, replied b stored) =
              rw (kept, same) at h in
            let old : b ≡ false = sym (replied-flag (ap (λ p. p.1) is)) in
            subst (λ q. Answers s r b q none t) (replied-record (ap (λ p. p.1) is))
              (subst (λ q. Answers s r b saved none q) (ap (λ p. p.0) is)
                (remember-Answers r b saved s s new finite refl refl refl (not-both b old)))
      ]
    ]

-- A reply that carries a record comes from the capture that the request names, and the capture holds
-- the record for it from then on. The record is inserted only for a new id, in a running capture, and
-- below the limit, and `matches_record` knows it again.
pub record Kept (s : Runner) (r : AnnotationRequest) (b : Bool) (stored : Fields) (t : Runner)
    : Type 0 where
  pub holds : Holds t r stored
  pub fresh :
      (b ≡ true
        → (find_entry r.annotation_id s.annotations ≡ none)
          × (s.phase ≡ running)
          × (length s.annotations < s.annotation_limit)
          × (matches_record (for_capture s.session_id r) (obj stored) ≡ true))

and-true : (a b : Bool) → (a && b) ≡ true → (a ≡ true) × (b ≡ true)
and-true a b h = ground arith

pub record_annotation-Kept :
    (d : Durable) (m : Moment) (r : AnnotationRequest) (s t : Runner) (b : Bool) (stored : Fields)
    → has_finite_offset r.external_correlation ≡ true
    → record_annotation d m r s ≡ (t, replied b stored)
    → Kept s r b stored t
unfolding record_annotation for_capture
record_annotation-Kept d m r s t b stored finite h =
    elim (Bool-cases
      (str_eq r.run_id s.run_id && is_own_session r.capture_session_id s.session_id)) [
        | inr other ↦ cc (rw other at h)
        | inl own ↦
            let own_parts = and-true _ _ own in
            let a =
              answer-Answers d m (for_capture s.session_id r) s t b stored
                (find_entry r.annotation_id s.annotations) refl finite (rw own at h) in
            record {
              holds = record {
                own_run = rw a.run own_parts.0;
                own_session = rw a.session own_parts.1;
                entry = a.entry;
                found = a.found;
                same = rw a.session a.same;
                is_stored = a.is_stored;
              };
              fresh = a.fresh;
            }
      ]

-- A request that was answered with a record gets the same record again, as not inserted, and changes
-- nothing, whatever requests, moves to another phase and other records came in between and whatever the
-- store holds by then. An offset of the request is finite, as `from_value` checks.
pub record_annotation-again :
    (d e : Durable) (m n : Moment) (r : AnnotationRequest) (s t : Runner) (b : Bool)
    (stored : Fields) (between : List Meanwhile)
    → has_finite_offset r.external_correlation ≡ true
    → record_annotation d m r s ≡ (t, replied b stored)
    → record_annotation e n r (serve t between) ≡ (serve t between, replied false stored)
record_annotation-again d e m n r s t b stored between finite h =
    let kept = record_annotation-Kept d m r s t b stored finite h in
    record_annotation-Holds e n r (serve t between) stored
      (Holds-Extends t (serve t between) r stored (serve-Extends t between) kept.holds)
