-- ===== src/Annotations/Accepted.antt =====
-- What `from_value` guarantees of the requests that it accepts.
use dragon_sniff.Prelude.{
  sym, ap, ◌∙◌, all, ◌⊎◌, ℕ, ◌≤◌, String, Bool, true, false, not, ◌&&◌, Option, none, some, str_eq,
  ◌≡◌, refl, arith, inl, inr,
}
use dragon_sniff.Prelude.Result.{ok, ◌>>=◌, or_raise, raise_if, >>=-eq-ok, raise_if-eq-ok}
use mathlib.Core.Path.{subst}
use dragon_sniff.Json.{Value, Fields, keys, Number, among, get, find, text_of, fields_of}
use dragon_sniff.Runtime.{Runtime}
use dragon_sniff.Annotations.{
  AnnotationError, bad_marker, bad_run_id, bad_session_id, correlation_not_object,
  unknown_correlation, not_object, unknown_field, correlation_fields, AnnotationRequest,
  Correlation, annotation_markers, max_note_characters, max_operator_characters,
  max_correlation_text_characters, text_length, is_run_id,
}
use dragon_sniff.Annotations.Checks.{
  Checked, or_empty, allowed_fields, check_text, check_id, check_run_id, check_marker, check_note,
  check_operator, check_correlation_text, check_offset, check_correlation_fields, check_entries,
  check_fields, validate_correlation, from_value, is_finite_float, offset_in_range, unless_null,
  unless_empty,
}

-- A property of a value that may be missing.
abbrev pub Given : {A : Type 0} → (A → Type 0) → Option A → Type 0
Given P none = Unit
Given P (some a) = P a

abbrev pub IsText : Runtime → ℕ → String → Type 0
IsText py bound s = (text_length s ≤ bound) × (py.is_utf8 s ≡ true)

check_text-IsText :
    (py : Runtime) (bound : ℕ) (e : AnnotationError) (s t : String)
    → check_text py bound e s ≡ ok t
    → (s ≡ t) × IsText py bound s
unfolding check_text
check_text-IsText py bound e s t h = ground arith

check_run_id-is_run_id :
    (e : AnnotationError) (v : Value) (s : String) → check_run_id e v ≡ ok s → is_run_id s ≡ true
unfolding check_run_id
check_run_id-is_run_id e v s h = ground arith

not-false : (b : Bool) → not b ≡ false → b ≡ true
not-false b h = ground arith

ok-injective : {A : Type 0} {a b : A} (r : Checked A) → r ≡ ok a → r ≡ ok b → a ≡ b
ok-injective r h k = cc

check_marker-among :
    (v : Value) (s : String) → check_marker v ≡ ok s → among annotation_markers s ≡ true
unfolding check_marker
check_marker-among v s h =
    let (m, _, h₁) = >>=-eq-ok (or_raise (text_of v) bad_marker) after h in
    let (u, checked, e) = >>=-eq-ok (test m) (λ _. ok m) h₁ in
    let member : among annotation_markers m ≡ true =
      not-false (among annotation_markers m) (raise_if-eq-ok _ bad_marker checked) in
    subst (λ x. among annotation_markers x ≡ true) (ok-injective (ok m) refl e) member
  where
    test : String → Checked (Unit {0})
    test m = raise_if (not (among annotation_markers m)) bad_marker

    after : String → Checked String
    after m = test m >>= λ _. ok m

check_note-IsText :
    (py : Runtime) (marker : String) (v : Value) (s : String)
    → check_note py marker v ≡ ok s
    → IsText py max_note_characters s
      × ((str_eq marker "operator_note" && str_eq (py.strip s) "") ≡ false)
unfolding check_note check_text
check_note-IsText py marker v s h = ground arith

check_operator-IsText :
    (py : Runtime) (v : Value) (s : String)
    → check_operator py v ≡ ok s
    → IsText py max_operator_characters s
unfolding check_operator check_text
check_operator-IsText py v s h = ground arith

check_correlation_text-IsText :
    (py : Runtime) (v : Value) (s : String)
    → check_correlation_text py v ≡ ok s
    → IsText py max_correlation_text_characters s
unfolding check_correlation_text check_text
check_correlation_text-IsText py v s h = ground arith

check_offset-in_range :
    (py : Runtime) (v : Value) (n : Number)
    → check_offset py v ≡ ok n
    → (is_finite_float py n ≡ true) × (offset_in_range n ≡ true)
unfolding check_offset
check_offset-in_range py v n h = ground arith

unless_null-Given :
    {A : Type 0} (P : A → Type 0) (check : Value → Checked A)
    → ((v : Value) (a : A) → check v ≡ ok a → P a)
    → (v : Value) (o : Option A) → unless_null check v ≡ ok o
    → Given P o
unless_null-Given {A = A} P check sound v o h = elim (is_none v o h) [
  | inl e ↦ subst (Given P) (sym e) tt
  | inr (a, checked, e) ↦ subst (Given P) (sym e) (sound v a checked)
]
  where
    is_none :
        (v : Value) (o : Option A)
        → unless_null check v ≡ ok o
        → (o ≡ none) ⊎ ((a : A) × (check v ≡ ok a) × (o ≡ some a))
    is_none Value.null o h = inl (sym (ok-injective (ok none) refl h))
    is_none v o h = ground arith

-- Every entry is within its bound, and there is one.
pub record IsCorrelation (py : Runtime) (c : Correlation) : Type 0 where
  pub instrument_text : Given (IsText py max_correlation_text_characters) c.instrument
  pub file_text : Given (IsText py max_correlation_text_characters) c.file_reference
  pub sync_text : Given (IsText py max_correlation_text_characters) c.clock_sync_method
  pub offset_range :
      Given (λ n. (is_finite_float py n ≡ true) × (offset_in_range n ≡ true)) c.known_offset_ms
  pub entry : unless_empty c ≡ some c

unless_empty-some :
    (c d : Correlation) → unless_empty c ≡ some d → (c ≡ d) × (unless_empty d ≡ some d)
unless_empty-some c d h = ground arith

entries-eq-ok :
    {A B C D E : Type 0} (ra : Checked A) (rb : Checked B) (rc : Checked C) (rd : Checked D)
    (f : A → B → C → D → E) {e : E}
    → (ra >>= λ a. rb >>= λ b. rc >>= λ c. rd >>= λ d. ok (f a b c d)) ≡ ok e
    → (a : A) × (b : B) × (c : C) × (d : D) × (ra ≡ ok a)
      × (rb ≡ ok b)
      × (rc ≡ ok c)
      × (rd ≡ ok d)
      × (f a b c d ≡ e)
entries-eq-ok ra rb rc rd f h = ground arith

check_entries-IsCorrelation :
    (py : Runtime) (fs : Fields) (o : Option Correlation)
    → check_entries py fs ≡ ok o
    → Given (IsCorrelation py) o
unfolding check_entries
check_entries-IsCorrelation py fs none h = tt
check_entries-IsCorrelation py fs (some d) h =
    let (a, b, c, n, ha, hb, hc, hn, e) =
      entries-eq-ok (text "instrument") (text "file_reference") (text "clock_sync_method")
        (unless_null (check_offset py) (get fs "known_offset_ms"))
        (λ a b c n. unless_empty (record {
          instrument = a;
          file_reference = b;
          clock_sync_method = c;
          known_offset_ms = n;
        }))
        h in
    let (same, one) = unless_empty-some _ d e in
    subst (IsCorrelation py) same (record {
      instrument_text = is_text _ a ha;
      file_text = is_text _ b hb;
      sync_text = is_text _ c hc;
      offset_range = unless_null-Given _ (check_offset py) (check_offset-in_range py) _ n hn;
      entry = e ∙ ap some (sym same);
    })
  where
    text : String → Checked (Option String)
    text k = unless_null (check_correlation_text py) (get fs k)

    is_text :
        (v : Value) (a : Option String)
        → unless_null (check_correlation_text py) v ≡ ok a
        → Given (IsText py max_correlation_text_characters) a
    is_text v a h =
        unless_null-Given _ (check_correlation_text py) (check_correlation_text-IsText py) v a h

guarded-eq-ok :
    {A B : Type 0} (first : Option A) (test : A → Bool) (e f : AnnotationError)
    (next : A → Checked B) {b : B}
    → (or_raise first e >>= λ a. raise_if (test a) f >>= λ _. next a) ≡ ok b
    → (a : A) × (test a ≡ false) × (next a ≡ ok b)
guarded-eq-ok first test e f next h =
    let (a, _, h₁) = >>=-eq-ok (or_raise first e) (λ a. raise_if (test a) f >>= λ _. next a) h in
    let (_, checked, h₂) = >>=-eq-ok (raise_if (test a) f) (λ _. next a) h₁ in
    (a, raise_if-eq-ok (test a) f checked, h₂)

validate_correlation-IsCorrelation :
    (py : Runtime) (v : Value) (o : Option Correlation)
    → validate_correlation py v ≡ ok o
    → Given (IsCorrelation py) o
unfolding validate_correlation check_correlation_fields
validate_correlation-IsCorrelation py Value.null o h =
    subst (Given (IsCorrelation py)) (ok-injective (ok none) refl h) tt
validate_correlation-IsCorrelation py v o h =
    let (fs, _, checked) =
      guarded-eq-ok (fields_of v) (λ fs. not (all (among correlation_fields) (keys fs)))
        correlation_not_object unknown_correlation (check_entries py) h in
    check_entries-IsCorrelation py fs o checked

-- An id in the form that `str(UUID(…))` prints, given in that form but for the case.
abbrev pub IsCanonical : Runtime → String → Type 0
IsCanonical py s = (t : String) × (py.uuid t ≡ some s) × (str_eq s (py.lower t) ≡ true)

pub record IsAccepted (py : Runtime) (r : AnnotationRequest) : Type 0 where
  pub id : IsCanonical py r.annotation_id
  pub run : is_run_id r.run_id ≡ true
  pub session : Given (λ s. is_run_id s ≡ true) r.capture_session_id
  pub known_marker : among annotation_markers r.marker ≡ true
  pub note_text : IsText py max_note_characters r.note
  pub note_given : (str_eq r.marker "operator_note" && str_eq (py.strip r.note) "") ≡ false
  pub operator_text : Given (IsText py max_operator_characters) r.operator
  pub correlation : Given (IsCorrelation py) r.external_correlation

request-eq-ok :
    {A B C D E F G R : Type 0} (ra : Checked A) (rb : Checked B) (rc : Checked C) (rd : Checked D)
    (re : D → Checked E) (rf : Checked F) (rg : Checked G) (f : A → B → C → D → E → F → G → R)
    {r : R}
    → (ra >>= λ a. rb >>= λ b.
        rc >>= λ c. rd >>= λ d. re d >>= λ e. rf >>= λ o. rg >>= λ g. ok (f a b c d e o g))
      ≡ ok r
    → (a : A) × (b : B) × (c : C) × (d : D) × (e : E) × (o : F) × (g : G) × (ra ≡ ok a)
      × (rb ≡ ok b)
      × (rc ≡ ok c)
      × (rd ≡ ok d)
      × (re d ≡ ok e)
      × (rf ≡ ok o)
      × (rg ≡ ok g)
      × (f a b c d e o g ≡ r)
request-eq-ok ra rb rc rd re rf rg f h = ground arith

check_id-IsCanonical :
    (py : Runtime) (v : Value) (s : String) → check_id py v ≡ ok s → IsCanonical py s
unfolding check_id
check_id-IsCanonical py (Value.str t) s h = (t, ground arith, ground arith)
check_id-IsCanonical py v s h = ground arith

check_fields-IsAccepted :
    (py : Runtime) (fs : Fields) (r : AnnotationRequest)
    → check_fields py fs ≡ ok r
    → IsAccepted py r
unfolding check_fields
check_fields-IsAccepted py fs r h =
    let (a, b, c, d, e, o, g, ha, hb, hc, hd, he, ho, hg, same) =
      request-eq-ok (check_id py (get fs "annotation_id"))
        (check_run_id bad_run_id (get fs "run_id"))
        (unless_null (check_run_id bad_session_id) (get fs "capture_session_id"))
        (check_marker (get fs "marker"))
        (λ marker. check_note py marker (or_empty (find "note" fs)))
        (unless_null (check_operator py) (get fs "operator"))
        (validate_correlation py (get fs "external_correlation"))
        (λ a b c d e o g. record {
          annotation_id = a;
          run_id = b;
          capture_session_id = c;
          marker = d;
          note = e;
          operator = o;
          external_correlation = g;
        })
        h in
    let note = check_note-IsText py d _ e he in
    subst (IsAccepted py) same (record {
      id = check_id-IsCanonical py _ a ha;
      run = check_run_id-is_run_id bad_run_id _ b hb;
      session =
          unless_null-Given _ (check_run_id bad_session_id) (check_run_id-is_run_id bad_session_id)
            _ c hc;
      known_marker = check_marker-among _ d hd;
      note_text = note.0;
      note_given = note.1;
      operator_text = unless_null-Given _ (check_operator py) (check_operator-IsText py) _ o ho;
      correlation = validate_correlation-IsCorrelation py _ g hg;
    })

-- A request that `from_value` returns has an id in canonical UUID form, names a run and, where given, a session by 32 lower-case
-- hexadecimal digits, has a known marker, and keeps each text within its limit and encodable; an
-- operator note is not blank; a correlation has an entry and a finite offset within the limit.
pub from_value-IsAccepted :
    (py : Runtime) (v : Value) (r : AnnotationRequest) → from_value py v ≡ ok r → IsAccepted py r
unfolding from_value
from_value-IsAccepted py v r h =
    let (fs, _, checked) =
      guarded-eq-ok (fields_of v) (λ fs. not (all (among allowed_fields) (keys fs))) not_object
        unknown_field (check_fields py) h in
    check_fields-IsAccepted py fs r checked
