-- ===== src/Capture/Budget.antt =====
-- The record budget of a capture: `CaptureRunner.__init__` of src/dragonsniff/capture.py.
use dragon_sniff.Prelude.{
  str_eq, ℕ, ◌+◌, ◌-◌, ◌≤◌, min, Bool, true, false, not, List, [], ◌∷◌, Option, none, some, ltb,
  all, ◌≡◌, refl, ap, arith, Bool-cases, inl, inr, if◌then◌else◌, ◌∙◌, length,
}
use dragon_sniff.Prelude.Result.{Result, ok, ◌>>=◌, raise_if, or_raise, >>=-eq-ok}
use mathlib.Core.Path.{subst}
use dragon_sniff.Json.{Value, Fields, put, keys, fields_of, among}
use dragon_sniff.Runtime.{Runtime}
use dragon_sniff.Recording.{
  Recorder, Call, natural, draft, init, replay, history, append, store, after, call,
}
use dragon_sniff.Recording.Window.{Tracks, drop, replay-Tracks, init-Tracks}
use dragon_sniff.Capture.Config.{
  CaptureConfig, ConfigError, not_object, unknown_field, estimated_records, in_range, validate,
  config_of, allowed_fields, from_value, min_duration_seconds, max_duration_seconds,
  min_state_interval_seconds, max_state_interval_seconds, min_health_interval_seconds,
  max_health_interval_seconds, max_estimated_records,
}

abbrev pub max_capture_annotations : ℕ
max_capture_annotations = 1_000

pub record Budget : Type 0 where
  pub max_records : ℕ
  pub annotation_limit : ℕ

-- The bound of the recorder that the caller brings, or of a new one.
abbrev pub recorder_size : Option ℕ → ℕ → ℕ
recorder_size none required = required + max_capture_annotations
recorder_size (some n) required = n

-- `given` is the bound of a recorder that the caller brings; `none` is the ValueError for a small one.
unfoldable pub budget : Option ℕ → ℕ → Option Budget
budget given required =
    let size = recorder_size given required in
    if ltb size required
    then none
    else some (record {
      max_records = size;
      annotation_limit = min max_capture_annotations (size - required);
    })

pub record InBounds (py : Runtime) (c : CaptureConfig) : Type 0 where
  pub duration : in_range min_duration_seconds max_duration_seconds c.duration_seconds ≡ true
  pub state_interval :
      in_range min_state_interval_seconds max_state_interval_seconds c.state_interval_seconds ≡ true
  pub health_interval :
      in_range min_health_interval_seconds max_health_interval_seconds c.health_interval_seconds
      ≡ true
  pub estimate : estimated_records py c ≤ max_estimated_records

guards-eq-ok :
    (a b c d : Bool) (e f g h : ConfigError) {u : Unit {0}}
    → (raise_if (not a) e >>= λ _.
        raise_if (not b) f >>= λ _. raise_if (not c) g >>= λ _. raise_if d h)
      ≡ ok u
    → (a ≡ true) × (b ≡ true) × (c ≡ true) × (d ≡ false)
guards-eq-ok a b c d e f g h eq = ground arith

validate-InBounds :
    (py : Runtime) (c : CaptureConfig) (u : Unit {0}) → validate py c ≡ ok u → InBounds py c
unfolding validate
validate-InBounds py c u h =
    let (a, b, d, e) =
      guards-eq-ok (in_range min_duration_seconds max_duration_seconds c.duration_seconds)
        (in_range min_state_interval_seconds max_state_interval_seconds c.state_interval_seconds)
        (in_range min_health_interval_seconds max_health_interval_seconds c.health_interval_seconds)
        (ltb max_estimated_records (estimated_records py c)) _ _ _ _ h in
    record { duration = a; state_interval = b; health_interval = d; estimate = ground (arith, e) }

budget-fits :
    (given : Option ℕ) (required : ℕ) (b : Budget)
    → budget given required ≡ some b
    → required + b.annotation_limit ≤ b.max_records
unfolding budget
budget-fits given required b h = ground arith

all_kept :
    (s : Recorder) (log : List Fields)
    → Tracks s log
    → length log ≤ s.max_records
    → (s.dropped ≡ 0) × (s.records ≡ log)
all_kept s log t fits = elim (Bool-cases (ltb 0 s.dropped)) [
  | inl some_dropped ↦ absurd (ground (arith, t.full (ground (arith, some_dropped)), t.counted))
  | inr none_dropped ↦
      let zero : s.dropped ≡ 0 = ground (arith, none_dropped) in
      (zero, t.window ∙ ap (λ n. drop n log) zero)
]

store-max_records :
    (s : Recorder) (persist : Fields → Bool) (cs : List Call)
    → (replay persist s cs).max_records ≡ s.max_records
unfolding replay append store
store-max_records s persist [] = refl
store-max_records s persist (c ∷ cs) = store-max_records (after (call persist s c)) persist cs ∙ one
  where
    one : (after (call persist s c)).max_records ≡ s.max_records
    one =
        let r =
          put "sequence" (natural s.next_sequence)
            (draft c.kind c.timestamp c.monotonic_ns c.fields) in
        elim (Bool-cases (str_eq c.kind "")) [
          | inl nameless ↦ rw nameless refl
          | inr named ↦
              rw named (elim (Bool-cases (persist r)) [
                | inl kept ↦ rw kept refl
                | inr lost ↦ rw lost refl
              ])
        ]

init-max_records : (n : ℕ) (s : Recorder) → init n ≡ some s → s.max_records ≡ n
unfolding init
init-max_records n s h = ground arith

-- A recorder of the capture's budget drops nothing while the capture records no more than its
-- estimate and its annotations no more than their limit.
pub budget-keeps :
    (given : Option ℕ) (required : ℕ) (b : Budget) (s : Recorder) (persist : Fields → Bool)
    (cs : List Call) (annotations : ℕ)
    → budget given required ≡ some b
    → init b.max_records ≡ some s
    → annotations ≤ b.annotation_limit
    → length (history persist s cs) ≤ required + annotations
    → ((replay persist s cs).dropped ≡ 0) × ((replay persist s cs).records ≡ history persist s cs)
budget-keeps given required b s persist cs annotations planned new few short =
    all_kept (replay persist s cs) (history persist s cs)
      (replay-Tracks persist s [] cs (init-Tracks b.max_records s new))
      (omega (
        arith,
        short,
        few,
        budget-fits given required b planned,
        store-max_records s persist cs,
        init-max_records b.max_records s new,
      ))

ok-same : {a b : CaptureConfig} (r : Result ConfigError CaptureConfig) → r ≡ ok a → r ≡ ok b → a ≡ b
ok-same r h k = cc

-- A configuration that `from_value` returns has each number within its range, and an estimate
-- within the record budget.
pub from_value-InBounds :
    (py : Runtime) (v : Value) (c : CaptureConfig) → from_value py v ≡ ok c → InBounds py c
unfolding from_value
from_value-InBounds py v c h =
    let (fs, _, h₁) =
      >>=-eq-ok (or_raise (fields_of v) not_object) (λ fs. known fs >>= λ _. checked fs) h in
    let (_, _, h₂) = >>=-eq-ok (known fs) (λ _. checked fs) h₁ in
    let (config, _, h₃) = >>=-eq-ok (config_of py fs) (λ q. validate py q >>= λ _. ok q) h₂ in
    let (u, valid, same) = >>=-eq-ok (validate py config) (λ _. ok config) h₃ in
    subst (InBounds py) (ok-same (ok config) refl same) (validate-InBounds py config u valid)
  where
    known : Fields → Result ConfigError (Unit {0})
    known fs = raise_if (not (all (among allowed_fields) (keys fs))) unknown_field

    checked : Fields → Result ConfigError CaptureConfig
    checked fs = config_of py fs >>= λ q. validate py q >>= λ _. ok q
