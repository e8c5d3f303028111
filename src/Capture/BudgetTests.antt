-- ===== src/Capture/BudgetTests.antt =====
-- The default configuration with half a second between samples, and a recorder of a small budget.
use dragon_sniff.Prelude.{
  ℕ, ◌+◌, ◌-◌, ◌*◌, ◌/◌, true, false, List, [], ◌∷◌, some, none, ◌≡◌, refl, arith, length,
}
use dragon_sniff.Prelude.Int.{pos, pos_part, ◌*ℤ◌}
use dragon_sniff.Prelude.Result.{ok, err}
use dragon_sniff.Json.{
  Value, Number, float, num, obj, field, end, get, find, keys, num_le, num_eq, put, merge,
  numerator, denominator,
}
use dragon_sniff.Runtime.{Runtime}
use dragon_sniff.Recording.{Recorder, Call, init, draft, push, store, append, replay, history}
use dragon_sniff.Capture.Config.{
  CaptureConfig, default_config, bad_state_interval, profiles, profile_name, estimated_records,
  validate, number_field, config_of, from_value,
}
use dragon_sniff.Capture.Budget
use dragon_sniff.Capture.Budget.{InBounds, budget}

program : Unit {0}
unfolding ◌*ℤ◌ get find keys num_le num_eq put merge init draft push store append replay history
    profiles profile_name estimated_records validate number_field config_of from_value budget
program = tt

-- The exact quotient, rounded up.
abbrev ceil_exact : Number → Number → ℕ
ceil_exact a b =
    let top = pos_part (numerator a) * denominator b in
    let bottom = pos_part (numerator b) * denominator a in (top + bottom - 1) / bottom

abbrev py : Runtime
py = record {
  json_loads = λ line. none;
  json_dumps = λ value. [];
  json_pretty = λ value. [];
  toml_loads = λ text. none;
  sha256 = λ text. "digest";
  is_digit = λ token. false;
  int_of = λ token. none;
  subtract = λ a b. some a;
  divide = λ a b. float (pos a) b;
  ceil_ratio = ceil_exact;
  times = λ a b. a;
  to_float = λ a. some a;
  strip = λ text. text;
  lower = λ text. text;
  decimal = λ n. "0";
  is_utf8 = λ text. true;
  uuid = λ text. some text;
  urlsplit = λ text. none;
}

abbrev with_interval : Number → Value
with_interval n = obj (field "state_interval_seconds" (num n) end)

abbrev half : CaptureConfig
half = record default_config { state_interval_seconds = float (pos 1) 1 }

accepts_half : from_value py (with_interval (float (pos 1) 1)) ≡ ok half
unfolding program
accepts_half = refl

refuses_quarter : from_value py (with_interval (float (pos 1) 2)) ≡ err bad_state_interval
unfolding program
refuses_quarter = refl

long_haul :
    profile_name (record {
      duration_seconds = float (pos 28_800) 0;
      state_interval_seconds = float (pos 10) 1;
      health_interval_seconds = float (pos 60) 0;
    })
    ≡ "Long Haul"
unfolding program
long_haul = refl

default_estimate : estimated_records py default_config ≡ 280
unfolding program
default_estimate = refl

from_value-InBounds_example : InBounds py half
from_value-InBounds_example =
    Budget.from_value-InBounds py (with_interval (float (pos 1) 1)) half accepts_half

abbrev note : Call
note = record { kind = "note"; timestamp = "t"; monotonic_ns = 5; fields = end }

abbrev calls : List Call
calls = note ∷ note ∷ record note { kind = "" } ∷ note ∷ []

abbrev empty : Recorder
empty = record { max_records = 3; records = []; next_sequence = 1; dropped = 0 }

planned : budget (some 3) 2 ≡ some (record { max_records = 3; annotation_limit = 1 })
unfolding program
planned = refl

new_recorder : init 3 ≡ some empty
unfolding program
new_recorder = refl

three : length (history (λ r. true) empty calls) ≡ 3
unfolding program
three = refl

budget-keeps_example :
    ((replay (λ r. true) empty calls).dropped ≡ 0)
    × ((replay (λ r. true) empty calls).records ≡ history (λ r. true) empty calls)
budget-keeps_example =
    Budget.budget-keeps (some 3) 2 (record { max_records = 3; annotation_limit = 1 }) empty
      (λ r. true) calls 1 planned new_recorder (omega arith) (omega (arith, three))
