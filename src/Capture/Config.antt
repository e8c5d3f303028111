-- ===== src/Capture/Config.antt =====
-- `CaptureConfig` of src/dragonsniff/capture.py. A rounded division of two floats, rounded up, is
-- `ceil_ratio` of the runtime.
use dragon_sniff.Prelude.{
  ℕ, ◌+◌, ◌*◌, String, Bool, not, ◌&&◌, List, [], ◌∷◌, none, some, ltb, all, if◌then◌else◌,
}
use dragon_sniff.Prelude.Int.{pos}
use dragon_sniff.Prelude.Result.{Result, ok, ◌>>=◌, ◌>>◌, raise_if, or_raise}
use dragon_sniff.Json.{
  Value, Fields, Number, float, find, keys, fields_of, number_of, num_le, num_eq, among,
}
use dragon_sniff.Runtime.{Runtime}

pub record CaptureConfig : Type 0 where
  pub duration_seconds : Number
  pub state_interval_seconds : Number
  pub health_interval_seconds : Number

-- `overflow` is the `OverflowError` of `float` on a large int.
pub data ConfigError : Type 0 where
  not_object unknown_field not_number overflow : ConfigError
  bad_duration bad_state_interval bad_health_interval too_many_records : ConfigError

-- A float with a whole value.
abbrev pub whole : ℕ → Number
whole n = float (pos n) 0

abbrev pub default_config : CaptureConfig
default_config = record {
  duration_seconds = whole 120;
  state_interval_seconds = whole 1;
  health_interval_seconds = whole 10;
}

abbrev pub min_duration_seconds : Number
min_duration_seconds = whole 1

abbrev pub max_duration_seconds : Number
max_duration_seconds = whole 43_200

-- 0.5
abbrev pub min_state_interval_seconds : Number
min_state_interval_seconds = float (pos 1) 1

abbrev pub max_state_interval_seconds : Number
max_state_interval_seconds = whole 60

abbrev pub min_health_interval_seconds : Number
min_health_interval_seconds = whole 5

abbrev pub max_health_interval_seconds : Number
max_health_interval_seconds = whole 300

abbrev pub max_estimated_records : ℕ
max_estimated_records = 25_000

abbrev pub profile : ℕ → ℕ → ℕ → CaptureConfig
profile duration state health = record {
  duration_seconds = whole duration;
  state_interval_seconds = whole state;
  health_interval_seconds = whole health;
}

unfoldable pub profiles : List (String × CaptureConfig)
profiles =
    ("Smoke", profile 120 1 10)
    ∷ ("Soak", profile 900 2 30)
    ∷ ("Extended", profile 1_800 5 60)
    ∷ ("Long Haul", profile 28_800 5 60)
    ∷ []

abbrev pub same_config : CaptureConfig → CaptureConfig → Bool
same_config a b =
    num_eq a.duration_seconds b.duration_seconds
    && (num_eq a.state_interval_seconds b.state_interval_seconds
        && num_eq a.health_interval_seconds b.health_interval_seconds)

abbrev pub name_in : CaptureConfig → List (String × CaptureConfig) → String
name_in c [] = "Custom"
name_in c ((name, p) ∷ rest) = let later = name_in c rest in if same_config c p then name else later

unfoldable pub profile_name : CaptureConfig → String
unfolding profiles
profile_name c = name_in c profiles

unfoldable pub estimated_records : Runtime → CaptureConfig → ℕ
estimated_records py c =
    let state_samples = py.ceil_ratio c.duration_seconds c.state_interval_seconds + 2 in
    let health_samples = py.ceil_ratio c.duration_seconds c.health_interval_seconds + 2 in
    (state_samples + health_samples + 2) * 2 + 4

abbrev pub in_range : Number → Number → Number → Bool
in_range lower upper n = num_le lower n && num_le n upper

unfoldable pub validate : Runtime → CaptureConfig → Result ConfigError (Unit {0})
validate py c = do
  raise_if (not (in_range min_duration_seconds max_duration_seconds c.duration_seconds))
      bad_duration
  raise_if
      (not
        (in_range min_state_interval_seconds max_state_interval_seconds c.state_interval_seconds))
      bad_state_interval
  raise_if
      (not (
        in_range min_health_interval_seconds max_health_interval_seconds c.health_interval_seconds))
      bad_health_interval
  raise_if (ltb max_estimated_records (estimated_records py c)) too_many_records

-- `value.get(name, default)`, which must be a number.
unfoldable pub number_field : Fields → String → Number → Result ConfigError Number
number_field fs name default = elim (find name fs) [
  | none ↦ ok default
  | some v ↦ or_raise (number_of v) not_number
]

-- The source loops over a set, so which of several errors comes first is not fixed; here the
-- numbers are tested in the order of the fields.
unfoldable pub config_of : Runtime → Fields → Result ConfigError CaptureConfig
config_of py fs = do
  duration ← number_field fs "duration_seconds" default_config.duration_seconds
  state ← number_field fs "state_interval_seconds" default_config.state_interval_seconds
  health ← number_field fs "health_interval_seconds" default_config.health_interval_seconds
  duration_float ← or_raise (py.to_float duration) overflow
  state_float ← or_raise (py.to_float state) overflow
  health_float ← or_raise (py.to_float health) overflow
  ok (record {
    duration_seconds = duration_float;
    state_interval_seconds = state_float;
    health_interval_seconds = health_float;
  })

abbrev pub allowed_fields : List String
allowed_fields = "duration_seconds" ∷ "state_interval_seconds" ∷ "health_interval_seconds" ∷ []

unfoldable pub from_value : Runtime → Value → Result ConfigError CaptureConfig
from_value py value = do
  fields ← or_raise (fields_of value) not_object
  raise_if (not (all (among allowed_fields) (keys fields))) unknown_field
  config ← config_of py fields
  validate py config
  ok config
