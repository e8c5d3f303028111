-- ===== src/Churn.antt =====
-- The churn of event streams: `ChurnConfig` of src/dragonsniff/churn.py.
pub mod Bounds
mod Tests
use dragon_sniff.Prelude.{ℕ, String, Bool, not, ◌&&◌, List, [], ◌∷◌, none, some, all, if◌then◌else◌}
use dragon_sniff.Prelude.Int.{ℤ, pos, leb_ℤ, eqb_ℤ}
use dragon_sniff.Prelude.Result.{Result, ok, err, ◌>>=◌, ◌>>◌, raise_if, or_raise}
use dragon_sniff.Json.{
  Value, Fields, Number, int, float, num, find, keys, fields_of, number_of, num_le, num_eq, among,
}
use dragon_sniff.Runtime.{Runtime}

pub record ChurnConfig : Type 0 where
  pub cycles : ℤ
  pub observe_seconds : Number
  pub max_events : ℤ
  pub delay_seconds : Number

-- `float_overflow` is the `OverflowError` of `float` on a large int.
pub data ChurnError : Type 0 where
  not_an_object unknown_name not_an_integer not_a_number float_overflow : ChurnError
  bad_cycles bad_observe_seconds bad_max_events bad_delay_seconds : ChurnError

abbrev pub churn_config : ℕ → Number → ℕ → Number → ChurnConfig
churn_config cycles observe events delay = record {
  cycles = pos cycles;
  observe_seconds = observe;
  max_events = pos events;
  delay_seconds = delay;
}

-- The double nearest to 0.1.
abbrev pub tenth : Number
tenth = float (pos 3_602_879_701_896_397) 55

abbrev pub default_churn : ChurnConfig
default_churn = churn_config 3 (float (pos 2) 0) 3 (float (pos 1) 1)

unfoldable pub churn_profiles : List (String × ChurnConfig)
churn_profiles =
    ("Baseline", churn_config 3 (float (pos 2) 0) 3 (float (pos 1) 1))
    ∷ ("Extended", churn_config 10 (float (pos 5) 0) 5 (float (pos 1) 2))
    ∷ ("Stress", churn_config 20 (float (pos 10) 0) 10 tenth)
    ∷ []

abbrev pub same_churn : ChurnConfig → ChurnConfig → Bool
same_churn a b =
    eqb_ℤ a.cycles b.cycles
    && (num_eq a.observe_seconds b.observe_seconds
        && (eqb_ℤ a.max_events b.max_events && num_eq a.delay_seconds b.delay_seconds))

abbrev pub churn_name_in : ChurnConfig → List (String × ChurnConfig) → String
churn_name_in c [] = "Custom"
churn_name_in c ((name, p) ∷ rest) =
    let later = churn_name_in c rest in if same_churn c p then name else later

unfoldable pub churn_profile_name : ChurnConfig → String
unfolding churn_profiles
churn_profile_name c = churn_name_in c churn_profiles

abbrev pub cycles_in_range : ℤ → Bool
cycles_in_range n = leb_ℤ (pos 1) n && leb_ℤ n (pos 20)

abbrev pub observe_in_range : Number → Bool
observe_in_range n = num_le (float (pos 1) 2) n && num_le n (float (pos 15) 0)

abbrev pub events_in_range : ℤ → Bool
events_in_range n = leb_ℤ (pos 1) n && leb_ℤ n (pos 25)

abbrev pub delay_in_range : Number → Bool
delay_in_range n = num_le tenth n && num_le n (float (pos 5) 0)

unfoldable pub validate_churn : ChurnConfig → Result ChurnError (Unit {0})
validate_churn c = do
  raise_if (not (cycles_in_range c.cycles)) bad_cycles
  raise_if (not (observe_in_range c.observe_seconds)) bad_observe_seconds
  raise_if (not (events_in_range c.max_events)) bad_max_events
  raise_if (not (delay_in_range c.delay_seconds)) bad_delay_seconds

-- A value that is an int; a bool is none here.
abbrev pub integer_of : Value → Result ChurnError ℤ
integer_of (num (int z)) = ok z
integer_of _ = err not_an_integer

unfoldable pub integer_field : Fields → String → ℤ → Result ChurnError ℤ
integer_field fs name default = elim (find name fs) [ none ↦ ok default | some v ↦ integer_of v ]

unfoldable pub seconds_field : Fields → String → Number → Result ChurnError Number
seconds_field fs name default = elim (find name fs) [
  | none ↦ ok default
  | some v ↦ or_raise (number_of v) not_a_number
]

unfoldable pub churn_of : Runtime → Fields → Result ChurnError ChurnConfig
churn_of py fs = do
  cycles ← integer_field fs "cycles" default_churn.cycles
  max_events ← integer_field fs "max_events" default_churn.max_events
  observe_seconds ← seconds_field fs "observe_seconds" default_churn.observe_seconds
  delay_seconds ← seconds_field fs "delay_seconds" default_churn.delay_seconds
  observe_float ← or_raise (py.to_float observe_seconds) float_overflow
  delay_float ← or_raise (py.to_float delay_seconds) float_overflow
  ok (record {
    cycles = cycles;
    observe_seconds = observe_float;
    max_events = max_events;
    delay_seconds = delay_float;
  })

abbrev pub churn_fields : List String
churn_fields = "cycles" ∷ "observe_seconds" ∷ "max_events" ∷ "delay_seconds" ∷ []

unfoldable pub churn_from_value : Runtime → Value → Result ChurnError ChurnConfig
churn_from_value py value = do
  fields ← or_raise (fields_of value) not_an_object
  raise_if (not (all (among churn_fields) (keys fields))) unknown_name
  config ← churn_of py fields
  validate_churn config
  ok config
