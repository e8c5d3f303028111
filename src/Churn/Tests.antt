-- ===== src/Churn/Tests.antt =====
-- Two cycles with the other settings left at their defaults, and none at all.
use dragon_sniff.Prelude.{[], ℕ, true, false, some, none, ◌≡◌, refl}
use dragon_sniff.Prelude.Int.{pos, ◌*ℤ◌}
use dragon_sniff.Prelude.Result.{ok, err}
use dragon_sniff.Json.{Value, int, float, num, obj, field, end, find, keys, num_le, num_eq}
use dragon_sniff.Runtime.{Runtime}
use dragon_sniff.Churn.{
  ChurnConfig, bad_cycles, tenth, default_churn, churn_config, churn_profiles, churn_profile_name,
  validate_churn, integer_field, seconds_field, churn_of, churn_from_value,
}
use dragon_sniff.Churn.Bounds
use dragon_sniff.Churn.Bounds.{IsBounded}

program : Unit {0}
unfolding ◌*ℤ◌ find keys num_le num_eq churn_profiles churn_profile_name validate_churn
    integer_field seconds_field churn_of churn_from_value
program = tt

abbrev py : Runtime
py = record {
  json_loads = λ line. none;
  json_dumps = λ value. [];
  json_pretty = λ value. [];
  toml_loads = λ text. none;
  sha256 = λ text. "digest";
  is_digit = λ token. false;
  int_of = λ token. none;
  subtract = λ a b. some a;
  divide = λ a b. float (pos a) b;
  ceil_ratio = λ a b. 0;
  times = λ a b. a;
  to_float = λ a. some a;
  strip = λ text. text;
  lower = λ text. text;
  decimal = λ n. "0";
  is_utf8 = λ text. true;
  uuid = λ text. some text;
  urlsplit = λ text. none;
}

abbrev with_cycles : ℕ → Value
with_cycles n = obj (field "cycles" (num (int (pos n))) end)

abbrev two : ChurnConfig
two = record default_churn { cycles = pos 2 }

accepts_two : churn_from_value py (with_cycles 2) ≡ ok two
unfolding program
accepts_two = refl

refuses_none : churn_from_value py (with_cycles 0) ≡ err bad_cycles
unfolding program
refuses_none = refl

stress : churn_profile_name (churn_config 20 (float (pos 20) 1) 10 tenth) ≡ "Stress"
unfolding program
stress = refl

churn_from_value-IsBounded_example : IsBounded two
churn_from_value-IsBounded_example =
    Bounds.churn_from_value-IsBounded py (with_cycles 2) two accepts_two
