-- ===== src/Churn/Bounds.antt =====
-- The bounds on an accepted churn configuration.
use dragon_sniff.Prelude.{Bool, true, not, all, ◌≡◌, refl, arith}
use dragon_sniff.Prelude.Result.{Result, ok, ◌>>=◌, raise_if, or_raise, >>=-eq-ok}
use mathlib.Core.Path.{subst}
use dragon_sniff.Json.{Value, Fields, keys, fields_of, among}
use dragon_sniff.Runtime.{Runtime}
use dragon_sniff.Churn.{
  ChurnConfig, ChurnError, not_an_object, unknown_name, cycles_in_range, observe_in_range,
  events_in_range, delay_in_range, validate_churn, churn_of, churn_fields, churn_from_value,
}

pub record IsBounded (c : ChurnConfig) : Type 0 where
  pub cycles : cycles_in_range c.cycles ≡ true
  pub observe : observe_in_range c.observe_seconds ≡ true
  pub events : events_in_range c.max_events ≡ true
  pub delay : delay_in_range c.delay_seconds ≡ true

guards-eq-ok :
    (a b c d : Bool) (e f g h : ChurnError) {u : Unit {0}}
    → (raise_if (not a) e >>= λ _.
        raise_if (not b) f >>= λ _. raise_if (not c) g >>= λ _. raise_if (not d) h)
      ≡ ok u
    → (a ≡ true) × (b ≡ true) × (c ≡ true) × (d ≡ true)
guards-eq-ok a b c d e f g h eq = ground arith

validate_churn-IsBounded : (c : ChurnConfig) (u : Unit {0}) → validate_churn c ≡ ok u → IsBounded c
unfolding validate_churn
validate_churn-IsBounded c u h =
    let (a, b, d, e) =
      guards-eq-ok (cycles_in_range c.cycles) (observe_in_range c.observe_seconds)
        (events_in_range c.max_events) (delay_in_range c.delay_seconds) _ _ _ _ h in
    record { cycles = a; observe = b; events = d; delay = e }

ok-same : {a b : ChurnConfig} (r : Result ChurnError ChurnConfig) → r ≡ ok a → r ≡ ok b → a ≡ b
ok-same r h k = cc

-- A churn configuration that `from_value` returns has its cycles, observation, events and delay
-- within their ranges.
pub churn_from_value-IsBounded :
    (py : Runtime) (v : Value) (c : ChurnConfig) → churn_from_value py v ≡ ok c → IsBounded c
unfolding churn_from_value
churn_from_value-IsBounded py v c h =
    let (fs, _, h₁) =
      >>=-eq-ok (or_raise (fields_of v) not_an_object) (λ fs. known fs >>= λ _. checked fs) h in
    let (_, _, h₂) = >>=-eq-ok (known fs) (λ _. checked fs) h₁ in
    let (config, _, h₃) = >>=-eq-ok (churn_of py fs) (λ q. validate_churn q >>= λ _. ok q) h₂ in
    let (u, valid, same) = >>=-eq-ok (validate_churn config) (λ _. ok config) h₃ in
    subst IsBounded (ok-same (ok config) refl same) (validate_churn-IsBounded config u valid)
  where
    known : Fields → Result ChurnError (Unit {0})
    known fs = raise_if (not (all (among churn_fields) (keys fs))) unknown_name

    checked : Fields → Result ChurnError ChurnConfig
    checked fs = churn_of py fs >>= λ q. validate_churn q >>= λ _. ok q
