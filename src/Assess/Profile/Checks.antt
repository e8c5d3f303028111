-- ===== src/Assess/Profile/Checks.antt =====
-- The checks of a profile: `_window`, `_predicate` and `_check` of src/dragonsniff/assess/profile.py.
use dragon_sniff.Prelude.{
  ℕ, String, Bool, true, false, not, ◌&&◌, ◌||◌, List, [], ◌∷◌, Option, none, some, str_eq,
  if◌then◌else◌, any,
}
use dragon_sniff.Prelude.Int.{pos}
use dragon_sniff.Prelude.Result.{ok, ◌>>=◌, ◌>>◌, raise_if, or_raise}
use dragon_sniff.Assess.Profile.{
  unhashable, empty_window, no_op, bad_operator, low_above_high, bad_kind, invalid_check_id,
  unknown_signal, bad_fraction, not_table, Checked, Signal, Window, Predicate, between, eq, ne, lt,
  le, gt, ge, holds_throughout, time_in_band, Check, check_keys, check_number, seconds_to_ns, is_id,
}
use dragon_sniff.Json.{
  among, Value, Fields, Number, int, bool, num, str, obj, end, find, get, num_le, num_lt, text_of,
  fields_of, is_hashable,
}

abbrev pub zero_value : Value
zero_value = num (int (pos 0))

abbrev pub or_default : Option Value → Value → Value
or_default none d = d
or_default (some v) d = v

-- The end of a window: it exceeds the start, and is rounded up.
unfoldable pub check_end : Number → Option Value → Checked (Option ℕ)
check_end raw_start none = ok none
check_end raw_start (some value) = do
  raw_end ← check_number value
  raise_if (num_le raw_end raw_start) empty_window
  stop ← seconds_to_ns true value
  ok (some stop)

unfoldable pub check_window : Value → Checked Window
check_window table = do
  fields ← check_keys [] ("start_offset_s" ∷ "end_offset_s" ∷ []) table
  raw_start ← check_number (or_default (find "start_offset_s" fields) zero_value)
  start ← seconds_to_ns false (num raw_start)
  stop ← check_end raw_start (find "end_offset_s" fields)
  ok (record { start_offset_ns = start; end_offset_ns = stop })

abbrev pub operators : List String
operators = "eq" ∷ "ne" ∷ "lt" ∷ "le" ∷ "gt" ∷ "ge" ∷ "between" ∷ []

-- A bool or a string is compared as it is; anything else must be a number.
unfoldable pub check_operand : Value → Checked Value
check_operand (bool b) = ok (bool b)
check_operand (str s) = ok (str s)
check_operand value = do n ← check_number value; ok (num n)

unfoldable pub check_comparison : String → Value → Checked Predicate
check_comparison op value =
    if str_eq op "eq" || str_eq op "ne"
    then (do
      expected ← check_operand value
      ok (if str_eq op "eq" then eq expected else ne expected))
    else (do
      n ← check_number value
      ok (
          if str_eq op "lt"
          then lt n
          else (if str_eq op "le" then le n else (if str_eq op "gt" then gt n else ge n))))

-- `low` and `high` of a band or of `between`.
unfoldable pub check_band : Fields → Checked (Number × Number)
check_band fields = do
  low ← check_number (get fields "low")
  high ← check_number (get fields "high")
  raise_if (num_lt high low) low_above_high
  ok (low, high)

unfoldable pub check_operator : String → Value → Checked Predicate
check_operator op table =
    if str_eq op "between"
    then (do
      fields ← check_keys ("op" ∷ "low" ∷ "high" ∷ []) [] table
      (low, high) ← check_band fields
      ok (between low high))
    else (do
      fields ← check_keys ("op" ∷ "value" ∷ []) [] table
      check_comparison op (get fields "value"))

unfoldable pub check_predicate : Value → Checked Predicate
check_predicate table = do
  fields ← or_raise (fields_of table) no_op
  op ← or_raise (find "op" fields) no_op
  raise_if (not (is_hashable op)) unhashable
  name ← or_raise (text_of op) bad_operator
  raise_if (not (among operators name)) bad_operator
  check_operator name table

-- The id, the signal and the window of a check, which both kinds have.
unfoldable pub check_common : List (String × Signal) → Fields → Checked (String × String × Window)
check_common signals fields = do
  id ← or_raise (text_of (get fields "id")) invalid_check_id
  raise_if (not (is_id id)) invalid_check_id
  raise_if (not (is_hashable (get fields "signal"))) unhashable
  signal ← or_raise (text_of (get fields "signal")) unknown_signal
  raise_if (not (any (λ s. str_eq s.0 signal) signals)) unknown_signal
  window ← check_window (or_default (find "window" fields) (obj end))
  ok (id, signal, window)

abbrev pub one : Number
one = int (pos 1)

-- `0.0 < minimum <= 1.0`.
abbrev pub is_fraction : Number → Bool
is_fraction n = num_lt (int (pos 0)) n && num_le n one

unfoldable pub check_fields : String → List (String × Signal) → Value → Checked Check
check_fields kind signals table =
    if str_eq kind "holds_throughout"
    then (do
      fields ← check_keys ("id" ∷ "kind" ∷ "signal" ∷ "predicate" ∷ []) ("window" ∷ []) table
      (id, signal, window) ← check_common signals fields
      predicate ← check_predicate (get fields "predicate")
      ok (record {
        id = id;
        signal = signal;
        window = window;
        criterion = holds_throughout predicate;
      }))
    else (do
      fields ←
          check_keys ("id" ∷ "kind" ∷ "signal" ∷ "band" ∷ "min_fraction" ∷ []) ("window" ∷ []) table
      (id, signal, window) ← check_common signals fields
      band ← check_keys ("low" ∷ "high" ∷ []) [] (get fields "band")
      (low, high) ← check_band band
      minimum ← check_number (get fields "min_fraction")
      raise_if (not (is_fraction minimum)) bad_fraction
      ok (record {
        id = id;
        signal = signal;
        window = window;
        criterion = time_in_band low high minimum;
      }))

unfoldable pub check_check : List (String × Signal) → Value → Checked Check
check_check signals table = do
  fields ← or_raise (fields_of table) not_table
  let kind = get fields "kind"
  raise_if (not (is_hashable kind)) unhashable
  name ← or_raise (text_of kind) bad_kind
  raise_if (not (among ("holds_throughout" ∷ "time_in_band" ∷ []) name)) bad_kind
  check_fields name signals table
