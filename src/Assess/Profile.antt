-- ===== src/Assess/Profile.antt =====
-- Assessment profiles against their closed schema: src/dragonsniff/assess/profile.py.
pub mod Signals
pub mod Checks
pub mod Load
use Prim.Native.Char.{code}
use dragon_sniff.Prelude.{
  ℕ, zero, suc, ◌+◌, ◌*◌, ◌/◌, ◌%◌, String, Bool, true, false, not, ◌&&◌, ◌||◌, List, [], ◌∷◌,
  Option, none, some, str_eq, ltb, leb, ◌==◌, if◌then◌else◌, any, all, is_empty, length, is_some,
  map,
}
use dragon_sniff.Prelude.Int.{ℤ, pos, negsuc, pos_part}
use dragon_sniff.Prelude.Result.{Result, ok, err, ◌>>=◌, ◌>>◌, raise_if, or_raise, map_result}
use dragon_sniff.Json.{
  among, Value, Fields, Number, int, bool, num, str, obj, end, find, get, keys, numerator,
  denominator, is_finite, num_le, num_lt, num_eq, number_of, text_of, fields_of, items_of, list_of,
  entries, is_hashable,
}
use dragon_sniff.Runtime.{Runtime, Bytes}

-- The messages of `ProfileError`, without the place that they name; `unhashable` is the `TypeError`
-- that leaves where a set or a dict is asked for a list or a table.
pub data ProfileError : Type 0 where
  not_table unknown_key missing_key not_number not_finite not_string not_pointer : ProfileError
  negative invalid_signal_id bad_source source_id_on_dragon endpoint_on_prusalink : ProfileError
  empty_window no_op bad_operator low_above_high : ProfileError
  bad_kind invalid_check_id unknown_signal bad_fraction : ProfileError
  not_toml bad_format bad_hold no_signals no_checks duplicate_ids unhashable : ProfileError

abbrev pub Checked : Type 0 → Type 0
Checked A = Result ProfileError A

pub data Source : Type 0 where
  dragon prusalink : Source

pub record Signal : Type 0 where
  pub id : String
  pub source : Source
  pub pointer : String
  pub endpoint : Option String
  pub reference_pointer : Option String
  pub source_id : Option String

pub record Window : Type 0 where
  pub start_offset_ns : ℕ
  pub end_offset_ns : Option ℕ

pub data Predicate : Type 0 where
  between : Number → Number → Predicate
  eq ne : Value → Predicate
  lt le gt ge : Number → Predicate

-- The kind of a check with what the kind requires: `predicate`, or `band` and `min_fraction`.
pub data Criterion : Type 0 where
  holds_throughout : Predicate → Criterion
  time_in_band : Number → Number → Number → Criterion

pub record Check : Type 0 where
  pub id : String
  pub signal : String
  pub window : Window
  pub criterion : Criterion

pub record Profile : Type 0 where
  pub name : String
  pub version : String
  pub sha256 : String
  pub byte_length : ℕ
  pub max_hold_ns : ℕ
  pub max_hold_s : Number
  pub signals : List (String × Signal)
  pub checks : List Check

-- `_keys`: no key but those of the schema, and each required one.
unfoldable pub check_keys : List String → List String → Value → Checked Fields
check_keys required optional table = do
  fields ← or_raise (fields_of table) not_table
  raise_if (not (all (λ k. among required k || among optional k) (keys fields))) unknown_key
  raise_if (not (all (λ k. among (keys fields) k) required)) missing_key
  ok fields

unfoldable pub check_number : Value → Checked Number
check_number value = do
  n ← or_raise (number_of value) not_number
  raise_if (not (is_finite n)) not_finite
  ok n

unfoldable pub check_string : Value → Checked String
check_string value = do
  s ← or_raise (text_of value) not_string
  raise_if (str_eq s "") not_string
  ok s

-- `text.startswith("/")`.
abbrev pub starts_with_slash : String → Bool
starts_with_slash String.[] = false
starts_with_slash (String.◌∷◌ c s) = code c == b'/'

unfoldable pub check_pointer : Value → Checked String
check_pointer value = do
  s ← check_string value
  raise_if (not (starts_with_slash s)) not_pointer
  ok s

abbrev pub is_negative : ℤ → Bool
is_negative (pos n) = false
is_negative (negsuc n) = true

-- `_seconds_to_ns`, rounded down or up to a whole nanosecond.
unfoldable pub seconds_to_ns : Bool → Value → Checked ℕ
seconds_to_ns ceiling value = do
  seconds ← check_number value
  raise_if (is_negative (numerator seconds)) negative
  let scaled = pos_part (numerator seconds) * 1_000_000_000
  ok (
      scaled / denominator seconds
      + (if ceiling && not (scaled % denominator seconds == 0) then 1 else 0))

abbrev pub is_lower : ℕ → Bool
is_lower c = leb b'a' c && leb c b'z'

abbrev pub is_id_char : ℕ → Bool
is_id_char c = is_lower c || (leb b'0' c && leb c b'9') || c == b'_'

-- At most `n` characters of `[a-z0-9_]`.
abbrev pub is_id_tail : ℕ → String → Bool
is_id_tail n String.[] = true
is_id_tail zero (String.◌∷◌ c s) = false
is_id_tail (suc n) (String.◌∷◌ c s) = is_id_char (code c) && is_id_tail n s

-- `ID_PATTERN`: `\A[a-z][a-z0-9_]{0,63}\Z`.
unfoldable pub is_id : String → Bool
is_id String.[] = false
is_id (String.◌∷◌ c s) = is_lower (code c) && is_id_tail 63 s
