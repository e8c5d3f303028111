-- ===== src/Assess/Profile/Load.antt =====
-- `load_profile` of src/dragonsniff/assess/profile.py.
use dragon_sniff.Prelude.{
  String, Bool, false, not, ◌&&◌, ◌||◌, List, [], ◌∷◌, is_empty, length, map,
}
use dragon_sniff.Prelude.Int.{pos}
use dragon_sniff.Prelude.Result.{ok, ◌>>=◌, ◌>>◌, raise_if, or_raise, map_result}
use dragon_sniff.Assess.Profile.{
  not_toml, bad_format, bad_hold, no_signals, no_checks, duplicate_ids, Checked, Check, Profile,
  check_keys, check_number, check_string, seconds_to_ns,
}
use dragon_sniff.Json.{
  among, Value, Number, int, num, obj, end, find, get, num_le, num_eq, fields_of, items_of, list_of,
  entries,
}
use dragon_sniff.Runtime.{Runtime, Bytes}
use dragon_sniff.Assess.Profile.Signals.{check_signal}
use dragon_sniff.Assess.Profile.Checks.{check_check, or_default, zero_value, one}

-- `len(set(ids)) != len(ids)`.
abbrev pub has_duplicate : List String → Bool
has_duplicate [] = false
has_duplicate (x ∷ xs) = among xs x || has_duplicate xs

-- `fields["profile_format"] != 1`, where a bool is refused.
abbrev pub is_format_one : Value → Bool
is_format_one (num n) = num_eq n one
is_format_one _ = false

abbrev pub max_hold : Number
max_hold = int (pos 3600)

unfoldable pub load_profile : Runtime → Bytes → Checked Profile
load_profile py source_bytes = do
  document ← or_raise (py.toml_loads source_bytes) not_toml
  fields ←
      check_keys ("profile_format" ∷ "name" ∷ "version" ∷ "signals" ∷ "check" ∷ [])
        ("assumptions" ∷ []) document
  raise_if (not (is_format_one (get fields "profile_format"))) bad_format
  assumptions ← check_keys [] ("max_hold_s" ∷ []) (or_default (find "assumptions" fields) (obj end))
  max_hold_s ← check_number (or_default (find "max_hold_s" assumptions) zero_value)
  raise_if (not (num_le (int (pos 0)) max_hold_s && num_le max_hold_s max_hold)) bad_hold
  tables ← or_raise (fields_of (get fields "signals")) no_signals
  raise_if (is_empty (entries tables)) no_signals
  signals ← map_result check_signal (entries tables)
  raw_checks ← or_raise (items_of (get fields "check")) no_checks
  raise_if (is_empty (list_of raw_checks)) no_checks
  checks ← map_result (check_check signals) (list_of raw_checks)
  raise_if (has_duplicate (map (λ (c : Check). c.id) checks)) duplicate_ids
  name ← check_string (get fields "name")
  version ← check_string (get fields "version")
  max_hold_ns ← seconds_to_ns false (num max_hold_s)
  ok (record {
    name = name;
    version = version;
    sha256 = py.sha256 source_bytes;
    byte_length = length source_bytes;
    max_hold_ns = max_hold_ns;
    max_hold_s = max_hold_s;
    signals = signals;
    checks = checks;
  })
