-- ===== src/Assess/Profile/Signals.antt =====
-- The signals of a profile: `_signal` of src/dragonsniff/assess/profile.py.
use dragon_sniff.Prelude.{String, not, [], ◌∷◌, Option, none, some, str_eq, if◌then◌else◌, is_some}
use dragon_sniff.Prelude.Result.{ok, err, ◌>>=◌, ◌>>◌, raise_if, or_raise}
use dragon_sniff.Assess.Profile.{
  unhashable, bad_source, source_id_on_dragon, endpoint_on_prusalink, invalid_signal_id, Checked,
  Source, dragon, prusalink, Signal, check_keys, check_string, check_pointer, is_id,
}
use dragon_sniff.Json.{Value, Fields, find, get, text_of, is_hashable}

-- `source not in SOURCES`.
unfoldable pub check_source : Value → Checked Source
check_source value = do
  raise_if (not (is_hashable value)) unhashable
  name ← or_raise (text_of value) bad_source
  if str_eq name "dragon"
      then ok dragon
      else (if str_eq name "prusalink" then ok prusalink else err bad_source)

-- The endpoint is required of one source, and each source refuses the other's field.
unfoldable pub check_endpoint : Source → Fields → Checked (Option String)
check_endpoint dragon fields = do
  raise_if (is_some (find "source_id" fields)) source_id_on_dragon
  endpoint ← check_pointer (get fields "endpoint")
  ok (some endpoint)
check_endpoint prusalink fields = do
  raise_if (is_some (find "endpoint" fields)) endpoint_on_prusalink
  ok none

-- An optional entry, checked where it is there.
abbrev pub optionally : (Value → Checked String) → Option Value → Checked (Option String)
optionally check none = ok none
optionally check (some v) = do s ← check v; ok (some s)

-- `None if reference is None`.
abbrev pub unless_null : Value → Option Value
unless_null Value.null = none
unless_null v = some v

unfoldable pub check_signal : String × Value → Checked (String × Signal)
check_signal (signal_id, table) = do
  raise_if (not (is_id signal_id)) invalid_signal_id
  fields ←
      check_keys ("source" ∷ "pointer" ∷ []) ("endpoint" ∷ "reference_pointer" ∷ "source_id" ∷ [])
        table
  source ← check_source (get fields "source")
  endpoint ← check_endpoint source fields
  pointer ← check_pointer (get fields "pointer")
  reference ← optionally check_pointer (unless_null (get fields "reference_pointer"))
  source_id ← optionally check_string (find "source_id" fields)
  ok (
    signal_id,
    record {
      id = signal_id;
      source = source;
      pointer = pointer;
      endpoint = endpoint;
      reference_pointer = reference;
      source_id = source_id;
    },
  )
