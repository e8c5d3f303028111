-- ===== src/Client/Parsed.antt =====
-- JSON text that the device sent: `_validate_parsed_text`, `_parse_json` and `_parse_decoded_json` of
-- src/dragonsniff/client.py. Texts of the wire are lists of code points; the texts of errors and the
-- paths in them are left out.
pub mod Admitted
use dragon_sniff.Prelude.{
  ℕ, zero, suc, ◌+◌, String, Bool, true, false, List, [], ◌∷◌, Option, none, some, ltb,
}
use dragon_sniff.Json.{
  Value, Fields, Items, obj, arr, str, bool, num, moment, null, field, end, cons, nil,
}
use dragon_sniff.Runtime.{Bytes}

abbrev pub Text : Type 0
Text = List ℕ

-- `json.loads` of a text: a value, JSONDecodeError, RecursionError, or the plain ValueError of an integer
-- with more digits than Python converts.
pub data Loads : Type 0 where
  value : Value → Loads
  decode_error recursion_error value_error : Loads

-- What the client takes from Python: decoding UTF-8, with the error where characters were replaced;
-- `json.loads`; and whether `text.encode("utf-8")` succeeds.
pub record Codec : Type 0 where
  pub decode : Bytes → Text × Option String
  pub loads : Text → Loads
  pub is_utf8 : String → Bool

pub data ParseErrorKind : Type 0 where
  syntax structure_too_deep unsafe_text : ParseErrorKind

abbrev pub max_parsed_json_depth : ℕ
max_parsed_json_depth = 128

-- The stack, its top first, with the depth of each value.
abbrev pub Stack : Type 0
Stack = List (Value × ℕ)

abbrev pub push_items : ℕ → Items → Stack → Stack
push_items depth nil stack = stack
push_items depth (cons v vs) stack = (v, depth) ∷ push_items depth vs stack

abbrev pub push_fields : ℕ → Fields → Stack → Stack
push_fields depth end stack = stack
push_fields depth (field k v fs) stack = (str k, depth) ∷ (v, depth) ∷ push_fields depth fs stack

-- The stack behind a value, or none for a text that cannot be encoded.
abbrev pub expand : (String → Bool) → Value → ℕ → Stack → Option Stack
expand is_utf8 (str s) depth stack = elim (is_utf8 s) [ true ↦ some stack | false ↦ none ]
expand is_utf8 (arr vs) depth stack = some (push_items (depth + 1) vs stack)
expand is_utf8 (obj fs) depth stack = some (push_fields (depth + 1) fs stack)
expand is_utf8 v depth stack = some stack

-- The loop. Each round takes one value, so the number of values is fuel enough.
unfoldable pub validate_rounds : (String → Bool) → ℕ → Stack → Option ParseErrorKind
validate_rounds is_utf8 fuel [] = none
validate_rounds is_utf8 zero (e ∷ stack) = none
validate_rounds is_utf8 (suc fuel) ((v, depth) ∷ stack) = elim (ltb max_parsed_json_depth depth) [
  | true ↦ some structure_too_deep
  | false ↦ elim (expand is_utf8 v depth stack) [
    | none ↦ some unsafe_text
    | some stack' ↦ validate_rounds is_utf8 fuel stack'
  ]
]

unfoldable mutual
  -- The number of values and keys.
  pub size : Value → ℕ
  size (obj fs) = suc (size_fields fs)
  size (arr vs) = suc (size_items vs)
  size v = 1

  pub size_items : Items → ℕ
  size_items nil = 0
  size_items (cons v vs) = size v + size_items vs

  pub size_fields : Fields → ℕ
  size_fields end = 0
  size_fields (field k v fs) = suc (size v + size_fields fs)

unfoldable pub validate_parsed_text : (String → Bool) → Value → Option ParseErrorKind
validate_parsed_text is_utf8 v = validate_rounds is_utf8 (size v) ((v, 0) ∷ [])

-- `parsed` and `parse_error_kind`; a missing value is null, which is None too.
pub record Reading : Type 0 where
  pub parsed : Value
  pub parse_error_kind : Option ParseErrorKind

abbrev pub rejected : ParseErrorKind → Reading
rejected kind = record { parsed = null; parse_error_kind = some kind }

-- None where the plain ValueError, which is not caught, leaves the function.
unfoldable pub parse_json : Codec → Text → Option Reading
parse_json c raw = elim (c.loads raw) [
  | decode_error ↦ some (rejected syntax)
  | recursion_error ↦ some (rejected structure_too_deep)
  | value_error ↦ none
  | value v ↦ elim (validate_parsed_text c.is_utf8 v) [
    | some kind ↦ some (rejected kind)
    | none ↦ some (record { parsed = v; parse_error_kind = none })
  ]
]

unfoldable pub parse_decoded_json : Codec → Text → Option String → Option Reading
parse_decoded_json c raw (some e) = some (record { parsed = null; parse_error_kind = none })
parse_decoded_json c raw none = parse_json c raw
