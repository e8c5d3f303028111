-- ===== src/Assess/Pointer.antt =====
-- JSON Pointers and the value that a signal reads: `_resolve` and `_extract` of
-- src/dragonsniff/assess/engine.py.
use Prim.Native.Char.{Char, code}
use dragon_sniff.Prelude.{
  ℕ, String, Bool, true, false, not, ◌&&◌, ◌||◌, List, [], ◌∷◌, Option, none, some, ◌==◌,
  if◌then◌else◌,
}
use dragon_sniff.Json.{Value, Items, Number, null, bool, num, str, arr, obj, find, item, is_finite}
use dragon_sniff.Runtime.{Runtime}
use dragon_sniff.Assess.Profile.{Signal}

-- `text.replace("~" + second, by)` for a single character `by`.
unfoldable pub replace_escape : ℕ → Char → String → String
replace_escape second by String.[] = String.[]
replace_escape second by (String.◌∷◌ c String.[]) = String.◌∷◌ c String.[]
replace_escape second by (String.◌∷◌ c (String.◌∷◌ d s)) =
    elim (code c == b'~' && code d == second) [
      | true ↦ String.◌∷◌ by (replace_escape second by s)
      | false ↦ String.◌∷◌ c (replace_escape second by (String.◌∷◌ d s))
    ]

-- `token.replace("~1", "/").replace("~0", "~")`.
unfoldable pub unescape : String → String
unfolding replace_escape
unescape token = replace_escape b'0' "~" (replace_escape b'1' "/" token)

abbrev pub prepend_char : Char → List String → List String
prepend_char c [] = (String.◌∷◌ c String.[]) ∷ []
prepend_char c (t ∷ ts) = (String.◌∷◌ c t) ∷ ts

-- `text.split("/")`.
unfoldable pub split_path : String → List String
split_path String.[] = String.[] ∷ []
split_path (String.◌∷◌ c s) =
    let rest = split_path s in if code c == b'/' then String.[] ∷ rest else prepend_char c rest

-- `pointer[1:]`.
abbrev pub after_first : String → String
after_first String.[] = String.[]
after_first (String.◌∷◌ c s) = s

-- `len(token) > 1 and token[0] == "0"`.
unfoldable pub has_leading_zero : String → Bool
has_leading_zero String.[] = false
has_leading_zero (String.◌∷◌ c String.[]) = false
has_leading_zero (String.◌∷◌ c (String.◌∷◌ d s)) = code c == b'0'

-- The value, `_MISSING`, or the `ValueError` of `int(token)`.
pub data Resolution : Type 0 where
  found : Value → Resolution
  missing : Resolution
  raised : Resolution

abbrev or_missing : Option Value → (Value → Resolution) → Resolution
or_missing none next = missing
or_missing (some v) next = next v

-- The index that a token names, where it names one.
unfoldable pub index_in : Runtime → Items → String → Resolution
unfolding has_leading_zero item
index_in py vs token =
    if not (py.is_digit token) || has_leading_zero token
    then missing
    else (elim (py.int_of token) [ none ↦ raised | some i ↦ or_missing (item vs i) (λ v. found v) ])

-- One step of the loop, at a token that is unescaped.
unfoldable pub step : Runtime → Value → String → Resolution
unfolding index_in find
step py (obj fs) token = or_missing (find token fs) (λ v. found v)
step py (arr vs) token = index_in py vs token
step py _ token = missing

unfoldable pub walk : Runtime → Value → List String → Resolution
unfolding step unescape
walk py current [] = found current
walk py current (token ∷ tokens) = elim (step py current (unescape token)) [
  | found next ↦ walk py next tokens
  | missing ↦ missing
  | raised ↦ raised
]

unfoldable pub resolve : Runtime → Value → String → Resolution
resolve py document pointer = walk py document (split_path (after_first pointer))

-- `_is_number`, as its number.
abbrev pub numeric_of : Value → Option Number
numeric_of (num n) = if is_finite n then some n else none
numeric_of _ = none

unfoldable pub usable : Value → Bool
unfolding is_finite
usable (num n) = is_finite n
usable (bool b) = true
usable (str s) = true
usable _ = false

-- `(valid, value)`.
abbrev pub Reading : Type 0
Reading = Bool × Value

abbrev pub unread : Reading
unread = (false, null)

abbrev pub read_difference : Option Number → Reading
read_difference none = unread
read_difference (some d) = if is_finite d then (true, num d) else unread

-- `value - reference`, where both are numbers.
unfoldable pub difference : Runtime → Value → Value → Reading
unfolding is_finite
difference py value reference = elim (numeric_of value) [
  | none ↦ unread
  | some a ↦ elim (numeric_of reference) [
    | none ↦ unread
    | some b ↦ read_difference (py.subtract a b)
  ]
]

-- `none` is the `ValueError` that leaves `_resolve`.
unfoldable pub extract : Runtime → Value → Signal → Option Reading
extract py document signal = elim (resolve py document signal.pointer) [
  | raised ↦ none
  | missing ↦ some unread
  | found value ↦
      (if usable value
        then (elim signal.reference_pointer [
          | none ↦ some (true, value)
          | some pointer ↦ elim (resolve py document pointer) [
            | raised ↦ none
            | missing ↦ some unread
            | found reference ↦ some (difference py value reference)
          ]
        ])
        else some unread)
]
