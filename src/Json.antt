-- ===== src/Json.antt =====
-- The values that `json.loads` and `tomllib.loads` return, as the assessment code tests them with
-- `isinstance`, and Python's numbers.
use dragon_sniff.Prelude.{
  ℕ, zero, suc, ◌^◌, String, Bool, true, false, List, [], ◌∷◌, Option, none, some, str_eq,
  if◌then◌else◌, any, eq_iff, arith, ◌≡◌, refl,
}
use dragon_sniff.Prelude.Int.{ℤ, pos, ◌*ℤ◌, leb_ℤ, eqb_ℤ}

-- An `int`, or a `float`. A finite double is a whole number over a power of two: `float m k` is
-- m / 2 ^ k, the pair that `as_integer_ratio` gives.
pub data Number : Type 0 where
  int : ℤ → Number
  float : ℤ → ℕ → Number
  infinity : Number
  minus_infinity : Number
  nan : Number

-- `isinstance(value, int) or math.isfinite(value)`.
unfoldable pub is_finite : Number → Bool
is_finite (int z) = true
is_finite (float m k) = true
is_finite _ = false

-- `as_integer_ratio` of a finite number.
abbrev pub numerator : Number → ℤ
numerator (int z) = z
numerator (float m k) = m
numerator _ = pos 0

abbrev pub denominator : Number → ℕ
denominator (float m k) = 2 ^ k
denominator _ = 1

-- Python compares an `int` with a `float` by their exact values.
abbrev ratio_le : Number → Number → Bool
ratio_le a b = leb_ℤ (numerator a *ℤ pos (denominator b)) (numerator b *ℤ pos (denominator a))

abbrev ratio_eq : Number → Number → Bool
ratio_eq a b = eqb_ℤ (numerator a *ℤ pos (denominator b)) (numerator b *ℤ pos (denominator a))

-- Every order with a NaN is false.
unfoldable pub num_le : Number → Number → Bool
num_le nan b = false
num_le a nan = false
num_le minus_infinity b = true
num_le a infinity = true
num_le infinity b = false
num_le a minus_infinity = false
num_le a b = ratio_le a b

unfoldable pub num_eq : Number → Number → Bool
num_eq nan b = false
num_eq a nan = false
num_eq infinity infinity = true
num_eq minus_infinity minus_infinity = true
num_eq infinity b = false
num_eq minus_infinity b = false
num_eq a infinity = false
num_eq a minus_infinity = false
num_eq a b = ratio_eq a b

-- `a < b`: for numbers that are ordered, `a <= b` and not equal.
unfoldable pub num_lt : Number → Number → Bool
unfolding num_le num_eq
num_lt a b = elim (num_eq a b) [ true ↦ false | false ↦ num_le a b ]

mutual
  -- The entries of a `dict`, in its order.
  pub data Fields : Type 0 where
    end : Fields
    field : String → Value → Fields → Fields

  pub data Value : Type 0 where
    obj : Fields → Value
    arr : Items → Value
    str : String → Value
    bool : Bool → Value
    num : Number → Value
    -- a date or a time, which only TOML has
    moment : Value
    null : Value

  pub data Items : Type 0 where
    cons : Value → Items → Items
    nil : Items

-- `key in table` and `table[key]`.
unfoldable pub find : String → Fields → Option Value
find k end = none
find k (field j v fs) = if str_eq j k then some v else find k fs

-- `table.get(key)`, where a missing key and a null are both `None`.
unfoldable pub get : Fields → String → Value
unfolding find
get fs k = elim (find k fs) [ none ↦ null | some v ↦ v ]

unfoldable pub keys : Fields → List String
keys end = []
keys (field k v fs) = k ∷ keys fs

unfoldable pub item : Items → ℕ → Option Value
item nil i = none
item (cons v vs) zero = some v
item (cons v vs) (suc i) = item vs i

abbrev pub is_null : Value → Bool
is_null null = true
is_null _ = false

abbrev pub text_of : Value → Option String
text_of (str s) = some s
text_of _ = none

abbrev pub fields_of : Value → Option Fields
fields_of (obj fs) = some fs
fields_of _ = none

-- `value is True`.
abbrev pub is_true : Value → Bool
is_true (bool b) = b
is_true _ = false

-- A non-negative `int` that is no `bool`.
abbrev pub natural_of : Value → Option ℕ
natural_of (num (int (pos n))) = some n
natural_of _ = none

-- `isinstance` tests.
abbrev pub number_of : Value → Option Number
number_of (num n) = some n
number_of _ = none

abbrev pub items_of : Value → Option Items
items_of (arr vs) = some vs
items_of _ = none

-- What `in` on a set accepts; it raises `TypeError` for a list or a dict.
abbrev pub is_hashable : Value → Bool
is_hashable (arr vs) = false
is_hashable (obj fs) = false
is_hashable _ = true

unfoldable pub list_of : Items → List Value
list_of nil = []
list_of (cons v vs) = v ∷ list_of vs

unfoldable pub entries : Fields → List (String × Value)
entries end = []
entries (field k v fs) = (k, v) ∷ entries fs

-- A text is in a list of texts.
abbrev pub among : List String → String → Bool
among names s = any (λ n. str_eq n s) names

-- `table[key] = value`: a new key comes last.
unfoldable pub put : String → Value → Fields → Fields
put k v end = field k v end
put k v (field j w fs) =
    let rest = put k v fs in if str_eq j k then field j v fs else field j w rest

-- `{**table, **other}`.
unfoldable pub merge : Fields → Fields → Fields
unfolding put
merge fs end = fs
merge fs (field k v gs) = merge (put k v fs) gs

-- A write is read back under its key and leaves the other keys.
pub find-put :
    (k j : String) (v : Value) (fs : Fields)
    → find j (put k v fs) ≡ (if str_eq k j then some v else find j fs)
unfolding find put
find-put k j v end = refl
find-put k j v (field i w fs) =
    ground (arith, eq_iff i k, eq_iff i j, eq_iff k j, find-put k j v fs)
