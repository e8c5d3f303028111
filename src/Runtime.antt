-- ===== src/Runtime.antt =====
-- What the program takes from Python's standard library, as a record of functions. None of it is
-- defined here; a theorem that relies on a law of one of them names the law as a hypothesis.
pub mod Plain
use dragon_sniff.Prelude.{ℕ, String, Bool, List, Option}
use dragon_sniff.Json.{Number, Value}

abbrev pub Bytes : Type 0
Bytes = List ℕ

-- The parts of `urllib.parse.urlsplit`, its `port` included.
pub record UrlParts : Type 0 where
  pub scheme : String
  pub hostname : Option String
  pub port : Option ℕ
  pub username : Option String
  pub password : Option String
  pub path : String
  pub query : String
  pub fragment : String

pub record Runtime : Type 0 where
  -- `json.loads(line.decode("utf-8"))`; `none` for `UnicodeDecodeError` and `ValueError`.
  pub json_loads : Bytes → Option Value
  -- `json.dumps(value, ensure_ascii=False, separators=(",", ":")).encode("utf-8")`, and the same with
  -- `indent=2` in place of the separators.
  pub json_dumps : Value → Bytes
  pub json_pretty : Value → Bytes
  -- `tomllib.loads(data.decode("utf-8"))`; `none` for its two exceptions.
  pub toml_loads : Bytes → Option Value
  -- `hashlib.sha256(data).hexdigest()`.
  pub sha256 : Bytes → String
  -- `token.isdigit()`, and `int(token)` with `none` for `ValueError`.
  pub is_digit : String → Bool
  pub int_of : String → Option ℕ
  -- `a - b` on numbers; `none` for `OverflowError`.
  pub subtract : Number → Number → Option Number
  -- `a / b` on two non-negative ints.
  pub divide : ℕ → ℕ → Number
  -- `ceil(a / b)` on two numbers, `a * b`, and `float(a)` with `none` for `OverflowError`.
  pub ceil_ratio : Number → Number → ℕ
  pub times : Number → Number → Number
  pub to_float : Number → Option Number
  -- `text.strip()`, `text.lower()`, `str(n)`, and whether `text.encode("utf-8")` succeeds.
  pub strip : String → String
  pub lower : String → String
  pub decimal : ℕ → String
  pub is_utf8 : String → Bool
  -- `str(UUID(text))`; `none` for `ValueError`.
  pub uuid : String → Option String
  -- `urlsplit(text)` and its `port`; `none` for `ValueError`.
  pub urlsplit : String → Option UrlParts
