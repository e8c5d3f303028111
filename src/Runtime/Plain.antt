-- ===== src/Runtime/Plain.antt =====
-- One runtime of simple functions, for examples.
use dragon_sniff.Prelude.{false, true, [], some, none}
use dragon_sniff.Prelude.Int.{pos}
use dragon_sniff.Json.{float}
use dragon_sniff.Runtime.{Runtime}

abbrev pub plain : Runtime
plain = record {
  json_loads = λ line. none;
  json_dumps = λ value. [];
  json_pretty = λ value. [];
  toml_loads = λ text. none;
  sha256 = λ text. "digest";
  is_digit = λ token. false;
  int_of = λ token. none;
  subtract = λ a b. some a;
  divide = λ a b. float (pos a) b;
  ceil_ratio = λ a b. 0;
  times = λ a b. a;
  to_float = λ a. some a;
  strip = λ text. text;
  lower = λ text. text;
  decimal = λ n. "0";
  is_utf8 = λ text. true;
  uuid = λ text. some text;
  urlsplit = λ text. none;
}
