-- ===== src/Target/Tests.antt =====
-- A device at an IPv6 address with a port.
use dragon_sniff.Prelude.{[], true, false, some, none, ◌≡◌, refl}
use dragon_sniff.Prelude.Int.{pos}
use dragon_sniff.Prelude.Result.{ok, err}
use dragon_sniff.Json.{float}
use dragon_sniff.Runtime.{Runtime, UrlParts}
use dragon_sniff.Target.{
  DeviceTarget, endpoint, candidate, authority, check_parts, parse_target, blank_target,
}
use dragon_sniff.Target.Origin
use dragon_sniff.Target.Origin.{Splits}

program : Unit {0}
unfolding endpoint candidate authority check_parts parse_target
program = tt

abbrev parts : UrlParts
parts = record {
  scheme = "http";
  hostname = some "::1";
  port = some 8080;
  username = none;
  password = none;
  path = "/";
  query = "";
  fragment = "";
}

abbrev py : Runtime
py = record {
  json_loads = λ line. none;
  json_dumps = λ value. [];
  json_pretty = λ value. [];
  toml_loads = λ text. none;
  sha256 = λ text. "digest";
  is_digit = λ token. false;
  int_of = λ token. none;
  subtract = λ a b. some a;
  divide = λ a b. float (pos a) b;
  ceil_ratio = λ a b. 0;
  times = λ a b. a;
  to_float = λ a. some a;
  strip = λ text. text;
  lower = λ text. text;
  decimal = λ n. "8080";
  is_utf8 = λ text. true;
  uuid = λ text. some text;
  urlsplit = λ text. some parts;
}

abbrev device : DeviceTarget
device = record { base_url = "http://[::1]:8080"; display_address = "[::1]:8080" }

schemeless : candidate "dragon.local" ≡ "http://dragon.local"
unfolding program
schemeless = refl

parsed : parse_target py "http://[::1]:8080/" ≡ ok device
unfolding program
parsed = refl

blank : parse_target py "" ≡ err blank_target
unfolding program
blank = refl

health : endpoint device "/api/v2/health" ≡ ok "http://[::1]:8080/api/v2/health"
unfolding program
health = refl

parse_target-Splits_example : Splits py "http://[::1]:8080/" device
parse_target-Splits_example = Origin.parse_target-Splits py "http://[::1]:8080/" device parsed
