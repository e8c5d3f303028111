-- ===== src/Target.antt =====
-- Validation of the addresses of devices: src/dragonsniff/target.py.
pub mod Origin
mod Tests
use Prim.Native.String.{◌++◌}
use text.Mathlib.Text.{starts_with, find?}
use dragon_sniff.Prelude.{
  ℕ, String, Bool, true, false, not, ◌||◌, Option, none, some, str_eq, is_some, if◌then◌else◌,
}
use dragon_sniff.Prelude.Result.{Result, ok, err, ◌>>=◌, ◌>>◌, raise_if, or_raise}
use dragon_sniff.Runtime.{Runtime, UrlParts}

pub data TargetError : Type 0 where
  blank_target invalid_target bad_scheme no_host has_credentials not_an_origin : TargetError
  not_api_path : TargetError

pub record DeviceTarget : Type 0 where
  pub base_url : String
  pub display_address : String

unfoldable pub endpoint : DeviceTarget → String → Result TargetError String
endpoint t path = if starts_with path "/api/v2/" then ok (t.base_url ++ path) else err not_api_path

abbrev pub contains : String → String → Bool
contains part text = is_some (find? text part)

-- A scheme is supplied, or it is http.
unfoldable pub candidate : String → String
candidate supplied = if contains "://" supplied then supplied else "http://" ++ supplied

-- An IPv6 address stands in brackets.
abbrev pub rendered_host : String → String
rendered_host host = if contains ":" host then "[" ++ host ++ "]" else host

unfoldable pub authority : Runtime → String → Option ℕ → String
authority py host none = rendered_host host
authority py host (some port) = rendered_host host ++ ":" ++ py.decimal port

-- `not parsed.hostname`.
abbrev pub lacks_host : Option String → Bool
lacks_host none = true
lacks_host (some host) = str_eq host ""

abbrev pub host_of : Option String → String
host_of none = ""
host_of (some host) = host

unfoldable pub check_parts : UrlParts → Result TargetError (Unit {0})
check_parts p = do
  raise_if (not (str_eq p.scheme "http" || str_eq p.scheme "https")) bad_scheme
  raise_if (lacks_host p.hostname) no_host
  raise_if (is_some p.username || is_some p.password) has_credentials
  raise_if
      (not (str_eq p.path "" || str_eq p.path "/")
        || (not (str_eq p.query "") || not (str_eq p.fragment "")))
      not_an_origin

unfoldable pub parse_target : Runtime → String → Result TargetError DeviceTarget
parse_target py value = do
  raise_if (str_eq (py.strip value) "") blank_target
  parsed ← or_raise (py.urlsplit (candidate (py.strip value))) invalid_target
  check_parts parsed
  ok (record {
    base_url =
        py.lower parsed.scheme ++ "://" ++ authority py (host_of parsed.hostname) parsed.port;
    display_address = authority py (host_of parsed.hostname) parsed.port;
  })
