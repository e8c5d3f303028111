-- ===== src/Target/Origin.antt =====
-- An accepted target is the origin of an address without anything else in it.
use Prim.Native.String.{◌++◌}
use dragon_sniff.Prelude.{String, true, false, ◌||◌, some, str_eq, is_some, ◌≡◌, refl, arith}
use dragon_sniff.Prelude.Result.{Result, ok, ◌>>=◌, raise_if, or_raise, >>=-eq-ok}
use mathlib.Core.Path.{subst}
use dragon_sniff.Runtime.{Runtime, UrlParts}
use dragon_sniff.Target.{
  TargetError, blank_target, invalid_target, DeviceTarget, candidate, authority, lacks_host,
  host_of, check_parts, parse_target,
}

pub record IsOrigin (p : UrlParts) : Type 0 where
  pub web : (str_eq p.scheme "http" || str_eq p.scheme "https") ≡ true
  pub host : lacks_host p.hostname ≡ false
  pub no_user : is_some p.username ≡ false
  pub no_password : is_some p.password ≡ false
  pub bare_path : (str_eq p.path "" || str_eq p.path "/") ≡ true
  pub no_query : str_eq p.query "" ≡ true
  pub no_fragment : str_eq p.fragment "" ≡ true

-- The target that the address splits into.
pub record Splits (py : Runtime) (value : String) (t : DeviceTarget) : Type 0 where
  pub parts : UrlParts
  pub split : py.urlsplit (candidate (py.strip value)) ≡ some parts
  pub origin : IsOrigin parts
  pub address : t.display_address ≡ authority py (host_of parts.hostname) parts.port
  pub base : t.base_url ≡ py.lower parts.scheme ++ "://" ++ t.display_address

check_parts-IsOrigin : (p : UrlParts) (u : Unit {0}) → check_parts p ≡ ok u → IsOrigin p
unfolding check_parts
check_parts-IsOrigin p u h = record {
  web = ground arith;
  host = ground arith;
  no_user = ground arith;
  no_password = ground arith;
  bare_path = ground arith;
  no_query = ground arith;
  no_fragment = ground arith;
}

ok-same : {a b : DeviceTarget} (r : Result TargetError DeviceTarget) → r ≡ ok a → r ≡ ok b → a ≡ b
ok-same r h k = cc

-- An accepted target is what the stripped address splits into: http or https, a host, no credentials,
-- no path but a slash, no query and no fragment; its base URL is the scheme and the address shown.
pub parse_target-Splits :
    (py : Runtime) (value : String) (t : DeviceTarget)
    → parse_target py value ≡ ok t
    → Splits py value t
unfolding parse_target
parse_target-Splits py value t h =
    let (_, _, h₁) =
      >>=-eq-ok (raise_if (str_eq (py.strip value) "") blank_target) (λ _. split >>= λ p. built p)
        h in
    let (p, found, h₂) = >>=-eq-ok split built h₁ in
    let (u, checked, same) = >>=-eq-ok (check_parts p) (λ _. ok (of p)) h₂ in
    subst (Splits py value) (ok-same (ok (of p)) refl same) (record {
      parts = p;
      split = ground (arith, found);
      origin = check_parts-IsOrigin p u checked;
      address = refl;
      base = refl;
    })
  where
    split : Result TargetError UrlParts
    split = or_raise (py.urlsplit (candidate (py.strip value))) invalid_target

    of : UrlParts → DeviceTarget
    of p = record {
      base_url = py.lower p.scheme ++ "://" ++ authority py (host_of p.hostname) p.port;
      display_address = authority py (host_of p.hostname) p.port;
    }

    built : UrlParts → Result TargetError DeviceTarget
    built p = check_parts p >>= λ _. ok (of p)
