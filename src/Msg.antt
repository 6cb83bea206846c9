-- ===== src/Msg.antt =====
-- msg/service.go: services, callbacks, and the time that a service has left.
-- A `time.Time` is its nanoseconds since the zero Time; a `time.Duration` is a ℤ of nanoseconds.
pub mod Ttl
use skydns.Shared.{
  ℕ, ◌+◌, ◌-◌, ◌*◌, ◌^◌, min, ℤ, pos, negsuc, Text, txt, Bool, false, List, Option, none, [], ltb,
  leb, if◌then◌else◌,
}

pub record Callback : Type 0 where
  pub uuid : Text
  pub name : Text
  pub version : Text
  pub environment : Text
  pub region : Text
  pub host : Text
  pub reply : Text
  pub port : ℕ

-- `callback` is `none` for a nil map.
pub record Service : Type 0 where
  pub uuid : Text
  pub name : Text
  pub version : Text
  pub environment : Text
  pub region : Text
  pub host : Text
  pub port : ℕ
  pub ttl : ℕ
  pub expires : ℕ
  pub callback : Option (List (Text × Callback))
  pub no_expire : Bool

-- Go's zero value of the struct, which an inner node of the registry's tree holds.
abbrev pub zero_service : Service
zero_service = record {
  uuid = [];
  name = [];
  version = [];
  environment = [];
  region = [];
  host = [];
  port = 0;
  ttl = 0;
  expires = 0;
  callback = none;
  no_expire = false;
}

abbrev pub second : ℕ
second = 1_000_000_000

-- `t.Sub(u)`: the difference, saturated to the range of an int64.
unfoldable pub time_sub : ℕ → ℕ → ℤ
time_sub t u = if leb u t then pos (min (t - u) (2 ^ 63 - 1)) else negsuc (min (u - t) (2 ^ 63) - 1)

-- `seconds d` is `uint32(d.Seconds())`: a float is truncated and converted, and Go leaves the
-- result to the implementation where it does not fit.
module _ (seconds : ℤ → ℕ) where
  unfoldable pub remaining_ttl : ℕ → Service → ℕ
  unfolding time_sub
  remaining_ttl now s = let ttl = seconds (time_sub s.expires now) in if ltb ttl 1 then 0 else ttl

  unfoldable pub update_ttl : ℕ → Service → Service
  unfolding remaining_ttl
  update_ttl now s = record s { ttl = remaining_ttl now s }
