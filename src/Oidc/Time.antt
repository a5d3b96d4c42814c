-- ===== src/Oidc/Time.antt =====
-- internal/oidc/verifier.go: `checkTimeClaims` and `numericClaim`. An instant is an integer of
-- nanoseconds since the Unix epoch. `time.Unix` wraps around as its int64 of seconds since year 1
-- does; sums with the leeway are exact, and Go's saturate at the ends of the range, beyond every
-- clock reading.
pub mod Windows
mod Tests
use oidc_ssh_ca.Prelude.{
  ℕ, ◌+◌, ◌-◌, ◌*◌, ◌/◌, ◌%◌, ◌^◌, Bool, true, false, ◌&&◌, Option, none, some, ltb, leb, ◌==◌,
  if◌then◌else◌, Result, ok, err, ◌>>◌, ◌>>=◌, refuse,
}
use oidc_ssh_ca.Prelude.Text.{Text, codes}
use oidc_ssh_ca.Prelude.Int.{
  ℤ, pos, negsuc, ◌+ℤ◌, ◌-ℤ◌, ◌*ℤ◌, ltb_ℤ, sub_ℕ, two63, two64, wrap_int64,
}
use oidc_ssh_ca.Json.{Json, num, Claims, lookup}

abbrev pub second : ℕ
second = 1000000000

-- 60 seconds
abbrev pub clock_skew_leeway : ℤ
clock_skew_leeway = pos (60 * second)

-- The integer part of the magnitude of a finite float64, from its bits.
magnitude : ℕ → ℕ
magnitude bits =
    let exponent = bits / 2 ^ 52 % 2048 in
    let mantissa = 2 ^ 52 + bits % 2 ^ 52 in
    if exponent == 0
    then 0
    else if leb 1075 exponent
    then mantissa * 2 ^ (exponent - 1075)
    else mantissa / 2 ^ (1075 - exponent)

-- Go's `int64(v)`: truncation towards zero. The language leaves the value open where the integer
-- does not fit; `unrepresentable` is what the platform gives there.
unfoldable pub int64_of_float : (ℕ → ℤ) → ℕ → ℤ
unfolding magnitude
int64_of_float unrepresentable bits =
    let whole = magnitude bits in
    if leb two63 (bits % two64)
    then (if leb whole two63 then sub_ℕ 0 whole else unrepresentable bits)
    else if ltb whole two63
    then pos whole
    else unrepresentable bits

-- seconds from year 1 to the Unix epoch
abbrev unix_to_internal : ℤ
unix_to_internal = pos 62135596800

-- `time.Unix(sec, 0)`
unfoldable pub unix : ℤ → ℤ
unfolding wrap_int64 ◌+ℤ◌ ◌-ℤ◌ ◌*ℤ◌
unix sec = (wrap_int64 (sec +ℤ unix_to_internal) -ℤ unix_to_internal) *ℤ second

pub data TimeError : Type 0 where
  no_exp expired not_yet_valid issued_in_future : TimeError

module _ (unrepresentable : ℕ → ℤ) where
  -- `claims[name].(float64)`, as an instant
  abbrev pub instant_of : Option Json → Option ℤ
  instant_of (some (num bits)) = some (unix (int64_of_float unrepresentable bits))
  instant_of _ = none

  unfoldable pub numeric_claim : Claims → Text → Option ℤ
  numeric_claim claims name = instant_of (lookup name claims)

  -- `ok && now.Before(t.Add(-ClockSkewLeeway))`
  abbrev pub is_early : Option ℤ → ℤ → Bool
  is_early none now = false
  is_early (some t) now = ltb_ℤ now (t -ℤ clock_skew_leeway)

  abbrev pub check_exp : Option ℤ → ℤ → Result TimeError (Unit {0})
  check_exp none now = err no_exp
  check_exp (some exp) now = refuse (ltb_ℤ (exp +ℤ clock_skew_leeway) now) expired

  unfoldable pub check_time_claims : Claims → ℤ → Result TimeError (Unit {0})
  check_time_claims claims now = do
    check_exp (numeric_claim claims (codes "exp")) now
    refuse (is_early (numeric_claim claims (codes "nbf")) now) not_yet_valid
    refuse (is_early (numeric_claim claims (codes "iat")) now) issued_in_future
