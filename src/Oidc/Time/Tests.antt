-- ===== src/Oidc/Time/Tests.antt =====
-- A token that expires at 1700000000 seconds.
use oidc_ssh_ca.Prelude.{ℕ, ◌*◌, ◌≡◌, refl, ◌↔◌, [], ◌∷◌, ok, err}
use oidc_ssh_ca.Prelude.Text.{codes, str_eq}
use oidc_ssh_ca.Prelude.Int.{ℤ, pos, ◌+ℤ◌, ◌-ℤ◌, ◌*ℤ◌, to_uint64, wrap_int64}
use oidc_ssh_ca.Json.{Claims, num, lookup}
use oidc_ssh_ca.Oidc.Time.{
  second, int64_of_float, unix, numeric_claim, check_time_claims, expired, not_yet_valid,
}
use oidc_ssh_ca.Oidc.Time.Windows.{NotExpired, NotEarly, check_time_claims_iff}

times : Unit {0}
unfolding check_time_claims numeric_claim int64_of_float unix ◌+ℤ◌ ◌-ℤ◌ ◌*ℤ◌ to_uint64 wrap_int64
    lookup str_eq
times = tt

abbrev open_value : ℕ → ℤ
open_value bits = pos 0

-- `exp` is 1700000000 and `nbf` is 1699999930
abbrev claims : Claims
claims = (codes "exp", num 4744917124793761792) ∷ (codes "nbf", num 4744917124500160512) ∷ []

abbrev at : ℕ → ℤ
at seconds = pos (seconds * second)

in_time :
    (check_time_claims open_value claims (at 1700000060) ≡ ok tt)
    × (check_time_claims open_value claims (at 1700000061) ≡ err expired)
    × (check_time_claims open_value claims (at 1699999870) ≡ ok tt)
    × (check_time_claims open_value claims (at 1699999869) ≡ err not_yet_valid)
unfolding times
in_time = (refl, refl, refl, refl)

check_time_claims_iff_example : (check_time_claims open_value claims (at 1700000060) ≡ ok tt) ↔ (
    NotExpired (numeric_claim open_value claims (codes "exp")) (at 1700000060)
    × (NotEarly (numeric_claim open_value claims (codes "nbf")) (at 1700000060)
        × NotEarly (numeric_claim open_value claims (codes "iat")) (at 1700000060)))
check_time_claims_iff_example = check_time_claims_iff open_value claims (at 1700000060)
