-- ===== src/Server/Sign/Lifetime.antt =====
-- How long a certificate is valid under a policy that `validate` accepted.
use oidc_ssh_ca.Prelude.{ℕ, ◌+◌, ◌*◌, ◌/◌, ◌≤◌, ◌<◌, ◌≡◌, arith}
use oidc_ssh_ca.Prelude.Text.{Text}
use oidc_ssh_ca.Prelude.Int.{
  ℤ, pos, negsuc, ◌+ℤ◌, ◌*ℤ◌, ◌≤ℤ◌, ◌<ℤ◌, to_uint64, wrap_int64_of_IsInt64, two63,
}
use oidc_ssh_ca.Policy.{Rule, Policy, max_valid_for_seconds, valid_for_seconds_for}
use oidc_ssh_ca.Policy.Validation.Valid.{IsValidRule}
use oidc_ssh_ca.Oidc.Time.{second}
use oidc_ssh_ca.Issuer.Certificates.{unix_seconds, certificate_of}
use oidc_ssh_ca.Server.Sign.{seconds, certificate_request}

-- the longest duration in seconds that time.Duration holds
abbrev pub max_duration_seconds : ℕ
max_duration_seconds = 9223372036

sum_of_pos : (a b : ℕ) → pos a +ℤ pos b ≡ pos (a + b)
unfolding ◌+ℤ◌
sum_of_pos a b = ground arith

product_of_pos : (a k : ℕ) → pos a *ℤ k ≡ pos (a * k)
unfolding ◌*ℤ◌
product_of_pos a k = ground arith

-- no overflow up to `max_duration_seconds`
seconds_of_pos : (ttl : ℕ) → ttl ≤ max_duration_seconds → seconds (pos ttl) ≡ pos (ttl * second)
unfolding seconds
seconds_of_pos ttl h =
    rw (product_of_pos ttl second)
      (wrap_int64_of_IsInt64 (pos (ttl * second)) (omega arith, omega arith))

whole_seconds : (now ttl : ℕ) → (now + ttl * second) / second ≡ now / second + ttl
whole_seconds now ttl = omega arith

expiry :
    (now ttl : ℕ)
    → ttl ≤ max_duration_seconds
    → now < two63
    → to_uint64 (unix_seconds (pos now +ℤ seconds (pos ttl))) ≡ now / second + ttl
unfolding to_uint64 unix_seconds
expiry now ttl h k =
    rw (seconds_of_pos ttl h, sum_of_pos now (ttl * second), whole_seconds now ttl) (omega arith)

expires_of :
    (ttl max : ℤ) (now : ℕ)
    → ((pos 0 <ℤ ttl) × (ttl ≤ℤ max))
    → max ≤ℤ pos max_duration_seconds
    → now < two63
    → (n : ℕ) × (pos n ≤ℤ max)
      × (0 < n)
      × (to_uint64 (unix_seconds (pos now +ℤ seconds ttl)) ≡ now / second + n)
expires_of (pos n) max now within ceiling clock =
    (n, within.1, omega arith, expiry now n (omega arith) clock)
expires_of (negsuc n) max now within ceiling clock = absurd (omega arith)

-- Under a policy whose ceiling is within time.Duration, a certificate for a valid rule expires a
-- positive number of seconds after the request, and at most the ceiling.
pub certificate-expires :
    {PublicKey : Type 0} (pol : Policy) (rule : Rule) (key : PublicKey) (key_id : Text)
    (now serial : ℕ)
    → IsValidRule pol rule
    → max_valid_for_seconds pol ≤ℤ pos max_duration_seconds
    → now < two63
    → (ttl : ℕ) × (pos ttl ≤ℤ max_valid_for_seconds pol)
      × (0 < ttl)
      × ((certificate_of (certificate_request pol rule key key_id (pos now)) serial).valid_before
          ≡ now / second + ttl)
unfolding certificate_of certificate_request
certificate-expires pol rule key key_id now serial valid ceiling clock =
    expires_of (valid_for_seconds_for pol rule) (max_valid_for_seconds pol) now valid.ttl ceiling
      clock
