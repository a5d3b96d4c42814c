-- ===== src/Oidc/Verify.antt =====
-- internal/oidc/verifier.go: `Verify` and `unverifiedIssuer`. The decoders of package encoding, and
-- go-oidc's verification of a token against a provider (RS256 only, no audience and no expiry
-- check), are fields of `Decoders` and `Library`.
pub mod Sound
pub mod Tests
use oidc_ssh_ca.Prelude.{
  ℕ, Bool, true, false, ◌&&◌, ◌||◌, Option, none, some, List, [], ◌∷◌, ◌++◌, is_empty, ◌==◌,
  if◌then◌else◌, Result, ok, err, ◌>>=◌, ◌>>◌, check, refuse, map_err,
}
use oidc_ssh_ca.Prelude.Text.{Text, has_str}
use oidc_ssh_ca.Prelude.Int.{ℤ}
use oidc_ssh_ca.Json.{Claims}
use oidc_ssh_ca.Policy.Matching.{Identity}
use oidc_ssh_ca.Oidc.Time.{TimeError, check_time_claims}
use oidc_ssh_ca.Oidc.Provider.{Remote, Call, DiscoveryError, Providers, provider}

pub record Decoders : Type 0 where
  -- base64.RawURLEncoding.DecodeString
  pub decode_base64 : Text → Option Text
  -- json.Unmarshal into a struct with `iss`
  pub decode_issuer : Text → Option Text

pub record Token (E : Type 0) : Type 0 where
  pub issuer : Text
  pub audience : List Text
  -- token.Claims(&claims)
  pub claims : Result E Claims

pub record Library (Provider E : Type 0) : Type 0 where
  -- provider.Verifier(...).Verify(ctx, rawToken)
  pub verify_token : Provider → Text → Result E (Token E)

pub data IssuerError : Type 0 where
  not_a_jwt undecodable_payload no_iss_claim : IssuerError

pub data VerifyError (E : Type 0) : Type 0 where
  bad_issuer : IssuerError → VerifyError E
  not_referenced : Text → VerifyError E
  discovery : Text → DiscoveryError E → VerifyError E
  bad_token : E → VerifyError E
  bad_claims : E → VerifyError E
  bad_time : TimeError → VerifyError E

-- `strings.Split(s, sep)` for a single byte, with the part that is being read
unfoldable pub split_from : ℕ → Text → Text → List Text
split_from sep part [] = part ∷ []
split_from sep part (c ∷ s) =
    let next = part ∷ split_from sep [] s in
    let same = split_from sep (part ++ c ∷ []) s in if c == sep then next else same

abbrev issuer_or_error : Option Text → Result IssuerError Text
issuer_or_error none = err no_iss_claim
issuer_or_error (some issuer) = if is_empty issuer then err no_iss_claim else ok issuer

abbrev decode_payload : Decoders → Option Text → Result IssuerError Text
decode_payload d none = err undecodable_payload
decode_payload d (some payload) = issuer_or_error (d.decode_issuer payload)

abbrev issuer_of_parts : Decoders → List Text → Result IssuerError Text
issuer_of_parts d (header ∷ payload ∷ signature ∷ []) = decode_payload d (d.decode_base64 payload)
issuer_of_parts d _ = err not_a_jwt

unfoldable pub unverified_issuer : Decoders → Text → Result IssuerError Text
unfolding split_from
unverified_issuer d raw = issuer_of_parts d (split_from b'.' [] raw)

module _ {Provider E : Type 0} (unrepresentable : ℕ → ℤ) (d : Decoders)
    (lib : Library Provider E) where
  -- what follows the call of `provider`
  unfoldable pub verify_with : Provider → Text → ℤ → Result (VerifyError E) Identity
  verify_with p raw now = do
    token ← map_err bad_token (lib.verify_token p raw)
    claims ← map_err bad_claims token.claims
    map_err bad_time (check_time_claims unrepresentable claims now)
    ok (record { issuer = token.issuer; audiences = token.audience; claims = claims })

  abbrev pub verify_found :
      Text
      → Text
      → ℤ
      → Providers Provider E × Result (DiscoveryError E) Provider
      → Providers Provider E × Result (VerifyError E) Identity
  verify_found issuer raw now (m, err why) = (m, err (discovery issuer why))
  verify_found issuer raw now (m, ok p) = (m, verify_with p raw now)

  abbrev pub verify_issuer :
      Remote Provider E
      → Result IssuerError Text
      → Text
      → List Text
      → Call
      → ℤ
      → Providers Provider E
      → Providers Provider E × Result (VerifyError E) Identity
  verify_issuer remote (err why) raw allowed call now m = (m, err (bad_issuer why))
  verify_issuer remote (ok issuer) raw allowed call now m =
      if has_str allowed issuer
      then verify_found issuer raw now (provider remote issuer call m)
      else (m, err (not_referenced issuer))

  -- `call` holds the clock readings in `provider`, and `now` the one for the time claims.
  unfoldable pub verify :
      Remote Provider E
      → Text
      → List Text
      → Call
      → ℤ
      → Providers Provider E
      → Providers Provider E × Result (VerifyError E) Identity
  verify remote raw allowed call now m =
      verify_issuer remote (unverified_issuer d raw) raw allowed call now m
