-- ===== src/Oidc/Verify/Sound.antt =====
-- What a verified identity is.
use oidc_ssh_ca.Prelude.{
  ℕ, ◌≡◌, refl, ◌⊎◌, inl, inr, List, Result, ok, err, >>=-eq-ok, >>-eq-ok, Bool-cases, map_err,
  map_err_ok,
}
use oidc_ssh_ca.Prelude.Text.{Text, codes, has_str, has_str_iff, Listed}
use oidc_ssh_ca.Prelude.Int.{ℤ}
use oidc_ssh_ca.Policy.Matching.{Identity}
use oidc_ssh_ca.Oidc.Time.{check_time_claims, numeric_claim}
use oidc_ssh_ca.Oidc.Time.Windows.{NotExpired, NotEarly, check_time_claims_iff}
use oidc_ssh_ca.Oidc.Provider.{Remote, Call, Providers, provider, DiscoveryError}
use oidc_ssh_ca.Oidc.Provider.Genuine.{IsSound, IsGenuine, provider-IsFor}
use oidc_ssh_ca.Oidc.Verify.{
  Decoders, Token, Library, IssuerError, bad_token, bad_claims, bad_time, not_referenced,
  unverified_issuer, verify_with, verify_found, verify_issuer, verify,
}

-- A token's issuer goes with the one that its provider was discovered for. They are the same, but
-- go-oidc lets Google leave out the scheme.
abbrev pub IssuerFits : Text → Text → Type 0
IssuerFits discovered issuer =
    (issuer ≡ discovered)
    ⊎ ((discovered ≡ codes "https://accounts.google.com") × (issuer ≡ codes "accounts.google.com"))

-- The identity is that of a token which go-oidc verified against a provider of an allowed issuer,
-- and whose time claims hold at `now`.
pub record Verified {Provider E : Type 0} (unrepresentable : ℕ → ℤ) (lib : Library Provider E)
    (IsFor : Text → Provider → Type 0) (raw : Text) (allowed : List Text) (now : ℤ) (id : Identity)
    : Type 0 where
  pub discovered : Text
  pub listed : Listed discovered allowed
  pub signer : Provider
  pub signer_for : IsFor discovered signer
  pub fits : IssuerFits discovered id.issuer
  pub token : Token E
  pub signed : lib.verify_token signer raw ≡ ok token
  pub same_issuer : id.issuer ≡ token.issuer
  pub same_audiences : id.audiences ≡ token.audience
  pub same_claims : token.claims ≡ ok id.claims
  pub not_expired : NotExpired (numeric_claim unrepresentable id.claims (codes "exp")) now
  pub not_early :
      NotEarly (numeric_claim unrepresentable id.claims (codes "nbf")) now
      × NotEarly (numeric_claim unrepresentable id.claims (codes "iat")) now

module _ {Provider E : Type 0} (unrepresentable : ℕ → ℤ) (d : Decoders) (lib : Library Provider E)
    (IsFor : Text → Provider → Type 0) where
  -- go-oidc's Verify refuses a token whose `iss` does not go with the provider's issuer.
  abbrev pub ChecksIssuer : Type 0
  ChecksIssuer =
      (issuer : Text) (p : Provider) (raw : Text) (t : Token E)
      → IsFor issuer p
      → lib.verify_token p raw ≡ ok t
      → IssuerFits issuer t.issuer

  verify_with_sound :
      (issuer : Text) (p : Provider) (raw : Text) (allowed : List Text) (now : ℤ) (id : Identity)
      → ChecksIssuer
      → IsFor issuer p
      → Listed issuer allowed
      → verify_with unrepresentable d lib p raw now ≡ ok id
      → Verified unrepresentable lib IsFor raw allowed now id
  unfolding verify_with
  verify_with_sound issuer p raw allowed now id checks for_p listed h =
      let (t, token, rest) = >>=-eq-ok (map_err bad_token (lib.verify_token p raw)) _ h in
      let (cs, claims, rest') = >>=-eq-ok (map_err bad_claims t.claims) _ rest in
      let (time, same) =
        >>-eq-ok (map_err bad_time (check_time_claims unrepresentable cs now)) _ rest' in
      let signed : lib.verify_token p raw ≡ ok t =
        map_err_ok bad_token (lib.verify_token p raw) token in
      let windows =
        (check_time_claims_iff unrepresentable cs now).0
          (map_err_ok bad_time (check_time_claims unrepresentable cs now) time) in
      let made : record { issuer = t.issuer; audiences = t.audience; claims = cs } ≡ id = cc in
      rw (← made) (record {
        discovered = issuer;
        listed = listed;
        signer = p;
        signer_for = for_p;
        fits = checks issuer p raw t for_p signed;
        token = t;
        signed = signed;
        same_issuer = refl;
        same_audiences = refl;
        same_claims = map_err_ok bad_claims t.claims claims;
        not_expired = windows.0;
        not_early = windows.1;
      })

  verify_found_sound :
      (issuer : Text) (raw : Text) (allowed : List Text) (now : ℤ) (id : Identity)
      (found : Providers Provider E × Result (DiscoveryError E) Provider)
      → ChecksIssuer
      → ((p : Provider) → found.1 ≡ ok p → IsFor issuer p)
      → Listed issuer allowed
      → (verify_found unrepresentable d lib issuer raw now found).1 ≡ ok id
      → Verified unrepresentable lib IsFor raw allowed now id
  verify_found_sound issuer raw allowed now id (m, err why) checks for_p listed h = cc
  verify_found_sound issuer raw allowed now id (m, ok p) checks for_p listed h =
      verify_with_sound issuer p raw allowed now id checks (for_p p refl) listed h

  issuer_sound :
      (remote : Remote Provider E) (o : Result IssuerError Text) (raw : Text) (allowed : List Text)
      (call : Call) (now : ℤ) (m : Providers Provider E) (id : Identity)
      → ChecksIssuer
      → IsSound IsFor remote
      → IsGenuine IsFor m
      → (verify_issuer unrepresentable d lib remote o raw allowed call now m).1 ≡ ok id
      → Verified unrepresentable lib IsFor raw allowed now id
  issuer_sound remote (err why) raw allowed call now m id checks sound g h = cc
  issuer_sound remote (ok issuer) raw allowed call now m id checks sound g h =
      elim (Bool-cases (has_str allowed issuer)) [
        | inr unlisted ↦ absurd (cc (rw unlisted at h))
        | inl listed ↦
            verify_found_sound issuer raw allowed now id (provider remote issuer call m) checks
              (λ p found. provider-IsFor IsFor remote issuer call m p sound g found)
              ((has_str_iff allowed issuer).0 listed) (rw listed at h)
      ]

  -- A token is accepted only if go-oidc verified it against a provider that was discovered for an
  -- issuer among the allowed ones, which the token's issuer goes with, and if its time claims hold:
  -- the identity is the token's issuer, audience and claims. The `iss` that was read before the
  -- signature was checked counts for nothing more. The hypotheses are that go-oidc's Verify refuses
  -- a token of another issuer, that it discovers the issuer that was asked for, and that the cache
  -- was filled by such discoveries.
  pub verify_sound :
      (remote : Remote Provider E) (raw : Text) (allowed : List Text) (call : Call) (now : ℤ)
      (m : Providers Provider E) (id : Identity)
      → ChecksIssuer
      → IsSound IsFor remote
      → IsGenuine IsFor m
      → (verify unrepresentable d lib remote raw allowed call now m).1 ≡ ok id
      → Verified unrepresentable lib IsFor raw allowed now id
  unfolding verify
  verify_sound remote raw allowed call now m id checks sound g h =
      issuer_sound remote (unverified_issuer d raw) raw allowed call now m id checks sound g h

module _ {Provider E : Type 0} (unrepresentable : ℕ → ℤ) (d : Decoders)
    (lib : Library Provider E) where
  -- An issuer that is not allowed is refused before the outside is asked.
  pub verify_unlisted :
      (remote : Remote Provider E) (raw issuer : Text) (allowed : List Text) (call : Call) (now : ℤ)
      (m : Providers Provider E)
      → unverified_issuer d raw ≡ ok issuer
      → ¬ (Listed issuer allowed)
      → verify unrepresentable d lib remote raw allowed call now m
        ≡ (m, err (not_referenced issuer))
  unfolding verify
  verify_unlisted remote raw issuer allowed call now m named unlisted =
      elim (Bool-cases (has_str allowed issuer)) [
        | inl listed ↦ absurd (unlisted ((has_str_iff allowed issuer).0 listed))
        | inr absent ↦ rw (named, absent)
      ]
