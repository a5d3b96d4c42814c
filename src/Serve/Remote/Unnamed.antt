-- ===== src/Serve/Remote/Unnamed.antt =====
-- A token of an issuer that no rule of the active policy names.
use oidc_ssh_ca.Prelude.{
  ℕ, ◌≡◌, refl, sym, ap, ◌∙◌, ◌≢◌, ◌++◌, Result, ok, err, Member, OnErr, length,
}
use oidc_ssh_ca.Prelude.Text.{Text, Listed}
use oidc_ssh_ca.Prelude.Int.{ℤ}
use oidc_ssh_ca.Policy.{Rule, Policy, issuers}
use oidc_ssh_ca.Policy.Issuers.{Names, issuers_iff}
use oidc_ssh_ca.Oidc.Provider.{Remote, Call, Providers}
use oidc_ssh_ca.Oidc.Verify.{Decoders, Library, VerifyError, not_referenced, unverified_issuer}
use oidc_ssh_ca.Oidc.Verify.Sound.{verify_unlisted}
use oidc_ssh_ca.Issuer.Certificates.{Signer}
use oidc_ssh_ca.Server.{
  Packages, Server, Draws, Response, token_invalid, Denial, bearer_prefix, slice_from, deny,
  denial_response,
}
use oidc_ssh_ca.Server.Sign.{key_attrs, before_verify, after_verify, conclude, sign_checked, sign}
use oidc_ssh_ca.Server.Sign.Events.{Answered, not_200, before_verify-Answered}
use oidc_ssh_ca.Server.Sign.Phases.{before_verify_iff}
use oidc_ssh_ca.Server.Sign.Tokens.{bearer_token_iff, slice_from-prefix}
use oidc_ssh_ca.Serve.Remote.{remote_server, RemoteState}

same_tail : (p s t : Text) → p ++ s ≡ p ++ t → s ≡ t
same_tail p s t h =
    sym (slice_from-prefix p s) ∙ ap (slice_from (length p)) h ∙ slice_from-prefix p t

module _ {PublicKey Signature Provider E : Type 0} (unrepresentable : ℕ → ℤ) (d : Decoders)
    (lib : Library Provider E) (pkg : Packages PublicKey Signature E)
    (signer : Signer PublicKey Signature E) where
  -- the server with a verifier that knows of no issuer, and asks nobody
  abbrev refusing : Text → Server PublicKey Signature (Providers Provider E) (VerifyError E) E
  refusing issuer = record {
    signer = signer;
    verifier = record { verify_token = λ raw allowed m. (m, err (not_referenced issuer)) };
  }

  abbrev Checked : Type 0
  Checked = Result (Denial (VerifyError E) E) (PublicKey × Text)

  checked_alike :
      (remote : Remote Provider E) (call : Call) (now : ℤ) (draws : Draws E)
      (issuer raw_token : Text) (st : RemoteState Provider E) (r : Checked)
      → unverified_issuer d raw_token ≡ ok issuer
      → ¬ (Listed issuer (issuers st.policy))
      → ((key : PublicKey) (raw : Text) → r ≡ ok (key, raw) → raw ≡ raw_token)
      → sign_checked pkg (remote_server unrepresentable d lib signer remote call now) draws st r
        ≡ sign_checked pkg (refusing issuer) draws st r
  unfolding conclude after_verify key_attrs
  checked_alike remote call now draws issuer raw_token st (err why) named absent same = refl
  checked_alike remote call now draws issuer raw_token st (ok (key, raw)) named absent same =
      rw
        (verify_unlisted unrepresentable d lib remote raw issuer (issuers st.policy) call now
          st.verifier_state (ap (unverified_issuer d) (same key raw refl) ∙ named) absent)
        refl

  refused :
      (draws : Draws E) (issuer : Text) (st : RemoteState Provider E) (r : Checked)
      → OnErr Answered r
      → ((sign_checked pkg (refusing issuer) draws st r).0.verifier_state ≡ st.verifier_state)
        × ((sign_checked pkg (refusing issuer) draws st r).1.status ≢ 200)
  unfolding conclude after_verify deny denial_response
  refused draws issuer st (err why) answered =
      (refl, λ h. not_200 why.reason why.status (answered.of_error why refl) h)
  refused draws issuer st (ok (key, raw)) answered = (refl, λ h. not_200 token_invalid 401 refl h)

  same_token :
      (policy : Policy) (method body raw_token : Text) (key : PublicKey) (raw issuer : Text)
      → before_verify pkg (refusing issuer) policy method (bearer_prefix ++ raw_token) body
        ≡ ok (key, raw)
      → raw ≡ raw_token
  same_token policy method body raw_token key raw issuer h =
      let passed =
        (before_verify_iff pkg (refusing issuer) policy method (bearer_prefix ++ raw_token) body key
            raw).0
          h in
      same_tail bearer_prefix raw raw_token
        (sym ((bearer_token_iff (bearer_prefix ++ raw_token) raw).0 passed.4).0)

  -- A request whose token names an issuer that no enabled rule of the active policy names has one
  -- outcome, whatever discovery and go-oidc would answer and whatever the clock of the verifier shows:
  -- it is not issued a certificate, and the provider cache is left as it was.
  pub sign-Unnamed :
      (draws : Draws E) (method raw_token body issuer : Text) (st : RemoteState Provider E)
      → unverified_issuer d raw_token ≡ ok issuer
      → ((r : Rule) → Member r st.policy.rules → ¬ (Names r issuer))
      → (out : RemoteState Provider E × Response) × ((remote : Remote Provider E) (call : Call)
            (now : ℤ)
          → sign pkg
              (remote_server unrepresentable d lib signer remote call now)
              draws
              method
              (bearer_prefix ++ raw_token)
              body
              st
            ≡ out)
        × (out.0.verifier_state ≡ st.verifier_state)
        × (out.1.status ≢ 200)
  unfolding sign before_verify key_attrs
  sign-Unnamed draws method raw_token body issuer st named unnamed =
      let before =
        before_verify pkg (refusing issuer) st.policy method (bearer_prefix ++ raw_token) body in
      let end = refused draws issuer st before (
        before_verify-Answered pkg (refusing issuer) st.policy method (bearer_prefix ++ raw_token)
          body) in
      (
        sign_checked pkg (refusing issuer) draws st before,
        λ remote call now.
            checked_alike remote call now draws issuer raw_token st before named
              (λ l.
                let (r, member, names) = ((issuers_iff st.policy).1 issuer).0 l in
                unnamed r member names)
              (λ key raw h. same_token st.policy method body raw_token key raw issuer h),
        end.0,
        end.1,
      )
