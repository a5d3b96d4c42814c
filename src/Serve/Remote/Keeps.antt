-- ===== src/Serve/Remote/Keeps.antt =====
-- What one request and one verification keep of a state.
use oidc_ssh_ca.Prelude.{
  Member, Member-append, ℕ, ◌≡◌, refl, sym, subst, List, [], ◌∷◌, All, All-append_right, Result, ok,
  err, Bool-cases, inl, inr,
}
use oidc_ssh_ca.Prelude.Text.{codes, str_eq, Text, has_str}
use oidc_ssh_ca.Prelude.Int.{ℤ}
use oidc_ssh_ca.Policy.{Rule, Policy, issuers}
use oidc_ssh_ca.Policy.Validation.Valid.{IsValid, IsValidRule}
use oidc_ssh_ca.Policy.Matching.{Identity}
use oidc_ssh_ca.Policy.Matching.Decisions.{Only}
use oidc_ssh_ca.Oidc.Provider.{DiscoveryError, Remote, Call, Providers, provider}
use oidc_ssh_ca.Oidc.Provider.Cache.{registers, runs, step, run_events}
use oidc_ssh_ca.Oidc.Provider.Genuine.{IsSound, IsGenuine, run_events-IsGenuine}
use oidc_ssh_ca.Oidc.Verify.{
  Decoders, Library, IssuerError, unverified_issuer, verify_found, verify_issuer, verify,
}
use oidc_ssh_ca.Server.{Packages, Server, State, Draws, Attrs, Denial, deny, new_request_id}
use oidc_ssh_ca.Server.Sign.{
  before_verify, after_verify, conclude, sign_checked, sign, with_verifier,
}
use oidc_ssh_ca.Server.Http.{Reply, handle_sign, handler}

pub rule-IsValidRule :
    (p : Policy) (id : Identity) (r : Rule) → IsValid p → Only id p.rules r → IsValidRule p r
rule-IsValidRule p id r v only =
    (All-append_right (IsValidRule p) only.before (r ∷ only.after)
      (subst (All (IsValidRule p)) only.place v.rules)).0

pub rule-Member : (id : Identity) (rules : List Rule) (r : Rule) → Only id rules r → Member r rules
rule-Member id rules r only =
    subst (Member r) (sym only.place)
      ((Member-append r only.before (r ∷ only.after)).1 (inr (inl refl)))

-- What every call of the verifier keeps, a request keeps.
module _ {PublicKey Signature S V E : Type 0} (pkg : Packages PublicKey Signature E)
    (srv : Server PublicKey Signature S V E) (Good : S → Type 0)
    (keeps : (raw : Text) (allowed : List Text) (s : S)
      → Good s
      → Good (srv.verifier.verify_token raw allowed s).0) where
  conclude-keeps :
      (request_id : Text) (r : Result (Denial V E) (Text × Attrs V E)) (st : State S V E)
      → Good st.verifier_state
      → Good (conclude pkg srv request_id r st).0.verifier_state
  unfolding conclude deny
  conclude-keeps request_id (err d) st g = g
  conclude-keeps request_id (ok (certificate, attrs)) st g = g

  sign_checked-keeps :
      (draws : Draws E) (st : State S V E) (r : Result (Denial V E) (PublicKey × Text))
      → Good st.verifier_state
      → Good (sign_checked pkg srv draws st r).0.verifier_state
  sign_checked-keeps draws st (err d) g =
      conclude-keeps (new_request_id draws.id_bytes) (err d) st g
  sign_checked-keeps draws st (ok (pub_key, raw_token)) g =
      let called = srv.verifier.verify_token raw_token (issuers st.policy) st.verifier_state in
      conclude-keeps (new_request_id draws.id_bytes)
        (after_verify pkg srv st.policy draws pub_key called.1) (with_verifier pkg srv st called.0)
        (keeps raw_token (issuers st.policy) st.verifier_state g)

  pub sign-keeps :
      (draws : Draws E) (method auth_header body : Text) (st : State S V E)
      → Good st.verifier_state
      → Good (sign pkg srv draws method auth_header body st).0.verifier_state
  unfolding sign
  sign-keeps draws method auth_header body st g =
      sign_checked-keeps draws st (before_verify pkg srv st.policy method auth_header body) g

-- What `sign` keeps, a request on any path keeps.
pub handler-keeps :
    {PublicKey Signature S V E : Type 0} (pkg : Packages PublicKey Signature E)
    (srv : Server PublicKey Signature S V E) (Good : State S V E → Type 0) (elsewhere : Reply)
    (draws : Draws E) (method path auth_header readable : Text) (st : State S V E)
    → ((body : Text) → Good (sign pkg srv draws method auth_header body st).0)
    → Good st
    → Good (handler pkg srv elsewhere draws method path auth_header readable st).0
unfolding handler handle_sign
handler-keeps pkg srv Good elsewhere draws method path auth_header readable st signs g =
    elim (Bool-cases (str_eq path (codes "/sign"))) [
      | inl here ↦ rw here (signs _)
      | inr other ↦ rw other (elim (Bool-cases (str_eq path (codes "/ca-public-key"))) [
        | inl key ↦ rw key g
        | inr nowhere ↦ rw nowhere g
      ])
    ]

module _ {Provider E : Type 0} (unrepresentable : ℕ → ℤ) (d : Decoders) (lib : Library Provider E)
    (IsFor : Text → Provider → Type 0) where
  provider-IsGenuine :
      (remote : Remote Provider E) (issuer : Text) (call : Call) (m : Providers Provider E)
      → IsSound IsFor remote
      → IsGenuine IsFor m
      → IsGenuine IsFor (provider remote issuer call m).0
  unfolding provider run_events step
  provider-IsGenuine remote issuer call m sound g =
      run_events-IsGenuine IsFor (registers issuer ∷ runs remote issuer call ∷ []) m
        (tt, (sound, tt)) g

  found-cache :
      (issuer raw : Text) (now : ℤ)
      (found : Providers Provider E × Result (DiscoveryError E) Provider)
      → (verify_found unrepresentable d lib issuer raw now found).0 ≡ found.0
  found-cache issuer raw now (m, err why) = refl
  found-cache issuer raw now (m, ok p) = refl

  issuer-IsGenuine :
      (remote : Remote Provider E) (o : Result IssuerError Text) (raw : Text) (allowed : List Text)
      (call : Call) (now : ℤ) (m : Providers Provider E)
      → IsSound IsFor remote
      → IsGenuine IsFor m
      → IsGenuine IsFor (verify_issuer unrepresentable d lib remote o raw allowed call now m).0
  issuer-IsGenuine remote (err why) raw allowed call now m sound g = g
  issuer-IsGenuine remote (ok issuer) raw allowed call now m sound g =
      elim (Bool-cases (has_str allowed issuer)) [
        | inl listed ↦ rw listed (
            subst (IsGenuine IsFor)
              (sym (found-cache issuer raw now (provider remote issuer call m)))
              (provider-IsGenuine remote issuer call m sound g))
        | inr unlisted ↦ rw unlisted g
      ]

  -- A verification leaves a cache of genuine providers.
  pub verify-IsGenuine :
      (remote : Remote Provider E) (raw : Text) (allowed : List Text) (call : Call) (now : ℤ)
      (m : Providers Provider E)
      → IsSound IsFor remote
      → IsGenuine IsFor m
      → IsGenuine IsFor (verify unrepresentable d lib remote raw allowed call now m).0
  unfolding verify
  verify-IsGenuine remote raw allowed call now m sound g =
      issuer-IsGenuine remote (unverified_issuer d raw) raw allowed call now m sound g
