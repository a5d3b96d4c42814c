-- ===== src/Serve.antt =====
-- cmd/oidc-ssh-ca/serve.go: the life of the server between its start and its end. Requests and
-- SIGHUP signals come in any order; each is one step, since the active policy is read once per
-- request and replaced in one store.
pub mod Remote
mod Tests
use oidc_ssh_ca.Prelude.{◌≡◌, refl, sym, subst, [], ◌∷◌, length, Result, ok, err}
use oidc_ssh_ca.Prelude.Text.{Text, codes}
use oidc_ssh_ca.Prelude.Int.{pos}
use oidc_ssh_ca.Policy.{Policy, issuers}
use oidc_ssh_ca.Policy.Loading.{Sources, LoadError, load, load_iff}
use oidc_ssh_ca.Policy.Validation.Valid.{IsValid}
use oidc_ssh_ca.Audit.{error, info}
use oidc_ssh_ca.Server.{
  number, load_error, flag, Attrs, Packages, Server, State, Draws, Denial, set_policy, deny,
  new_request_id,
}
use oidc_ssh_ca.Server.Sign.{
  before_verify, after_verify, conclude, sign_checked, sign, with_verifier,
}

module _ {S V E : Type 0} where
  abbrev pub reloaded : Result (LoadError E) Policy → State S V E → State S V E
  reloaded (err why) st = record {
    policy = st.policy;
    verifier_state = st.verifier_state;
    log =
        error (codes "policy reload failed; keeping current policy")
          ((codes "error", load_error why) ∷ []) st.log;
  }
  reloaded (ok p) st = record {
    policy = (set_policy p st).policy;
    verifier_state = (set_policy p st).verifier_state;
    log =
        info (codes "policy reloaded")
          ((codes "rules", number (pos (length p.rules)))
            ∷ (codes "disabled", flag p.disabled)
            ∷ [])
          (set_policy p st).log;
  }

  -- one SIGHUP: `from` is what the file holds at that time
  unfoldable pub hang_up : Sources E → Text → State S V E → State S V E
  hang_up from config_path st = reloaded (load from config_path) st

  reloaded-IsValid :
      (config_path : Text) (from : Sources E) (r : Result (LoadError E) Policy) (st : State S V E)
      → load from config_path ≡ r
      → IsValid st.policy
      → IsValid (reloaded r st).policy
  unfolding set_policy
  reloaded-IsValid config_path from (err why) st h v = v
  reloaded-IsValid config_path from (ok p) st h v = ((load_iff from config_path p).0 h).4

  pub hang_up-IsValid :
      (config_path : Text) (from : Sources E) (st : State S V E)
      → IsValid st.policy
      → IsValid (hang_up from config_path st).policy
  unfolding hang_up
  hang_up-IsValid config_path from st v =
      reloaded-IsValid config_path from (load from config_path) st refl v

module _ {PublicKey Signature S V E : Type 0} (pkg : Packages PublicKey Signature E)
    (srv : Server PublicKey Signature S V E) (config_path : Text) where
  -- the states that a server reaches after its start
  pub data Reaches (start : State S V E) : State S V E → Type 0 where
    started : Reaches start start
    request :
        {st : State S V E} (draws : Draws E) (method auth_header body : Text)
        → Reaches start st
        → Reaches start (sign pkg srv draws method auth_header body st).0
    hup :
        {st : State S V E} (from : Sources E)
        → Reaches start st
        → Reaches start (hang_up from config_path st)

  conclude-policy :
      (request_id : Text) (r : Result (Denial V E) (Text × Attrs V E)) (st : State S V E)
      → (conclude pkg srv request_id r st).0.policy ≡ st.policy
  unfolding conclude deny
  conclude-policy request_id (err d) st = refl
  conclude-policy request_id (ok (certificate, attrs)) st = refl

  sign_checked-policy :
      (draws : Draws E) (st : State S V E) (r : Result (Denial V E) (PublicKey × Text))
      → (sign_checked pkg srv draws st r).0.policy ≡ st.policy
  sign_checked-policy draws st (err d) = conclude-policy (new_request_id draws.id_bytes) (err d) st
  sign_checked-policy draws st (ok (pub_key, raw_token)) =
      let called = srv.verifier.verify_token raw_token (issuers st.policy) st.verifier_state in
      conclude-policy (new_request_id draws.id_bytes)
        (after_verify pkg srv st.policy draws pub_key called.1) (with_verifier pkg srv st called.0)

  pub sign-policy :
      (draws : Draws E) (method auth_header body : Text) (st : State S V E)
      → (sign pkg srv draws method auth_header body st).0.policy ≡ st.policy
  unfolding sign
  sign-policy draws method auth_header body st =
      sign_checked-policy draws st (before_verify pkg srv st.policy method auth_header body)

  -- However requests and reloads follow each other, and whatever the policy file holds at each
  -- reload, the active policy is a valid one, if the server started with a policy that was loaded.
  pub reaches-IsValid :
      (start st : State S V E) (from : Sources E)
      → load from config_path ≡ ok start.policy
      → Reaches start st
      → IsValid st.policy
  unfolding hang_up
  reaches-IsValid start st from h started = ((load_iff from config_path start.policy).0 h).4
  reaches-IsValid start st from h (request {st = before} draws method auth_header body r) =
      subst IsValid (sym (sign-policy draws method auth_header body before))
        (reaches-IsValid start before from h r)
  reaches-IsValid start st from h (hup {st = before} later r) =
      hang_up-IsValid config_path later before (reaches-IsValid start before from h r)
