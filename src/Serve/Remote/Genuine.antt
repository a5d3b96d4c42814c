-- ===== src/Serve/Remote/Genuine.antt =====
-- Certificates are issued only for verified tokens, in every state that the server reaches.
use oidc_ssh_ca.Prelude.{ℕ, ◌≡◌, sym, subst, [], ◌∷◌, ok, Result-cases, inl, inr}
use oidc_ssh_ca.Prelude.Text.{Listed, Text}
use oidc_ssh_ca.Prelude.Int.{ℤ}
use oidc_ssh_ca.Policy.Issuers.{Grants-Listed}
use oidc_ssh_ca.Policy.{issuers}
use oidc_ssh_ca.Policy.Loading.{Sources, load, load_iff}
use oidc_ssh_ca.Policy.Validation.Valid.{IsValid, IsValidRule}
use oidc_ssh_ca.Json.{lookup}
use oidc_ssh_ca.Oidc.Provider.{Remote, Call, Providers}
use oidc_ssh_ca.Oidc.Provider.Cache.{Event, registers, runs, step, run_events}
use oidc_ssh_ca.Oidc.Provider.Genuine.{IsSound, IsSoundEvent, IsGenuine, run_events-IsGenuine}
use oidc_ssh_ca.Oidc.Verify.{Decoders, Library}
use oidc_ssh_ca.Oidc.Verify.Sound.{Verified, ChecksIssuer, verify_sound}
use oidc_ssh_ca.Issuer.Certificates.{Signer}
use oidc_ssh_ca.Server.{Packages, Draws, set_policy}
use oidc_ssh_ca.Server.Sign.{sign}
use oidc_ssh_ca.Server.Sign.Issuance.{Issuance, issued_response, sign-issued_iff}
use oidc_ssh_ca.Server.Http.{Reply, handler}
use oidc_ssh_ca.Serve.{hang_up, hang_up-IsValid, sign-policy}
use oidc_ssh_ca.Serve.Remote.{
  with_policy, remote_server, InWorld, RemoteState, Serves, launched, requested, reloads, beside,
  writes,
}
use oidc_ssh_ca.Serve.Remote.Keeps.{
  rule-Member, rule-IsValidRule, sign-keeps, handler-keeps, verify-IsGenuine,
}

module _ {PublicKey Signature Provider E : Type 0} (unrepresentable : ℕ → ℤ) (d : Decoders)
    (lib : Library Provider E) (pkg : Packages PublicKey Signature E)
    (signer : Signer PublicKey Signature E) (config_path : Text)
    (World : Remote Provider E → Type 0) where
  module _ (IsFor : Text → Provider → Type 0) (checks : ChecksIssuer unrepresentable d lib IsFor)
      (discovers : (remote : Remote Provider E) → World remote → IsSound IsFor remote) where
    none_cached : IsGenuine {E = E} IsFor []
    unfolding lookup
    none_cached issuer e p there has = cc

    event-IsSoundEvent : (ev : Event Provider E) → InWorld World ev → IsSoundEvent IsFor ev
    event-IsSoundEvent (registers issuer) w = tt
    event-IsSoundEvent (runs remote issuer call) w = discovers remote w

    abbrev IsGood : RemoteState Provider E → Type 0
    IsGood st = IsValid st.policy × IsGenuine IsFor st.verifier_state

    hang_up-keeps :
        (from : Sources E) (st : RemoteState Provider E)
        → IsGenuine IsFor st.verifier_state
        → IsGenuine IsFor (hang_up from config_path st).verifier_state
    unfolding hang_up set_policy
    hang_up-keeps from st g = elim (Result-cases (load from config_path)) [
      | inl (p, good) ↦ rw good g
      | inr (why, bad) ↦ rw bad g
    ]

    step-keeps :
        (ev : Event Provider E) (m : Providers Provider E)
        → InWorld World ev
        → IsGenuine IsFor m
        → IsGenuine IsFor (step ev m)
    unfolding run_events
    step-keeps ev m w g = run_events-IsGenuine IsFor (ev ∷ []) m (event-IsSoundEvent ev w, tt) g

    request-IsGood :
        (remote : Remote Provider E) (call : Call) (now : ℤ) (draws : Draws E) (elsewhere : Reply)
        (method path auth_header readable : Text) (st : RemoteState Provider E)
        → World remote
        → IsGood st
        → IsGood
            (handler pkg
              (remote_server unrepresentable d lib signer remote call now)
              elsewhere
              draws
              method
              path
              auth_header
              readable
              st).0
    request-IsGood remote call now draws elsewhere method path auth_header readable st w
          (valid, genuine) =
        let srv = remote_server unrepresentable d lib signer remote call now in
        handler-keeps pkg srv IsGood elsewhere draws method path auth_header readable st
          (λ body. (
            subst IsValid (sym (sign-policy pkg srv config_path draws method auth_header body st))
                valid,
            sign-keeps pkg srv (IsGenuine IsFor)
                (λ raw allowed m.
                  verify-IsGenuine unrepresentable d lib IsFor remote raw allowed call now m
                    (discovers remote w))
                draws method auth_header body st genuine,
          ))
          (valid, genuine)

    Serves-IsGood :
        (start st : RemoteState Provider E)
        → IsGood start
        → Serves unrepresentable d lib pkg signer config_path World start st
        → IsGood st
    Serves-IsGood start st g launched = g
    Serves-IsGood start st g
          (requested {read} {st = before} remote call now draws elsewhere method path auth_header
            readable w rd r) =
        let (valid, _) = Serves-IsGood start read g rd in
        let (now_valid, genuine) = Serves-IsGood start before g r in
        (
          now_valid,
          (request-IsGood remote call now draws elsewhere method path auth_header readable
              (with_policy read.policy before) w (valid, genuine)).1,
        )
    Serves-IsGood start st g (reloads {st = before} from r) =
        let (valid, genuine) = Serves-IsGood start before g r in
        (hang_up-IsValid config_path from before valid, hang_up-keeps from before genuine)
    Serves-IsGood start st g (beside {st = before} ev w r) =
        let (valid, genuine) = Serves-IsGood start before g r in
        (valid, step-keeps ev before.verifier_state w genuine)
    Serves-IsGood start st g (writes {st = before} event r) = Serves-IsGood start before g r

    -- Of a server that started with a loaded policy and an empty cache: whatever requests, reloads
    -- and other calls came before, a certificate is issued only for a token that go-oidc verified
    -- against a provider discovered for an issuer of the enabled rules of the policy that the request
    -- read, with an issuer of those rules and time claims that hold, under a valid rule that alone
    -- matches it.
    pub Serves-Verified :
        (from : Sources E) (start read st : RemoteState Provider E)
        → load from config_path ≡ ok start.policy
        → start.verifier_state ≡ []
        → Serves unrepresentable d lib pkg signer config_path World start read
        → Serves unrepresentable d lib pkg signer config_path World start st
        → (remote : Remote Provider E) (call : Call) (now : ℤ) (draws : Draws E)
          (method auth_header body out : Text)
        → World remote
        → (sign pkg
            (remote_server unrepresentable d lib signer remote call now)
            draws
            method
            auth_header
            body
            (with_policy read.policy st)).1
          ≡ issued_response pkg
              (remote_server unrepresentable d lib signer remote call now)
              draws
              out
        → (i : Issuance pkg
            (remote_server unrepresentable d lib signer remote call now)
            draws
            method
            auth_header
            body
            (with_policy read.policy st)
            out)
          × Verified unrepresentable lib IsFor i.raw_token (issuers read.policy) now i.id
          × Listed i.id.issuer (issuers read.policy)
          × IsValidRule read.policy i.rule
    Serves-Verified from start read st loaded fresh reached_read reached remote call now draws
          method auth_header body out w h =
        let srv = remote_server unrepresentable d lib signer remote call now in
        let i =
          (sign-issued_iff pkg srv draws method auth_header body (with_policy read.policy st) out).0
            h in
        let first : IsGood start = (
          ((load_iff from config_path start.policy).0 loaded).4,
          subst (IsGenuine IsFor) (sym fresh) none_cached,
        ) in
        let rule_ok =
          rule-IsValidRule read.policy i.id i.rule (Serves-IsGood start read first reached_read).0
            i.matched in
        (
          i,
          verify_sound unrepresentable d lib IsFor remote i.raw_token (issuers read.policy) call now
              st.verifier_state i.id checks (discovers remote w)
              (Serves-IsGood start st first reached).1 i.verified,
          Grants-Listed read.policy i.id i.rule rule_ok
              (rule-Member i.id read.policy.rules i.rule i.matched) i.matched.grants,
          rule_ok,
        )
