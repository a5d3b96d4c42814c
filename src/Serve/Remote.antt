-- ===== src/Serve/Remote.antt =====
-- The whole server, with the RemoteVerifier of internal/oidc as its verifier: `server.New` in
-- cmdServe. Each request sees the outside world of its own time, and the policy of a moment before its
-- verifier runs. Between two steps other calls may run critical sections of the provider cache, and
-- write their events: a request may overlap others as the sequence of these.
pub mod Keeps
pub mod Genuine
pub mod Unnamed
use oidc_ssh_ca.Prelude.{ℕ, [], ◌∷◌, ◌++◌}
use oidc_ssh_ca.Prelude.Text.{Text}
use oidc_ssh_ca.Prelude.Int.{ℤ}
use oidc_ssh_ca.Policy.{Policy}
use oidc_ssh_ca.Policy.Loading.{Sources}
use oidc_ssh_ca.Oidc.Provider.{Remote, Call, Providers}
use oidc_ssh_ca.Oidc.Provider.Cache.{Event, registers, runs, step}
use oidc_ssh_ca.Oidc.Verify.{Decoders, Library, VerifyError, verify}
use oidc_ssh_ca.Issuer.Certificates.{Signer}
use oidc_ssh_ca.Audit
use oidc_ssh_ca.Server.{Attr, Packages, Server, Verifier, State, Draws}
use oidc_ssh_ca.Server.Http.{Reply, handler}
use oidc_ssh_ca.Serve.{hang_up}

-- the providers of `NewRemoteVerifier`: no issuer has an entry yet
abbrev pub new_remote_verifier : {Provider E : Type 0} → Providers Provider E
new_remote_verifier = []

module _ {Provider E : Type 0} (unrepresentable : ℕ → ℤ) (d : Decoders)
    (lib : Library Provider E) where
  -- a RemoteVerifier as an `oidc.Verifier`
  abbrev pub remote_verifier :
      Remote Provider E → Call → ℤ → Verifier (Providers Provider E) (VerifyError E)
  remote_verifier remote call now = record {
    verify_token = λ raw allowed m. verify unrepresentable d lib remote raw allowed call now m;
  }

  abbrev pub remote_server :
      {PublicKey Signature : Type 0}
      → Signer PublicKey Signature E
      → Remote Provider E
      → Call
      → ℤ
      → Server PublicKey Signature (Providers Provider E) (VerifyError E) E
  remote_server signer remote call now = record {
    signer = signer;
    verifier = remote_verifier remote call now;
  }

abbrev pub RemoteState : (Provider E : Type 0) → Type 0
RemoteState Provider E = State (Providers Provider E) (VerifyError E) E

abbrev pub with_policy :
    {Provider E : Type 0} → Policy → RemoteState Provider E → RemoteState Provider E
with_policy p st = record st { policy = p }

-- the outside as the world may show it
abbrev pub InWorld :
    {Provider E : Type 0} → (Remote Provider E → Type 0) → Event Provider E → Type 0
InWorld World (registers issuer) = Unit
InWorld World (runs remote issuer call) = World remote

module _ {PublicKey Signature Provider E : Type 0} (unrepresentable : ℕ → ℤ) (d : Decoders)
    (lib : Library Provider E) (pkg : Packages PublicKey Signature E)
    (signer : Signer PublicKey Signature E) (config_path : Text)
    (World : Remote Provider E → Type 0) where
  -- the states that the server reaches
  pub data Serves (start : RemoteState Provider E) : RemoteState Provider E → Type 0 where
    launched : Serves start start
    -- A request on any path. It reads the policy once, in the state `read`: when the verifier runs, in
    -- `st`, a reload may have replaced it.
    requested :
        {read st : RemoteState Provider E} (remote : Remote Provider E) (call : Call) (now : ℤ)
        (draws : Draws E) (elsewhere : Reply) (method path auth_header readable : Text)
        → World remote
        → Serves start read
        → Serves start st
        → Serves start (
            with_policy st.policy
              (handler pkg
                (remote_server unrepresentable d lib signer remote call now)
                elsewhere
                draws
                method
                path
                auth_header
                readable
                (with_policy read.policy st)).0)
    reloads :
        {st : RemoteState Provider E} (from : Sources E)
        → Serves start st
        → Serves start (hang_up from config_path st)
    -- a critical section of a call that runs beside
    beside :
        {st : RemoteState Provider E} (ev : Event Provider E)
        → InWorld World ev
        → Serves start st
        → Serves start (record st { verifier_state = step ev st.verifier_state })
    -- another request writes its event, between the arrival of one and its own event
    writes :
        {st : RemoteState Provider E} (event : Audit.Event (Attr (VerifyError E) E))
        → Serves start st
        → Serves start (record st { log = st.log ++ event ∷ [] })
