-- ===== src/Cmd/Start/Launches.antt =====
-- When the server starts, and what holds of every server that did.
use oidc_ssh_ca.Prelude.{
  ℕ, ◌≡◌, sym, ap, subst, ◌≢◌, ◌↔◌, List, [], is_empty, not_empty_iff, Result, ok, err, >>=-eq-ok,
  >>-eq-ok, refuse_passed, map_err, map_err_ok, >>=-ok, >>-ok, refuse, refuse_ok, ok_map_err,
}
use oidc_ssh_ca.Prelude.Text.{Listed, Text}
use oidc_ssh_ca.Prelude.Int.{ℤ}
use oidc_ssh_ca.Policy.{Policy, issuers}
use oidc_ssh_ca.Policy.Loading.{load}
use oidc_ssh_ca.Policy.Validation.Valid.{IsValidRule}
use oidc_ssh_ca.Oidc.Provider.{Remote, Call, Providers}
use oidc_ssh_ca.Oidc.Provider.Genuine.{IsSound}
use oidc_ssh_ca.Oidc.Verify.{Decoders, Library, VerifyError}
use oidc_ssh_ca.Oidc.Verify.Sound.{Verified, ChecksIssuer}
use oidc_ssh_ca.Issuer.CaKey.{env_key_file, env_key, load_ca_key}
use oidc_ssh_ca.Issuer.CaKey.Sources.{OneSource, load_ca_key_iff}
use oidc_ssh_ca.Server.{Server, Draws, new_state}
use oidc_ssh_ca.Server.Sign.{sign}
use oidc_ssh_ca.Server.Sign.Issuance.{Issuance, issued_response}
use oidc_ssh_ca.Serve.Remote.{with_policy, remote_server, RemoteState, Serves}
use oidc_ssh_ca.Serve.Remote.Genuine.{Serves-Verified}
use oidc_ssh_ca.Cmd.{Os, CommandError, config_required, bad_policy, bad_ca_key}
use oidc_ssh_ca.Cmd.Flags.{FlagError}
use oidc_ssh_ca.Cmd.Start.{
  Options, serve_options, signer_of, first_state, start, with_options, launch_parsed, launch,
}

module _ {File PrivateKey PublicKey Signature Provider E : Type 0}
    (os : Os File PrivateKey PublicKey Signature E) where
  -- all that a start needs
  pub record Starts (o : Options) (key : PrivateKey) (st : RemoteState Provider E) : Type 0 where
    pub given : o.config_path ≢ []
    pub pol : Policy
    pub loaded : load os.policies o.config_path ≡ ok pol
    pub one_source :
        OneSource os.key_files os.key_parser o.ca_key_file
          (os.getenv env_key_file)
          (os.getenv env_key)
          o.skip_key_perm_check
          key
    pub first : st ≡ first_state os o pol key

  start_iff :
      (o : Options) (key : PrivateKey) (st : RemoteState Provider E)
      → (start os o ≡ ok (key, st)) ↔ Starts o key st
  unfolding start
  start_iff o key st = (
    λ h.
        let (given, h1) = >>-eq-ok (refuse (is_empty o.config_path) config_required) _ h in
        let (pol, loaded, h2) =
          >>=-eq-ok (map_err bad_policy (load os.policies o.config_path)) _ h1 in
        let (k, found, h3) =
          >>=-eq-ok
            (map_err bad_ca_key (
              load_ca_key os.key_files os.key_parser os.getenv o.ca_key_file o.skip_key_perm_check))
            _ h2 in
        let same : k ≡ key = cc in
        let state : first_state os o pol k ≡ st = cc in
        record {
          given = (not_empty_iff o.config_path).0 (refuse_passed _ _ given);
          pol = pol;
          loaded = map_err_ok _ _ loaded;
          one_source =
              (load_ca_key_iff os.key_files os.key_parser os.getenv o.ca_key_file
                  o.skip_key_perm_check key).0
                (cc (map_err_ok _ _ found, same));
          first = cc;
        },
    λ s. >>-ok (refuse_ok config_required ((not_empty_iff o.config_path).1 s.given)) (
        >>=-ok _ (ok_map_err bad_policy s.loaded) (
          >>=-ok _
            (ok_map_err bad_ca_key (
              (load_ca_key_iff os.key_files os.key_parser os.getenv o.ca_key_file
                  o.skip_key_perm_check key).1
                s.one_source))
            (cc (s.first)))),
  )

  given_options :
      (o p : Options) (r : Result (CommandError E) (PrivateKey × RemoteState Provider E))
      (key : PrivateKey) (st : RemoteState Provider E)
      → (with_options os o r ≡ ok (p, key, st)) ↔ ((o ≡ p) × (r ≡ ok (key, st)))
  given_options o p (err why) key st = (λ h. cc, λ h. cc)
  given_options o p (ok (k, s)) key st = (λ h. (cc, cc), λ (a, b). cc)

  launch_parsed_iff :
      (parsed : Result FlagError Options) (o : Options) (key : PrivateKey)
      (st : RemoteState Provider E)
      → (launch_parsed os parsed ≡ ok (o, key, st)) ↔ ((parsed ≡ ok o) × Starts o key st)
  launch_parsed_iff (err why) o key st = (λ h. cc, λ h. cc)
  launch_parsed_iff (ok p) o key st =
      let inner = given_options p o (start os p) key st in
      (
        λ h.
            let (same, started) = inner.0 h in
            (
              ap ok same,
              (start_iff o key st).0 (subst (λ q. start os q ≡ ok (key, st)) same started),
            ),
        λ (same, s).
            let eq : p ≡ o = cc in
            inner.1
              (eq, subst (λ q. start os q ≡ ok (key, st)) (sym eq) ((start_iff o key st).1 s)),
      )

  -- The server starts listening exactly when its flags parse to options with a policy file that loads
  -- and exactly one source of a CA key that can be used; it then runs with that policy and key, an
  -- empty provider cache and a log that says so.
  pub launch_iff :
      (args : List Text) (o : Options) (key : PrivateKey) (st : RemoteState Provider E)
      → (launch os args ≡ ok (o, key, st)) ↔ ((serve_options args ≡ ok o) × Starts o key st)
  unfolding launch
  launch_iff args o key st = launch_parsed_iff (serve_options args) o key st

  module _ (unrepresentable : ℕ → ℤ) (d : Decoders) (lib : Library Provider E)
      (World : Remote Provider E → Type 0) (IsFor : Text → Provider → Type 0)
      (checks : ChecksIssuer unrepresentable d lib IsFor)
      (discovers : (remote : Remote Provider E) → World remote → IsSound IsFor remote) where
    abbrev running :
        PrivateKey
        → Remote Provider E
        → Call
        → ℤ
        → Server PublicKey Signature (Providers Provider E) (VerifyError E) E
    running key remote call now =
        remote_server unrepresentable d lib (signer_of os key) remote call now

    -- From the command line to the certificate. Take a server that any command line started, and a
    -- request that reads the policy in one state that the server reaches by requests, reloads, and
    -- calls of the verifier and log writes beside them, in any order, and runs the verifier in another.
    -- If it is answered with a certificate, it has passed every check of a request; its token was
    -- verified by go-oidc against a provider discovered for an issuer that an enabled rule of that
    -- policy names, and the token's issuer is one of these too; its time claims hold; and the rule that
    -- it was issued under alone matches it, and is valid. The hypotheses are that go-oidc discovers the
    -- issuer it was asked for, and that its Verify refuses a token of another, but for Google's
    -- without its scheme.
    pub launch-Verified :
        (args : List Text) (o : Options) (key : PrivateKey)
        (start_state read st : RemoteState Provider E)
        → launch os args ≡ ok (o, key, start_state)
        → Serves unrepresentable d lib os.packages
            (signer_of os key)
            o.config_path
            World
            start_state
            read
        → Serves unrepresentable d lib os.packages
            (signer_of os key)
            o.config_path
            World
            start_state
            st
        → (remote : Remote Provider E) (call : Call) (now : ℤ) (draws : Draws E)
          (method auth_header body out : Text)
        → World remote
        → (sign os.packages
            (running key remote call now)
            draws
            method
            auth_header
            body
            (with_policy read.policy st)).1
          ≡ issued_response os.packages (running key remote call now) draws out
        → (i : Issuance os.packages
            (running key remote call now)
            draws
            method
            auth_header
            body
            (with_policy read.policy st)
            out)
          × Verified unrepresentable lib IsFor i.raw_token (issuers read.policy) now i.id
          × Listed i.id.issuer (issuers read.policy)
          × IsValidRule read.policy i.rule
    unfolding new_state
    launch-Verified args o key start_state read st launched reached_read reached =
        let s = ((launch_iff args o key start_state).0 launched).1 in
        Serves-Verified unrepresentable d lib os.packages (signer_of os key) o.config_path World
          IsFor checks discovers os.policies start_state read st
          (subst (λ q. load os.policies o.config_path ≡ ok q) (sym (ap (λ q. q.policy) s.first))
            s.loaded)
          (ap (λ q. q.verifier_state) s.first) reached_read reached
