-- ===== src/Cmd/Start.antt =====
-- cmd/oidc-ssh-ca/serve.go: the start of the server and its end. What runs in between is an argument;
-- Serve.Remote says which states it reaches.
pub mod CommandLine
pub mod Launches
use oidc_ssh_ca.Prelude.{
  ◌>>◌, ◌>>=◌, Bool, false, Option, none, some, List, [], ◌∷◌, is_empty, length, if◌then◌else◌,
  Result, ok, err, refuse, map_err,
}
use oidc_ssh_ca.Prelude.Text.{Text, codes}
use oidc_ssh_ca.Prelude.Int.{pos}
use oidc_ssh_ca.Policy.{Policy}
use oidc_ssh_ca.Policy.Loading.{load}
use oidc_ssh_ca.Oidc.Verify.{VerifyError}
use oidc_ssh_ca.Issuer.CaKey.{load_ca_key, fingerprint}
use oidc_ssh_ca.Issuer.Certificates.{Signer, memory_signer}
use oidc_ssh_ca.Audit.{Log, info, warn}
use oidc_ssh_ca.Server.{Attr, text, number, flag, new_state}
use oidc_ssh_ca.Serve.Remote.{RemoteState, new_remote_verifier}
use oidc_ssh_ca.Cmd.{
  CommandError, config_required, bad_policy, bad_ca_key, server_ended, not_shut_down, Ending, done,
  failed, exited, Os,
}
use oidc_ssh_ca.Cmd.Flags.{
  string, boolean, FlagSet, FlagError, parse, flag_status, string_flag, boolean_flag,
}

abbrev pub version : Text
version = codes "0.4.0"

pub record Options : Type 0 where
  pub config_path : Text
  pub listen : Text
  pub ca_key_file : Text
  pub skip_key_perm_check : Bool

abbrev pub serve_flags : FlagSet
serve_flags =
    (codes "config", string [])
    ∷ (codes "listen", string (codes ":8080"))
    ∷ (codes "ca-key-file", string [])
    ∷ (codes "skip-key-permission-check", boolean false)
    ∷ []

abbrev pub options_of : FlagSet → Options
options_of flags = record {
  config_path = string_flag (codes "config") flags;
  listen = string_flag (codes "listen") flags;
  ca_key_file = string_flag (codes "ca-key-file") flags;
  skip_key_perm_check = boolean_flag (codes "skip-key-permission-check") flags;
}

abbrev pub parsed_options : Result FlagError (FlagSet × List Text) → Result FlagError Options
parsed_options (err why) = err why
parsed_options (ok (flags, rest)) = ok (options_of flags)

-- the options of a command line; arguments behind the flags are ignored
unfoldable pub serve_options : List Text → Result FlagError Options
unfolding parse string_flag boolean_flag
serve_options args = parsed_options (parse serve_flags args)

-- how a server ends: ListenAndServe returns, or a signal comes and Shutdown has its result
pub data End (E : Type 0) : Type 0 where
  listener_ended : E → End E
  stopped : (signal : Text) (shutdown : Option E) → End E

abbrev pub shutdown_ending : {E : Type 0} → Option E → Ending E
shutdown_ending none = done
shutdown_ending (some why) = failed (not_shut_down why)

abbrev pub warn_skip : {A : Type 0} → Bool → Log A → Log A
warn_skip skip log =
    if skip
    then warn (codes "CA key file permission check disabled (--skip-key-permission-check)") [] log
    else log

module _ {Provider E : Type 0} where
  -- the `select` that waits for the end
  unfoldable pub end_with : End E → RemoteState Provider E → RemoteState Provider E × Ending E
  end_with (listener_ended why) st = (st, failed (server_ended why))
  end_with (stopped signal shutdown) st = (
    record st { log = info (codes "shutting down") ((codes "signal", text signal) ∷ []) st.log },
    shutdown_ending shutdown,
  )

module _ {File PrivateKey PublicKey Signature E : Type 0}
    (os : Os File PrivateKey PublicKey Signature E) where
  abbrev pub signer_of : PrivateKey → Signer PublicKey Signature E
  signer_of key = memory_signer os.sign_cert os.public_key_of key

  abbrev pub start_log : Options → Policy → PrivateKey → Log (Attr (VerifyError E) E)
  start_log o p key =
      info (codes "starting")
        ((codes "version", text version)
          ∷ (codes "listen", text o.listen)
          ∷ (codes "ca_fingerprint", text (fingerprint os.packages.fingerprint (signer_of key)))
          ∷ (codes "policy", text o.config_path)
          ∷ (codes "rules", number (pos (length p.rules)))
          ∷ (codes "disabled", flag p.disabled)
          ∷ [])
        (warn_skip o.skip_key_perm_check [])

  module _ {Provider : Type 0} where
    abbrev pub first_state : Options → Policy → PrivateKey → RemoteState Provider E
    first_state o p key = new_state p new_remote_verifier (start_log o p key)

    -- everything before the listener
    unfoldable pub start : Options → Result (CommandError E) (PrivateKey × RemoteState Provider E)
    start o = do
      refuse (is_empty o.config_path) config_required
      pol ← map_err bad_policy (load os.policies o.config_path)
      key ←
          map_err bad_ca_key
            (load_ca_key os.key_files os.key_parser os.getenv o.ca_key_file o.skip_key_perm_check)
      ok (key, first_state o pol key)

    abbrev pub with_options :
        Options
        → Result (CommandError E) (PrivateKey × RemoteState Provider E)
        → Result (Ending E) (Options × PrivateKey × RemoteState Provider E)
    with_options o (err why) = err (failed why)
    with_options o (ok (key, st)) = ok (o, key, st)

    abbrev pub launch_parsed :
        Result FlagError Options → Result (Ending E) (Options × PrivateKey × RemoteState Provider E)
    launch_parsed (err why) = err (exited (flag_status why))
    launch_parsed (ok o) = with_options o (start o)

    -- cmdServe up to the listener: how it ends at once, or what the server runs with
    unfoldable pub launch :
        List Text → Result (Ending E) (Options × PrivateKey × RemoteState Provider E)
    launch args = launch_parsed (serve_options args)

    -- `life` is what the server does before it ends
    abbrev pub lives :
        (Options × PrivateKey × RemoteState Provider E → RemoteState Provider E × End E)
        → Result (Ending E) (Options × PrivateKey × RemoteState Provider E)
        → Option (RemoteState Provider E) × Ending E
    lives life (err ending) = (none, ending)
    lives life (ok launched) =
        let last = life launched in let ended = end_with last.1 last.0 in (some ended.0, ended.1)

    unfoldable pub serve :
        (Options × PrivateKey × RemoteState Provider E → RemoteState Provider E × End E)
        → List Text
        → Option (RemoteState Provider E) × Ending E
    serve life args = lives life (launch args)
