-- ===== src/Cmd.antt =====
-- cmd/oidc-ssh-ca: the commands. What a command prints is the list of its lines, each a value with
-- what the format string shows.
pub mod Flags
pub mod CheckConfig
pub mod Explain
pub mod Start
pub mod PrintCaPub
pub mod Main
mod Tests
use oidc_ssh_ca.Prelude.{ℕ, Bool, List, [], Result, ok, err}
use oidc_ssh_ca.Prelude.Text.{Text}
use oidc_ssh_ca.Prelude.Int.{ℤ}
use oidc_ssh_ca.Policy.Loading.{Sources, LoadError}
use oidc_ssh_ca.Policy.KeyId.{KeyIdError}
use oidc_ssh_ca.Policy.Matching.{Mismatch}
use oidc_ssh_ca.Issuer.CaKey.{Files, Parser, CaKeyError}
use oidc_ssh_ca.Issuer.Certificates.{SshCertificate}
use oidc_ssh_ca.Json.{Claims}
use oidc_ssh_ca.Server.{Packages}

-- check-config's warnings
pub data Warning : Type 0 where
  unknown_claim : (rule claim : Text) → Warning
  matches_all : (rule : Text) → Warning

-- what may follow a rule's line in check-config
pub data Extra : Type 0 where
  forced : Text → Extra
  from_addresses : List Text → Extra

pub data Line : Type 0 where
  -- check-config
  policy_ok : (rules : ℕ) → Line
  disabled_is : Bool → Line
  offset_is : ℤ → Line
  max_is : ℤ → Line
  key_types_are : List Text → Line
  rule_is :
      (name : Text) (enabled : Bool) (principals : List Text) (ttl : ℤ) (extra : List Extra) → Line
  warning : Warning → Line
  -- explain
  policy_off : Line
  matched_rule : Text → Line
  principals_are : List Text → Line
  ttl_is : ℤ → Line
  force_command_is : Text → Line
  source_address_is : List Text → Line
  key_id_is : Text → Line
  key_id_denied : KeyIdError → Line
  several_matched : ℕ → List Text → Line
  none_matched : Line
  rule_fails : Text → Mismatch → Line
  -- print-ca-pub, version and help
  public_key_line : Text → Line
  version_is : Text → Line
  usage_text : Line
  unknown_command : Text → Line

pub data ClaimsError (E : Type 0) : Type 0 where
  unread unparsed : E → ClaimsError E
  no_iss : ClaimsError E

pub data CommandError (E : Type 0) : Type 0 where
  usage : Text → CommandError E
  config_required : CommandError E
  bad_policy : LoadError E → CommandError E
  bad_ca_key : CaKeyError E → CommandError E
  bad_claims : ClaimsError E → CommandError E
  -- the HTTP server ended, or did not shut down
  server_ended not_shut_down : E → CommandError E

-- how a command ends: it returns nil or an error, exits with a status, or panics
pub data Ending (E : Type 0) : Type 0 where
  done panicked : Ending E
  failed : CommandError E → Ending E
  exited : ℕ → Ending E

abbrev pub Ran : Type 0 → Type 0
Ran E = List Line × Ending E

-- what the commands call outside the repository
pub record Os (File PrivateKey PublicKey Signature E : Type 0) : Type 0 where
  -- os.ReadFile, and the YAML decoder
  pub policies : Sources E
  -- json.Unmarshal into a map
  pub decode_claims : Text → Result E Claims
  pub key_files : Files File E
  pub key_parser : Parser PrivateKey E
  pub getenv : Text → Text
  -- `cert.SignCert` with an ssh.Signer, and the signer's public key
  pub sign_cert : PrivateKey → SshCertificate PublicKey → Result E Signature
  pub public_key_of : PrivateKey → PublicKey
  pub packages : Packages PublicKey Signature E

-- a command that prints its lines and returns nil, or returns an error
abbrev pub ran_with : {E : Type 0} → Result (CommandError E) (List Line) → Ran E
ran_with (err why) = ([], failed why)
ran_with (ok lines) = (lines, done)
