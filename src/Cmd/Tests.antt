-- ===== src/Cmd/Tests.antt =====
-- A server started from a command line that answers its first request, and the other commands beside it.
mod Commands
use oidc_ssh_ca.Prelude.{ℕ, ◌≡◌, ◌↔◌, refl, true, false, none, some, List, [], ◌∷◌, ok}
use oidc_ssh_ca.Prelude.Text.{
  Listed, Text, codes, str_eq, has_byte, has_str, has_prefix, contains_str, cut,
}
use oidc_ssh_ca.Prelude.Int.{pos, ◌+ℤ◌, ◌-ℤ◌, ◌*ℤ◌, to_uint64, wrap_int64}
use oidc_ssh_ca.Json.{lookup, string_claim}
use oidc_ssh_ca.Net.{is_cidr}
use oidc_ssh_ca.Policy.{
  Rule, Policy, is_enabled, adds_issuer, issuers_from, issuers, max_valid_for_seconds,
  allowed_public_key_types, valid_for_seconds_for, key_id_template_for, source_address_for,
}
use oidc_ssh_ca.Policy.KeyId.{template_vars, expand_key_id}
use oidc_ssh_ca.Policy.Loading.{Sources, parse, load}
use oidc_ssh_ca.Policy.Matching.{
  evaluate, decide, matched_rules, rule_matches, jwt_matches, claims_match, repository_matches,
}
use oidc_ssh_ca.Policy.Validation.{
  validate, validate_head, validate_rules, validate_rule, validate_match, validate_claims,
  validate_certificate, validate_principals, validate_key_types, validate_force_command,
  validate_source_address, has_control, is_rule_name_char, is_principal_char,
}
use oidc_ssh_ca.Policy.Validation.Valid.{IsValidRule}
use oidc_ssh_ca.Oidc.Time.{int64_of_float, unix, numeric_claim, check_time_claims}
use oidc_ssh_ca.Oidc.Provider.{
  Remote, Providers, check_jwks, discover_provider, run_entry, put, register, run_issuer, provider,
}
use oidc_ssh_ca.Oidc.Provider.Genuine.{IsSound}
use oidc_ssh_ca.Oidc.Verify.{VerifyError, split_from, unverified_issuer, verify_with, verify}
use oidc_ssh_ca.Oidc.Verify.Sound.{Verified}
use oidc_ssh_ca.Oidc.Verify.Tests.{
  claims, decoders, lib, only_idp, call, now, open_value, IsForIdp, sound, checks,
}
use oidc_ssh_ca.Issuer.PublicKey.{trim_right, only_space, validate_public_key}
use oidc_ssh_ca.Issuer.Certificates.{join_comma, big_endian, certificate_of, issue}
use oidc_ssh_ca.Server.{
  Server, bearer_token, slice_from, hex_encode, new_request_id, claim_attrs, identity_attrs,
  new_state,
}
use oidc_ssh_ca.Server.Sign.{
  issued_attrs, certificate_request, key_attrs, before_verify, after_verify, conclude, sign,
}
use oidc_ssh_ca.Server.Sign.Issuance.{Issuance, issued_response}
use oidc_ssh_ca.Server.Tests.{packages, draws, key}
use oidc_ssh_ca.Serve.Remote.{remote_server, RemoteState, launched}
use oidc_ssh_ca.Issuer.CaKey.{sources, parse_source, load_from, read_key_file, load_ca_key}
use oidc_ssh_ca.Issuer.CaKey.Tests.{files, parser, getenv}
use oidc_ssh_ca.Cmd.{Os}
use oidc_ssh_ca.Cmd.Flags.{classify, parse_bool, set, parse_from, string_flag, boolean_flag}
use oidc_ssh_ca.Cmd.Flags
use oidc_ssh_ca.Cmd.Start.{Options, signer_of, first_state, serve_options, start, launch}
use oidc_ssh_ca.Cmd.Start.Launches.{Starts, launch_iff, launch-Verified}

running : Unit {0}
unfolding load parse validate validate_head validate_rules validate_rule validate_match
    validate_claims validate_certificate validate_principals validate_key_types
    validate_force_command validate_source_address has_control is_rule_name_char is_principal_char
    template_vars max_valid_for_seconds allowed_public_key_types valid_for_seconds_for
    key_id_template_for source_address_for str_eq has_byte has_str contains_str is_cidr launch start
    serve_options Flags.parse parse_from classify parse_bool set string_flag boolean_flag lookup cut
    load_ca_key sources parse_source load_from read_key_file sign before_verify after_verify
    conclude new_request_id hex_encode bearer_token slice_from has_prefix key_attrs identity_attrs
    claim_attrs string_claim trim_right only_space validate_public_key issuers issuers_from
    adds_issuer is_enabled evaluate decide matched_rules rule_matches jwt_matches claims_match
    repository_matches expand_key_id issue big_endian certificate_of certificate_request
    issued_attrs join_comma verify verify_with unverified_issuer split_from provider register
    run_issuer run_entry put discover_provider check_jwks check_time_claims numeric_claim
    int64_of_float unix ◌+ℤ◌ ◌-ℤ◌ ◌*ℤ◌ to_uint64 wrap_int64 new_state
running = tt

abbrev rule : Rule
rule = record {
  name = codes "prod";
  enabled = none;
  match = record {
    jwt = some (record {
      issuer = codes "idp";
      audience = codes "ca";
      owner = [];
      repo_name = [];
      claims_exact = [];
    });
  };
  certificate = record {
    principals = codes "deploy" ∷ [];
    valid_for_seconds = some (pos 600);
    key_id_template = codes "ci";
    extensions = none;
    force_command = [];
    source_address = [];
  };
}

abbrev policy : Policy
policy = record {
  version = pos 1;
  disabled = false;
  defaults = record {
    valid_after_offset_seconds = none;
    max_valid_for_seconds = none;
    allowed_public_key_types = [];
    extensions = none;
    valid_for_seconds = none;
    key_id_template = [];
    source_address = [];
  };
  rules = rule ∷ [];
}

abbrev policies : Sources ℕ
policies = record {
  read_file = λ path. ok (codes "version: 1");
  decode = λ contents. ok policy;
  is_single = λ contents. true;
}

abbrev os : Os ℕ ℕ ℕ ℕ ℕ
os = record {
  policies = policies;
  decode_claims = λ contents. ok claims;
  key_files = files;
  key_parser = parser;
  getenv = getenv;
  sign_cert = λ k cert. ok 9;
  public_key_of = λ k. 1;
  packages = packages;
}

abbrev config : Text
config = codes "/etc/policy.yaml"

abbrev serve_args : List Text
serve_args = codes "--config" ∷ config ∷ codes "-listen=:9000" ∷ []

abbrev options : Options
options = record {
  config_path = config;
  listen = codes ":9000";
  ca_key_file = [];
  skip_key_perm_check = false;
}

abbrev first : RemoteState ℕ ℕ
first = first_state os options policy 5

abbrev bearer : Text
bearer = codes "Bearer h.idp.s"

-- the one way in which the outside answers
abbrev World : Remote ℕ ℕ → Type 0
World remote = remote ≡ only_idp

discovers : (remote : Remote ℕ ℕ) → World remote → IsSound IsForIdp remote
discovers remote w = rw w sound

loads : load policies config ≡ ok policy
unfolding running
loads = refl

-- `5` is the key that the parser finds in OIDC_SSH_CA_KEY.
launches : launch os {Provider = ℕ} serve_args ≡ ok (options, 5, first)
unfolding running
launches = refl

granted :
    (sign packages
      (remote_server open_value decoders lib (signer_of os 5) only_idp call now)
      draws
      (codes "POST")
      bearer
      key
      first).1
    ≡ issued_response packages
        (remote_server open_value decoders lib (signer_of os 5) only_idp call now)
        draws
        (codes "deployci")
unfolding running
granted = refl

launch_iff_example :
    (launch os {Provider = ℕ} serve_args ≡ ok (options, 5, first))
    ↔ ((serve_options serve_args ≡ ok options) × Starts os options 5 first)
launch_iff_example = launch_iff os serve_args options 5 first

abbrev server : Server ℕ ℕ (Providers ℕ ℕ) (VerifyError ℕ) ℕ
server = remote_server open_value decoders lib (signer_of os 5) only_idp call now

launch-Verified_example :
    (i : Issuance packages server draws (codes "POST") bearer key first (codes "deployci"))
    × Verified open_value lib IsForIdp i.raw_token (issuers policy) now i.id
    × Listed i.id.issuer (issuers policy)
    × IsValidRule policy i.rule
unfolding new_state
launch-Verified_example =
    launch-Verified os open_value decoders lib World IsForIdp checks discovers serve_args options 5
      first first first launches launched launched only_idp call now draws (codes "POST") bearer key
      (codes "deployci") refl granted
