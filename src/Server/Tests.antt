-- ===== src/Server/Tests.antt =====
-- A request that is granted, one that is denied, and the theorems at them.
use oidc_ssh_ca.Prelude.{
  ℕ, ◌+◌, ◌*◌, ◌/◌, ◌<◌, ◌≡◌, refl, ◌≢◌, ◌↔◌, false, none, some, [], ◌∷◌, ◌++◌, arith, ok,
}
use oidc_ssh_ca.Prelude.Text.{Text, codes, str_eq, has_byte, has_str, has_prefix, contains_str, cut}
use oidc_ssh_ca.Prelude.Int.{pos, ◌≤ℤ◌}
use oidc_ssh_ca.Json.{str, lookup, string_claim}
use oidc_ssh_ca.Net.{is_cidr}
use oidc_ssh_ca.Policy.{
  Rule, Policy, is_enabled, adds_issuer, issuers_from, issuers, max_valid_for_seconds,
  allowed_public_key_types, valid_for_seconds_for, key_id_template_for, source_address_for,
}
use oidc_ssh_ca.Policy.KeyId.{template_vars, expand_key_id}
use oidc_ssh_ca.Policy.Matching.{
  Identity, evaluate, decide, matched_rules, rule_matches, jwt_matches, claims_match,
  repository_matches,
}
use oidc_ssh_ca.Policy.Validation.{
  validate, validate_head, validate_rules, validate_rule, validate_match, validate_claims,
  validate_certificate, validate_principals, validate_key_types, validate_force_command,
  validate_source_address, has_control, is_rule_name_char, is_principal_char,
}
use oidc_ssh_ca.Policy.Validation.Valid.{IsValidRule, validate_iff}
use oidc_ssh_ca.Oidc.Time.{second}
use oidc_ssh_ca.Issuer.PublicKey.{trim_right, only_space, validate_public_key}
use oidc_ssh_ca.Issuer.Certificates.{big_endian, join_comma, certificate_of, issue}
use oidc_ssh_ca.Audit.{issued, denied}
use oidc_ssh_ca.Server.{
  Packages, Server, State, Draws, bearer_token, slice_from, hex_encode, new_request_id, claim_attrs,
  identity_attrs, denial_response, deny,
}
use oidc_ssh_ca.Server.Sign.{
  issued_attrs, certificate_request, key_attrs, before_verify, after_verify, conclude, sign,
}
use oidc_ssh_ca.Server.Sign.Events.{OneEvent, sign-OneEvent, sign-denied_generic}
use oidc_ssh_ca.Server.Sign.Issuance.{Issuance, issued_response, sign-issued_iff}
use oidc_ssh_ca.Server.Sign.Lifetime.{max_duration_seconds, certificate-expires}
use oidc_ssh_ca.Server.Http.{reply_with, handle_sign}
use oidc_ssh_ca.Server.Http.Bodies.{handle_sign_lem}

signing : Unit {0}
unfolding sign before_verify after_verify conclude deny denial_response new_request_id hex_encode
    bearer_token slice_from has_prefix key_attrs identity_attrs claim_attrs string_claim lookup
    str_eq has_str has_byte contains_str trim_right only_space validate_public_key issuers
    issuers_from adds_issuer is_enabled allowed_public_key_types evaluate decide matched_rules
    rule_matches jwt_matches claims_match repository_matches cut key_id_template_for expand_key_id
    issue big_endian certificate_of certificate_request issued_attrs issued denied join_comma
signing = tt

abbrev rule : Rule
rule = record {
  name = codes "prod";
  enabled = none;
  match = record {
    jwt = some (record {
      issuer = codes "https://idp";
      audience = codes "ca";
      owner = codes "org";
      repo_name = [];
      claims_exact = [];
    });
  };
  certificate = record {
    principals = codes "deploy" ∷ [];
    valid_for_seconds = some (pos 600);
    key_id_template = codes "gha:${ref}";
    extensions = none;
    force_command = [];
    source_address = [];
  };
}

abbrev pub policy : Policy
policy = record {
  version = pos 1;
  disabled = false;
  defaults = record {
    valid_after_offset_seconds = none;
    max_valid_for_seconds = none;
    allowed_public_key_types = [];
    extensions = none;
    valid_for_seconds = none;
    key_id_template = [];
    source_address = [];
  };
  rules = rule ∷ [];
}

-- The packages read a request as the key's text itself, and print a certificate as its principals
-- and key ID.
abbrev pub packages : Packages ℕ ℕ ℕ
packages = record {
  decode_request = λ body. ok body;
  marshal_json = λ entries. codes "{}";
  keys = record { parse_authorized_key = λ line. ok (5, []); key_type = λ k. codes "ssh-ed25519" };
  fingerprint = λ k. codes "SHA256:x";
  marshal_certificate = λ cert signature. join_comma cert.valid_principals ++ cert.key_id;
  marshal_key = λ k. codes "key";
}

abbrev identity : Identity
identity = record {
  issuer = codes "https://idp";
  audiences = codes "ca" ∷ [];
  claims = (codes "repository", str (codes "org/repo")) ∷ (codes "ref", str (codes "main")) ∷ [];
}

abbrev pub server : Server ℕ ℕ ℕ ℕ ℕ
server = record {
  signer = record { sign_certificate = λ cert. ok 9; public_key = 1 };
  verifier = record { verify_token = λ raw allowed s. (s, ok identity) };
}

abbrev pub state : State ℕ ℕ ℕ
state = record { policy = policy; verifier_state = 0; log = [] }

abbrev pub draws : Draws ℕ
draws = record {
  id_bytes = ok (1 ∷ 255 ∷ []);
  serial_bytes = ok (0 ∷ 1 ∷ []);
  now = pos (1700000000 * second);
}

abbrev pub bearer : Text
bearer = codes "Bearer t"

abbrev pub key : Text
key = codes "ssh-ed25519 AAAA"

granted :
    (sign packages server draws (codes "POST") bearer key state).1
    ≡ issued_response packages server draws (codes "deploygha:main")
unfolding signing
granted = refl

wrong_method : (sign packages server draws (codes "GET") bearer key state).1.status ≡ 405
unfolding signing
wrong_method = refl

not_granted : (sign packages server draws (codes "GET") bearer key state).1.status ≢ 200
not_granted h = absurd (omega (arith, wrong_method))

sign-issued_iff_example :
    ((sign packages server draws (codes "POST") bearer key state).1
      ≡ issued_response packages server draws (codes "deploygha:main"))
    ↔ Issuance packages server draws (codes "POST") bearer key state (codes "deploygha:main")
sign-issued_iff_example =
    sign-issued_iff packages server draws (codes "POST") bearer key state (codes "deploygha:main")

sign-OneEvent_example :
    OneEvent packages server state (sign packages server draws (codes "POST") bearer key state)
sign-OneEvent_example = sign-OneEvent packages server draws (codes "POST") bearer key state

sign-denied_generic_example :
    (sign packages server draws (codes "GET") bearer key state).1
    ≡ denial_response packages
        (new_request_id draws.id_bytes)
        (sign packages server draws (codes "GET") bearer key state).1.status
sign-denied_generic_example =
    sign-denied_generic packages server draws (codes "GET") bearer key state not_granted

handle_sign_lem_example :
    handle_sign packages server draws (codes "POST") bearer key state
    ≡ reply_with packages server (sign packages server draws (codes "POST") bearer key state)
handle_sign_lem_example = handle_sign_lem packages server draws (codes "POST") bearer key state

valid : validate policy ≡ ok tt
unfolding validate validate_head validate_rules validate_rule validate_match validate_claims
    validate_certificate validate_principals validate_key_types validate_force_command
    validate_source_address has_control is_rule_name_char is_principal_char template_vars
    max_valid_for_seconds allowed_public_key_types valid_for_seconds_for key_id_template_for
    source_address_for str_eq has_byte has_str contains_str is_cidr
valid = refl

rule-IsValid : IsValidRule policy rule
rule-IsValid = ((validate_iff policy).0 valid).rules.0

ceiling : max_valid_for_seconds policy ≤ℤ pos max_duration_seconds
unfolding max_valid_for_seconds
ceiling = omega arith

certificate-expires_example :
    (ttl : ℕ) × (pos ttl ≤ℤ max_valid_for_seconds policy)
    × (0 < ttl)
    × ((certificate_of {PublicKey = ℕ}
          (certificate_request policy rule 5 (codes "gha:main") (pos (1700000000 * second)))
          1).valid_before
        ≡ 1700000000 * second / second + ttl)
certificate-expires_example =
    certificate-expires policy rule 5 (codes "gha:main") (1700000000 * second) 1 rule-IsValid
      ceiling (omega arith)
