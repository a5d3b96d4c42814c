-- ===== src/Serve/Tests.antt =====
-- A server that answers a request, fails to reload, and answers another.
use oidc_ssh_ca.Prelude.{ℕ, ◌≡◌, refl, ◌↔◌, true, ok, err}
use oidc_ssh_ca.Prelude.Text.{Text, codes, str_eq, has_byte, has_str, contains_str}
use oidc_ssh_ca.Net.{is_cidr}
use oidc_ssh_ca.Policy.{
  max_valid_for_seconds, allowed_public_key_types, valid_for_seconds_for, key_id_template_for,
  source_address_for,
}
use oidc_ssh_ca.Policy.KeyId.{template_vars}
use oidc_ssh_ca.Policy.Loading.{Sources, parse, load, load_iff}
use oidc_ssh_ca.Policy.Validation.{
  validate, validate_head, validate_rules, validate_rule, validate_match, validate_claims,
  validate_certificate, validate_principals, validate_key_types, validate_force_command,
  validate_source_address, has_control, is_rule_name_char, is_principal_char,
}
use oidc_ssh_ca.Policy.Validation.Valid.{IsValid}
use oidc_ssh_ca.Server.{State}
use oidc_ssh_ca.Server.Sign.{sign}
use oidc_ssh_ca.Server.Tests.{policy, packages, server, state, draws, bearer, key}
use oidc_ssh_ca.Serve.{hang_up, Reaches, started, request, hup, reaches-IsValid}

abbrev file : Sources ℕ
file = record {
  read_file = λ path. ok (codes "version: 1");
  decode = λ contents. ok policy;
  is_single = λ contents. true;
}

abbrev broken : Sources ℕ
broken = record {
  read_file = λ path. err 1;
  decode = λ contents. err 1;
  is_single = λ contents. true;
}

abbrev path : Text
path = codes "/etc/policy.yaml"

loads : load file path ≡ ok policy
unfolding load parse validate validate_head validate_rules validate_rule validate_match
    validate_claims validate_certificate validate_principals validate_key_types
    validate_force_command validate_source_address has_control is_rule_name_char is_principal_char
    template_vars max_valid_for_seconds allowed_public_key_types valid_for_seconds_for
    key_id_template_for source_address_for str_eq has_byte has_str contains_str is_cidr
loads = refl

load_iff_example : (load file path ≡ ok policy) ↔ (
    (contents : Text) × (file.read_file path ≡ ok contents)
    × (file.decode contents ≡ ok policy)
    × (file.is_single contents ≡ true)
    × IsValid policy)
load_iff_example = load_iff file path policy

abbrev after : State ℕ ℕ ℕ
after =
    (sign packages server draws (codes "POST") bearer key
      (hang_up broken path (sign packages server draws (codes "GET") bearer key state).0)).0

reached : Reaches packages server path state after
reached =
    request draws (codes "POST") bearer key
      (hup broken (request draws (codes "GET") bearer key started))

reaches-IsValid_example : IsValid after.policy
reaches-IsValid_example = reaches-IsValid packages server path state after file loads reached
