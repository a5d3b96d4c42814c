-- ===== src/Policy/Validation/Tests.antt =====
-- A valid policy and some invalid ones.
use oidc_ssh_ca.Prelude.{◌≡◌, refl, ◌↔◌, false, none, some, List, [], ◌∷◌, ok, err}
use oidc_ssh_ca.Prelude.Int.{ℤ, pos}
use oidc_ssh_ca.Prelude.Text.{Text, codes, str_eq, has_byte, has_str, contains_str}
use oidc_ssh_ca.Net.{is_cidr}
use oidc_ssh_ca.Policy.{
  Rule, Policy, max_valid_for_seconds, allowed_public_key_types, valid_for_seconds_for,
  key_id_template_for, source_address_for,
}
use oidc_ssh_ca.Policy.KeyId.{template_vars}
use oidc_ssh_ca.Policy.Validation.{
  validate, validate_head, validate_rules, validate_rule, validate_match, validate_claims,
  validate_certificate, validate_principals, validate_key_types, validate_force_command,
  validate_source_address, has_control, is_rule_name_char, is_principal_char, duplicate_name,
  ttl_exceeds, ttl_required, in_rule, bad_source, not_cidr, no_rules, bad_command, claim_template,
}
use oidc_ssh_ca.Policy.Validation.Valid.{IsValid, validate_iff}

validation : Unit {0}
unfolding validate validate_head validate_rules validate_rule validate_match validate_claims
    validate_certificate validate_principals validate_key_types validate_force_command
    validate_source_address has_control is_rule_name_char is_principal_char template_vars
    max_valid_for_seconds allowed_public_key_types valid_for_seconds_for key_id_template_for
    source_address_for str_eq has_byte has_str contains_str is_cidr
validation = tt

abbrev rule : Text → ℤ → Text → List Text → Rule
rule name ttl command sources = record {
  name = name;
  enabled = none;
  match = record {
    jwt = some (record {
      issuer = codes "https://idp";
      audience = codes "ca";
      owner = codes "org";
      repo_name = [];
      claims_exact = (codes "ref", codes "main") ∷ [];
    });
  };
  certificate = record {
    principals = codes "deploy" ∷ [];
    valid_for_seconds = some ttl;
    key_id_template = codes "gha:${ref}";
    extensions = none;
    force_command = command;
    source_address = sources;
  };
}

abbrev policy : List Rule → Policy
policy rules = record {
  version = pos 1;
  disabled = false;
  defaults = record {
    valid_after_offset_seconds = none;
    max_valid_for_seconds = none;
    allowed_public_key_types = [];
    extensions = none;
    valid_for_seconds = none;
    key_id_template = [];
    source_address = codes "192.0.2.0/24" ∷ [];
  };
  rules = rules;
}

abbrev prod : Rule
prod = rule (codes "prod") (pos 600) (codes "uptime") []

abbrev dev : Rule
dev = rule (codes "dev") (pos 900) [] (codes "2001:db8::/32" ∷ [])

accepted : validate (policy (prod ∷ dev ∷ [])) ≡ ok tt
unfolding validation
accepted = refl

refused :
    (validate (policy []) ≡ err no_rules)
    × (validate (policy (prod ∷ prod ∷ [])) ≡ err (duplicate_name (codes "prod")))
    × (validate (policy (rule (codes "a") (pos 901) [] [] ∷ []))
        ≡ err (in_rule (codes "a") (ttl_exceeds (pos 901) (pos 900))))
    × (validate (policy (rule (codes "a") (pos 0) [] [] ∷ []))
        ≡ err (in_rule (codes "a") ttl_required))
    × (validate (policy (rule (codes "a") (pos 1) (codes "x${ref}") [] ∷ []))
        ≡ err (in_rule (codes "a") (bad_command claim_template)))
    × (validate (policy (rule (codes "a") (pos 1) [] (codes "192.0.2.1" ∷ []) ∷ []))
        ≡ err (in_rule (codes "a") (bad_source (not_cidr (codes "192.0.2.1")))))
unfolding validation
refused = (refl, refl, refl, refl, refl, refl)

validate_iff_example :
    (validate (policy (prod ∷ dev ∷ [])) ≡ ok tt) ↔ IsValid (policy (prod ∷ dev ∷ []))
validate_iff_example = validate_iff (policy (prod ∷ dev ∷ []))
