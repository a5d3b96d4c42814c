-- ===== src/Policy/Validation.antt =====
-- internal/policy/policy.go: `Validate` and the two checks it calls.
pub mod Steps
pub mod Valid
mod Tests
use oidc_ssh_ca.Prelude.{
  is_empty, ℕ, suc, ◌+◌, Bool, true, false, not, ◌&&◌, ◌||◌, Option, none, some, List, [], ◌∷◌,
  ◌++◌, all, leb, ltb, ◌==◌, if◌then◌else◌, length, Result, ok, err, ◌>>=◌, ◌>>◌, check, refuse,
  map_err,
}
use oidc_ssh_ca.Prelude.Text.{Text, codes, has_byte, has_str, contains_str, str_eq}
use oidc_ssh_ca.Prelude.Int.{ℤ, pos, ltb_ℤ, leb_ℤ}
use oidc_ssh_ca.Net.{is_cidr}
use oidc_ssh_ca.Policy.{
  JwtMatch, Certificate, Rule, Policy, Defaults, max_valid_for_seconds, allowed_public_key_types,
  valid_for_seconds_for, key_id_template_for, source_address_for,
}
use oidc_ssh_ca.Policy.KeyId.{
  TemplateError, template_vars, is_upper, is_lower, is_digit, is_nonempty,
}

pub data SourceError : Type 0 where
  empty_entry : SourceError
  not_cidr : Text → SourceError

pub data CommandError : Type 0 where
  claim_template control_character : CommandError

pub data RuleError : Type 0 where
  invalid_name jwt_required issuer_required audience_required : RuleError
  owner_has_slash repo_name_has_slash : Text → RuleError
  empty_claim_name : RuleError
  empty_claim_value : Text → RuleError
  no_principals empty_principal : RuleError
  bad_principal : Text → RuleError
  ttl_required : RuleError
  ttl_exceeds : (ttl most : ℤ) → RuleError
  template_required : RuleError
  bad_template : TemplateError → RuleError
  bad_command : CommandError → RuleError
  bad_source : SourceError → RuleError

pub data PolicyError : Type 0 where
  unsupported_version : ℤ → PolicyError
  max_not_positive : PolicyError
  unsupported_key_type : Text → PolicyError
  default_ttl_not_positive : PolicyError
  default_ttl_exceeds : (ttl most : ℤ) → PolicyError
  default_template : TemplateError → PolicyError
  default_source : SourceError → PolicyError
  no_rules : PolicyError
  name_required : (number : ℕ) → PolicyError
  duplicate_name : Text → PolicyError
  in_rule : (name : Text) → RuleError → PolicyError

abbrev Checked : Type 0 → Type 0
Checked E = Result E (Unit {0})

-- supportedKeyTypes
abbrev pub is_supported_key_type : Text → Bool
is_supported_key_type t = str_eq t (codes "ssh-ed25519")

-- [A-Za-z0-9._-]
unfoldable pub is_rule_name_char : ℕ → Bool
is_rule_name_char c = is_upper c || is_lower c || is_digit c || c == b'.' || c == b'_' || c == b'-'

-- ruleNameRe
abbrev pub is_rule_name : Text → Bool
is_rule_name s = is_nonempty s && all is_rule_name_char s

-- [A-Za-z0-9._@:-]
unfoldable pub is_principal_char : ℕ → Bool
is_principal_char c =
    is_upper c
    || is_lower c
    || is_digit c
    || c == b'.'
    || c == b'_'
    || c == b'@'
    || c == b':'
    || c == b'-'

-- principalRe
abbrev pub is_principal : Text → Bool
is_principal s = is_nonempty s && leb (length s) 128 && all is_principal_char s

-- A rune below 0x20 or 0x7f is a single byte, and the bytes of any other rune are above 0x7f.
abbrev pub is_control : ℕ → Bool
is_control c = ltb c 0x20 || c == 0x7f

unfoldable pub has_control : Text → Bool
has_control [] = false
has_control (c ∷ s) = is_control c || has_control s

unfoldable pub validate_force_command : Text → Checked CommandError
validate_force_command cmd = if is_empty cmd then ok tt else do
  refuse (contains_str (codes "${") cmd) claim_template
  refuse (has_control cmd) control_character

unfoldable pub validate_source_address : List Text → Checked SourceError
validate_source_address [] = ok tt
validate_source_address (c ∷ cs) = do
  refuse (is_empty c) empty_entry
  check (is_cidr c) (not_cidr c)
  validate_source_address cs

unfoldable pub validate_key_types : List Text → Checked PolicyError
validate_key_types [] = ok tt
validate_key_types (t ∷ ts) = do
  check (is_supported_key_type t) (unsupported_key_type t)
  validate_key_types ts

abbrev pub validate_default_ttl : Policy → Option ℤ → Checked PolicyError
validate_default_ttl p none = ok tt
validate_default_ttl p (some ttl) = do
  refuse (leb_ℤ ttl (pos 0)) default_ttl_not_positive
  refuse (ltb_ℤ (max_valid_for_seconds p) ttl) (default_ttl_exceeds ttl (max_valid_for_seconds p))

abbrev pub forget {ℓ κ} : {E : Type ℓ} {A : Type κ} → Result E A → Result E (Unit {0})
forget (ok a) = ok tt
forget (err e) = err e

-- the checks above the loop over the rules
unfoldable pub validate_head : Policy → Checked PolicyError
validate_head p = do
  check (leb_ℤ p.version (pos 1) && leb_ℤ (pos 1) p.version) (unsupported_version p.version)
  refuse (leb_ℤ (max_valid_for_seconds p) (pos 0)) max_not_positive
  validate_key_types (allowed_public_key_types p)
  validate_default_ttl p p.defaults.valid_for_seconds
  if is_empty p.defaults.key_id_template
      then ok tt
      else map_err default_template (forget (template_vars p.defaults.key_id_template))
  map_err default_source (validate_source_address p.defaults.source_address)
  refuse (is_empty p.rules) no_rules

unfoldable pub validate_claims : List (Text × Text) → Checked RuleError
validate_claims [] = ok tt
validate_claims ((claim, v) ∷ rest) = do
  refuse (is_empty claim) empty_claim_name
  refuse (is_empty v) (empty_claim_value claim)
  validate_claims rest

unfoldable pub validate_principals : List Text → Checked RuleError
validate_principals [] = ok tt
validate_principals (s ∷ rest) = do
  refuse (is_empty s) empty_principal
  check (is_principal s) (bad_principal s)
  validate_principals rest

unfoldable pub validate_match : Option JwtMatch → Checked RuleError
validate_match none = err jwt_required
validate_match (some m) = do
  refuse (is_empty m.issuer) issuer_required
  refuse (is_empty m.audience) audience_required
  refuse (has_byte b'/' m.owner) (owner_has_slash m.owner)
  refuse (has_byte b'/' m.repo_name) (repo_name_has_slash m.repo_name)
  validate_claims m.claims_exact

unfoldable pub validate_certificate : Policy → Rule → Checked RuleError
validate_certificate p r = do
  refuse (is_empty r.certificate.principals) no_principals
  validate_principals r.certificate.principals
  refuse (leb_ℤ (valid_for_seconds_for p r) (pos 0)) ttl_required
  refuse (ltb_ℤ (max_valid_for_seconds p) (valid_for_seconds_for p r))
      (ttl_exceeds (valid_for_seconds_for p r) (max_valid_for_seconds p))
  refuse (is_empty (key_id_template_for p r)) template_required
  map_err bad_template (forget (template_vars (key_id_template_for p r)))
  map_err bad_command (validate_force_command r.certificate.force_command)
  map_err bad_source (validate_source_address (source_address_for p r))

-- one round of the loop; `names` are those of the rules above, and `number` counts from 1
unfoldable pub validate_rule : Policy → List Text → ℕ → Rule → Checked PolicyError
validate_rule p names number r = do
  refuse (is_empty r.name) (name_required number)
  check (is_rule_name r.name) (in_rule r.name invalid_name)
  refuse (has_str names r.name) (duplicate_name r.name)
  map_err (in_rule r.name) (validate_match r.match.jwt)
  map_err (in_rule r.name) (validate_certificate p r)

unfoldable pub validate_rules : Policy → List Text → ℕ → List Rule → Checked PolicyError
validate_rules p names number [] = ok tt
validate_rules p names number (r ∷ rs) = do
  validate_rule p names number r
  validate_rules p (r.name ∷ names) (suc number) rs

unfoldable pub validate : Policy → Checked PolicyError
validate p = do validate_head p; validate_rules p [] 1 p.rules
