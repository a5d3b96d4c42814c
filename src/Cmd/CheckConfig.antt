-- ===== src/Cmd/CheckConfig.antt =====
-- cmd/oidc-ssh-ca/checkconfig.go. `m.ClaimsExact` of a rule without `match.jwt` is a nil dereference:
-- it panics, which is `none`.
pub mod Warnings
use oidc_ssh_ca.Prelude.{
  ◌&&◌, Option, none, some, List, [], ◌∷◌, ◌++◌, map, is_empty, length, if◌then◌else◌, Result, ok,
  err,
}
use oidc_ssh_ca.Prelude.Text.{Text, codes, has_str}
use oidc_ssh_ca.Policy.{
  JwtMatch, Rule, Policy, is_enabled, valid_after_offset_seconds, max_valid_for_seconds,
  allowed_public_key_types, valid_for_seconds_for, key_id_template_for, source_address_for,
}
use oidc_ssh_ca.Policy.KeyId.{TemplateError, template_vars}
use oidc_ssh_ca.Policy.Loading.{Sources, LoadError, load}
use oidc_ssh_ca.Issuer.Certificates.{nonempty}
use oidc_ssh_ca.Cmd.{
  Warning, unknown_claim, matches_all, Extra, forced, from_addresses, Line, policy_ok, disabled_is,
  offset_is, max_is, key_types_are, rule_is, warning, done, panicked, failed, usage, bad_policy,
  Ran,
}

unfoldable pub known_github_claims : List Text
known_github_claims =
    codes "sub"
    ∷ codes "aud"
    ∷ codes "iss"
    ∷ codes "jti"
    ∷ codes "repository"
    ∷ codes "repository_owner"
    ∷ codes "repository_id"
    ∷ codes "repository_owner_id"
    ∷ codes "repository_visibility"
    ∷ codes "ref"
    ∷ codes "ref_type"
    ∷ codes "ref_protected"
    ∷ codes "sha"
    ∷ codes "workflow"
    ∷ codes "workflow_ref"
    ∷ codes "workflow_sha"
    ∷ codes "job_workflow_ref"
    ∷ codes "job_workflow_sha"
    ∷ codes "event_name"
    ∷ codes "environment"
    ∷ codes "actor"
    ∷ codes "actor_id"
    ∷ codes "run_id"
    ∷ codes "run_number"
    ∷ codes "run_attempt"
    ∷ codes "head_ref"
    ∷ codes "base_ref"
    ∷ codes "runner_environment"
    ∷ codes "enterprise"
    ∷ []

-- `vars, _ := policy.TemplateVars(...)`
abbrev pub vars_or_nil : Result TemplateError (List Text) → List Text
vars_or_nil (err why) = []
vars_or_nil (ok vars) = vars

unfoldable pub claim_warnings : Text → List Text → List Warning
claim_warnings rule [] = []
claim_warnings rule (v ∷ vars) =
    let rest = claim_warnings rule vars in
    if has_str known_github_claims v then rest else unknown_claim rule v ∷ rest

abbrev pub match_warnings : Text → Option JwtMatch → Option (List Warning)
match_warnings rule none = none
match_warnings rule (some m) = some (
    if is_empty m.claims_exact && is_empty m.owner && is_empty m.repo_name
    then matches_all rule ∷ []
    else [])

abbrev pub append_if :
    Option (List Warning) → List Warning → Option (List Warning) → Option (List Warning)
append_if none claims rest = none
append_if (some own) claims none = none
append_if (some own) claims (some rest) = some (claims ++ own ++ rest)

-- the first loop
unfoldable pub warnings_of : Policy → List Rule → Option (List Warning)
warnings_of p [] = some []
warnings_of p (r ∷ rs) =
    append_if (match_warnings r.name r.match.jwt)
      (claim_warnings r.name (vars_or_nil (template_vars (key_id_template_for p r))))
      (warnings_of p rs)

abbrev pub rule_extra : Policy → Rule → List Extra
rule_extra p r =
    (if nonempty r.certificate.force_command then forced r.certificate.force_command ∷ [] else [])
    ++ (if nonempty (source_address_for p r)
        then from_addresses (source_address_for p r) ∷ []
        else [])

abbrev pub rule_line : Policy → Rule → Line
rule_line p r =
    rule_is r.name (is_enabled r) r.certificate.principals (valid_for_seconds_for p r)
      (rule_extra p r)

unfoldable pub config_lines : Policy → List Warning → List Line
config_lines p ws =
    (policy_ok (length p.rules)
      ∷ disabled_is p.disabled
      ∷ offset_is (valid_after_offset_seconds p)
      ∷ max_is (max_valid_for_seconds p)
      ∷ key_types_are (allowed_public_key_types p)
      ∷ [])
    ++ map (rule_line p) p.rules
    ++ map warning ws

module _ {E : Type 0} where
  abbrev pub show_config : Policy → Option (List Warning) → Ran E
  show_config p none = ([], panicked)
  show_config p (some ws) = (config_lines p ws, done)

  abbrev pub check_loaded : Result (LoadError E) Policy → Ran E
  check_loaded (err why) = ([], failed (bad_policy why))
  check_loaded (ok p) = show_config p (warnings_of p p.rules)

  unfoldable pub check_config : Sources E → List Text → Ran E
  check_config from (path ∷ []) = check_loaded (load from path)
  check_config from _ = ([], failed (usage (codes "usage: oidc-ssh-ca check-config policy.yaml")))
