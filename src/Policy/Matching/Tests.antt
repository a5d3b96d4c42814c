-- ===== src/Policy/Matching/Tests.antt =====
-- Decisions about a small policy, and the theorems at them.
use mathlib.Core.List.{Permᴰ}
use oidc_ssh_ca.Policy.Matching.Order.{outcome, evaluate-Permᴰ}
use oidc_ssh_ca.Prelude.{◌≡◌, refl, ◌↔◌, true, false, none, some, List, [], ◌∷◌, All}
use oidc_ssh_ca.Prelude.Int.{pos}
use oidc_ssh_ca.Prelude.Text.{Text, codes, str_eq, has_str, cut}
use oidc_ssh_ca.Json.{str, num, string_claim}
use oidc_ssh_ca.Policy.{Certificate, Rule, Policy, Defaults, is_enabled}
use oidc_ssh_ca.Policy.Matching.{
  Identity, allow, deny, no_rule_matched, multiple_rules_matched, policy_disabled, claim_mismatch,
  repository_matches, claims_match, jwt_matches, rule_matches, matched_rules, decide, evaluate,
  explain_rule, explain_jwt, explain_claims, explain_repository,
}
use oidc_ssh_ca.Policy.Matching.Spec.{Matches, rule_matches_iff}
use oidc_ssh_ca.Policy.Matching.Decisions.{
  Grants, Only, Several, evaluate-allow_iff, evaluate-deny_iff,
}
use oidc_ssh_ca.Policy.Matching.Explain.{explain_rule_iff}

matching : Unit {0}
unfolding evaluate decide matched_rules rule_matches jwt_matches claims_match repository_matches
    is_enabled str_eq has_str cut string_claim explain_rule explain_jwt explain_claims
    explain_repository
matching = tt

abbrev certificate : Certificate
certificate = record {
  principals = codes "deploy" ∷ [];
  valid_for_seconds = some (pos 600);
  key_id_template = codes "gha:${ref}";
  extensions = none;
  force_command = [];
  source_address = [];
}

abbrev rule : Text → Text → Text → Rule
rule name owner ref = record {
  name = name;
  enabled = none;
  match = record {
    jwt = some (record {
      issuer = codes "https://idp";
      audience = codes "ca";
      owner = owner;
      repo_name = [];
      claims_exact = (codes "ref", ref) ∷ [];
    });
  };
  certificate = certificate;
}

abbrev defaults : Defaults
defaults = record {
  valid_after_offset_seconds = none;
  max_valid_for_seconds = none;
  allowed_public_key_types = [];
  extensions = none;
  valid_for_seconds = none;
  key_id_template = [];
  source_address = [];
}

abbrev policy : List Rule → Policy
policy rules = record { version = pos 1; disabled = false; defaults = defaults; rules = rules }

abbrev prod : Rule
prod = rule (codes "prod") (codes "org") (codes "main")

abbrev dev : Rule
dev = rule (codes "dev") [] (codes "dev")

abbrev caller : Identity
caller = record {
  issuer = codes "https://idp";
  audiences = codes "other" ∷ codes "ca" ∷ [];
  claims =
      (codes "repository", str (codes "org/app"))
      ∷ (codes "ref", str (codes "main"))
      ∷ (codes "run", num 1)
      ∷ [];
}

one_match : evaluate (policy (dev ∷ prod ∷ [])) caller ≡ allow prod (codes "prod" ∷ [])
unfolding matching
one_match = refl

no_match : evaluate (policy (dev ∷ [])) caller ≡ deny no_rule_matched []
unfolding matching
no_match = refl

two_matches :
    evaluate (policy (prod ∷ prod ∷ [])) caller
    ≡ deny multiple_rules_matched (codes "prod" ∷ codes "prod" ∷ [])
unfolding matching
two_matches = refl

first_reason :
    explain_rule dev caller ≡ some (claim_mismatch (codes "ref") (codes "dev") (codes "main"))
unfolding matching
first_reason = refl

rule_matches_iff_example : (rule_matches prod caller ≡ true) ↔ Matches prod caller
rule_matches_iff_example = rule_matches_iff prod caller

evaluate-allow_iff_example :
    (evaluate (policy (dev ∷ prod ∷ [])) caller ≡ allow prod (codes "prod" ∷ [])) ↔ (
      ((policy (dev ∷ prod ∷ [])).disabled ≡ false)
      × Only caller (dev ∷ prod ∷ []) prod
      × (codes "prod" ∷ [] ≡ prod.name ∷ []))
evaluate-allow_iff_example =
    evaluate-allow_iff (policy (dev ∷ prod ∷ [])) caller prod (codes "prod" ∷ [])

evaluate-deny_iff_example :
    (((names : List Text) × (evaluate (policy (dev ∷ [])) caller ≡ deny policy_disabled names))
      ↔ ((policy (dev ∷ [])).disabled ≡ true))
    × (((names : List Text) × (evaluate (policy (dev ∷ [])) caller ≡ deny no_rule_matched names))
        ↔ (((policy (dev ∷ [])).disabled ≡ false) × All (λ r. ¬ (Grants caller r)) (dev ∷ [])))
    × (((names : List Text) × (evaluate (policy (dev ∷ [])) caller
            ≡ deny multiple_rules_matched names))
        ↔ (((policy (dev ∷ [])).disabled ≡ false) × Several caller (dev ∷ [])))
evaluate-deny_iff_example = evaluate-deny_iff (policy (dev ∷ [])) caller

explain_rule_iff_example : (explain_rule prod caller ≡ none) ↔ Grants caller prod
explain_rule_iff_example = explain_rule_iff prod caller

evaluate-Permᴰ_example :
    outcome (evaluate (policy (prod ∷ dev ∷ [])) caller)
    ≡ outcome (evaluate (policy (dev ∷ prod ∷ [])) caller)
evaluate-Permᴰ_example =
    evaluate-Permᴰ (policy (prod ∷ dev ∷ [])) (policy (dev ∷ prod ∷ [])) caller
      (Permᴰ.swap refl refl) refl
