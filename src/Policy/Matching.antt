-- ===== src/Policy/Matching.antt =====
-- internal/policy/match.go: which rules an identity matches, and the decision.
pub mod Spec
pub mod Decisions
pub mod Explain
pub mod Order
mod Tests
use oidc_ssh_ca.Prelude.{
  is_empty, ℕ, Bool, true, false, not, ◌&&◌, ◌||◌, Option, none, some, List, [], ◌∷◌, map,
  if◌then◌else◌,
}
use oidc_ssh_ca.Prelude.Text.{Text, codes, str_eq, has_str, cut}
use oidc_ssh_ca.Json.{Json, Claims, lookup, as_string, string_of, string_claim}
use oidc_ssh_ca.Policy.{JwtMatch, Rule, Policy, is_enabled}

pub record Identity : Type 0 where
  pub issuer : Text
  pub audiences : List Text
  pub claims : Claims

pub data Reason : Type 0 where
  policy_disabled no_rule_matched multiple_rules_matched : Reason

-- `Allowed` with its rule, or a denial with its reason; the names of the matching rules are kept.
pub data Decision : Type 0 where
  allow : Rule → List Text → Decision
  deny : Reason → List Text → Decision

-- `want != "" && want != got` fails the match
abbrev pub admits : Text → Text → Bool
admits want got = is_empty want || str_eq want got

abbrev pub parts_match : JwtMatch → Option (Text × Text) → Bool
parts_match m none = false
parts_match m (some (owner, name)) = admits m.owner owner && admits m.repo_name name

abbrev pub repository_string_matches : JwtMatch → Option Text → Bool
repository_string_matches m none = false
repository_string_matches m (some repo) = parts_match m (cut b'/' repo)

-- the block under `if m.Owner != "" || m.RepoName != ""`
unfoldable pub repository_matches : JwtMatch → Claims → Bool
repository_matches m claims =
    if is_empty m.owner && is_empty m.repo_name
    then true
    else repository_string_matches m (string_claim claims (codes "repository"))

abbrev pub is_text : Option Text → Text → Bool
is_text none want = false
is_text (some got) want = str_eq got want

-- the loop over `ClaimsExact`
unfoldable pub claims_match : Claims → List (Text × Text) → Bool
claims_match claims [] = true
claims_match claims ((claim, want) ∷ rest) =
    if is_text (string_claim claims claim) want then claims_match claims rest else false

unfoldable pub jwt_matches : JwtMatch → Identity → Bool
jwt_matches m id =
    if not (str_eq m.issuer id.issuer)
    then false
    else if not (has_str id.audiences m.audience)
    then false
    else if not (repository_matches m id.claims)
    then false
    else claims_match id.claims m.claims_exact

abbrev match_or_false : Option JwtMatch → Identity → Bool
match_or_false none id = false
match_or_false (some m) id = jwt_matches m id

unfoldable pub rule_matches : Rule → Identity → Bool
rule_matches r id = match_or_false r.match.jwt id

-- the loop of `Evaluate`
unfoldable pub matched_rules : List Rule → Identity → List Rule
matched_rules [] id = []
matched_rules (r ∷ rs) id =
    let rest = matched_rules rs id in
    if not (is_enabled r) then rest else if rule_matches r id then r ∷ rest else rest

abbrev rule_name : Rule → Text
rule_name r = r.name

-- the `switch` on the number of matches
unfoldable pub decide : List Rule → Decision
decide [] = deny no_rule_matched []
decide (r ∷ []) = allow r (r.name ∷ [])
decide (r ∷ s ∷ rs) = deny multiple_rules_matched (map rule_name (r ∷ s ∷ rs))

unfoldable pub evaluate : Policy → Identity → Decision
evaluate p id = if p.disabled then deny policy_disabled [] else decide (matched_rules p.rules id)

pub data Mismatch : Type 0 where
  no_match_jwt rule_disabled : Mismatch
  issuer_mismatch : (want got : Text) → Mismatch
  audience_mismatch : (want : Text) (got : List Text) → Mismatch
  claim_absent claim_not_string : Text → Mismatch
  no_slash : (repo : Text) → Mismatch
  owner_mismatch repo_name_mismatch : (want got : Text) → Mismatch
  claim_mismatch : (claim want got : Text) → Mismatch

-- The second result: the first failing condition, `none` for "".
abbrev Verdict : Type 0
Verdict = Option Mismatch

infixl 20 ◌then_check◌
abbrev pub ◌then_check◌ : Option Mismatch → Option Mismatch → Option Mismatch
none then_check rest = rest
some why then_check rest = some why

abbrev pub fails : Bool → Mismatch → Option Mismatch
fails true why = some why
fails false why = none

abbrev pub explain_parts : JwtMatch → Text → Option (Text × Text) → Option Mismatch
explain_parts m repo none = some (no_slash repo)
explain_parts m repo (some (owner, name)) =
    fails (not (admits m.owner owner)) (owner_mismatch m.owner owner)
    then_check fails (not (admits m.repo_name name)) (repo_name_mismatch m.repo_name name)

abbrev pub explain_repository_string : JwtMatch → Option Text → Option Mismatch
explain_repository_string m none = some (claim_not_string (codes "repository"))
explain_repository_string m (some repo) = explain_parts m repo (cut b'/' repo)

abbrev pub explain_repository_raw : JwtMatch → Option Json → Option Mismatch
explain_repository_raw m none = some (claim_absent (codes "repository"))
explain_repository_raw m (some raw) = explain_repository_string m (as_string raw)

unfoldable pub explain_repository : JwtMatch → Claims → Option Mismatch
explain_repository m claims =
    if is_empty m.owner && is_empty m.repo_name
    then none
    else explain_repository_raw m (lookup (codes "repository") claims)

abbrev pub explain_claim_string : Text → Text → Option Text → Option Mismatch
explain_claim_string claim want none = some (claim_not_string claim)
explain_claim_string claim want (some got) =
    fails (not (str_eq got want)) (claim_mismatch claim want got)

abbrev pub explain_claim : Text → Text → Option Json → Option Mismatch
explain_claim claim want none = some (claim_absent claim)
explain_claim claim want (some raw) = explain_claim_string claim want (as_string raw)

unfoldable pub explain_claims : Claims → List (Text × Text) → Option Mismatch
explain_claims claims [] = none
explain_claims claims ((claim, want) ∷ rest) =
    explain_claim claim want (lookup claim claims) then_check explain_claims claims rest

unfoldable pub explain_jwt : Bool → JwtMatch → Identity → Option Mismatch
explain_jwt enabled m id =
    fails (not enabled) rule_disabled
    then_check fails (not (str_eq m.issuer id.issuer)) (issuer_mismatch m.issuer id.issuer)
    then_check fails (not (has_str id.audiences m.audience))
        (audience_mismatch m.audience id.audiences)
    then_check explain_repository m id.claims
    then_check explain_claims id.claims m.claims_exact

abbrev explain_option : Option JwtMatch → Rule → Identity → Option Mismatch
explain_option none r id = some no_match_jwt
explain_option (some m) r id = explain_jwt (is_enabled r) m id

-- `ExplainRule`: `none` is `(true, "")`, and `some why` is `(false, why)`.
unfoldable pub explain_rule : Rule → Identity → Option Mismatch
explain_rule r id = explain_option r.match.jwt r id
