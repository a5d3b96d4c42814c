-- ===== src/Policy/Matching/Explain.antt =====
-- `explain_rule` against `evaluate`: the subcommand `explain` reports what the server decides.
use oidc_ssh_ca.Prelude.{
  is_empty, ◌≡◌, refl, ◌↔◌, inl, inr, Bool, true, false, not, ◌&&◌, Option, none, some, List, ap,
  [], ◌∷◌, arith, if◌then◌else◌, All, Bool-cases, Option-cases, and-true,
}
use oidc_ssh_ca.Prelude.Text.{Text, codes, str_eq, has_str, cut}
use oidc_ssh_ca.Json.{Json, null, bool, num, str, arr, obj, Claims, lookup, string_of, string_claim}
use oidc_ssh_ca.Policy.{JwtMatch, Rule, Policy, is_enabled, is_none}
use oidc_ssh_ca.Policy.Matching.{
  Identity, deny, no_rule_matched, Mismatch, parts_match, repository_string_matches,
  repository_matches, is_text, claims_match, jwt_matches, rule_matches, fails, ◌then_check◌,
  explain_parts, explain_repository_raw, explain_repository, explain_claim, explain_claims,
  explain_jwt, explain_rule, evaluate, admits, explain_option, match_or_false,
}
use oidc_ssh_ca.Policy.Matching.Spec.{rule_matches_iff}
use oidc_ssh_ca.Policy.Matching.Decisions.{Grants, is_enabled_iff, evaluate-deny_iff}

is_none-then_check : (a b : Option Mismatch) → is_none (a then_check b) ≡ (is_none a && is_none b)
is_none-then_check none b = refl
is_none-then_check (some why) b = refl

is_none-fails : (b : Bool) (why : Mismatch) → is_none (fails (not b) why) ≡ b
is_none-fails true why = refl
is_none-fails false why = refl

is_none-explain_claim :
    (claim want : Text) (o : Option Json)
    → is_none (explain_claim claim want o) ≡ is_text (string_of o) want
is_none-explain_claim claim want none = refl
is_none-explain_claim claim want (some (str got)) = is_none-fails (str_eq got want) _
is_none-explain_claim claim want (some null) = refl
is_none-explain_claim claim want (some (bool b)) = refl
is_none-explain_claim claim want (some (num n)) = refl
is_none-explain_claim claim want (some (arr xs)) = refl
is_none-explain_claim claim want (some (obj fs)) = refl

is_none-explain_claims :
    (claims : Claims) (es : List (Text × Text))
    → is_none (explain_claims claims es) ≡ claims_match claims es
unfolding explain_claims claims_match string_claim
is_none-explain_claims claims [] = refl
is_none-explain_claims claims ((claim, want) ∷ es) =
    rw
      (is_none-then_check _ _, is_none-explain_claim claim want _, is_none-explain_claims claims es)
      (and_if (is_text (string_of (lookup claim claims)) want) (claims_match claims es))
  where
    and_if : (b c : Bool) → (b && c) ≡ (if b then c else false)
    and_if true c = refl
    and_if false c = refl

is_none-explain_parts :
    (m : JwtMatch) (repo : Text) (halves : Option (Text × Text))
    → is_none (explain_parts m repo halves) ≡ parts_match m halves
is_none-explain_parts m repo none = refl
is_none-explain_parts m repo (some (owner, name)) = rw (
  is_none-then_check _ _,
  is_none-fails (admits m.owner owner) _,
  is_none-fails (admits m.repo_name name) _,
)

is_none-explain_raw :
    (m : JwtMatch) (o : Option Json)
    → is_none (explain_repository_raw m o) ≡ repository_string_matches m (string_of o)
is_none-explain_raw m none = refl
is_none-explain_raw m (some (str repo)) = is_none-explain_parts m repo (cut b'/' repo)
is_none-explain_raw m (some null) = refl
is_none-explain_raw m (some (bool b)) = refl
is_none-explain_raw m (some (num n)) = refl
is_none-explain_raw m (some (arr xs)) = refl
is_none-explain_raw m (some (obj fs)) = refl

is_none-explain_repository :
    (m : JwtMatch) (claims : Claims)
    → is_none (explain_repository m claims) ≡ repository_matches m claims
unfolding explain_repository repository_matches string_claim
is_none-explain_repository m claims = elim (Bool-cases (is_empty m.owner && is_empty m.repo_name)) [
  | inl free ↦ rw free
  | inr bound ↦ rw bound (is_none-explain_raw m (lookup (codes "repository") claims))
]

jwt_tests :
    (e a b c d : Bool)
    → (e && a && b && c && d)
      ≡ (e && (if not a then false else if not b then false else if not c then false else d))
jwt_tests e a b c d = ground arith

is_none-explain_jwt :
    (e : Bool) (m : JwtMatch) (id : Identity)
    → is_none (explain_jwt e m id) ≡ (e && jwt_matches m id)
unfolding explain_jwt jwt_matches
is_none-explain_jwt e m id =
    rw
      (
        is_none-then_check _ (explain_claims id.claims m.claims_exact),
        is_none-then_check _ (explain_repository m id.claims),
        is_none-then_check _ (fails (not (has_str id.audiences m.audience)) _),
        is_none-then_check _ _,
        is_none-fails e _,
        is_none-fails (str_eq m.issuer id.issuer) _,
        is_none-fails (has_str id.audiences m.audience) _,
        is_none-explain_repository m id.claims,
        is_none-explain_claims id.claims m.claims_exact,
      )
      (jwt_tests e (str_eq m.issuer id.issuer) (has_str id.audiences m.audience)
        (repository_matches m id.claims) (claims_match id.claims m.claims_exact))

and-false : (b : Bool) → false ≡ (b && false)
and-false true = refl
and-false false = refl

is_none-explain_option :
    (o : Option JwtMatch) (r : Rule) (id : Identity)
    → is_none (explain_option o r id) ≡ (is_enabled r && match_or_false o id)
is_none-explain_option none r id = and-false (is_enabled r)
is_none-explain_option (some m) r id = is_none-explain_jwt (is_enabled r) m id

is_none-explain_rule :
    (r : Rule) (id : Identity) → is_none (explain_rule r id) ≡ (is_enabled r && rule_matches r id)
unfolding explain_rule rule_matches
is_none-explain_rule r id = is_none-explain_option r.match.jwt r id

none_of_is_none : (o : Option Mismatch) → is_none o ≡ true → o ≡ none
none_of_is_none none h = refl
none_of_is_none (some why) h = cc

-- `explain` finds nothing wrong with a rule exactly when the server would count the rule as a match:
-- the rule is enabled and matches.
pub explain_rule_iff : (r : Rule) (id : Identity) → (explain_rule r id ≡ none) ↔ Grants id r
explain_rule_iff r id = (
  λ h.
      let same : (is_enabled r && rule_matches r id) ≡ true =
        cc (is_none-explain_rule r id, ap is_none h) in
      let (e, m) = and-true same in ((is_enabled_iff r).0 e, (rule_matches_iff r id).0 m),
  λ (e, m).
      none_of_is_none (explain_rule r id)
        (rw (is_none-explain_rule r id, (is_enabled_iff r).1 e, (rule_matches_iff r id).1 m)),
)

reasons_given :
    (rules : List Rule) (id : Identity)
    → All (λ r. ¬ (Grants id r)) rules
    → All (λ r. (why : Mismatch) × (explain_rule r id ≡ some why)) rules
reasons_given [] id h = tt
reasons_given (r ∷ rs) id (h, hs) = (
  elim (Option-cases (explain_rule r id)) [
    | inl fine ↦ absurd (h ((explain_rule_iff r id).0 fine))
    | inr bad ↦ bad
  ],
  reasons_given rs id hs,
)

-- When the server denies because no rule matched, `explain` gives a reason for every rule of the
-- policy.
pub no_rule_matched-explained :
    (p : Policy) (id : Identity) (names : List Text)
    → evaluate p id ≡ deny no_rule_matched names
    → All (λ r. (why : Mismatch) × (explain_rule r id ≡ some why)) p.rules
no_rule_matched-explained p id names h =
    let (_, no_rule, _) = evaluate-deny_iff p id in
    reasons_given p.rules id (no_rule.0 (names, h)).1
