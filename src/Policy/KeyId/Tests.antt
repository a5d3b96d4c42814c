-- ===== src/Policy/KeyId/Tests.antt =====
-- Runs of the template functions on the inputs of keyid_test.go, and the theorems at such inputs.
use oidc_ssh_ca.Prelude.{◌≡◌, refl, ◌≢◌, ◌↔◌, ◌≤◌, List, [], ◌∷◌, ok, err, length, All}
use oidc_ssh_ca.Prelude.Text.{Text, codes}
use oidc_ssh_ca.Json.{Claims, str, num, lookup}
use oidc_ssh_ca.Policy.KeyId.{
  Segment, lit, var, segments, names, literals, max_key_id_length, template_vars, expand_key_id,
  malformed_variable, bad_literal, invalid_claim_name, claim_missing, claim_not_string,
  claim_bad_value, bad_result,
}
use oidc_ssh_ca.Policy.KeyId.Scan.{Split, segments-Split_iff}
use oidc_ssh_ca.Policy.KeyId.Vars.{IsClaimName, IsKeyIdChar, IsKeyIdValue, template_vars_iff}
use oidc_ssh_ca.Policy.KeyId.Expand.{
  Expands, expand_key_id_iff, expand_key_id-ne-bad_result, expand_key_id_agree,
}

abbrev run_claims : Claims
run_claims =
    (codes "repository", str (codes "your-org/your-repo"))
    ∷ (codes "run_id", str (codes "1234"))
    ∷ (codes "n", num 42)
    ∷ []

abbrev template : Text
template = codes "gha:${repository}:${run_id}"

abbrev expanded : Text
expanded = codes "gha:your-org/your-repo:1234"

vars_good : template_vars template ≡ ok (codes "repository" ∷ codes "run_id" ∷ [])
unfolding template_vars
vars_good = refl

vars_bad :
    (template_vars (codes "x:$repo") ≡ err malformed_variable)
    × (template_vars (codes "x:${}") ≡ err (invalid_claim_name []))
    × (template_vars (codes "x:${a b}") ≡ err (invalid_claim_name (codes "a b")))
    × (template_vars (codes "gha ${run_id}") ≡ err bad_literal)
    × (template_vars (codes "x:${run_id") ≡ err malformed_variable)
unfolding template_vars
vars_bad = (refl, refl, refl, refl, refl)

expand_good : expand_key_id template run_claims ≡ ok expanded
unfolding expand_key_id
expand_good = refl

expand_bad :
    (expand_key_id (codes "gha:${ref}") run_claims ≡ err (claim_missing (codes "ref")))
    × (expand_key_id (codes "${n}${ref}") run_claims ≡ err (claim_not_string (codes "n")))
    × (expand_key_id (codes "${a}") ((codes "a", str []) ∷ []) ≡ err (claim_bad_value (codes "a")))
unfolding expand_key_id
expand_bad = (refl, refl, refl)

abbrev two_segments : List Segment
two_segments = lit b'x' ∷ var (codes "ref") ∷ []

segments-Split_iff_example :
    (segments (codes "x${ref}") ≡ two_segments) ↔ Split (codes "x${ref}") two_segments
segments-Split_iff_example = segments-Split_iff (codes "x${ref}") two_segments

template_vars_iff_example :
    (template_vars template ≡ ok (codes "repository" ∷ codes "run_id" ∷ [])) ↔ (
      (codes "repository" ∷ codes "run_id" ∷ [] ≡ names (segments template))
      × All IsClaimName (codes "repository" ∷ codes "run_id" ∷ [])
      × All IsKeyIdChar (literals (segments template)))
template_vars_iff_example = template_vars_iff template (codes "repository" ∷ codes "run_id" ∷ [])

expand_key_id_iff_example : (expand_key_id template run_claims ≡ ok expanded) ↔ (
    Expands run_claims (segments template) expanded
    × (length expanded ≤ max_key_id_length)
    × IsKeyIdValue expanded)
expand_key_id_iff_example = expand_key_id_iff template run_claims expanded

expand_key_id-ne-bad_result_example : expand_key_id template run_claims ≢ err bad_result
expand_key_id-ne-bad_result_example =
    expand_key_id-ne-bad_result template (codes "repository" ∷ codes "run_id" ∷ []) run_claims (cc)
      vars_good

abbrev more_claims : Claims
more_claims = (codes "actor", str (codes "someone")) ∷ run_claims

same_claims :
    All (λ n. lookup n run_claims ≡ lookup n more_claims) (codes "repository" ∷ codes "run_id" ∷ [])
unfolding lookup
same_claims = (refl, (refl, tt))

expand_key_id_agree_example : expand_key_id template run_claims ≡ expand_key_id template more_claims
expand_key_id_agree_example =
    expand_key_id_agree template (codes "repository" ∷ codes "run_id" ∷ []) run_claims more_claims
      vars_good same_claims
