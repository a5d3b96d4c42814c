-- ===== src/Policy/Matching/Spec.antt =====
-- When a rule matches an identity, said without the code.
use oidc_ssh_ca.Prelude.{
  is_empty_iff, is_empty, ◌≡◌, refl, ◌↔◌, ◌⊎◌, inl, inr, Bool, true, false, ◌&&◌, Option, none,
  some, List, [], ◌∷◌, ◌++◌, arith, if◌then◌else◌, All, Bool-cases, Option-cases, and-true,
}
use oidc_ssh_ca.Prelude.Text.{
  Text, codes, str_eq, has_str, cut, Listed, has_str_iff, Lacks, cut_iff, str_eq_iff,
}
use oidc_ssh_ca.Json.{str, Claims, lookup, string_claim, string_claim_iff}
use oidc_ssh_ca.Policy.{JwtMatch, Rule}
use oidc_ssh_ca.Policy.Matching.{
  Identity, admits, parts_match, repository_string_matches, repository_matches, is_text,
  claims_match, jwt_matches, rule_matches,
}

-- An empty condition is no constraint.
abbrev pub Admits : Text → Text → Type 0
Admits want got = (want ≡ []) ⊎ (want ≡ got)

-- The claim `repository` is a string with a `/`, and its halves at the first `/` are as wanted.
pub record RepositoryIs (m : JwtMatch) (claims : Claims) : Type 0 where
  pub owner : Text
  pub name : Text
  pub found : lookup (codes "repository") claims ≡ some (str (owner ++ b'/' ∷ name))
  pub first : Lacks b'/' owner
  pub owner_admitted : Admits m.owner owner
  pub name_admitted : Admits m.repo_name name

pub record JwtMatches (m : JwtMatch) (id : Identity) : Type 0 where
  pub same_issuer : m.issuer ≡ id.issuer
  pub audience_listed : Listed m.audience id.audiences
  pub repository : ((m.owner ≡ []) × (m.repo_name ≡ [])) ⊎ RepositoryIs m id.claims
  pub exact : All (λ e. lookup e.0 id.claims ≡ some (str e.1)) m.claims_exact

pub record Matches (r : Rule) (id : Identity) : Type 0 where
  pub jwt : JwtMatch
  pub present : r.match.jwt ≡ some jwt
  pub matches : JwtMatches jwt id

admits_iff : (want got : Text) → (admits want got ≡ true) ↔ Admits want got
admits_iff want got = (
  λ h. ground (arith, is_empty_iff want, str_eq_iff want got),
  λ h. ground (arith, is_empty_iff want, str_eq_iff want got),
)

is_text_iff : (o : Option Text) (want : Text) → (is_text o want ≡ true) ↔ (o ≡ some want)
is_text_iff none want = (λ h. cc, λ h. cc)
is_text_iff (some got) want =
    (λ h. ground (arith, str_eq_iff got want), λ h. ground (arith, str_eq_iff got want))

claims_match_iff :
    (claims : Claims) (es : List (Text × Text))
    → (claims_match claims es ≡ true) ↔ All (λ e. lookup e.0 claims ≡ some (str e.1)) es
unfolding claims_match
claims_match_iff claims [] = (λ _. tt, λ _. refl)
claims_match_iff claims ((claim, want) ∷ es) =
    let held = is_text_iff (string_claim claims claim) want in
    let text = string_claim_iff claims claim want in
    let later = claims_match_iff claims es in
    (
      λ h. let (now, rest) = if_false h in (text.0 (held.0 now), later.0 rest),
      λ h. rw (held.1 (text.1 h.0)) (later.1 h.1),
    )
  where
    if_false : {b c : Bool} → (if b then c else false) ≡ true → (b ≡ true) × (c ≡ true)
    if_false {b} {c} h = ground arith

repository_string_sound :
    (m : JwtMatch) (claims : Claims)
    → repository_string_matches m (string_claim claims (codes "repository")) ≡ true
    → RepositoryIs m claims
repository_string_sound m claims h =
    elim (Option-cases (string_claim claims (codes "repository"))) [
      | inl none_there ↦ absurd (cc (rw none_there at h))
      | inr (repo, there) ↦
          let parts : parts_match m (cut b'/' repo) ≡ true = rw there at h in
          elim (Option-cases (cut b'/' repo)) [
            | inl whole ↦ absurd (cc (rw whole at parts))
            | inr ((owner, name), halves) ↦
                let both : (admits m.owner owner && admits m.repo_name name) ≡ true =
                  rw halves at parts in
                let (owner_fits, name_fits) = and-true both in
                let (spelled, lacks) = (cut_iff b'/' repo owner name).0 halves in
                record {
                  owner = owner;
                  name = name;
                  found = rw spelled at ((string_claim_iff claims _ repo).0 there);
                  first = lacks;
                  owner_admitted = (admits_iff m.owner owner).0 owner_fits;
                  name_admitted = (admits_iff m.repo_name name).0 name_fits;
                }
          ]
    ]

repository_string_complete :
    (m : JwtMatch) (claims : Claims)
    → RepositoryIs m claims
    → repository_string_matches m (string_claim claims (codes "repository")) ≡ true
repository_string_complete m claims r =
    rw
      (
        (string_claim_iff claims (codes "repository") (r.owner ++ b'/' ∷ r.name)).1 r.found,
        (cut_iff b'/' (r.owner ++ b'/' ∷ r.name) r.owner r.name).1 (refl, r.first),
        (admits_iff m.owner r.owner).1 r.owner_admitted,
      )
      ((admits_iff m.repo_name r.name).1 r.name_admitted)

repository_iff :
    (m : JwtMatch) (claims : Claims)
    → (repository_matches m claims ≡ true)
      ↔ (((m.owner ≡ []) × (m.repo_name ≡ [])) ⊎ RepositoryIs m claims)
repository_iff m claims = elim (Bool-cases (is_empty m.owner && is_empty m.repo_name)) [
  | inl free ↦
      let (o, n) = and-true free in
      (
        λ h. inl ((is_empty_iff m.owner).0 o, (is_empty_iff m.repo_name).0 n),
        λ h. unfold repository_matches in rw free,
      )
  | inr bound ↦ (
    λ h. inr (repository_string_sound m claims (unfold repository_matches in rw bound at h)),
    λ h. elim h [
      | inl (o, n) ↦ absurd (cc (bound, (is_empty_iff m.owner).1 o, (is_empty_iff m.repo_name).1 n))
      | inr r ↦ unfold repository_matches in rw bound (repository_string_complete m claims r)
    ],
  )
]

jwt_matches_tests :
    (m : JwtMatch) (id : Identity)
    → jwt_matches m id ≡ (
        str_eq m.issuer id.issuer
        && (has_str id.audiences m.audience
            && (repository_matches m id.claims && claims_match id.claims m.claims_exact)))
unfolding jwt_matches
jwt_matches_tests m id = ground arith

pub jwt_matches_iff : (m : JwtMatch) (id : Identity) → (jwt_matches m id ≡ true) ↔ JwtMatches m id
jwt_matches_iff m id = (
  λ h.
      let (a, bcd) = and-true (rw jwt_matches_tests at h) in
      let (b, cd) = and-true bcd in
      let (c, d) = and-true cd in
      record {
        same_issuer = (str_eq_iff _ _).0 a;
        audience_listed = (has_str_iff _ _).0 b;
        repository = (repository_iff m id.claims).0 c;
        exact = (claims_match_iff _ _).0 d;
      },
  λ s.
      rw
        (
          jwt_matches_tests m id,
          (str_eq_iff _ _).1 s.same_issuer,
          (has_str_iff _ _).1 s.audience_listed,
          (repository_iff m id.claims).1 s.repository,
        )
        ((claims_match_iff _ _).1 s.exact),
)

-- A rule matches an identity exactly when it has a `match.jwt` whose issuer is the identity's,
-- whose audience is one of the identity's, whose `owner` and `reponame`, where not empty, are the
-- two halves of the string claim `repository` at its first `/`, and each of whose `claims_exact`
-- is a string claim of that value: an absent claim satisfies nothing.
pub rule_matches_iff : (r : Rule) (id : Identity) → (rule_matches r id ≡ true) ↔ Matches r id
unfolding rule_matches
rule_matches_iff r id = elim (Option-cases r.match.jwt) [
  | inl missing ↦ (λ h. absurd (cc (rw missing at h)), λ s. absurd (cc (missing, s.present)))
  | inr (m, present) ↦ (
    λ h. record {
      jwt = m;
      present = present;
      matches = (jwt_matches_iff m id).0 (rw present at h);
    },
    λ s. rw s.present ((jwt_matches_iff s.jwt id).1 s.matches),
  )
]
