-- ===== src/Policy/Validation/Steps.antt =====
-- What each loop and helper of `validate` accepts.
use oidc_ssh_ca.Prelude.{
  ℕ, ◌≤◌, ◌≡◌, refl, ◌≢◌, ◌↔◌, ◌⊎◌, true, false, List, [], ◌∷◌, arith, some, leb_iff, All, all_iff,
  length, is_empty, not_empty_iff, ok, and-true, ◌and_then◌, check_iff, refuse_iff,
}
use oidc_ssh_ca.Prelude.Text.{
  Text, codes, str_eq_iff, has_byte, has_byte_iff, Lacks, Contains, contains_str, contains_str_iff,
}
use oidc_ssh_ca.Net.{is_cidr}
use oidc_ssh_ca.Policy.{JwtMatch}
use oidc_ssh_ca.Policy.KeyId.Vars.{Between, nonempty_all_iff}
use oidc_ssh_ca.Policy.Validation.{
  empty_entry, not_cidr, claim_template, control_character, empty_claim_name, empty_claim_value,
  empty_principal, bad_principal, unsupported_key_type, is_supported_key_type, is_rule_name_char,
  is_rule_name, is_principal_char, is_principal, has_control, validate_force_command,
  validate_source_address, validate_key_types, validate_claims, validate_principals, validate_match,
  issuer_required, audience_required, owner_has_slash, repo_name_has_slash,
}

-- a byte of [A-Za-z0-9._-]
abbrev pub IsRuleNameChar : ℕ → Type 0
IsRuleNameChar c =
    Between b'A' b'Z' c
    ⊎ Between b'a' b'z' c
    ⊎ Between b'0' b'9' c
    ⊎ Between b'-' b'.' c
    ⊎ (c ≡ b'_')

-- a byte of [A-Za-z0-9._@:-]; `:` is next to the digits, and `@` to the letters
abbrev pub IsPrincipalChar : ℕ → Type 0
IsPrincipalChar c =
    Between b'@' b'Z' c
    ⊎ Between b'a' b'z' c
    ⊎ Between b'0' b':' c
    ⊎ Between b'-' b'.' c
    ⊎ (c ≡ b'_')

abbrev pub IsRuleName : Text → Type 0
IsRuleName s = (s ≢ []) × All IsRuleNameChar s

abbrev pub IsPrincipal : Text → Type 0
IsPrincipal s = (s ≢ []) × (length s ≤ 128) × All IsPrincipalChar s

-- no control character, and no `${`
abbrev pub IsPlainCommand : Text → Type 0
IsPlainCommand s = (¬ (Contains (codes "${") s)) × All (λ c. (0x20 ≤ c) × (c ≢ 0x7f)) s

is_rule_name_char_iff : (c : ℕ) → (is_rule_name_char c ≡ true) ↔ IsRuleNameChar c
unfolding is_rule_name_char
is_rule_name_char_iff c = (λ h. ground arith, λ h. ground arith)

is_principal_char_iff : (c : ℕ) → (is_principal_char c ≡ true) ↔ IsPrincipalChar c
unfolding is_principal_char
is_principal_char_iff c = (λ h. ground arith, λ h. ground arith)

pub is_rule_name_iff : (s : Text) → (is_rule_name s ≡ true) ↔ IsRuleName s
is_rule_name_iff = nonempty_all_iff is_rule_name_char IsRuleNameChar is_rule_name_char_iff

pub is_principal_iff : (s : Text) → (is_principal s ≡ true) ↔ IsPrincipal s
is_principal_iff [] = (λ h. cc, λ h. absurd (h.0 refl))
is_principal_iff (c ∷ s) =
    let chars = all_iff is_principal_char IsPrincipalChar is_principal_char_iff (c ∷ s) in
    let short = leb_iff (length (c ∷ s)) 128 in
    (
      λ h. let (a, b) = and-true h in (cc, short.0 a, chars.0 b),
      λ h. rw (short.1 h.1) (chars.1 h.2),
    )

has_control_iff : (s : Text) → (has_control s ≡ false) ↔ All (λ c. (0x20 ≤ c) × (c ≢ 0x7f)) s
unfolding has_control
has_control_iff [] = (λ _. tt, λ _. refl)
has_control_iff (c ∷ s) = (
  λ h. (ground arith, (has_control_iff s).0 (ground arith)),
  λ h. ground (arith, (has_control_iff s).1 h.1),
)

pub validate_force_command_iff :
    (cmd : Text) → (validate_force_command cmd ≡ ok tt) ↔ IsPlainCommand cmd
unfolding validate_force_command
validate_force_command_iff [] =
    (λ _. ((contains_str_iff (codes "${") []).0 (unfold contains_str in refl), tt), λ _. refl)
validate_force_command_iff (c ∷ cmd) =
    refuse_iff (contains_str (codes "${") (c ∷ cmd)) claim_template
      (contains_str_iff (codes "${") (c ∷ cmd))
    and_then refuse_iff (has_control (c ∷ cmd)) control_character (has_control_iff (c ∷ cmd))

-- The loops over a list: a check of each item.
pub validate_source_address_iff :
    (cs : List Text)
    → (validate_source_address cs ≡ ok tt) ↔ All (λ c. (c ≢ []) × (is_cidr c ≡ true)) cs
unfolding validate_source_address
validate_source_address_iff [] = (λ _. tt, λ _. refl)
validate_source_address_iff (c ∷ cs) =
    let step =
      refuse_iff (is_empty c) empty_entry (not_empty_iff c)
      and_then check_iff (is_cidr c) (not_cidr c) {P = is_cidr c ≡ true} (λ h. h, λ h. h)
      and_then validate_source_address_iff cs in
    (λ h. let (a, b) = step.0 h in ((a, b.0), b.1), λ h. step.1 (h.0.0, (h.0.1, h.1)))

abbrev pub IsSupported : Text → Type 0
IsSupported t = t ≡ codes "ssh-ed25519"

pub validate_key_types_iff : (ts : List Text) → (validate_key_types ts ≡ ok tt) ↔ All IsSupported ts
unfolding validate_key_types
validate_key_types_iff [] = (λ _. tt, λ _. refl)
validate_key_types_iff (t ∷ ts) =
    check_iff (is_supported_key_type t) (unsupported_key_type t) (str_eq_iff t _)
    and_then validate_key_types_iff ts

-- names and values are not empty
abbrev pub IsCondition : Text × Text → Type 0
IsCondition e = (e.0 ≢ []) × (e.1 ≢ [])

validate_claims_iff : (es : List (Text × Text)) → (validate_claims es ≡ ok tt) ↔ All IsCondition es
unfolding validate_claims
validate_claims_iff [] = (λ _. tt, λ _. refl)
validate_claims_iff ((claim, v) ∷ es) =
    let step =
      refuse_iff (is_empty claim) empty_claim_name (not_empty_iff claim)
      and_then refuse_iff (is_empty v) (empty_claim_value claim) (not_empty_iff v)
      and_then validate_claims_iff es in
    (λ h. let (a, b) = step.0 h in ((a, b.0), b.1), λ h. step.1 (h.0.0, (h.0.1, h.1)))

pub validate_principals_iff :
    (ps : List Text) → (validate_principals ps ≡ ok tt) ↔ All IsPrincipal ps
unfolding validate_principals
validate_principals_iff [] = (λ _. tt, λ _. refl)
validate_principals_iff (s ∷ ps) =
    let step =
      refuse_iff (is_empty s) empty_principal (not_empty_iff s)
      and_then check_iff (is_principal s) (bad_principal s) (is_principal_iff s)
      and_then validate_principals_iff ps in
    (λ h. let (a, b) = step.0 h in b, λ h. step.1 (h.0.0, h))

pub record IsValidMatch (m : JwtMatch) : Type 0 where
  pub has_issuer : m.issuer ≢ []
  pub has_audience : m.audience ≢ []
  pub owner_plain : Lacks b'/' m.owner
  pub repo_name_plain : Lacks b'/' m.repo_name
  pub conditions : All IsCondition m.claims_exact

pub validate_match_iff : (m : JwtMatch) → (validate_match (some m) ≡ ok tt) ↔ IsValidMatch m
unfolding validate_match
validate_match_iff m =
    let steps =
      refuse_iff (is_empty m.issuer) issuer_required (not_empty_iff m.issuer)
      and_then refuse_iff (is_empty m.audience) audience_required (not_empty_iff m.audience)
      and_then refuse_iff (has_byte b'/' m.owner) (owner_has_slash m.owner)
          (has_byte_iff b'/' m.owner)
      and_then refuse_iff (has_byte b'/' m.repo_name) (repo_name_has_slash m.repo_name)
          (has_byte_iff b'/' m.repo_name)
      and_then validate_claims_iff m.claims_exact in
    (
      λ h.
          let (i, (a, (o, (n, c)))) = steps.0 h in
          record {
            has_issuer = i;
            has_audience = a;
            owner_plain = o;
            repo_name_plain = n;
            conditions = c;
          },
      λ v.
          steps.1
            (v.has_issuer, (v.has_audience, (v.owner_plain, (v.repo_name_plain, v.conditions)))),
    )
