-- ===== src/Policy/Validation/Valid.antt =====
-- `validate` accepts exactly the valid policies.
use oidc_ssh_ca.Prelude.{
  ℕ, suc, ◌≡◌, refl, sym, ◌≢◌, ◌↔◌, ◌⊎◌, inl, inr, true, false, ◌&&◌, Option, none, some, List, [],
  ◌∷◌, map, arith, All, is_empty, not_empty_iff, ok, Bool-cases, ◌and_then◌, check_iff, refuse_iff,
  map_err_iff, map_err, if◌then◌else◌, Result-cases,
}
use oidc_ssh_ca.Prelude.Text.{Text, Listed, has_str, has_str_iff}
use oidc_ssh_ca.Prelude.Int.{ℤ, pos, ltb_ℤ, leb_ℤ, ◌≤ℤ◌, ◌<ℤ◌}
use oidc_ssh_ca.Net.{is_cidr}
use oidc_ssh_ca.Policy.{
  JwtMatch, Rule, Policy, max_valid_for_seconds, allowed_public_key_types, valid_for_seconds_for,
  key_id_template_for, source_address_for,
}
use oidc_ssh_ca.Policy.KeyId.{template_vars, segments, names, literals}
use oidc_ssh_ca.Policy.KeyId.Vars.{IsClaimName, IsKeyIdChar, template_vars_iff}
use oidc_ssh_ca.Policy.Validation.{
  forget, validate_head, validate_default_ttl, validate_match, validate_certificate, validate_rule,
  validate_rules, validate, validate_source_address, validate_force_command, unsupported_version,
  max_not_positive, default_ttl_not_positive, default_ttl_exceeds, default_template, default_source,
  no_rules, name_required, duplicate_name, in_rule, invalid_name, no_principals, ttl_required,
  ttl_exceeds, template_required, bad_template, bad_command, bad_source, is_rule_name,
}
use oidc_ssh_ca.Policy.Validation.Steps.{
  IsRuleName, IsPrincipal, IsPlainCommand, IsSupported, IsValidMatch, is_rule_name_iff,
  validate_force_command_iff, validate_source_address_iff, validate_key_types_iff,
  validate_principals_iff, validate_match_iff,
}

abbrev pub IsSourceList : List Text → Type 0
IsSourceList = All (λ c. (c ≢ []) × (is_cidr c ≡ true))

-- every reference of the template is spelled [a-z0-9_]+, and every other byte may stand in a key ID
abbrev pub IsTemplate : Text → Type 0
IsTemplate t = All IsClaimName (names (segments t)) × All IsKeyIdChar (literals (segments t))

abbrev pub IsTtl : Policy → ℤ → Type 0
IsTtl p ttl = (pos 0 <ℤ ttl) × (ttl ≤ℤ max_valid_for_seconds p)

pub record IsValidRule (p : Policy) (r : Rule) : Type 0 where
  pub named : IsRuleName r.name
  pub jwt : JwtMatch
  pub present : r.match.jwt ≡ some jwt
  pub match : IsValidMatch jwt
  pub has_principals : r.certificate.principals ≢ []
  pub principals : All IsPrincipal r.certificate.principals
  pub ttl : IsTtl p (valid_for_seconds_for p r)
  pub has_template : key_id_template_for p r ≢ []
  pub template : IsTemplate (key_id_template_for p r)
  pub command : IsPlainCommand r.certificate.force_command
  pub source : IsSourceList (source_address_for p r)

-- nil, or a TTL in range
abbrev pub IsOptionalTtl : Policy → Option ℤ → Type 0
IsOptionalTtl p none = Unit
IsOptionalTtl p (some ttl) = IsTtl p ttl

-- no name twice
abbrev pub Distinct : List Text → Type 0
Distinct [] = Unit
Distinct (n ∷ ns) = (¬ (Listed n ns)) × Distinct ns

abbrev pub rule_names : List Rule → List Text
rule_names = map (λ r. r.name)

pub record IsValidHead (p : Policy) : Type 0 where
  pub version_one : p.version ≡ pos 1
  pub max_positive : pos 0 <ℤ max_valid_for_seconds p
  pub key_types : All IsSupported (allowed_public_key_types p)
  pub default_ttl : IsOptionalTtl p p.defaults.valid_for_seconds
  pub default_template : (p.defaults.key_id_template ≡ []) ⊎ IsTemplate p.defaults.key_id_template
  pub default_source : IsSourceList p.defaults.source_address
  pub has_rules : p.rules ≢ []

pub record IsValid (p : Policy) : Type 0 where
  pub head : IsValidHead p
  pub rules : All (IsValidRule p) p.rules
  pub distinct : Distinct (rule_names p.rules)

positive_iff : (a : ℤ) → (leb_ℤ a (pos 0) ≡ false) ↔ (pos 0 <ℤ a)
positive_iff a = (λ h. ground arith, λ h. ground arith)

at_most_iff : (a b : ℤ) → (ltb_ℤ b a ≡ false) ↔ (a ≤ℤ b)
at_most_iff a b = (λ h. ground arith, λ h. ground arith)

eq_one_iff : (a : ℤ) → ((leb_ℤ a (pos 1) && leb_ℤ (pos 1) a) ≡ true) ↔ (a ≡ pos 1)
eq_one_iff a = (λ h. ground arith, λ h. ground arith)

template_ok_iff : (t : Text) → (forget (template_vars t) ≡ ok tt) ↔ IsTemplate t
template_ok_iff t = (
  λ h. elim (Result-cases (template_vars t)) [
    | inl (vars, found) ↦
        let (eq, names_ok, plain) = (template_vars_iff t vars).0 found in (rw eq at names_ok, plain)
    | inr (e, failed) ↦ absurd (cc (rw failed at h))
  ],
  λ (names_ok, plain). rw ((template_vars_iff t (names (segments t))).1 (refl, names_ok, plain)),
)

default_template_iff :
    (t : Text)
    → ((if is_empty t then ok tt else map_err default_template (forget (template_vars t))) ≡ ok tt)
      ↔ ((t ≡ []) ⊎ IsTemplate t)
default_template_iff [] = (λ _. inl refl, λ _. refl)
default_template_iff (c ∷ t) =
    let rest =
      map_err_iff default_template (forget (template_vars (c ∷ t))) (template_ok_iff (c ∷ t)) in
    (λ h. inr (rest.0 h), λ h. elim h [ inl e ↦ absurd (cc e) | inr v ↦ rest.1 v ])

default_ttl_iff :
    (p : Policy) (o : Option ℤ) → (validate_default_ttl p o ≡ ok tt) ↔ IsOptionalTtl p o
default_ttl_iff p none = (λ _. tt, λ _. refl)
default_ttl_iff p (some ttl) =
    refuse_iff (leb_ℤ ttl (pos 0)) default_ttl_not_positive (positive_iff ttl)
    and_then refuse_iff (ltb_ℤ (max_valid_for_seconds p) ttl)
        (default_ttl_exceeds ttl (max_valid_for_seconds p))
        (at_most_iff ttl (max_valid_for_seconds p))

validate_head_iff : (p : Policy) → (validate_head p ≡ ok tt) ↔ IsValidHead p
unfolding validate_head
validate_head_iff p =
    let steps =
      check_iff (leb_ℤ p.version (pos 1) && leb_ℤ (pos 1) p.version) (unsupported_version p.version)
        (eq_one_iff p.version)
      and_then refuse_iff (leb_ℤ (max_valid_for_seconds p) (pos 0)) max_not_positive
          (positive_iff (max_valid_for_seconds p))
      and_then validate_key_types_iff (allowed_public_key_types p)
      and_then default_ttl_iff p p.defaults.valid_for_seconds
      and_then default_template_iff p.defaults.key_id_template
      and_then map_err_iff default_source (validate_source_address p.defaults.source_address)
          (validate_source_address_iff p.defaults.source_address)
      and_then refuse_iff (is_empty p.rules) no_rules (not_empty_iff p.rules) in
    (
      λ h.
          let (v, (m, (k, (t, (k', (s, r)))))) = steps.0 h in
          record {
            version_one = v;
            max_positive = m;
            key_types = k;
            default_ttl = t;
            default_template = k';
            default_source = s;
            has_rules = r;
          },
      λ v. steps.1 (
        v.version_one,
        (
          v.max_positive,
          (v.key_types, (v.default_ttl, (v.default_template, (v.default_source, v.has_rules)))),
        ),
      ),
    )

unlisted_iff : (ns : List Text) (n : Text) → (has_str ns n ≡ false) ↔ (¬ (Listed n ns))
unlisted_iff ns n = (
  λ h l. cc (h, (has_str_iff ns n).1 l),
  λ h. elim (Bool-cases (has_str ns n)) [
    | inl there ↦ absurd (h ((has_str_iff ns n).0 there))
    | inr absent ↦ absent
  ],
)

match_option_iff :
    (o : Option JwtMatch)
    → (validate_match o ≡ ok tt) ↔ ((m : JwtMatch) × (o ≡ some m) × IsValidMatch m)
match_option_iff none = unfold validate_match in (λ h. cc, λ h. cc (h.1))
match_option_iff (some m) = (
  λ h. (m, refl, (validate_match_iff m).0 h),
  λ (n, same, v). rw same ((validate_match_iff n).1 v),
)

module _ (p : Policy) (r : Rule) where
  -- the fields of `IsValidRule` that `validate_certificate` checks
  abbrev IsValidCertificate : Type 0
  IsValidCertificate =
      (r.certificate.principals ≢ [])
      × (All IsPrincipal r.certificate.principals
          × ((pos 0 <ℤ valid_for_seconds_for p r)
              × ((valid_for_seconds_for p r ≤ℤ max_valid_for_seconds p)
                  × ((key_id_template_for p r ≢ [])
                      × (IsTemplate (key_id_template_for p r)
                          × (IsPlainCommand r.certificate.force_command
                              × IsSourceList (source_address_for p r)))))))

  validate_certificate_iff : (validate_certificate p r ≡ ok tt) ↔ IsValidCertificate
  unfolding validate_certificate
  validate_certificate_iff =
      refuse_iff (is_empty r.certificate.principals) no_principals
        (not_empty_iff r.certificate.principals)
      and_then validate_principals_iff r.certificate.principals
      and_then refuse_iff (leb_ℤ (valid_for_seconds_for p r) (pos 0)) ttl_required
          (positive_iff (valid_for_seconds_for p r))
      and_then refuse_iff (ltb_ℤ (max_valid_for_seconds p) (valid_for_seconds_for p r))
          (ttl_exceeds (valid_for_seconds_for p r) (max_valid_for_seconds p))
          (at_most_iff (valid_for_seconds_for p r) (max_valid_for_seconds p))
      and_then refuse_iff (is_empty (key_id_template_for p r)) template_required
          (not_empty_iff (key_id_template_for p r))
      and_then map_err_iff bad_template (forget (template_vars (key_id_template_for p r)))
          (template_ok_iff (key_id_template_for p r))
      and_then map_err_iff bad_command (validate_force_command r.certificate.force_command)
          (validate_force_command_iff r.certificate.force_command)
      and_then map_err_iff bad_source (validate_source_address (source_address_for p r))
          (validate_source_address_iff (source_address_for p r))

  -- the rule is valid, and none of `names` is its name
  validate_rule_iff :
      (ns : List Text) (number : ℕ)
      → (validate_rule p ns number r ≡ ok tt) ↔ (IsValidRule p r × (¬ (Listed r.name ns)))
  unfolding validate_rule
  validate_rule_iff ns number =
      let steps =
        refuse_iff (is_empty r.name) (name_required number) (not_empty_iff r.name)
        and_then check_iff (is_rule_name r.name) (in_rule r.name invalid_name)
            (is_rule_name_iff r.name)
        and_then refuse_iff (has_str ns r.name) (duplicate_name r.name) (unlisted_iff ns r.name)
        and_then map_err_iff (in_rule r.name) (validate_match r.match.jwt)
            (match_option_iff r.match.jwt)
        and_then map_err_iff (in_rule r.name) (validate_certificate p r) validate_certificate_iff in
      (
        λ h.
            let (_, (n, (u, (m, (a, (b, (c, (d, (e, (f, (g, k))))))))))) = steps.0 h in
            (
              record {
                named = n;
                jwt = m.0;
                present = m.1;
                match = m.2;
                has_principals = a;
                principals = b;
                ttl = (c, d);
                has_template = e;
                template = f;
                command = g;
                source = k;
              },
              u,
            ),
        λ (v, u). steps.1 (
          v.named.0,
          (
            v.named,
            (
              u,
              (
                (v.jwt, v.present, v.match),
                (
                  v.has_principals,
                  (
                    v.principals,
                    (v.ttl.0, (v.ttl.1, (v.has_template, (v.template, (v.command, v.source))))),
                  ),
                ),
              ),
            ),
          ),
        ),
      )

-- adding a name to those above, for the rules below
fresh_step :
    (n : Text) (ns : List Text) (rs : List Rule)
    → (All (λ r. ¬ (Listed r.name (n ∷ ns))) rs)
      ↔ ((¬ (Listed n (rule_names rs))) × All (λ r. ¬ (Listed r.name ns)) rs)
fresh_step n ns [] = (λ _. (λ h. elim h [ ], tt), λ _. tt)
fresh_step n ns (r ∷ rs) = (
  λ (h, hs).
      let (later, old) = (fresh_step n ns rs).0 hs in
      (λ l. elim l [ inl e ↦ h (inl (sym e)) | inr m ↦ later m ], (λ m. h (inr m), old)),
  λ (new, (h, hs)). (
    λ l. elim l [ inl e ↦ new (inl (sym e)) | inr m ↦ h m ],
    (fresh_step n ns rs).1 (λ m. new (inr m), hs),
  ),
)

validate_rules_iff :
    (p : Policy) (ns : List Text) (number : ℕ) (rs : List Rule)
    → (validate_rules p ns number rs ≡ ok tt)
      ↔ (All (IsValidRule p) rs × Distinct (rule_names rs) × All (λ r. ¬ (Listed r.name ns)) rs)
unfolding validate_rules
validate_rules_iff p ns number [] = (λ _. (tt, tt, tt), λ _. refl)
validate_rules_iff p ns number (r ∷ rs) =
    let steps =
      validate_rule_iff p r ns number and_then validate_rules_iff p (r.name ∷ ns) (suc number) rs in
    let fresh = fresh_step r.name ns rs in
    (
      λ h.
          let ((v, new), (vs, distinct, later)) = steps.0 h in
          let (once, old) = fresh.0 later in ((v, vs), (once, distinct), (new, old)),
      λ ((v, vs), (once, distinct), (new, old)).
          steps.1 ((v, new), (vs, distinct, fresh.1 (once, old))),
    )

none_above : (rs : List Rule) → All (λ r. ¬ (Listed r.name [])) rs
none_above [] = tt
none_above (r ∷ rs) = (λ h. elim h [ ], none_above rs)

-- A policy is accepted exactly when it is valid: version 1, a positive ceiling, supported key
-- types, valid defaults, and at least one rule; rule names that are distinct and over
-- [A-Za-z0-9._-]; and for each rule a `match.jwt` with issuer and audience, at least one principal,
-- each of 1 to 128 bytes over [A-Za-z0-9._@:-], an effective TTL between 1 and the ceiling, a
-- non-empty effective template that `template_vars` accepts, a force command with no `${` and no
-- control character, and effective source addresses in CIDR notation.
pub validate_iff : (p : Policy) → (validate p ≡ ok tt) ↔ IsValid p
unfolding validate
validate_iff p =
    let steps = validate_head_iff p and_then validate_rules_iff p [] 1 p.rules in
    (
      λ h.
          let (head, (rules, distinct, _)) = steps.0 h in
          record { head = head; rules = rules; distinct = distinct },
      λ v. steps.1 (v.head, (v.rules, v.distinct, none_above p.rules)),
    )
