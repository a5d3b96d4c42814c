-- ===== src/Cmd/Explain/Report.antt =====
-- What explain prints, against what the server does with the same claims.
use oidc_ssh_ca.Prelude.{
  ◌≡◌, refl, inl, inr, Bool, true, false, Option, none, some, List, [], ◌∷◌, ◌++◌, All, length, ok,
  err, Result-cases, if◌then◌else◌,
}
use oidc_ssh_ca.Prelude.Text.{Text}
use oidc_ssh_ca.Policy.{Rule, Policy, key_id_template_for}
use oidc_ssh_ca.Policy.KeyId.{KeyIdError, expand_key_id}
use oidc_ssh_ca.Policy.Matching.{
  Identity, Decision, allow, multiple_rules_matched, no_rule_matched, policy_disabled, Mismatch,
  evaluate, explain_rule,
}
use oidc_ssh_ca.Policy.Matching
use oidc_ssh_ca.Policy.Matching.Decisions.{
  Only, Several, Grants, evaluate-allow_iff, evaluate-deny_iff,
}
use oidc_ssh_ca.Policy.Matching.Explain.{no_rule_matched-explained}
use oidc_ssh_ca.Cmd.{
  Line, policy_off, key_id_is, key_id_denied, several_matched, none_matched, rule_fails,
}
use oidc_ssh_ca.Cmd.Explain.{rule_lines, mismatch_line, mismatch_lines, decision_lines, report}

-- one line for each rule, in order, with a reason for which it does not match
abbrev pub Explained : Identity → List Rule → List Line → Type 0
Explained id [] [] = Unit
Explained id [] (l ∷ ls) = ⊥
Explained id (r ∷ rs) [] = ⊥
Explained id (r ∷ rs) (l ∷ ls) =
    ((why : Mismatch) × (explain_rule r id ≡ some why) × (l ≡ rule_fails r.name why))
    × Explained id rs ls

-- the reports that fit a policy and an identity
pub data Reports (p : Policy) (id : Identity) (lines : List Line) : Type 0 where
  off : p.disabled ≡ true → lines ≡ policy_off ∷ [] → Reports p id lines
  granted :
      (r : Rule) (key_id : Text)
      → p.disabled ≡ false
      → Only id p.rules r
      → expand_key_id (key_id_template_for p r) id.claims ≡ ok key_id
      → lines ≡ rule_lines p r ++ key_id_is key_id ∷ []
      → Reports p id lines
  doomed :
      (r : Rule) (why : KeyIdError)
      → p.disabled ≡ false
      → Only id p.rules r
      → expand_key_id (key_id_template_for p r) id.claims ≡ err why
      → lines ≡ rule_lines p r ++ key_id_denied why ∷ []
      → Reports p id lines
  ambiguous :
      (names : List Text)
      → p.disabled ≡ false
      → Several id p.rules
      → lines ≡ several_matched (length names) names ∷ []
      → Reports p id lines
  unmatched :
      (whys : List Line)
      → p.disabled ≡ false
      → All (λ r. ¬ (Grants id r)) p.rules
      → Explained id p.rules whys
      → lines ≡ none_matched ∷ whys
      → Reports p id lines

mismatch_line-Explained :
    (id : Identity) (r : Rule) (rs : List Rule) (rest : List Line) (o : Option Mismatch)
    (why : Mismatch)
    → explain_rule r id ≡ o
    → o ≡ some why
    → Explained id rs rest
    → Explained id (r ∷ rs) (mismatch_line r.name o rest)
mismatch_line-Explained id r rs rest none why is fails later = absurd (cc (fails))
mismatch_line-Explained id r rs rest (some w) why is fails later = ((w, is, refl), later)

mismatch_lines-Explained :
    (id : Identity) (rs : List Rule)
    → All (λ r. (why : Mismatch) × (explain_rule r id ≡ some why)) rs
    → Explained id rs (mismatch_lines rs id)
unfolding mismatch_lines
mismatch_lines-Explained id [] h = tt
mismatch_lines-Explained id (r ∷ rs) ((why, fails), later) =
    mismatch_line-Explained id r rs (mismatch_lines rs id) (explain_rule r id) why refl fails
      (mismatch_lines-Explained id rs later)

on_lines :
    (p : Policy) (id : Identity) (d : Decision)
    → p.disabled ≡ false
    → evaluate p id ≡ d
    → Reports p id (decision_lines p id d)
on_lines p id (allow r names) on h =
    let (_, only, _) = (evaluate-allow_iff p id r names).0 h in
    elim (Result-cases (expand_key_id (key_id_template_for p r) id.claims)) [
      | inl (key_id, expanded) ↦ granted r key_id on only expanded (rw expanded refl)
      | inr (why, refused) ↦ doomed r why on only refused (rw refused refl)
    ]
on_lines p id (Matching.deny multiple_rules_matched names) on h =
    let (_, _, several) = evaluate-deny_iff p id in ambiguous names on (several.0 (names, h)).1 refl
on_lines p id (Matching.deny no_rule_matched names) on h =
    let (_, no_rule, _) = evaluate-deny_iff p id in
    unmatched (mismatch_lines p.rules id) on (no_rule.0 (names, h)).1
      (mismatch_lines-Explained id p.rules (no_rule_matched-explained p id names h)) refl
on_lines p id (Matching.deny policy_disabled names) on h =
    let (disabled, _, _) = evaluate-deny_iff p id in absurd (cc (on, disabled.0 (names, h)))

-- the report under a test, at either value of it
tested_report :
    (p : Policy) (id : Identity) (b : Bool)
    → p.disabled ≡ b
    → Reports p id (if b then policy_off ∷ [] else decision_lines p id (evaluate p id))
tested_report p id true disabled = off disabled refl
tested_report p id false on = on_lines p id (evaluate p id) on refl

-- Explain's report is the one for its case: the policy is disabled; exactly one rule grants, and its
-- key ID expands, or does not; several rules grant; or none does, and then every rule is listed, in
-- order, with a reason for which it does not match.
pub report-Reports : (p : Policy) (id : Identity) → Reports p id (report p id)
unfolding report
report-Reports p id = tested_report p id p.disabled refl

pub granted_report :
    (p : Policy) (id : Identity) (r : Rule) (key_id : Text) (b : Bool) (d : Decision)
    → b ≡ false
    → d ≡ allow r (r.name ∷ [])
    → expand_key_id (key_id_template_for p r) id.claims ≡ ok key_id
    → (if b then policy_off ∷ [] else decision_lines p id d)
      ≡ rule_lines p r ++ key_id_is key_id ∷ []
granted_report p id r key_id b d on decided expanded = rw (on, decided, expanded) refl
