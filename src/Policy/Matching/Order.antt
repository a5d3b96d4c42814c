-- ===== src/Policy/Matching/Order.antt =====
-- The order of the rules in a policy.
use mathlib.Core.List.{Permᴰ}
use oidc_ssh_ca.Prelude.{
  ◌≡◌, refl, sym, ◌∙◌, ap, Bool, true, false, ◌&&◌, List, [], ◌∷◌, if◌then◌else◌, Bool-cases, inl,
  inr,
}
use oidc_ssh_ca.Policy.{Rule, Policy, is_enabled}
use oidc_ssh_ca.Policy.Matching.{
  Identity, Reason, no_rule_matched, multiple_rules_matched, policy_disabled, Decision, allow, deny,
  matched_rules, rule_matches, decide, evaluate,
}

-- a decision without the names that it lists
pub data Outcome : Type 0 where
  granted_by : Rule → Outcome
  denied_for : Reason → Outcome

abbrev pub outcome : Decision → Outcome
outcome (allow r names) = granted_by r
outcome (deny why names) = denied_for why

-- the outcome once one more rule grants
abbrev also : Rule → Outcome → Outcome
also r (denied_for no_rule_matched) = granted_by r
also r _ = denied_for multiple_rules_matched

abbrev count : Identity → Rule → Outcome → Outcome
count id r o = if is_enabled r && rule_matches r id then also r o else o

decide_cons : (r : Rule) (rs : List Rule) → outcome (decide (r ∷ rs)) ≡ also r (outcome (decide rs))
unfolding decide
decide_cons r [] = refl
decide_cons r (s ∷ []) = refl
decide_cons r (s ∷ t ∷ rs) = refl

also_comm : (r s : Rule) (o : Outcome) → also r (also s o) ≡ also s (also r o)
also_comm r s (granted_by t) = refl
also_comm r s (denied_for no_rule_matched) = refl
also_comm r s (denied_for multiple_rules_matched) = refl
also_comm r s (denied_for policy_disabled) = refl

if_comm :
    (b c : Bool) (r s : Rule) (o : Outcome)
    → (if b then also r (if c then also s o else o) else (if c then also s o else o))
      ≡ (if c then also s (if b then also r o else o) else (if b then also r o else o))
if_comm true true r s o = also_comm r s o
if_comm true false r s o = refl
if_comm false true r s o = refl
if_comm false false r s o = refl

abbrev decided : Identity → List Rule → Outcome
decided id rs = outcome (decide (matched_rules rs id))

decided_cons :
    (id : Identity) (r : Rule) (rs : List Rule) → decided id (r ∷ rs) ≡ count id r (decided id rs)
unfolding matched_rules
decided_cons id r rs = elim (Bool-cases (is_enabled r)) [
  | inr off ↦ rw off refl
  | inl on ↦ rw on (elim (Bool-cases (rule_matches r id)) [
    | inl matches ↦ rw matches (decide_cons r (matched_rules rs id))
    | inr other ↦ rw other refl
  ])
]

decided_two :
    (id : Identity) (r s : Rule) (rs : List Rule)
    → decided id (r ∷ s ∷ rs) ≡ count id r (count id s (decided id rs))
decided_two id r s rs = decided_cons id r (s ∷ rs) ∙ ap (count id r) (decided_cons id s rs)

same_head :
    (id : Identity) (r s : Rule) (rs ss : List Rule)
    → r ≡ s
    → decided id rs ≡ decided id ss
    → decided id (r ∷ rs) ≡ decided id (s ∷ ss)
same_head id r s rs ss same later =
    decided_cons id r rs
    ∙ ap (count id r) later
    ∙ ap (λ t. count id t (decided id ss)) same
    ∙ sym (decided_cons id s ss)

swapped :
    (id : Identity) (r s t u : Rule) (rs : List Rule)
    → r ≡ u
    → s ≡ t
    → decided id (r ∷ s ∷ rs) ≡ decided id (t ∷ u ∷ rs)
swapped id r s t u rs same other =
    decided_two id r s rs
    ∙ if_comm (is_enabled r && rule_matches r id) (is_enabled s && rule_matches s id) r s
        (decided id rs)
    ∙ sym (decided_two id s r rs)
    ∙ ap (λ x. decided id (x ∷ r ∷ rs)) other
    ∙ ap (λ x. decided id (t ∷ x ∷ rs)) same

decided-Permᴰ : (id : Identity) {rs ss : List Rule} → Permᴰ rs ss → decided id rs ≡ decided id ss
decided-Permᴰ id Permᴰ.nil = refl
decided-Permᴰ id (Permᴰ.cons same d) = same_head id _ _ _ _ same (decided-Permᴰ id d)
decided-Permᴰ id (Permᴰ.swap same other) = swapped id _ _ _ _ _ same other
decided-Permᴰ id (Permᴰ.trans d e) = decided-Permᴰ id d ∙ decided-Permᴰ id e

-- The order of the rules decides nothing: two policies whose rules are the same up to their order, and
-- that are both disabled or both not, allow the same requests under the same rule and deny the others
-- for the same reason.
pub evaluate-Permᴰ :
    (p q : Policy) (id : Identity)
    → Permᴰ p.rules q.rules
    → p.disabled ≡ q.disabled
    → outcome (evaluate p id) ≡ outcome (evaluate q id)
unfolding evaluate
evaluate-Permᴰ p q id order same = elim (Bool-cases q.disabled) [
  | inl off ↦ rw (same, off) refl
  | inr on ↦ rw (same, on) (decided-Permᴰ id order)
]
