-- ===== src/Policy/Matching/Decisions.antt =====
-- The decision of `evaluate` against the places of the rules that grant the request.
use mathlib.Core.List.{cons-ne-nil}
use oidc_ssh_ca.Prelude.{
  ◌≡◌, refl, ◌≢◌, ◌↔◌, inl, inr, Bool, true, false, ◌&&◌, some, List, [], ◌∷◌, ◌++◌, ap, arith,
  if◌then◌else◌, All, Bool-cases, and-true,
}
use oidc_ssh_ca.Prelude.Text.{Text}
use oidc_ssh_ca.Policy.{Rule, Policy, is_enabled}
use oidc_ssh_ca.Policy.Matching.{
  Identity, allow, deny, policy_disabled, no_rule_matched, multiple_rules_matched, rule_matches,
  matched_rules, decide, evaluate,
}
use oidc_ssh_ca.Policy.Matching.Spec.{Matches, rule_matches_iff}

-- A rule that takes part in matching, and matches.
abbrev pub Grants : Identity → Rule → Type 0
Grants id r = (r.enabled ≢ some false) × Matches r id

pub is_enabled_iff : (r : Rule) → (is_enabled r ≡ true) ↔ (r.enabled ≢ some false)
unfolding is_enabled
is_enabled_iff r = (λ h. ground arith, λ h. ground arith)

-- `r` grants, and no rule before or behind it does.
pub record Only (id : Identity) (rules : List Rule) (r : Rule) : Type 0 where
  pub before : List Rule
  pub after : List Rule
  pub place : rules ≡ before ++ r ∷ after
  pub grants : Grants id r
  pub none_before : All (λ s. ¬ (Grants id s)) before
  pub none_after : All (λ s. ¬ (Grants id s)) after

-- Rules at two places grant.
pub record Several (id : Identity) (rules : List Rule) : Type 0 where
  pub before : List Rule
  pub between : List Rule
  pub after : List Rule
  pub first : Rule
  pub second : Rule
  pub place : rules ≡ before ++ first ∷ (between ++ second ∷ after)
  pub first_grants : Grants id first
  pub second_grants : Grants id second

module _ (id : Identity) where
  abbrev grants : Rule → Bool
  grants r = is_enabled r && rule_matches r id

  grants_iff : (r : Rule) → (grants r ≡ true) ↔ Grants id r
  grants_iff r = (
    λ h. let (a, b) = and-true h in ((is_enabled_iff r).0 a, (rule_matches_iff r id).0 b),
    λ (a, b). rw ((is_enabled_iff r).1 a, (rule_matches_iff r id).1 b),
  )

  refuses : (r : Rule) → grants r ≡ false → ¬ (Grants id r)
  refuses r h g = cc (h, (grants_iff r).1 g)

  matched_cons :
      (r : Rule) (rs : List Rule)
      → matched_rules (r ∷ rs) id
        ≡ (if grants r then r ∷ matched_rules rs id else matched_rules rs id)
  unfolding matched_rules
  matched_cons r rs = ground arith

  -- the first rule that grants, if one does
  matched_first :
      (rules : List Rule) (m : Rule) (ms : List Rule)
      → matched_rules rules id ≡ m ∷ ms
      → (before : List Rule) × (after : List Rule) × (rules ≡ before ++ m ∷ after)
        × Grants id m
        × All (λ s. ¬ (Grants id s)) before
        × (matched_rules after id ≡ ms)
  matched_first [] m ms h = unfold matched_rules in absurd (cc h)
  matched_first (r ∷ rs) m ms h = elim (Bool-cases (grants r)) [
    | inl yes_r ↦
        let e : r ∷ matched_rules rs id ≡ m ∷ ms = rw (matched_cons r rs, yes_r) at h in
        let same : r ≡ m = cc in
        ([], rs, ap (λ x. x ∷ rs) same, rw same at ((grants_iff r).0 yes_r), tt, cc)
    | inr no_r ↦
        let e : matched_rules rs id ≡ m ∷ ms = rw (matched_cons r rs, no_r) at h in
        let (before, after, place, g, clean, rest) = matched_first rs m ms e in
        (r ∷ before, after, rw place, g, (refuses r no_r, clean), rest)
  ]

  matched_none :
      (rules : List Rule) → (matched_rules rules id ≡ []) ↔ All (λ s. ¬ (Grants id s)) rules
  matched_none [] = unfold matched_rules in (λ _. tt, λ _. refl)
  matched_none (r ∷ rs) = elim (Bool-cases (grants r)) [
    | inl yes_r ↦ (
      λ h. absurd (cons-ne-nil r (matched_rules rs id) (rw (matched_cons r rs, yes_r) at h)),
      λ h. absurd (h.0 ((grants_iff r).0 yes_r)),
    )
    | inr no_r ↦ (
      λ h. (refuses r no_r, (matched_none rs).0 (rw (matched_cons r rs, no_r) at h)),
      λ h. rw (matched_cons r rs, no_r) ((matched_none rs).1 h.1),
    )
  ]

  matched_skip :
      (before after : List Rule)
      → All (λ s. ¬ (Grants id s)) before
      → matched_rules (before ++ after) id ≡ matched_rules after id
  matched_skip [] after h = refl
  matched_skip (r ∷ before) after h = elim (Bool-cases (grants r)) [
    | inl yes_r ↦ absurd (h.0 ((grants_iff r).0 yes_r))
    | inr no_r ↦ rw (matched_cons r (before ++ after), no_r) (matched_skip before after h.1)
  ]

  matched_at :
      (r : Rule) (after : List Rule)
      → Grants id r
      → matched_rules (r ∷ after) id ≡ r ∷ matched_rules after id
  matched_at r after g = rw (matched_cons r after, (grants_iff r).1 g)

  matched_iff : (rules : List Rule) (r : Rule) → (matched_rules rules id ≡ r ∷ []) ↔ Only id rules r
  matched_iff rules r = (
    λ h.
        let (before, after, place, g, clean, rest) = matched_first rules r [] h in
        record {
          before = before;
          after = after;
          place = place;
          grants = g;
          none_before = clean;
          none_after = (matched_none after).0 rest;
        },
    λ o. rw (
      o.place,
      matched_skip o.before (r ∷ o.after) o.none_before,
      matched_at r o.after o.grants,
      (matched_none o.after).1 o.none_after,
    ),
  )

  matched_two :
      (rules : List Rule) (r s : Rule) (ms : List Rule)
      → matched_rules rules id ≡ r ∷ s ∷ ms
      → Several id rules
  matched_two rules r s ms h =
      let (before, rest, place, g, _, more) = matched_first rules r (s ∷ ms) h in
      let (between, after, place', g', _, _) = matched_first rest s ms more in
      record {
        before = before;
        between = between;
        after = after;
        first = r;
        second = s;
        place = rw place' at place;
        first_grants = g;
        second_grants = g';
      }

  -- the ways in which `decide` can answer
  decide_cases :
      (ms : List Rule) (r : Rule) (names : List Text)
      → decide ms ≡ allow r names
      → (ms ≡ r ∷ []) × (names ≡ r.name ∷ [])
  unfolding decide
  decide_cases [] r names h = cc
  decide_cases (m ∷ []) r names h = (cc, cc)
  decide_cases (m ∷ n ∷ ms) r names h = cc

  matched_append :
      (rs ss : List Rule) → matched_rules (rs ++ ss) id ≡ matched_rules rs id ++ matched_rules ss id
  matched_append [] ss = unfold matched_rules in refl
  matched_append (r ∷ rs) ss =
      rw (matched_cons r (rs ++ ss), matched_cons r rs, matched_append rs ss)
        (if_append (grants r) r (matched_rules rs id) (matched_rules ss id))
    where
      if_append :
          (b : Bool) (m : Rule) (ms ns : List Rule)
          → (if b then m ∷ (ms ++ ns) else ms ++ ns) ≡ (if b then m ∷ ms else ms) ++ ns
      if_append true m ms ns = refl
      if_append false m ms ns = refl

  decide_many :
      (a b c : List Rule) (r s : Rule)
      → (names : List Text) × (decide (a ++ r ∷ (b ++ s ∷ c)) ≡ deny multiple_rules_matched names)
  unfolding decide
  decide_many [] [] c r s = (_, refl)
  decide_many [] (n ∷ b) c r s = (_, refl)
  decide_many (m ∷ []) b c r s = (_, refl)
  decide_many (m ∷ n ∷ a) b c r s = (_, refl)

  decide_two :
      (rules : List Rule)
      → Several id rules
      → (names : List Text) × (decide (matched_rules rules id) ≡ deny multiple_rules_matched names)
  decide_two rules v =
      rw
        (
          v.place,
          matched_append v.before (v.first ∷ (v.between ++ v.second ∷ v.after)),
          matched_at v.first (v.between ++ v.second ∷ v.after) v.first_grants,
          matched_append v.between (v.second ∷ v.after),
          matched_at v.second v.after v.second_grants,
        )
        (decide_many (matched_rules v.before id) (matched_rules v.between id)
          (matched_rules v.after id) v.first v.second)

  decide_none :
      (ms : List Rule) (names : List Text)
      → decide ms ≡ deny no_rule_matched names
      → (ms ≡ []) × (names ≡ [])
  unfolding decide
  decide_none [] names h = (refl, cc)
  decide_none (m ∷ []) names h = cc
  decide_none (m ∷ n ∷ ms) names h = cc

  decide_multiple :
      (ms : List Rule) (names : List Text)
      → decide ms ≡ deny multiple_rules_matched names
      → (r : Rule) × (s : Rule) × (rest : List Rule) × (ms ≡ r ∷ s ∷ rest)
  unfolding decide
  decide_multiple [] names h = cc
  decide_multiple (m ∷ []) names h = cc
  decide_multiple (m ∷ n ∷ ms) names h = (m, n, ms, refl)

  decide-ne-disabled : (ms : List Rule) (names : List Text) → decide ms ≢ deny policy_disabled names
  unfolding decide
  decide-ne-disabled [] names = cc
  decide-ne-disabled (m ∷ []) names = cc
  decide-ne-disabled (m ∷ n ∷ ms) names = cc

evaluate_on :
    (p : Policy) (id : Identity)
    → p.disabled ≡ false
    → evaluate p id ≡ decide (matched_rules p.rules id)
unfolding evaluate
evaluate_on p id on = rw on

evaluate_off :
    (p : Policy) (id : Identity) → p.disabled ≡ true → evaluate p id ≡ deny policy_disabled []
unfolding evaluate
evaluate_off p id off = rw off

-- A request is allowed, under rule `r`, exactly when the policy is not disabled and `r` is at one
-- place of the rules where a rule is enabled and matches, and there is no other such place; the
-- decision then names that rule alone.
pub evaluate-allow_iff :
    (p : Policy) (id : Identity) (r : Rule) (names : List Text)
    → (evaluate p id ≡ allow r names)
      ↔ ((p.disabled ≡ false) × Only id p.rules r × (names ≡ r.name ∷ []))
unfolding decide
evaluate-allow_iff p id r names = elim (Bool-cases p.disabled) [
  | inl off ↦ (λ h. absurd (cc (evaluate_off p id off, h)), λ h. absurd (cc (off, h.0)))
  | inr on ↦ (
    λ h.
        let (one, named) =
          decide_cases id (matched_rules p.rules id) r names (rw (evaluate_on p id on) at h) in
        (on, (matched_iff id p.rules r).0 one, named),
    λ (_, only, named). rw (evaluate_on p id on, (matched_iff id p.rules r).1 only, named),
  )
]

-- The three denials exclude one another and say why: `policy_disabled` exactly for a disabled
-- policy; otherwise `no_rule_matched` exactly when no rule is enabled and matches, and
-- `multiple_rules_matched` exactly when rules at two places do.
pub evaluate-deny_iff :
    (p : Policy) (id : Identity)
    → (((names : List Text) × (evaluate p id ≡ deny policy_disabled names)) ↔ (p.disabled ≡ true))
      × (((names : List Text) × (evaluate p id ≡ deny no_rule_matched names))
          ↔ ((p.disabled ≡ false) × All (λ r. ¬ (Grants id r)) p.rules))
      × (((names : List Text) × (evaluate p id ≡ deny multiple_rules_matched names))
          ↔ ((p.disabled ≡ false) × Several id p.rules))
evaluate-deny_iff p id = elim (Bool-cases p.disabled) [
  | inl off ↦
      let e = evaluate_off p id off in
      (
        (λ _. off, λ _. ([], e)),
        (λ (ns, h). absurd (cc (e, h)), λ (on, _). absurd (cc (off, on))),
        (λ (ns, h). absurd (cc (e, h)), λ (on, _). absurd (cc (off, on))),
      )
  | inr on ↦
      let e = evaluate_on p id on in
      (
        (
          λ (ns, h). absurd (decide-ne-disabled id (matched_rules p.rules id) ns (cc (e, h))),
          λ off. absurd (cc (off, on)),
        ),
        (
          λ (ns, h). (
            on,
            (matched_none id p.rules).0
                (decide_none id (matched_rules p.rules id) ns (cc (e, h))).0,
          ),
          λ (_, clean). ([], unfold decide in rw (e, (matched_none id p.rules).1 clean)),
        ),
        (
          λ (ns, h).
              let (r, s, rest, two) =
                decide_multiple id (matched_rules p.rules id) ns (cc (e, h)) in
              (on, matched_two id p.rules r s rest two),
          λ (_, v). rw e (decide_two id p.rules v),
        ),
      )
]
