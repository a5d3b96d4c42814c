-- ===== src/Cmd/CheckConfig/Warnings.antt =====
-- What check-config warns of.
use oidc_ssh_ca.Prelude.{
  ◌≡◌, refl, sym, ap, subst, ◌≢◌, ◌↔◌, ◌⊎◌, inl, inr, Bool, true, false, ◌&&◌, Option, none, some,
  List, [], ◌∷◌, ◌++◌, map, arith, is_empty, is_empty_iff, All, Member, Member-append, Bool-cases,
  if◌then◌else◌, ok, Result-cases,
}
use oidc_ssh_ca.Prelude.Text.{Text, has_str, has_str_iff, Listed}
use oidc_ssh_ca.Policy.{JwtMatch, Rule, Policy, key_id_template_for}
use oidc_ssh_ca.Policy.KeyId.{template_vars, names, segments}
use oidc_ssh_ca.Policy.KeyId.Vars.{template_vars_iff}
use oidc_ssh_ca.Policy.Loading.{Sources, load, load_iff}
use oidc_ssh_ca.Policy.Validation.Valid.{IsValidRule}
use oidc_ssh_ca.Cmd.{Line, warning, Warning, unknown_claim, matches_all, panicked, done}
use oidc_ssh_ca.Cmd.CheckConfig.{
  known_github_claims, vars_or_nil, claim_warnings, match_warnings, append_if, warnings_of,
  rule_line, config_lines, check_config,
}

-- the rule's template names a claim that GitHub Actions tokens are not known to carry
abbrev pub NamesUnknown : Policy → Rule → Warning → Type 0
NamesUnknown p r w =
    (c : Text) × (w ≡ unknown_claim r.name c)
    × Listed c (names (segments (key_id_template_for p r)))
    × (¬ (Listed c known_github_claims))

-- the rule demands nothing but an issuer and an audience
abbrev pub DemandsNothing : Rule → Warning → Type 0
DemandsNothing r w =
    (w ≡ matches_all r.name)
    × ((m : JwtMatch) × (r.match.jwt ≡ some m)
        × (m.claims_exact ≡ [])
        × (m.owner ≡ [])
        × (m.repo_name ≡ []))

abbrev pub WarnedOf : Policy → Rule → Warning → Type 0
WarnedOf p r w = NamesUnknown p r w ⊎ DemandsNothing r w

claim_warnings_iff :
    (rule : Text) (vars : List Text) (w : Warning)
    → Member w (claim_warnings rule vars) ↔ (
        (c : Text) × (w ≡ unknown_claim rule c)
        × Listed c vars
        × (¬ (Listed c known_github_claims)))
unfolding claim_warnings
claim_warnings_iff rule [] w = (λ h. elim h [ ], λ h. elim (h.2) [ ])
claim_warnings_iff rule (v ∷ vars) w =
    let later = claim_warnings_iff rule vars w in
    elim (Bool-cases (has_str known_github_claims v)) [
      | inl known ↦ rw known (
        λ h. let (c, same, there, new) = later.0 h in (c, same, inr there, new),
        λ (c, same, there, new). elim there [
          | inl this ↦ absurd (
              new (
                subst (λ s. Listed s known_github_claims) this
                  ((has_str_iff known_github_claims v).0 known)))
          | inr l ↦ later.1 (c, same, l, new)
        ],
      )
      | inr new ↦ rw new (
        λ h. elim h [
          | inl this ↦
              (v, sym this, inl refl, λ l. cc (new, (has_str_iff known_github_claims v).1 l))
          | inr l ↦ let (c, same, there, unknown) = later.0 l in (c, same, inr there, unknown)
        ],
        λ (c, same, there, unknown). elim there [
          | inl this ↦ inl (cc)
          | inr l ↦ inr (later.1 (c, same, l, unknown))
        ],
      )
    ]

all_three : (a b c : Bool) → (a && b && c ≡ true) ↔ ((a ≡ true) × (b ≡ true) × (c ≡ true))
all_three a b c = (λ h. ground arith, λ h. ground arith)

abbrev tests_nothing : JwtMatch → Bool
tests_nothing m = is_empty m.claims_exact && is_empty m.owner && is_empty m.repo_name

tests_nothing_iff :
    (m : JwtMatch)
    → (tests_nothing m ≡ true) ↔ ((m.claims_exact ≡ []) × (m.owner ≡ []) × (m.repo_name ≡ []))
tests_nothing_iff m =
    let three = all_three (is_empty m.claims_exact) (is_empty m.owner) (is_empty m.repo_name) in
    (
      λ h.
          let (c, o, n) = three.0 h in
          (
            (is_empty_iff m.claims_exact).0 c,
            (is_empty_iff m.owner).0 o,
            (is_empty_iff m.repo_name).0 n,
          ),
      λ (c, o, n). three.1 (
        (is_empty_iff m.claims_exact).1 c,
        (is_empty_iff m.owner).1 o,
        (is_empty_iff m.repo_name).1 n,
      ),
    )

one_if_iff :
    (b : Bool) (v w : Warning) → Member w (if b then v ∷ [] else []) ↔ ((w ≡ v) × (b ≡ true))
one_if_iff true v w =
    (λ h. elim h [ inl e ↦ (sym e, refl) | inr n ↦ elim n [ ] ], λ (e, _). inl (sym e))
one_if_iff false v w = (λ h. elim h [ ], λ (e, h). cc)

DemandsNothing-iff :
    (r : Rule) (m : JwtMatch) (w : Warning)
    → r.match.jwt ≡ some m
    → DemandsNothing r w ↔ ((w ≡ matches_all r.name) × (tests_nothing m ≡ true))
DemandsNothing-iff r m w given = (
  λ (same, (n, there, c, o, k)).
      let eq : n ≡ m = cc in
      (
        same,
        (tests_nothing_iff m).1
            (subst (λ k. (k.claims_exact ≡ []) × (k.owner ≡ []) × (k.repo_name ≡ [])) eq (c, o, k)),
      ),
  λ (same, free). let (c, o, k) = (tests_nothing_iff m).0 free in (same, (m, given, c, o, k)),
)

vars_of_valid :
    (p : Policy) (r : Rule)
    → IsValidRule p r
    → vars_or_nil (template_vars (key_id_template_for p r))
      ≡ names (segments (key_id_template_for p r))
vars_of_valid p r v =
    rw
      ((template_vars_iff (key_id_template_for p r) (names (segments (key_id_template_for p r)))).1
        (refl, v.template.0, v.template.1))
      refl

append_if-some :
    {o : Option (List Warning)} {cs : List Warning} {r : Option (List Warning)}
    {own claims ws : List Warning}
    → o ≡ some own
    → cs ≡ claims
    → r ≡ some ws
    → append_if o cs r ≡ some (claims ++ own ++ ws)
append_if-some {o = some a} {r = some b} h k l = cc
append_if-some {o = none} h k l = absurd (cc (h))
append_if-some {o = some a} {r = none} h k l = absurd (cc (l))

-- The loop over rules that are valid warns of each, and of nothing else.
warnings_of_iff :
    (p : Policy) (rs : List Rule)
    → All (IsValidRule p) rs
    → (ws : List Warning) × (warnings_of p rs ≡ some ws)
      × ((w : Warning) → Member w ws ↔ ((r : Rule) × Member r rs × WarnedOf p r w))
unfolding warnings_of
warnings_of_iff p [] v = ([], refl, λ w. (λ h. elim h [ ], λ h. elim (h.1) [ ]))
warnings_of_iff p (r ∷ rs) (v, later) =
    let (ws, rest, inner) = warnings_of_iff p rs later in
    let m = v.jwt in
    let own = if tests_nothing m then matches_all r.name ∷ [] else [] in
    let claims = claim_warnings r.name (names (segments (key_id_template_for p r))) in
    (
      claims ++ own ++ ws,
      append_if-some (ap (match_warnings r.name) v.present)
          (ap (claim_warnings r.name) (vars_of_valid p r v)) rest,
      λ w.
          let split = Member-append w (claims ++ own) ws in
          let first = Member-append w claims own in
          let unknown = claim_warnings_iff r.name (names (segments (key_id_template_for p r))) w in
          let free = one_if_iff (tests_nothing m) (matches_all r.name) w in
          let demands = DemandsNothing-iff r m w v.present in
          (
            λ h. elim (split.0 h) [
              | inl now ↦ elim (first.0 now) [
                | inl c ↦ (r, inl refl, inl (unknown.0 c))
                | inr o ↦ (r, inl refl, inr (demands.1 (free.0 o)))
              ]
              | inr l ↦ let (s, there, warned) = (inner w).0 l in (s, inr there, warned)
            ],
            λ (s, there, warned). elim there [
              | inl this ↦ split.1 (
                  inl (
                    first.1 (elim (subst (λ t. WarnedOf p t w) (sym this) warned) [
                      | inl c ↦ inl (unknown.1 c)
                      | inr o ↦ inr (free.1 (demands.0 o))
                    ])))
              | inr l ↦ split.1 (inr ((inner w).1 (s, l, warned)))
            ],
          ),
    )

abbrev IsWarning : Line → Type 0
IsWarning (warning w) = Unit
IsWarning _ = ⊥

same_warning : {v w : Warning} → Path Line (warning v) (warning w) → v ≡ w
same_warning h = cc

no_rule_line :
    (p : Policy) (rs : List Rule) (w : Warning) → ¬ (Member (warning w) (map (rule_line p) rs))
no_rule_line p [] w h = elim h [ ]
no_rule_line p (r ∷ rs) w h = elim h [
  | inl e ↦ subst IsWarning (sym e) tt
  | inr l ↦ no_rule_line p rs w l
]

Member-warning :
    (w : Warning) (ws : List Warning) → Member (warning w) (map warning ws) ↔ Member w ws
Member-warning w [] = (λ h. h, λ h. h)
Member-warning w (v ∷ ws) =
    let later = Member-warning w ws in
    (
      λ h. elim h [ inl e ↦ inl (same_warning e) | inr l ↦ inr (later.0 l) ],
      λ h. elim h [ inl e ↦ inl (ap warning e) | inr l ↦ inr (later.1 l) ],
    )

Member-rule_line :
    (p : Policy) (r : Rule) (rs : List Rule)
    → Member r rs
    → Member (rule_line p r) (map (rule_line p) rs)
Member-rule_line p r [] h = elim h [ ]
Member-rule_line p r (s ∷ rs) h = elim h [
  | inl e ↦ inl (ap (rule_line p) e)
  | inr l ↦ inr (Member-rule_line p r rs l)
]

-- what the first five lines show is no warning
printed_warnings :
    (p : Policy) (ws : List Warning) (w : Warning)
    → Member (warning w) (config_lines p ws) ↔ Member w ws
unfolding config_lines
printed_warnings p ws w =
    let split = Member-append (warning w) (map (rule_line p) p.rules) (map warning ws) in
    let inner = Member-warning w ws in
    (
      λ h. elim h [
        | inl e ↦ absurd (subst IsWarning (sym e) tt)
        | inr h1 ↦ elim h1 [
          | inl e ↦ absurd (subst IsWarning (sym e) tt)
          | inr h2 ↦ elim h2 [
            | inl e ↦ absurd (subst IsWarning (sym e) tt)
            | inr h3 ↦ elim h3 [
              | inl e ↦ absurd (subst IsWarning (sym e) tt)
              | inr h4 ↦ elim h4 [
                | inl e ↦ absurd (subst IsWarning (sym e) tt)
                | inr l ↦ elim (split.0 l) [
                  | inl r ↦ absurd (no_rule_line p p.rules w r)
                  | inr k ↦ inner.0 k
                ]
              ]
            ]
          ]
        ]
      ],
      λ h. inr (inr (inr (inr (inr (split.1 (inr (inner.1 h))))))),
    )

printed_rules :
    (p : Policy) (ws : List Warning) (r : Rule)
    → Member r p.rules
    → Member (rule_line p r) (config_lines p ws)
unfolding config_lines
printed_rules p ws r h =
    let split = Member-append (rule_line p r) (map (rule_line p) p.rules) (map warning ws) in
    inr (inr (inr (inr (inr (split.1 (inl (Member-rule_line p r p.rules h)))))))

loaded_config :
    {E : Type 0} (from : Sources E) (path : Text) (p : Policy)
    → load from path ≡ ok p
    → (ws : List Warning) × (check_config from (path ∷ []) ≡ (config_lines p ws, done))
      × ((w : Warning) → Member w ws ↔ ((r : Rule) × Member r p.rules × WarnedOf p r w))
unfolding check_config
loaded_config from path p loaded =
    let (ws, all, each) = warnings_of_iff p p.rules (((load_iff from path p).0 loaded).4).rules in
    (ws, rw (loaded, all) refl, each)

-- Of a policy that loads, check-config ends well: there is no nil dereference. It prints a line for
-- each rule, and a warning for exactly these: a claim that a rule's template names and that is not in
-- the list of known GitHub Actions claims, whether the rule demands the claim or not; and a rule that
-- demands nothing but an issuer and an audience.
pub check_config-warns :
    {E : Type 0} (from : Sources E) (path : Text) (p : Policy)
    → load from path ≡ ok p
    → (lines : List Line) × (check_config from (path ∷ []) ≡ (lines, done))
      × ((r : Rule) → Member r p.rules → Member (rule_line p r) lines)
      × ((w : Warning)
          → Member (warning w) lines ↔ ((r : Rule) × Member r p.rules × WarnedOf p r w))
check_config-warns from path p loaded =
    let (ws, ran, each) = loaded_config from path p loaded in
    (
      config_lines p ws,
      ran,
      λ r member. printed_rules p ws r member,
      λ w.
          let printed = printed_warnings p ws w in
          (λ h. (each w).0 (printed.0 h), λ h. printed.1 ((each w).1 h)),
    )

-- Whatever the arguments and the file are, check-config does not panic.
pub check_config-ne-panicked :
    {E : Type 0} (from : Sources E) (args : List Text) → (check_config from args).1 ≢ panicked
unfolding check_config
check_config-ne-panicked from [] h = cc
check_config-ne-panicked from (path ∷ []) h = elim (Result-cases (load from path)) [
  | inr (why, bad) ↦ cc (rw bad at h)
  | inl (p, good) ↦ let (ws, all, each) = loaded_config from path p good in cc (ap (λ r. r.1) all)
]
check_config-ne-panicked from (path ∷ more ∷ args) h = cc
