-- ===== src/Policy/Issuers.antt =====
-- The issuers for which a policy accepts tokens.
use oidc_ssh_ca.Prelude.{
  ◌≡◌, refl, sym, ap, ◌∙◌, subst, ◌≢◌, ◌↔◌, ◌⊎◌, inl, inr, Bool, true, false, not, ◌&&◌, Option,
  none, some, List, [], ◌∷◌, ◌++◌, arith, is_empty, not_empty_iff, Bool-cases, Member,
}
use oidc_ssh_ca.Prelude.Text.{Text, has_str, has_str_iff, Listed}
use oidc_ssh_ca.Policy.{
  JwtMatch, Rule, Policy, issuer_of, is_none, is_enabled, adds_issuer, issuers_from, issuers,
}
use oidc_ssh_ca.Policy.Matching.Decisions.{Grants, is_enabled_iff}
use oidc_ssh_ca.Policy.Matching.{Identity}
use oidc_ssh_ca.Policy.Validation.Valid.{Distinct, IsValidRule}

-- the rule takes part in matching and names the issuer
abbrev pub Names : Rule → Text → Type 0
Names r i =
    (r.enabled ≢ some false) × ((m : JwtMatch) × (r.match.jwt ≡ some m) × (m.issuer ≡ i)) × (i ≢ [])

names_issuer :
    (o : Option JwtMatch) (i : Text)
    → i ≢ []
    → ((m : JwtMatch) × (o ≡ some m) × (m.issuer ≡ i)) ↔ (issuer_of o ≡ i)
names_issuer none i ne = (λ h. cc (h.1), λ h. absurd (ne (sym h)))
names_issuer (some m) i ne = (λ (n, same, h). cc, λ h. (m, refl, h))

Listed-snoc : (i v : Text) (vs : List Text) → Listed i (vs ++ v ∷ []) ↔ (Listed i vs ⊎ (v ≡ i))
Listed-snoc i v [] = (
  λ h. elim h [ inl e ↦ inr e | inr n ↦ elim n [ ] ],
  λ h. elim h [ inl n ↦ elim n [ ] | inr e ↦ inl e ],
)
Listed-snoc i v (w ∷ vs) =
    let later = Listed-snoc i v vs in
    (
      λ h. elim h [
        | inl e ↦ inl (inl e)
        | inr l ↦ elim (later.0 l) [ inl n ↦ inl (inr n) | inr e ↦ inr e ]
      ],
      λ h. elim h [
        | inl n ↦ elim n [ inl e ↦ inl e | inr l ↦ inr (later.1 (inl l)) ]
        | inr e ↦ inr (later.1 (inr e))
      ],
    )

all_four :
    (a b c d : Bool)
    → (a && b && c && d ≡ true) ↔ ((a ≡ true) × (b ≡ true) × (c ≡ true) × (d ≡ true))
all_four a b c d = (λ h. ground arith, λ h. ground arith)

not-true_iff : (b : Bool) → (not b ≡ true) ↔ (b ≡ false)
not-true_iff true = (λ h. cc, λ h. cc)
not-true_iff false = (λ h. refl, λ h. refl)

is_none_iff : (o : Option JwtMatch) → ((m : JwtMatch) × (o ≡ some m)) → is_none o ≡ false
is_none_iff none h = cc (h.1)
is_none_iff (some m) h = refl

-- A rule adds its issuer if it names one that is not yet there.
adds_issuer_iff :
    (seen : List Text) (r : Rule)
    → (adds_issuer seen r ≡ true)
      ↔ (Names r (issuer_of r.match.jwt) × (¬ (Listed (issuer_of r.match.jwt) seen)))
unfolding adds_issuer
adds_issuer_iff seen r =
    let i = issuer_of r.match.jwt in
    let four =
      all_four (is_enabled r) (not (is_none r.match.jwt)) (not (is_empty i))
        (not (has_str seen i)) in
    (
      λ h.
          let (on, given, filled, new) = four.0 h in
          let ne = (not_empty_iff i).0 ((not-true_iff (is_empty i)).0 filled) in
          (
            ((is_enabled_iff r).0 on, (names_issuer r.match.jwt i ne).1 refl, ne),
            λ l. cc ((not-true_iff (has_str seen i)).0 new, (has_str_iff seen i).1 l),
          ),
      λ ((on, (m, given, same), ne), new). four.1 (
        (is_enabled_iff r).1 on,
        (not-true_iff (is_none r.match.jwt)).1 (is_none_iff r.match.jwt (m, given)),
        (not-true_iff (is_empty i)).1 ((not_empty_iff i).1 ne),
        elim (Bool-cases (has_str seen i)) [
          | inl there ↦ absurd (new ((has_str_iff seen i).0 there))
          | inr absent ↦ (not-true_iff (has_str seen i)).1 absent
        ],
      ),
    )

-- A rule that adds nothing names no issuer that is not there.
adds_nothing :
    (seen : List Text) (r : Rule) (i : Text)
    → adds_issuer seen r ≡ false
    → Names r i
    → Listed i seen
adds_nothing seen r i h (on, named, ne) =
    let same : issuer_of r.match.jwt ≡ i = (names_issuer r.match.jwt i ne).0 named in
    elim (Bool-cases (has_str seen i)) [
      | inl there ↦ (has_str_iff seen i).0 there
      | inr absent ↦ absurd (
          cc (
            h,
            (adds_issuer_iff seen r).1 (
              subst (Names r) (sym same) (on, named, ne),
              λ l. absurd (cc (absent, (has_str_iff seen i).1 (subst (λ j. Listed j seen) same l))),
            ),
          ))
    ]

-- The loop lists what it had and what the rules name.
issuers_from_iff :
    (i : Text) (out : List Text) (rs : List Rule)
    → Listed i (issuers_from out rs) ↔ (Listed i out ⊎ ((r : Rule) × Member r rs × Names r i))
unfolding issuers_from
issuers_from_iff i out [] = (λ h. inl h, λ h. elim h [ inl l ↦ l | inr n ↦ elim (n.1) [ ] ])
issuers_from_iff i out (r ∷ rs) = elim (Bool-cases (adds_issuer out r)) [
  | inl new ↦
      let v = issuer_of r.match.jwt in
      let inner = issuers_from_iff i (out ++ v ∷ []) rs in
      let last = Listed-snoc i v out in
      let (names, fresh) = (adds_issuer_iff out r).0 new in
      rw new (
        λ h. elim (inner.0 h) [
          | inl l ↦ elim (last.0 l) [
            | inl old ↦ inl old
            | inr same ↦ inr (r, inl refl, subst (Names r) same names)
          ]
          | inr n ↦ inr (n.0, inr n.1, n.2)
        ],
        λ h. elim h [
          | inl old ↦ inner.1 (inl (last.1 (inl old)))
          | inr n ↦ elim (n.1) [
            | inl this ↦ inner.1 (
                inl (
                  last.1 (
                    inr (
                      (names_issuer r.match.jwt i (n.2.2)).0
                        (subst (λ s. Names s i) (sym this) n.2).1))))
            | inr later ↦ inner.1 (inr (n.0, later, n.2))
          ]
        ],
      )
  | inr old ↦
      let inner = issuers_from_iff i out rs in
      rw old (
        λ h. elim (inner.0 h) [ inl l ↦ inl l | inr n ↦ inr (n.0, inr n.1, n.2) ],
        λ h. elim h [
          | inl l ↦ inner.1 (inl l)
          | inr n ↦ elim (n.1) [
            | inl this ↦
                inner.1 (inl (adds_nothing out r i old (subst (λ s. Names s i) (sym this) n.2)))
            | inr later ↦ inner.1 (inr (n.0, later, n.2))
          ]
        ],
      )
]

Distinct-snoc :
    (vs : List Text) (v : Text) → Distinct vs → ¬ (Listed v vs) → Distinct (vs ++ v ∷ [])
Distinct-snoc [] v d new = (λ h. elim h [ ], tt)
Distinct-snoc (w ∷ vs) v (apart, d) new = (
  λ h. elim ((Listed-snoc w v vs).0 h) [ inl l ↦ apart l | inr same ↦ new (inl (sym same)) ],
  Distinct-snoc vs v d (λ l. new (inr l)),
)

issuers_from-Distinct :
    (out : List Text) (rs : List Rule) → Distinct out → Distinct (issuers_from out rs)
unfolding issuers_from
issuers_from-Distinct out [] d = d
issuers_from-Distinct out (r ∷ rs) d = elim (Bool-cases (adds_issuer out r)) [
  | inl new ↦
      let (names, fresh) = (adds_issuer_iff out r).0 new in
      rw new (
        issuers_from-Distinct (out ++ issuer_of r.match.jwt ∷ []) rs
          (Distinct-snoc out (issuer_of r.match.jwt) d fresh))
  | inr old ↦ rw old (issuers_from-Distinct out rs d)
]

-- The issuers of a policy are exactly those that its enabled rules name, each once.
pub issuers_iff :
    (p : Policy)
    → Distinct (issuers p)
      × ((i : Text) → Listed i (issuers p) ↔ ((r : Rule) × Member r p.rules × Names r i))
unfolding issuers
issuers_iff p = (
  issuers_from-Distinct [] p.rules tt,
  λ i.
      let all = issuers_from_iff i [] p.rules in
      (λ h. elim (all.0 h) [ inl none_yet ↦ elim none_yet [ ] | inr n ↦ n ], λ n. all.1 (inr n)),
)

-- The issuer that a granting rule of a valid policy asks for is among them.
pub Grants-Listed :
    (p : Policy) (id : Identity) (r : Rule)
    → IsValidRule p r
    → Member r p.rules
    → Grants id r
    → Listed id.issuer (issuers p)
Grants-Listed p id r v member (on, m) =
    let same : v.jwt ≡ m.jwt = cc (v.present, m.present) in
    let named : m.jwt.issuer ≡ id.issuer = m.matches.same_issuer in
    ((issuers_iff p).1 id.issuer).1 (
      r,
      member,
      (
        on,
        (m.jwt, m.present, named),
        subst (λ i. i ≢ []) (ap (λ j. j.issuer) same ∙ named) v.match.has_issuer,
      ),
    )
