-- ===== src/Cmd/Explain/Payload.antt =====
-- What go-oidc and explain read from the same claims.
use oidc_ssh_ca.Prelude.{
  ◌≡◌, sym, ◌≢◌, ◌↔◌, inl, inr, Option, none, some, List, [], ◌∷◌, All, All-append_left,
  All-append_right, subst, ok,
}
use oidc_ssh_ca.Prelude.Text.{Text, codes, Listed}
use oidc_ssh_ca.Json.{Json, null, str, arr, Items, nil, cons, Claims, lookup}
use oidc_ssh_ca.Policy.{Rule, Policy}
use oidc_ssh_ca.Policy.Validation.Valid.{IsValidRule}
use oidc_ssh_ca.Policy.Matching.{Identity}
use oidc_ssh_ca.Policy.Matching.Decisions.{Grants, Only}
use oidc_ssh_ca.Oidc.Verify.{Library, Token}
use oidc_ssh_ca.Cmd.Explain.{strings, audiences_of}

-- encoding/json decodes an array into a []string if its items are strings or null, which is "".
pub data Strings : Items → List Text → Type 0 where
  no_items : Strings nil []
  text_item :
      {vs : Items} {ss : List Text} (s : Text) → Strings vs ss → Strings (cons (str s) vs) (s ∷ ss)
  null_item : {vs : Items} {ss : List Text} → Strings vs ss → Strings (cons null vs) ([] ∷ ss)

-- go-oidc's type of `aud`: a string, of which null is "", or an array
pub data Audience : Option Json → List Text → Type 0 where
  absent : Audience none []
  null_audience : Audience (some null) ([] ∷ [])
  one : (s : Text) → Audience (some (str s)) (s ∷ [])
  many : {vs : Items} {ss : List Text} → Strings vs ss → Audience (some (arr vs)) ss

-- No claim has a name that encoding/json takes for `iss` or `aud` when it decodes into a struct, and
-- is spelt in another way. `Folds` is that match of names, which ignores case.
abbrev pub OneSpelling : (Text → Text → Type 0) → Claims → Type 0
OneSpelling Folds claims =
    All
      (λ e.
        (Folds e.0 (codes "iss") → e.0 ≡ codes "iss")
        × (Folds e.0 (codes "aud") → e.0 ≡ codes "aud"))
      claims

-- go-oidc decodes a token's issuer and audience from the payload that its Claims gives as well.
abbrev pub ReadsClaims :
    {Provider E : Type 0} → (Text → Text → Type 0) → Library Provider E → Type 0
ReadsClaims {Provider} {E} Folds lib =
    (p : Provider) (raw : Text) (t : Token E) (claims : Claims) (iss : Text)
    → lib.verify_token p raw ≡ ok t
    → t.claims ≡ ok claims
    → OneSpelling Folds claims
    → lookup (codes "iss") claims ≡ some (str iss)
    → (t.issuer ≡ iss) × Audience (lookup (codes "aud") claims) t.audience

strings-Listed :
    (a : Text) (vs : Items) (ss : List Text)
    → Strings vs ss
    → a ≢ []
    → Listed a ss ↔ Listed a (strings vs)
unfolding strings
strings-Listed a nil ss no_items ne = (λ h. h, λ h. h)
strings-Listed a (cons v vs) ss (text_item s r) ne =
    let later = strings-Listed a vs _ r ne in
    (
      λ h. elim h [ inl e ↦ inl e | inr l ↦ inr (later.0 l) ],
      λ h. elim h [ inl e ↦ inl e | inr l ↦ inr (later.1 l) ],
    )
strings-Listed a (cons v vs) ss (null_item r) ne =
    let later = strings-Listed a vs _ r ne in
    (λ h. elim h [ inl e ↦ absurd (ne (sym e)) | inr l ↦ later.0 l ], λ h. inr (later.1 h))

-- Explain and go-oidc find the same audiences, but for "".
pub audiences_of-Listed :
    (a : Text) (o : Option Json) (ss : List Text)
    → Audience o ss
    → a ≢ []
    → Listed a ss ↔ Listed a (audiences_of o)
unfolding audiences_of
audiences_of-Listed a o ss absent ne = (λ h. h, λ h. h)
audiences_of-Listed a o ss null_audience ne =
    (λ h. elim h [ inl e ↦ absurd (ne (sym e)) | inr l ↦ l ], λ h. inr h)
audiences_of-Listed a o ss (one s) ne = (λ h. h, λ h. h)
audiences_of-Listed a o ss (many r) ne = strings-Listed a _ ss r ne

abbrev pub with_audiences : Identity → List Text → Identity
with_audiences id xs = record { issuer = id.issuer; audiences = xs; claims = id.claims }

-- A valid rule asks for an audience that is not "".
Grants-with_audiences :
    (p : Policy) (id : Identity) (xs ys : List Text) (r : Rule)
    → ((a : Text) → a ≢ [] → Listed a xs → Listed a ys)
    → IsValidRule p r
    → Grants (with_audiences id xs) r
    → Grants (with_audiences id ys) r
Grants-with_audiences p id xs ys r within v (on, m) =
    let same : v.jwt ≡ m.jwt = cc (v.present, m.present) in
    let ne : m.jwt.audience ≢ [] = subst (λ j. j.audience ≢ []) same v.match.has_audience in
    (
      on,
      record {
        jwt = m.jwt;
        present = m.present;
        matches = record {
          same_issuer = m.matches.same_issuer;
          audience_listed = within m.jwt.audience ne m.matches.audience_listed;
          repository = m.matches.repository;
          exact = m.matches.exact;
        };
      },
    )

none-with_audiences :
    (p : Policy) (id : Identity) (xs ys : List Text) (rs : List Rule)
    → ((a : Text) → a ≢ [] → Listed a ys → Listed a xs)
    → All (IsValidRule p) rs
    → All (λ s. ¬ (Grants (with_audiences id xs) s)) rs
    → All (λ s. ¬ (Grants (with_audiences id ys) s)) rs
none-with_audiences p id xs ys [] within v none_grants = tt
none-with_audiences p id xs ys (r ∷ rs) within (v, vs) (never, rest) = (
  λ g. never (Grants-with_audiences p id ys xs r within v g),
  none-with_audiences p id xs ys rs within vs rest,
)

-- Under a valid policy, identities that differ in the audience "" alone match the same rule.
pub Only-with_audiences :
    (p : Policy) (id : Identity) (xs : List Text) (r : Rule)
    → ((a : Text) → a ≢ [] → Listed a id.audiences ↔ Listed a xs)
    → All (IsValidRule p) p.rules
    → Only id p.rules r
    → Only (with_audiences id xs) p.rules r
Only-with_audiences p id xs r same v only =
    let valid = subst (All (IsValidRule p)) only.place v in
    let (head, tail) = All-append_right (IsValidRule p) only.before (r ∷ only.after) valid in
    record {
      before = only.before;
      after = only.after;
      place = only.place;
      grants =
          Grants-with_audiences p id id.audiences xs r (λ a ne. (same a ne).0) head only.grants;
      none_before =
          none-with_audiences p id id.audiences xs only.before (λ a ne. (same a ne).1)
            (All-append_left (IsValidRule p) only.before (r ∷ only.after) valid) only.none_before;
      none_after =
          none-with_audiences p id id.audiences xs only.after (λ a ne. (same a ne).1) tail
            only.none_after;
    }
