-- ===== src/Policy/KeyId/Expand.antt =====
-- What `expand_key_id` returns: the texts, the errors, and which claims it reads.
use oidc_ssh_ca.Prelude.{
  ℕ, ◌≤◌, ◌≡◌, refl, ◌≢◌, ◌↔◌, ◌⊎◌, inl, inr, true, false, Option, none, some, List, [], ◌∷◌, ◌++◌,
  arith, ltb, All, All-append, length, ok, err, Bool-cases, Result-cases, if_passed, if_failed,
}
use oidc_ssh_ca.Prelude.Text.{Text}
use oidc_ssh_ca.Json.{Json, null, bool, num, str, arr, obj, Claims, lookup}
use oidc_ssh_ca.Policy.KeyId.{
  Segment, lit, var, segments, names, literals, is_key_id_value, template_vars, claim_value,
  expand_segments, expand_key_id, KeyIdError, claim_bad_value, bad_result, max_key_id_length,
  value_of, finish,
}
use oidc_ssh_ca.Policy.KeyId.Scan.{segments-ne-nil}
use oidc_ssh_ca.Policy.KeyId.Vars.{
  IsKeyIdChar, IsKeyIdValue, is_key_id_value_iff, template_vars_iff,
}

-- A reference stands for the value of its claim, a literal byte for itself.
pub data Expands (claims : Claims) : List Segment → Text → Type 0 where
  done : Expands claims [] []
  literal :
      {c : ℕ} {segs : List Segment} {out : Text}
      → Expands claims segs out
      → Expands claims (lit c ∷ segs) (c ∷ out)
  value :
      {name : Text} {segs : List Segment} {out : Text} (v : Text)
      → lookup name claims ≡ some (str v)
      → IsKeyIdValue v
      → Expands claims segs out
      → Expands claims (var name ∷ segs) (v ++ out)

value_of_sound :
    (name : Text) (o : Option Json) (v : Text)
    → value_of name o ≡ ok v
    → (o ≡ some (str v)) × (is_key_id_value v ≡ true)
value_of_sound name none v h = cc
value_of_sound name (some null) v h = cc
value_of_sound name (some (bool b)) v h = cc
value_of_sound name (some (num n)) v h = cc
value_of_sound name (some (arr xs)) v h = cc
value_of_sound name (some (obj fs)) v h = cc
value_of_sound name (some (str s)) v h =
    let (good, same) = if_passed (is_key_id_value s) (ok s) (claim_bad_value name) h in
    let eq : s ≡ v = cc in (cc, rw eq at good)

claim_value_iff :
    (claims : Claims) (name v : Text)
    → (claim_value claims name ≡ ok v) ↔ ((lookup name claims ≡ some (str v)) × IsKeyIdValue v)
claim_value_iff claims name v = (
  λ h.
      let (found, good) = value_of_sound name (lookup name claims) v (unfold claim_value in h) in
      (found, (is_key_id_value_iff v).0 good),
  λ (found, good). unfold claim_value in rw (found, (is_key_id_value_iff v).1 good),
)

expand_failed :
    (claims : Claims) (segs : List Segment) (e : KeyIdError)
    → (expand_segments claims segs (some e)).1 ≡ some e
unfolding expand_segments
expand_failed claims [] e = refl
expand_failed claims (lit c ∷ segs) e = expand_failed claims segs e
expand_failed claims (var name ∷ segs) e = expand_failed claims segs e

expand_segments_sound :
    (claims : Claims) (segs : List Segment)
    → (expand_segments claims segs none).1 ≡ none
    → Expands claims segs (expand_segments claims segs none).0
unfolding expand_segments
expand_segments_sound claims [] h = done
expand_segments_sound claims (lit c ∷ segs) h = literal (expand_segments_sound claims segs h)
expand_segments_sound claims (var name ∷ segs) h = elim (Result-cases (claim_value claims name)) [
  | inl (v, found) ↦
      let (claim, good) = (claim_value_iff claims name v).0 found in
      let h' : (expand_segments claims segs none).1 ≡ none = rw found at h in
      rw found (value v claim good (expand_segments_sound claims segs h'))
  | inr (e, failed) ↦ absurd (cc (expand_failed claims segs e, rw failed at h))
]

expand_segments_complete :
    {claims : Claims} {segs : List Segment} {out : Text}
    → Expands claims segs out
    → expand_segments claims segs none ≡ (out, none)
unfolding expand_segments
expand_segments_complete done = refl
expand_segments_complete (literal r) = rw (expand_segments_complete r)
expand_segments_complete {claims} (value {name} v found good r) =
    rw ((claim_value_iff claims name v).1 (found, good), expand_segments_complete r)

finish_sound :
    (r : Text × Option KeyIdError) (out : Text)
    → finish r ≡ ok out
    → (r.1 ≡ none) × (r.0 ≡ out) × (length out ≤ max_key_id_length) × IsKeyIdValue out
finish_sound (text, some e) out h = absurd (cc h)
finish_sound (text, none) out h = elim (Bool-cases (ltb max_key_id_length (length text))) [
  | inl long ↦ absurd (cc (rw long at h))
  | inr fits ↦
      let (good, same) = if_passed (is_key_id_value text) (ok text) bad_result (rw fits at h) in
      let eq : text ≡ out = cc in
      (refl, eq, rw (← eq) (ground arith), (is_key_id_value_iff out).0 (rw eq at good))
]

finish_complete :
    (out : Text) → length out ≤ max_key_id_length → IsKeyIdValue out → finish (out, none) ≡ ok out
finish_complete out fits good =
    let short : ltb max_key_id_length (length out) ≡ false = ground arith in
    rw (short, (is_key_id_value_iff out).1 good)

-- A key ID is issued exactly when every reference names a claim that is a non-empty string over
-- [A-Za-z0-9._/:@-], and the template with each reference replaced by its claim's value is itself
-- such a string, of at most 256 bytes; that text is the key ID.
pub expand_key_id_iff :
    (tmpl : Text) (claims : Claims) (out : Text)
    → (expand_key_id tmpl claims ≡ ok out)
      ↔ (Expands claims (segments tmpl) out × (length out ≤ max_key_id_length) × IsKeyIdValue out)
unfolding expand_key_id
expand_key_id_iff tmpl claims out = (
  λ h.
      let (clean, same, fits, good) =
        finish_sound (expand_segments claims (segments tmpl) none) out h in
      (rw same at (expand_segments_sound claims (segments tmpl) clean), fits, good),
  λ (r, fits, good). rw (expand_segments_complete r) (finish_complete out fits good),
)

Expands-IsKeyId :
    {claims : Claims} {segs : List Segment} {out : Text}
    → All IsKeyIdChar (literals segs)
    → Expands claims segs out
    → All IsKeyIdChar out
unfolding literals
Expands-IsKeyId h done = tt
Expands-IsKeyId h (literal r) = (h.0, Expands-IsKeyId h.1 r)
Expands-IsKeyId h (value {out} v found good r) =
    All-append IsKeyIdChar v out good.1 (Expands-IsKeyId h r)

Expands-ne-nil :
    {claims : Claims} {segs : List Segment} {out : Text}
    → segs ≢ []
    → Expands claims segs out
    → out ≢ []
Expands-ne-nil ne done = λ _. ne refl
Expands-ne-nil ne (literal r) = cc
Expands-ne-nil ne (value [] found good r) = absurd (good.0 refl)
Expands-ne-nil ne (value (c ∷ v) found good r) = cc

value_of-ne-bad_result : (name : Text) (o : Option Json) → value_of name o ≢ err bad_result
value_of-ne-bad_result name none = cc
value_of-ne-bad_result name (some (str s)) = λ h.
    elim (if_failed (is_key_id_value s) (ok s) (claim_bad_value name) h) [
      | inl p ↦ cc (p.1)
      | inr q ↦ cc (q.1)
    ]
value_of-ne-bad_result name (some null) = cc
value_of-ne-bad_result name (some (bool b)) = cc
value_of-ne-bad_result name (some (num n)) = cc
value_of-ne-bad_result name (some (arr xs)) = cc
value_of-ne-bad_result name (some (obj fs)) = cc

expand_failed-ne-bad_result :
    (claims : Claims) (segs : List Segment) (e : KeyIdError)
    → (expand_segments claims segs none).1 ≡ some e
    → e ≢ bad_result
unfolding expand_segments
expand_failed-ne-bad_result claims [] e h = cc
expand_failed-ne-bad_result claims (lit c ∷ segs) e h = expand_failed-ne-bad_result claims segs e h
expand_failed-ne-bad_result claims (var name ∷ segs) e h =
    elim (Result-cases (claim_value claims name)) [
      | inl (v, found) ↦ expand_failed-ne-bad_result claims segs e (rw found at h)
      | inr (f, failed) ↦ λ same.
          value_of-ne-bad_result name (lookup name claims)
            (unfold claim_value in cc (failed, rw failed at h, expand_failed claims segs f))
    ]

finish_bad_result :
    (r : Text × Option KeyIdError)
    → finish r ≡ err bad_result
    → (r.1 ≡ some bad_result) ⊎ ((r.1 ≡ none) × (is_key_id_value r.0 ≡ false))
finish_bad_result (text, some e) h = inl (cc)
finish_bad_result (text, none) h = elim (Bool-cases (ltb max_key_id_length (length text))) [
  | inl long ↦ absurd (cc (rw long at h))
  | inr fits ↦ elim (if_failed (is_key_id_value text) (ok text) bad_result (rw fits at h)) [
    | inl p ↦ absurd (cc (p.1))
    | inr q ↦ inr (refl, q.0)
  ]
]

-- For a non-empty template that `template_vars` accepts, the last check of the expanded key ID
-- never refuses: a failed expansion names a claim, or the result is too long.
pub expand_key_id-ne-bad_result :
    (tmpl : Text) (vars : List Text) (claims : Claims)
    → tmpl ≢ []
    → template_vars tmpl ≡ ok vars
    → expand_key_id tmpl claims ≢ err bad_result
unfolding expand_key_id
expand_key_id-ne-bad_result tmpl vars claims ne accepted h =
    elim (finish_bad_result (expand_segments claims (segments tmpl) none) h) [
      | inl early ↦ expand_failed-ne-bad_result claims (segments tmpl) bad_result early refl
      | inr (clean, bad) ↦
          let (_, _, plain) = (template_vars_iff tmpl vars).0 accepted in
          let r = expand_segments_sound claims (segments tmpl) clean in
          cc (
            bad,
            (is_key_id_value_iff _).1
                (Expands-ne-nil (segments-ne-nil tmpl ne) r, Expands-IsKeyId plain r),
          )
    ]

expand_segments_agree :
    (c d : Claims) (segs : List Segment) (failed : Option KeyIdError)
    → All (λ n. lookup n c ≡ lookup n d) (names segs)
    → expand_segments c segs failed ≡ expand_segments d segs failed
unfolding expand_segments names
expand_segments_agree c d [] failed h = refl
expand_segments_agree c d (lit x ∷ segs) failed h = rw (expand_segments_agree c d segs failed h)
expand_segments_agree c d (var name ∷ segs) failed h =
    let same : claim_value c name ≡ claim_value d name = unfold claim_value in rw (h.0) in
    rw same (rw (expand_segments_agree c d segs _ h.1))

-- The key ID depends on the claims that the template names and on no other: two tokens that agree
-- on `vars` get the same key ID or the same refusal.
pub expand_key_id_agree :
    (tmpl : Text) (vars : List Text) (c d : Claims)
    → template_vars tmpl ≡ ok vars
    → All (λ n. lookup n c ≡ lookup n d) vars
    → expand_key_id tmpl c ≡ expand_key_id tmpl d
unfolding expand_key_id
expand_key_id_agree tmpl vars c d accepted h =
    let (eq, _, _) = (template_vars_iff tmpl vars).0 accepted in
    rw (expand_segments_agree c d (segments tmpl) none (rw eq at h))
