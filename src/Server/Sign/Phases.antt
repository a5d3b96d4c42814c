-- ===== src/Server/Sign/Phases.antt =====
-- What the two halves of `sign`, before and after the verifier, let through.
use oidc_ssh_ca.Prelude.{
  ◌≤◌, ◌≡◌, refl, ◌↔◌, false, Option, none, some, List, [], ◌∷◌, arith, length, ltb, Result, ok,
  check, refuse, map_err, >>=-eq-ok, >>-eq-ok, check_passed, refuse_passed, map_err_ok, >>=-ok,
  >>-ok, check_ok, refuse_ok, ok_map_err,
}
use oidc_ssh_ca.Prelude.Text.{Text, codes, str_eq, str_eq_iff}
use oidc_ssh_ca.Policy.{Rule, Policy, allowed_public_key_types, key_id_template_for}
use oidc_ssh_ca.Policy.KeyId.{expand_key_id}
use oidc_ssh_ca.Policy.Matching.{Identity, Decision, allow, evaluate}
use oidc_ssh_ca.Policy.Matching
use oidc_ssh_ca.Policy.Matching.Decisions.{evaluate-allow_iff}
use oidc_ssh_ca.Issuer.PublicKey.{validate_public_key}
use oidc_ssh_ca.Issuer.Certificates.{SshCertificate, issue}
use oidc_ssh_ca.Server.{max_request_body, Attrs, Packages, Server, Draws, bearer_token}
use oidc_ssh_ca.Server.Sign.{
  certificate_request, before_verify, after_verify, rule_or_deny, token_or_deny,
}

pub same_first :
    {E A B : Type 0} {a c : A} {b d : B} → Path (Result E (A × B)) (ok (a, b)) (ok (c, d)) → a ≡ c
same_first h = cc

pub same_second :
    {E A B : Type 0} {a c : A} {b d : B} → Path (Result E (A × B)) (ok (a, b)) (ok (c, d)) → b ≡ d
same_second h = cc

with_first :
    {E A B : Type 0} {r : Result E (A × B)} {m : A × B} {a : A}
    → r ≡ ok m
    → m.0 ≡ a
    → r ≡ ok (a, m.1)
with_first {m = (b, c)} h e = cc

with_names :
    {d : Decision} {r : Rule} {names alone : List Text}
    → d ≡ allow r names
    → names ≡ alone
    → d ≡ allow r alone
with_names h e = cc

module _ {PublicKey Signature S V E : Type 0} (pkg : Packages PublicKey Signature E)
    (srv : Server PublicKey Signature S V E) where
  token_found :
      (attrs : Attrs V E) (o : Option Text) (t : Text) → token_or_deny attrs o ≡ ok t → o ≡ some t
  token_found attrs none t h = cc
  token_found attrs (some raw) t h = cc

  token_given :
      (attrs : Attrs V E) (o : Option Text) (t : Text) → o ≡ some t → token_or_deny attrs o ≡ ok t
  token_given attrs none t h = cc
  token_given attrs (some raw) t h = cc

  pub before_verify_iff :
      (pol : Policy) (method auth_header body : Text) (key : PublicKey) (raw_token : Text)
      → (before_verify pkg srv pol method auth_header body ≡ ok (key, raw_token)) ↔ (
          (method ≡ codes "POST")
          × (pol.disabled ≡ false)
          × (length body ≤ max_request_body)
          × ((t : Text) × (pkg.decode_request body ≡ ok t)
              × (validate_public_key pkg.keys t (allowed_public_key_types pol) ≡ ok key))
          × (bearer_token auth_header ≡ some raw_token))
  unfolding before_verify
  before_verify_iff pol method auth_header body key raw_token = (
    λ h.
        let (post, h1) = >>-eq-ok (check (str_eq method (codes "POST")) _) _ h in
        let (on, h2) = >>-eq-ok (refuse pol.disabled _) _ h1 in
        let (fits, h3) = >>-eq-ok (refuse (ltb max_request_body (length body)) _) _ h2 in
        let (t, decoded, h4) = >>=-eq-ok (map_err _ (pkg.decode_request body)) _ h3 in
        let (k, accepted, h5) =
          >>=-eq-ok (map_err _ (validate_public_key pkg.keys t (allowed_public_key_types pol))) _
            h4 in
        let (raw, token, h6) = >>=-eq-ok (token_or_deny _ (bearer_token auth_header)) _ h5 in
        let within = refuse_passed _ _ fits in
        (
          (str_eq_iff method (codes "POST")).0 (check_passed _ _ post),
          refuse_passed _ _ on,
          ground arith,
          (t, map_err_ok _ _ decoded, cc (map_err_ok _ _ accepted)),
          cc (token_found _ (bearer_token auth_header) raw token, h6),
        ),
    λ (post, on, fits, (t, decoded, accepted), token).
        >>-ok (check_ok _ ((str_eq_iff method (codes "POST")).1 post)) (
          >>-ok (refuse_ok _ on) (
            >>-ok (refuse_ok _ (ground arith)) (
              >>=-ok _ (ok_map_err _ decoded) (
                >>=-ok _ (ok_map_err _ accepted)
                  (>>=-ok _ (token_given _ (bearer_token auth_header) raw_token token) refl))))),
  )

  rule_found :
      (attrs : Attrs V E) (d : Decision) (r : Rule)
      → rule_or_deny attrs d ≡ ok r
      → (names : List Text) × (d ≡ allow r names)
  rule_found attrs (allow s names) r h = (names, cc)
  rule_found attrs (Matching.deny reason names) r h = cc

  rule_given :
      (attrs : Attrs V E) (d : Decision) (r : Rule) (names : List Text)
      → d ≡ allow r names
      → rule_or_deny attrs d ≡ ok r
  rule_given attrs (allow s ns) r names h = cc
  rule_given attrs (Matching.deny reason ns) r names h = cc

  -- what `after_verify` leaves behind a verified identity
  abbrev pub FromIdentity : Policy → Draws E → PublicKey → Result V Identity → Text → Type 0
  FromIdentity pol draws key verified out =
      (id : Identity) × (rule : Rule) × (key_id : Text) × (cert : SshCertificate PublicKey)
      × (verified ≡ ok id)
      × (evaluate pol id ≡ allow rule (rule.name ∷ []))
      × (expand_key_id (key_id_template_for pol rule) id.claims ≡ ok key_id)
      × (issue srv.signer pkg.marshal_certificate draws.serial_bytes
            (certificate_request pol rule key key_id draws.now)
          ≡ ok (out, cert))

  pub after_verify_iff :
      (pol : Policy) (draws : Draws E) (key : PublicKey) (verified : Result V Identity) (out : Text)
      → ((attrs : Attrs V E) × (after_verify pkg srv pol draws key verified ≡ ok (out, attrs)))
        ↔ FromIdentity pol draws key verified out
  unfolding after_verify
  after_verify_iff pol draws key verified out = (
    λ (attrs, h).
        let (id, is_id, h1) = >>=-eq-ok (map_err _ verified) _ h in
        let (rule, decided, h2) = >>=-eq-ok (rule_or_deny _ (evaluate pol id)) _ h1 in
        let (key_id, expanded, h3) =
          >>=-eq-ok (map_err _ (expand_key_id (key_id_template_for pol rule) id.claims)) _ h2 in
        let (made, issued_ok, h4) = >>=-eq-ok (map_err _ (issue srv.signer _ _ _)) _ h3 in
        let (names, allowed) = rule_found _ (evaluate pol id) rule decided in
        let alone = ((evaluate-allow_iff pol id rule names).0 allowed).2 in
        (
          id,
          rule,
          key_id,
          made.1,
          map_err_ok _ _ is_id,
          with_names allowed alone,
          map_err_ok _ _ expanded,
          with_first (map_err_ok _ _ issued_ok) (same_first h4),
        ),
    λ (id, rule, key_id, cert, is_id, decided, expanded, issued_ok). (
      _,
      >>=-ok _ (ok_map_err _ is_id) (
          >>=-ok _ (rule_given _ (evaluate pol id) rule _ decided)
            (>>=-ok _ (ok_map_err _ expanded) (>>=-ok _ (ok_map_err _ issued_ok) refl))),
    ),
  )
