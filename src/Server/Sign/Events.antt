-- ===== src/Server/Sign/Events.antt =====
-- Every request writes one audit event, and a caller learns nothing from a denial but its status.
use oidc_ssh_ca.Prelude.{
  ℕ, ◌≡◌, refl, ◌≢◌, ◌⊎◌, inl, inr, Option, none, some, [], ◌∷◌, ◌++◌, arith, Result, ok, err,
  ◌>>=◌, length, ltb, OnErr, OnErr-ok, OnErr-err, >>=-OnErr, >>-OnErr, check-OnErr, refuse-OnErr,
  map_err-OnErr,
}
use oidc_ssh_ca.Prelude.Text.{Text, codes, str_eq}
use oidc_ssh_ca.Json.{lookup}
use oidc_ssh_ca.Policy.{Policy, issuers, allowed_public_key_types, key_id_template_for}
use oidc_ssh_ca.Policy.KeyId.{expand_key_id}
use oidc_ssh_ca.Issuer.PublicKey.{validate_public_key}
use oidc_ssh_ca.Issuer.Certificates.{issue}
use oidc_ssh_ca.Policy.Matching.{
  Identity, Reason, policy_disabled, no_rule_matched, multiple_rules_matched, Decision, allow,
  evaluate,
}
use oidc_ssh_ca.Policy.Matching
use oidc_ssh_ca.Audit.{Event, event_issued, event_denied, issued, denied}
use oidc_ssh_ca.Server.{
  DenyReason, of_policy, bad_request, invalid_public_key, missing_token, token_invalid,
  key_id_invalid, signing_error, method_not_allowed, bad_json, key_error, verify_error,
  key_id_error, issue_error, identity_attrs, max_request_body, Attr, text, Attrs, Packages, Server,
  State, Draws, Response, new_request_id, reason_code, Denial, denial_response, deny, bearer_token,
}
use oidc_ssh_ca.Server.Sign.{
  denial, key_attrs, issued_attrs, certificate_request, token_or_deny, rule_or_deny, before_verify,
  after_verify, conclude, sign_checked, sign, with_verifier,
}

-- the statuses that go with a reason
abbrev pub Answers : DenyReason → ℕ → Type 0
Answers (of_policy policy_disabled) n = n ≡ 503
Answers (of_policy no_rule_matched) n = n ≡ 403
Answers (of_policy multiple_rules_matched) n = n ≡ 403
Answers bad_request n = (n ≡ 400) ⊎ (n ≡ 405)
Answers invalid_public_key n = n ≡ 400
Answers missing_token n = n ≡ 401
Answers token_invalid n = n ≡ 401
Answers key_id_invalid n = n ≡ 403
Answers signing_error n = n ≡ 500

pub not_200 : (r : DenyReason) (n : ℕ) → Answers r n → n ≢ 200
not_200 (of_policy policy_disabled) n h = omega arith
not_200 (of_policy no_rule_matched) n h = omega arith
not_200 (of_policy multiple_rules_matched) n h = omega arith
not_200 bad_request n h = elim h [ inl e ↦ omega arith | inr e ↦ omega arith ]
not_200 invalid_public_key n h = omega arith
not_200 missing_token n h = omega arith
not_200 token_invalid n h = omega arith
not_200 key_id_invalid n h = omega arith
not_200 signing_error n h = omega arith

module _ {V E : Type 0} where
  abbrev pub Answered : Denial V E → Type 0
  Answered d = Answers d.reason d.status

  token-Answered :
      (attrs : Attrs V E) (token : Option Text) → OnErr Answered (token_or_deny attrs token)
  token-Answered attrs none = OnErr-err Answered _ refl
  token-Answered attrs (some t) = OnErr-ok Answered _

  rule-Answered : (attrs : Attrs V E) (d : Decision) → OnErr Answered (rule_or_deny attrs d)
  rule-Answered attrs (allow r names) = OnErr-ok Answered _
  rule-Answered attrs (Matching.deny policy_disabled names) = OnErr-err Answered _ refl
  rule-Answered attrs (Matching.deny no_rule_matched names) = OnErr-err Answered _ refl
  rule-Answered attrs (Matching.deny multiple_rules_matched names) = OnErr-err Answered _ refl

module _ {PublicKey Signature S V E : Type 0} (pkg : Packages PublicKey Signature E)
    (srv : Server PublicKey Signature S V E) where
  pub before_verify-Answered :
      (pol : Policy) (method auth_header body : Text)
      → OnErr Answered (before_verify pkg srv pol method auth_header body)
  unfolding before_verify
  before_verify-Answered pol method auth_header body =
      let key_steps : (t : Text) → OnErr Answered _ = λ t.
        >>=-OnErr Answered _
          (λ pub_key.
            token_or_deny (key_attrs pkg srv pub_key) (bearer_token auth_header) >>= λ raw.
            ok (pub_key, raw))
          (map_err-OnErr Answered (λ e. denial 400 invalid_public_key (key_error e) [])
            (validate_public_key pkg.keys t (allowed_public_key_types pol)) (λ e. refl))
          (λ pub_key.
            >>=-OnErr Answered _ (λ raw. ok (pub_key, raw))
              (token-Answered (key_attrs pkg srv pub_key) (bearer_token auth_header))
              (λ raw. OnErr-ok Answered (pub_key, raw))) in
      >>-OnErr Answered _ _
        (check-OnErr Answered (str_eq method (codes "POST"))
          (denial 405 bad_request (method_not_allowed method) []) (inr refl))
        (>>-OnErr Answered _ _
          (refuse-OnErr Answered pol.disabled
            (denial 503 (of_policy policy_disabled) (text (codes "policy is disabled")) []) refl)
          (>>-OnErr Answered _ _
            (refuse-OnErr Answered (ltb max_request_body (length body))
              (denial 400 bad_request (text (codes "request body too large")) []) (inl refl))
            (>>=-OnErr Answered _ _
              (map_err-OnErr Answered (λ e. denial 400 bad_request (bad_json e) [])
                (pkg.decode_request body) (λ e. inl refl))
              key_steps)))

  pub after_verify-Answered :
      (pol : Policy) (draws : Draws E) (pub_key : PublicKey) (verified : Result V Identity)
      → OnErr Answered (after_verify pkg srv pol draws pub_key verified)
  unfolding after_verify
  after_verify-Answered pol draws pub_key verified =
      let attrs : Identity → Attrs V E = λ id. key_attrs pkg srv pub_key ++ identity_attrs id in
      >>=-OnErr Answered _ _
        (map_err-OnErr Answered
          (λ e. denial 401 token_invalid (verify_error e) (key_attrs pkg srv pub_key)) verified
          (λ e. refl))
        (λ id. >>=-OnErr Answered _ _ (rule-Answered (attrs id) (evaluate pol id)) (λ rule.
          >>=-OnErr Answered _ _
            (map_err-OnErr Answered (λ e. denial 403 key_id_invalid (key_id_error e) (attrs id))
              (expand_key_id (key_id_template_for pol rule) id.claims) (λ e. refl))
            (λ key_id.
              >>=-OnErr Answered _ _
                (map_err-OnErr Answered (λ e. denial 500 signing_error (issue_error e) (attrs id))
                  (issue srv.signer pkg.marshal_certificate draws.serial_bytes
                    (certificate_request pol rule pub_key key_id draws.now))
                  (λ e. refl))
                (λ c. OnErr-ok Answered (
                  c.0,
                  issued_attrs pol rule key_id ++ key_attrs pkg srv pub_key ++ identity_attrs id,
                )))))

  -- the event is about the request of this response, and agrees with it
  abbrev pub Tells : Event (Attr V E) → Response → Type 0
  Tells e resp =
      (lookup (codes "request_id") e.attrs ≡ some (text resp.request_id))
      × (((resp.status ≡ 200) × (e.message ≡ event_issued))
          ⊎ ((resp.status ≢ 200)
              × (e.message ≡ event_denied)
              × ((reason : DenyReason) × (lookup (codes "reason") e.attrs
                    ≡ some (text (reason_code reason)))
                  × Answers reason resp.status)))

  -- one more event
  abbrev pub OneEvent : State S V E → State S V E × Response → Type 0
  OneEvent st out = (e : Event (Attr V E)) × (out.0.log ≡ st.log ++ e ∷ []) × Tells e out.1

  conclude-OneEvent :
      (request_id : Text) (r : Result (Denial V E) (Text × Attrs V E)) (st : State S V E)
      → OnErr Answered r
      → OneEvent st (conclude pkg srv request_id r st)
  unfolding conclude deny denied issued denial_response lookup
  conclude-OneEvent request_id (err d) st answered =
      let fits = answered.of_error d refl in
      (_, refl, (refl, inr (not_200 d.reason d.status fits, refl, (d.reason, refl, fits))))
  conclude-OneEvent request_id (ok (certificate, attrs)) st answered =
      (_, refl, (refl, inl (refl, refl)))

  sign_checked-OneEvent :
      (draws : Draws E) (st : State S V E) (r : Result (Denial V E) (PublicKey × Text))
      → OnErr Answered r
      → OneEvent st (sign_checked pkg srv draws st r)
  sign_checked-OneEvent draws st (err d) answered =
      conclude-OneEvent (new_request_id draws.id_bytes) (err d) st
        (OnErr-err Answered d (answered.of_error d refl))
  sign_checked-OneEvent draws st (ok (pub_key, raw_token)) answered =
      let called = srv.verifier.verify_token raw_token (issuers st.policy) st.verifier_state in
      conclude-OneEvent (new_request_id draws.id_bytes)
        (after_verify pkg srv st.policy draws pub_key called.1) (with_verifier pkg srv st called.0)
        (after_verify-Answered st.policy draws pub_key called.1)

  -- Every call of `sign` writes exactly one audit event behind those that the log holds, under the
  -- ID of its response: certificate_issued if the status is 200, and certificate_denied otherwise,
  -- with a reason that goes with the status.
  pub sign-OneEvent :
      (draws : Draws E) (method auth_header body : Text) (st : State S V E)
      → OneEvent st (sign pkg srv draws method auth_header body st)
  unfolding sign
  sign-OneEvent draws method auth_header body st =
      sign_checked-OneEvent draws st (before_verify pkg srv st.policy method auth_header body)
        (before_verify-Answered st.policy method auth_header body)

  conclude_generic :
      (request_id : Text) (r : Result (Denial V E) (Text × Attrs V E)) (st : State S V E)
      → (conclude pkg srv request_id r st).1.status ≢ 200
      → (conclude pkg srv request_id r st).1
        ≡ denial_response pkg request_id (conclude pkg srv request_id r st).1.status
  unfolding conclude deny denial_response
  conclude_generic request_id (err d) st h = refl
  conclude_generic request_id (ok (certificate, attrs)) st h = absurd (h refl)

  sign_checked_generic :
      (draws : Draws E) (st : State S V E) (r : Result (Denial V E) (PublicKey × Text))
      → (sign_checked pkg srv draws st r).1.status ≢ 200
      → (sign_checked pkg srv draws st r).1
        ≡ denial_response pkg
            (new_request_id draws.id_bytes)
            (sign_checked pkg srv draws st r).1.status
  sign_checked_generic draws st (err d) h =
      conclude_generic (new_request_id draws.id_bytes) (err d) st h
  sign_checked_generic draws st (ok (pub_key, raw_token)) h =
      conclude_generic (new_request_id draws.id_bytes) _ _ h

  -- Whatever a request was denied for, the response is the generic one: its content type and body
  -- are determined by the request ID alone, so a caller learns no more than the status.
  pub sign-denied_generic :
      (draws : Draws E) (method auth_header body : Text) (st : State S V E)
      → (sign pkg srv draws method auth_header body st).1.status ≢ 200
      → (sign pkg srv draws method auth_header body st).1
        ≡ denial_response pkg
            (new_request_id draws.id_bytes)
            (sign pkg srv draws method auth_header body st).1.status
  unfolding sign
  sign-denied_generic draws method auth_header body st h =
      sign_checked_generic draws st (before_verify pkg srv st.policy method auth_header body) h
