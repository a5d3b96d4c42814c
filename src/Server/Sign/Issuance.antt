-- ===== src/Server/Sign/Issuance.antt =====
-- When a request is answered with a certificate, and what is in it.
use oidc_ssh_ca.Prelude.{
  ℕ, ◌≤◌, ◌≡◌, refl, sym, ◌≢◌, ◌↔◌, false, List, [], ◌∷◌, ◌++◌, length, Result, ok, err, OnErr,
  OnErr-err, ap, subst,
}
use oidc_ssh_ca.Prelude.Text.{Text, codes}
use oidc_ssh_ca.Policy.{Rule, issuers, allowed_public_key_types, key_id_template_for}
use oidc_ssh_ca.Policy.KeyId.{expand_key_id}
use oidc_ssh_ca.Policy.Matching.{Identity}
use oidc_ssh_ca.Policy.Matching.Decisions.{Only, evaluate-allow_iff}
use oidc_ssh_ca.Issuer.PublicKey.Accepts.{Accepted, validate_public_key_iff}
use oidc_ssh_ca.Issuer.Certificates.{SshCertificate, big_endian, certificate_of}
use oidc_ssh_ca.Server.{
  max_request_body, Attrs, Packages, Server, State, Draws, Response, new_request_id, Denial,
  bearer_prefix, deny, denial_response,
}
use oidc_ssh_ca.Server.Sign.{
  certificate_request, before_verify, after_verify, conclude, sign_checked, sign, with_verifier,
}
use oidc_ssh_ca.Server.Sign.Events.{
  Answered, not_200, before_verify-Answered, after_verify-Answered,
}
use oidc_ssh_ca.Server.Sign.Tokens.{bearer_token_iff}
use oidc_ssh_ca.Server.Sign.Issued.{issue_iff}
use oidc_ssh_ca.Server.Sign.Phases.{
  before_verify_iff, after_verify_iff, FromIdentity, same_first, same_second,
}

module _ {PublicKey Signature S V E : Type 0} (pkg : Packages PublicKey Signature E)
    (srv : Server PublicKey Signature S V E) where
  -- all that a request for a certificate has to pass
  pub record Issuance (draws : Draws E) (method auth_header body : Text) (st : State S V E)
      (out : Text) : Type 0 where
    pub posted : method ≡ codes "POST"
    pub enabled : st.policy.disabled ≡ false
    pub small : length body ≤ max_request_body
    pub public_key : Text
    pub decoded : pkg.decode_request body ≡ ok public_key
    pub pub_key : PublicKey
    pub accepted : Accepted pkg.keys public_key (allowed_public_key_types st.policy) pub_key
    pub raw_token : Text
    pub header : auth_header ≡ bearer_prefix ++ raw_token
    pub some_token : raw_token ≢ []
    pub id : Identity
    pub verified :
        (srv.verifier.verify_token raw_token (issuers st.policy) st.verifier_state).1 ≡ ok id
    pub rule : Rule
    pub matched : Only id st.policy.rules rule
    pub key_id : Text
    pub expanded : expand_key_id (key_id_template_for st.policy rule) id.claims ≡ ok key_id
    pub serial_bytes : List ℕ
    pub drawn : draws.serial_bytes ≡ ok serial_bytes
    pub certificate : SshCertificate PublicKey
    pub made :
        certificate
        ≡ certificate_of
            (certificate_request st.policy rule pub_key key_id draws.now)
            (big_endian 0 serial_bytes)
    pub signature : Signature
    pub signed : srv.signer.sign_certificate certificate ≡ ok signature
    pub marshalled : out ≡ pkg.marshal_certificate certificate signature

  -- the response that carries a certificate
  abbrev pub issued_response : Draws E → Text → Response
  issued_response draws out = record {
    status = 200;
    content_type = codes "text/plain; charset=utf-8";
    body = out;
    request_id = new_request_id draws.id_bytes;
  }

  conclude_iff :
      (draws : Draws E) (r : Result (Denial V E) (Text × Attrs V E)) (st : State S V E) (out : Text)
      → OnErr Answered r
      → ((conclude pkg srv (new_request_id draws.id_bytes) r st).1 ≡ issued_response draws out)
        ↔ ((attrs : Attrs V E) × (r ≡ ok (out, attrs)))
  unfolding conclude deny denial_response
  conclude_iff draws (err d) st out answered = (
    λ h. absurd (not_200 d.reason d.status (answered.of_error d refl) (ap (λ r. r.status) h)),
    λ h. absurd (cc (h.1)),
  )
  conclude_iff draws (ok (certificate, attrs)) st out answered = (
    λ h. let same : certificate ≡ out = ap (λ r. r.body) h in (attrs, rw same refl),
    λ (given, h). let same : certificate ≡ out = same_first h in rw same refl,
  )

  sign_checked_iff :
      (draws : Draws E) (st : State S V E) (r : Result (Denial V E) (PublicKey × Text)) (out : Text)
      → OnErr Answered r
      → ((sign_checked pkg srv draws st r).1 ≡ issued_response draws out) ↔ (
          (key : PublicKey) × (raw_token : Text) × (r ≡ ok (key, raw_token))
          × FromIdentity pkg srv st.policy draws key
              (srv.verifier.verify_token raw_token (issuers st.policy) st.verifier_state).1
              out)
  sign_checked_iff draws st (err d) out answered = (
    λ h. absurd (
        cc (
          ((conclude_iff draws (err d) st out (OnErr-err Answered d (answered.of_error d refl))).0
            h).1)),
    λ h. absurd (cc (h.2)),
  )
  sign_checked_iff draws st (ok (key, raw_token)) out answered =
      let called = srv.verifier.verify_token raw_token (issuers st.policy) st.verifier_state in
      let end =
        conclude_iff draws (after_verify pkg srv st.policy draws key called.1)
          (with_verifier pkg srv st called.0) out
          (after_verify-Answered pkg srv st.policy draws key called.1) in
      let inner = after_verify_iff pkg srv st.policy draws key called.1 out in
      (
        λ h. (key, raw_token, refl, inner.0 (end.0 h)),
        λ (other, raw, same, from).
            let from_key : FromIdentity pkg srv st.policy draws key
                (srv.verifier.verify_token raw (issuers st.policy) st.verifier_state).1 out =
              subst
                (λ k.
                  FromIdentity pkg srv st.policy draws k
                    (srv.verifier.verify_token raw (issuers st.policy) st.verifier_state).1 out)
                (sym (same_first same)) from in
            end.1 (
              inner.1 (
                subst
                  (λ t.
                    FromIdentity pkg srv st.policy draws key
                      (srv.verifier.verify_token t (issuers st.policy) st.verifier_state).1 out)
                  (sym (same_second same)) from_key)),
      )

  Issuance-of :
      (draws : Draws E) (method auth_header body : Text) (st : State S V E) (out : Text)
      (key : PublicKey) (raw : Text)
      → before_verify pkg srv st.policy method auth_header body ≡ ok (key, raw)
      → FromIdentity pkg srv st.policy draws key
          (srv.verifier.verify_token raw (issuers st.policy) st.verifier_state).1
          out
      → Issuance draws method auth_header body st out
  Issuance-of draws method auth_header body st out key raw before from =
      let (id, rule, key_id, cert, verified, decided, expanded, issued_ok) = from in
      let (post, on, fits, (t, decoded, accepted), token) =
        (before_verify_iff pkg srv st.policy method auth_header body key raw).0 before in
      let (bytes, signature, drawn, made, signed, marshalled) =
        (issue_iff srv.signer pkg.marshal_certificate draws.serial_bytes
            (certificate_request st.policy rule key key_id draws.now) out cert).0
          issued_ok in
      let (header, filled) = (bearer_token_iff auth_header raw).0 token in
      record {
        posted = post;
        enabled = on;
        small = fits;
        public_key = t;
        decoded = decoded;
        pub_key = key;
        accepted =
            (validate_public_key_iff pkg.keys t (allowed_public_key_types st.policy) key).0
              accepted;
        raw_token = raw;
        header = header;
        some_token = filled;
        id = id;
        verified = verified;
        rule = rule;
        matched = ((evaluate-allow_iff st.policy id rule (rule.name ∷ [])).0 decided).1;
        key_id = key_id;
        expanded = expanded;
        serial_bytes = bytes;
        drawn = drawn;
        certificate = cert;
        made = made;
        signature = signature;
        signed = signed;
        marshalled = marshalled;
      }

  -- A request is answered with a certificate exactly when it is a POST under a policy that is not
  -- disabled, its body is within the limit and decodes, the key in it is accepted, it bears a token
  -- that the verifier accepts for the policy's issuers, exactly one enabled rule matches the
  -- identity, that rule's key ID expands, and the signer signs. The certificate is for that key, and
  -- all else in it is the policy's, the rule's and the identity's, at the time of the request.
  pub sign-issued_iff :
      (draws : Draws E) (method auth_header body : Text) (st : State S V E) (out : Text)
      → ((sign pkg srv draws method auth_header body st).1 ≡ issued_response draws out)
        ↔ Issuance draws method auth_header body st out
  unfolding sign
  sign-issued_iff draws method auth_header body st out =
      let end =
        sign_checked_iff draws st (before_verify pkg srv st.policy method auth_header body) out
          (before_verify-Answered pkg srv st.policy method auth_header body) in
      (
        λ h.
            let (key, raw, before, from) = end.0 h in
            Issuance-of draws method auth_header body st out key raw before from,
        λ i. end.1 (
          i.pub_key,
          i.raw_token,
          (before_verify_iff pkg srv st.policy method auth_header body i.pub_key i.raw_token).1 (
            i.posted,
            i.enabled,
            i.small,
            (
              i.public_key,
              i.decoded,
              (validate_public_key_iff pkg.keys i.public_key (allowed_public_key_types st.policy)
                    i.pub_key).1
                  i.accepted,
            ),
            (bearer_token_iff auth_header i.raw_token).1 (i.header, i.some_token),
          ),
          (
            i.id,
            i.rule,
            i.key_id,
            i.certificate,
            i.verified,
            (evaluate-allow_iff st.policy i.id i.rule (i.rule.name ∷ [])).1
                (i.enabled, i.matched, refl),
            i.expanded,
            (issue_iff srv.signer pkg.marshal_certificate draws.serial_bytes
                  (certificate_request st.policy i.rule i.pub_key i.key_id draws.now) out
                  i.certificate).1
                (i.serial_bytes, i.signature, i.drawn, i.made, i.signed, i.marshalled),
          ),
        ),
      )
