-- ===== src/Server/Sign.antt =====
-- internal/server/server.go: `Sign`. An early `return s.deny(...)` is the `Denial` with deny's
-- arguments, which `conclude` passes to `deny`.
pub mod Events
pub mod Tokens
pub mod Issued
pub mod Phases
pub mod Issuance
pub mod Lifetime
use oidc_ssh_ca.Prelude.{
  ℕ, Bool, true, false, not, Option, none, some, List, [], ◌∷◌, ◌++◌, length, ltb, if◌then◌else◌,
  Result, ok, err, ◌>>=◌, ◌>>◌, check, refuse, map_err,
}
use oidc_ssh_ca.Prelude.Text.{Text, codes, str_eq}
use oidc_ssh_ca.Prelude.Int.{ℤ, ◌+ℤ◌, ◌*ℤ◌, wrap_int64}
use oidc_ssh_ca.Policy.{
  Rule, Policy, allowed_public_key_types, extensions_for, valid_for_seconds_for,
  key_id_template_for, source_address_for, issuers, valid_after_offset_seconds,
}
use oidc_ssh_ca.Policy.KeyId.{expand_key_id}
use oidc_ssh_ca.Policy.Matching.{
  Identity, Reason, policy_disabled, no_rule_matched, multiple_rules_matched, Decision, allow,
  evaluate,
}
use oidc_ssh_ca.Policy.Matching
use oidc_ssh_ca.Oidc.Time.{second}
use oidc_ssh_ca.Issuer.PublicKey.{validate_public_key}
use oidc_ssh_ca.Issuer.Certificates.{Request, SshCertificate, nonempty, issue}
use oidc_ssh_ca.Audit.{issued}
use oidc_ssh_ca.Server.{
  max_request_body, DenyReason, of_policy, bad_request, invalid_public_key, missing_token,
  token_invalid, key_id_invalid, signing_error, Attr, text, texts, number, method_not_allowed,
  all_matched, bad_json, key_error, verify_error, key_id_error, issue_error, Attrs, Verifier,
  Packages, Server, State, Draws, Response, reason_code, new_request_id, bearer_token,
  identity_attrs, Denial, deny,
}

-- `time.Duration(seconds) * time.Second`, on an int64
unfoldable pub seconds : ℤ → ℤ
seconds n = wrap_int64 (n *ℤ second)

-- `now.Add(d)`
abbrev pub add : ℤ → ℤ → ℤ
add now d = now +ℤ d

abbrev pub policy_status : Reason → ℕ
policy_status policy_disabled = 503
policy_status no_rule_matched = 403
policy_status multiple_rules_matched = 403

module _ {V E : Type 0} where
  abbrev pub denial : ℕ → DenyReason → Attr V E → Attrs V E → Denial V E
  denial status reason detail attrs = record {
    status = status;
    reason = reason;
    detail = detail;
    attrs = attrs;
  }

  -- `detail` of a policy denial
  abbrev pub policy_detail : Reason → List Text → Attr V E
  policy_detail reason (r ∷ s ∷ rest) = all_matched (r ∷ s ∷ rest)
  policy_detail reason _ = text (reason_code (of_policy reason))

  abbrev pub token_or_deny : Attrs V E → Option Text → Result (Denial V E) Text
  token_or_deny key_attrs none = err (
      denial 401 missing_token (text (codes "missing or malformed Authorization header")) key_attrs)
  token_or_deny key_attrs (some raw_token) = ok raw_token

  abbrev pub rule_or_deny : Attrs V E → Decision → Result (Denial V E) Rule
  rule_or_deny claim_attrs (allow rule names) = ok rule
  rule_or_deny claim_attrs (Matching.deny reason names) =
      err
        (denial (policy_status reason) (of_policy reason) (policy_detail reason names) claim_attrs)

  -- `if b { attrs = append(attrs, name, value) }`
  abbrev pub attr_when : Bool → Text → Attr V E → Attrs V E
  attr_when b name value = if b then (name, value) ∷ [] else []

  unfoldable pub issued_attrs : Policy → Rule → Text → Attrs V E
  issued_attrs pol rule key_id =
      ((codes "rule", text rule.name)
        ∷ (codes "principals", texts rule.certificate.principals)
        ∷ (codes "key_id", text key_id)
        ∷ (codes "valid_for_seconds", number (valid_for_seconds_for pol rule))
        ∷ [])
      ++ attr_when (nonempty rule.certificate.force_command) (codes "force_command")
          (text rule.certificate.force_command)
      ++ attr_when (nonempty rule.certificate.source_address) (codes "source_address")
          (texts rule.certificate.source_address)

-- the request for a certificate: all but the key is the policy's
unfoldable pub certificate_request :
    {PublicKey : Type 0} → Policy → Rule → PublicKey → Text → ℤ → Request PublicKey
certificate_request pol rule pub_key key_id now = record {
  public_key = pub_key;
  key_id = key_id;
  principals = rule.certificate.principals;
  valid_after = add now (seconds (valid_after_offset_seconds pol));
  valid_before = add now (seconds (valid_for_seconds_for pol rule));
  extensions = extensions_for pol rule;
  force_command = rule.certificate.force_command;
  source_address = source_address_for pol rule;
}

module _ {PublicKey Signature S V E : Type 0} (pkg : Packages PublicKey Signature E)
    (srv : Server PublicKey Signature S V E) where
  unfoldable pub key_attrs : PublicKey → Attrs V E
  key_attrs pub_key =
      (codes "public_key_fingerprint", text (pkg.fingerprint pub_key))
      ∷ (codes "key_type", text (pkg.keys.key_type pub_key))
      ∷ []

  -- up to the call of the verifier: the key and the bearer token
  unfoldable pub before_verify :
      Policy → (method auth_header body : Text) → Result (Denial V E) (PublicKey × Text)
  before_verify pol method auth_header body = do
    check (str_eq method (codes "POST")) (denial 405 bad_request (method_not_allowed method) [])
    refuse pol.disabled
        (denial 503 (of_policy policy_disabled) (text (codes "policy is disabled")) [])
    refuse (ltb max_request_body (length body))
        (denial 400 bad_request (text (codes "request body too large")) [])
    public_key ← map_err (λ e. denial 400 bad_request (bad_json e) []) (pkg.decode_request body)
    pub_key ←
        map_err (λ e. denial 400 invalid_public_key (key_error e) [])
          (validate_public_key pkg.keys public_key (allowed_public_key_types pol))
    raw_token ← token_or_deny (key_attrs pub_key) (bearer_token auth_header)
    ok (pub_key, raw_token)

  -- after it: the certificate's bytes, and the attributes of the issued event
  unfoldable pub after_verify :
      Policy → Draws E → PublicKey → Result V Identity → Result (Denial V E) (Text × Attrs V E)
  after_verify pol draws pub_key verified = do
    id ← map_err (λ e. denial 401 token_invalid (verify_error e) (key_attrs pub_key)) verified
    rule ← rule_or_deny (key_attrs pub_key ++ identity_attrs id) (evaluate pol id)
    key_id ←
        map_err
          (λ e. denial 403 key_id_invalid (key_id_error e) (key_attrs pub_key ++ identity_attrs id))
          (expand_key_id (key_id_template_for pol rule) id.claims)
    certificate ←
        map_err
          (λ e. denial 500 signing_error (issue_error e) (key_attrs pub_key ++ identity_attrs id))
          (issue srv.signer pkg.marshal_certificate draws.serial_bytes
            (certificate_request pol rule pub_key key_id draws.now))
    ok (certificate.0, issued_attrs pol rule key_id ++ key_attrs pub_key ++ identity_attrs id)

  -- the end of the request, by what came of it
  unfoldable pub conclude :
      Text → Result (Denial V E) (Text × Attrs V E) → State S V E → State S V E × Response
  conclude request_id (err d) st = deny pkg request_id d st
  conclude request_id (ok (certificate, attrs)) st = (
    record {
      policy = st.policy;
      verifier_state = st.verifier_state;
      log = issued text request_id attrs st.log;
    },
    record {
      status = 200;
      content_type = codes "text/plain; charset=utf-8";
      body = certificate;
      request_id = request_id;
    },
  )

  abbrev pub with_verifier : State S V E → S → State S V E
  with_verifier st s = record { policy = st.policy; verifier_state = s; log = st.log }

  abbrev pub sign_verified :
      Policy → Draws E → PublicKey → State S V E → S × Result V Identity → State S V E × Response
  sign_verified pol draws pub_key st (s, verified) =
      conclude (new_request_id draws.id_bytes) (after_verify pol draws pub_key verified)
        (with_verifier st s)

  abbrev pub sign_checked :
      Draws E → State S V E → Result (Denial V E) (PublicKey × Text) → State S V E × Response
  sign_checked draws st (err d) = conclude (new_request_id draws.id_bytes) (err d) st
  sign_checked draws st (ok (pub_key, raw_token)) =
      sign_verified st.policy draws pub_key st
        (srv.verifier.verify_token raw_token (issuers st.policy) st.verifier_state)

  unfoldable pub sign :
      Draws E → (method auth_header body : Text) → State S V E → State S V E × Response
  sign draws method auth_header body st =
      sign_checked draws st (before_verify st.policy method auth_header body)
