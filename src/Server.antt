-- ===== src/Server.antt =====
-- internal/server/server.go: the types of the signing flow, the response to a denial, and the small
-- helpers. The token verifier is an interface (`Verifier`) with a state of its own; Oidc.Verify is
-- its implementation. Calls of other packages are the fields of `Packages`.
pub mod Sign
pub mod Http
pub mod Tests
use oidc_ssh_ca.Prelude.{
  ℕ, zero, suc, ◌+◌, ◌*◌, ◌/◌, ◌%◌, Bool, true, false, not, ◌||◌, Option, none, some, List, [], ◌∷◌,
  ◌++◌, length, ltb, ◌==◌, if◌then◌else◌, Result, ok, err,
}
use oidc_ssh_ca.Prelude.Text.{Text, codes, has_prefix}
use oidc_ssh_ca.Prelude.Int.{ℤ}
use oidc_ssh_ca.Json.{Claims, string_claim}
use oidc_ssh_ca.Policy.{Policy}
use oidc_ssh_ca.Policy.Loading.{LoadError}
use oidc_ssh_ca.Policy.KeyId.{KeyIdError}
use oidc_ssh_ca.Policy.Matching.{
  Identity, Reason, policy_disabled, no_rule_matched, multiple_rules_matched,
}
use oidc_ssh_ca.Issuer.PublicKey.{Keys, PublicKeyError}
use oidc_ssh_ca.Issuer.Certificates.{Signer, SshCertificate, IssueError}
use oidc_ssh_ca.Audit.{Log, denied}

abbrev pub max_request_body : ℕ
max_request_body = 16 * 1024

-- the deny reason codes, those of package policy included
pub data DenyReason : Type 0 where
  of_policy : Reason → DenyReason
  bad_request invalid_public_key missing_token token_invalid key_id_invalid signing_error :
      DenyReason

abbrev pub reason_code : DenyReason → Text
reason_code bad_request = codes "bad_request"
reason_code invalid_public_key = codes "invalid_public_key"
reason_code missing_token = codes "missing_token"
reason_code token_invalid = codes "token_invalid"
reason_code key_id_invalid = codes "key_id_invalid"
reason_code signing_error = codes "signing_error"
reason_code (of_policy no_rule_matched) = codes "no_rule_matched"
reason_code (of_policy multiple_rules_matched) = codes "multiple_rules_matched"
reason_code (of_policy policy_disabled) = codes "policy_disabled"

-- The values of audit attributes. An error stands for its text.
pub data Attr (V E : Type 0) : Type 0 where
  text : Text → Attr V E
  texts : List Text → Attr V E
  number : ℤ → Attr V E
  method_not_allowed : Text → Attr V E
  all_matched : List Text → Attr V E
  bad_json : E → Attr V E
  key_error : PublicKeyError E → Attr V E
  verify_error : V → Attr V E
  key_id_error : KeyIdError → Attr V E
  issue_error : IssueError E → Attr V E
  load_error : LoadError E → Attr V E
  flag : Bool → Attr V E

abbrev pub Attrs : (V E : Type 0) → Type 0
Attrs V E = List (Text × Attr V E)

-- `oidc.Verifier`: a call gives the verifier's next state.
pub record Verifier (S V : Type 0) : Type 0 where
  pub verify_token : Text → List Text → S → S × Result V Identity

pub record Packages (PublicKey Signature E : Type 0) : Type 0 where
  -- json.Unmarshal of the body into a struct with `public_key`
  pub decode_request : Text → Result E Text
  -- json.Marshal of a map with string values
  pub marshal_json : List (Text × Text) → Text
  -- package golang.org/x/crypto/ssh
  pub keys : Keys PublicKey E
  pub fingerprint : PublicKey → Text
  pub marshal_certificate : SshCertificate PublicKey → Signature → Text
  pub marshal_key : PublicKey → Text

-- the fields of a `Server` that no request changes
pub record Server (PublicKey Signature S V E : Type 0) : Type 0 where
  pub signer : Signer PublicKey Signature E
  pub verifier : Verifier S V

-- the active policy, the verifier's state and what the audit log holds
pub record State (S V E : Type 0) : Type 0 where
  pub policy : Policy
  pub verifier_state : S
  pub log : Log (Attr V E)

-- what one request draws from outside: eight random bytes for its ID, eight for the serial, and the
-- time in nanoseconds since the Unix epoch
pub record Draws (E : Type 0) : Type 0 where
  pub id_bytes : Result E (List ℕ)
  pub serial_bytes : Result E (List ℕ)
  pub now : ℤ

pub record Response : Type 0 where
  pub status : ℕ
  pub content_type : Text
  pub body : Text
  pub request_id : Text

-- `New`: the state of a server with its initial policy
unfoldable pub new_state : {S V E : Type 0} → Policy → S → Log (Attr V E) → State S V E
new_state p s log = record { policy = p; verifier_state = s; log = log }

-- `SetPolicy`
unfoldable pub set_policy : {S V E : Type 0} → Policy → State S V E → State S V E
set_policy p st = record { policy = p; verifier_state = st.verifier_state; log = st.log }

abbrev hex_digit : ℕ → ℕ
hex_digit n = if ltb n 10 then 48 + n else 87 + n

-- hex.EncodeToString
unfoldable pub hex_encode : List ℕ → Text
hex_encode [] = []
hex_encode (b ∷ bs) = hex_digit (b / 16) ∷ hex_digit (b % 16) ∷ hex_encode bs

unfoldable pub new_request_id : {E : Type 0} → Result E (List ℕ) → Text
new_request_id (err e) = codes "unknown"
new_request_id (ok bytes) = hex_encode bytes

-- `s[n:]`
unfoldable pub slice_from : ℕ → Text → Text
slice_from zero s = s
slice_from (suc n) [] = []
slice_from (suc n) (c ∷ s) = slice_from n s

abbrev pub bearer_prefix : Text
bearer_prefix = codes "Bearer "

unfoldable pub bearer_token : Text → Option Text
bearer_token auth_header =
    if not (has_prefix bearer_prefix auth_header) || length auth_header == length bearer_prefix
    then none
    else some (slice_from (length bearer_prefix) auth_header)

abbrev pub audited_claims : List Text
audited_claims =
    codes "sub"
    ∷ codes "repository"
    ∷ codes "ref"
    ∷ codes "environment"
    ∷ codes "event_name"
    ∷ codes "job_workflow_ref"
    ∷ codes "workflow"
    ∷ codes "actor"
    ∷ codes "run_id"
    ∷ codes "run_attempt"
    ∷ []

module _ {V E : Type 0} where
  abbrev attr_if : Text → Option Text → Attrs V E → Attrs V E
  attr_if name none rest = rest
  attr_if name (some v) rest = (name, text v) ∷ rest

  unfoldable pub claim_attrs : Claims → List Text → Attrs V E
  claim_attrs claims [] = []
  claim_attrs claims (name ∷ names) =
      attr_if name (string_claim claims name) (claim_attrs claims names)

  unfoldable pub identity_attrs : Identity → Attrs V E
  identity_attrs id = (codes "issuer", text id.issuer) ∷ claim_attrs id.claims audited_claims

-- The arguments of a call of `deny`, but for the request ID: each `return s.deny(...)` is one.
pub record Denial (V E : Type 0) : Type 0 where
  pub status : ℕ
  pub reason : DenyReason
  pub detail : Attr V E
  pub attrs : Attrs V E

-- what a caller sees of a denial
unfoldable pub denial_response :
    {PublicKey Signature E : Type 0} → Packages PublicKey Signature E → Text → ℕ → Response
denial_response pkg request_id status = record {
  status = status;
  content_type = codes "application/json";
  body =
      pkg.marshal_json (
        (
          codes "error",
          codes "certificate request denied; contact your administrator with the request_id",
        )
        ∷ (codes "request_id", request_id)
        ∷ [])
      ++ 0x0a ∷ [];
  request_id = request_id;
}

module _ {PublicKey Signature S V E : Type 0} (pkg : Packages PublicKey Signature E) where
  unfoldable pub deny : Text → Denial V E → State S V E → State S V E × Response
  deny request_id d st = (
    record {
      policy = st.policy;
      verifier_state = st.verifier_state;
      log = denied text request_id (reason_code d.reason) d.detail d.attrs st.log;
    },
    denial_response pkg request_id d.status,
  )
