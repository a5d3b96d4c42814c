-- ===== src/Issuer/Certificates.antt =====
-- internal/issuer/issuer.go: the certificate that is built and signed. The random bytes, the signer
-- and `ssh.MarshalAuthorizedKey` are arguments. An instant is an integer of nanoseconds since the
-- Unix epoch, as in Oidc.Time, and a Go map the list of its entries.
pub mod Options
mod Tests
use oidc_ssh_ca.Prelude.{
  ℕ, ◌+◌, ◌*◌, ◌/◌, Bool, true, false, Option, none, some, List, [], ◌∷◌, ◌++◌, is_empty,
  if◌then◌else◌, Result, ok, err, ◌>>=◌, ◌>>◌, map_err,
}
use oidc_ssh_ca.Prelude.Text.{Text, codes}
use oidc_ssh_ca.Prelude.Int.{ℤ, pos, negsuc, to_uint64}
use oidc_ssh_ca.Policy.{Extensions}
use oidc_ssh_ca.Oidc.Time.{second}

-- `t.Unix()`: whole seconds, rounded down
unfoldable pub unix_seconds : ℤ → ℤ
unix_seconds (pos n) = pos (n / second)
unix_seconds (negsuc n) = negsuc (n / second)

pub record Request (PublicKey : Type 0) : Type 0 where
  pub public_key : PublicKey
  pub key_id : Text
  pub principals : List Text
  pub valid_after : ℤ
  pub valid_before : ℤ
  pub extensions : Extensions
  pub force_command : Text
  pub source_address : List Text

-- ssh.UserCert
abbrev pub user_cert : ℕ
user_cert = 1

-- the fields of `ssh.Certificate` that `Issue` sets
pub record SshCertificate (PublicKey : Type 0) : Type 0 where
  pub key : PublicKey
  pub serial : ℕ
  pub cert_type : ℕ
  pub key_id : Text
  pub valid_principals : List Text
  pub valid_after : ℕ
  pub valid_before : ℕ
  pub critical_options : List (Text × Text)
  pub extensions : List (Text × Text)

-- `Signer`: a signed certificate is the certificate with a signature.
pub record Signer (PublicKey Signature E : Type 0) : Type 0 where
  pub sign_certificate : SshCertificate PublicKey → Result E Signature
  pub public_key : PublicKey

-- `NewMemorySigner`, with `cert.SignCert` and the public key of an ssh.Signer
abbrev pub memory_signer :
    {PrivateKey PublicKey Signature E : Type 0}
    → (PrivateKey → SshCertificate PublicKey → Result E Signature)
    → (PrivateKey → PublicKey)
    → PrivateKey
    → Signer PublicKey Signature E
memory_signer sign_cert public_key_of key = record {
  sign_certificate = sign_cert key;
  public_key = public_key_of key;
}

-- `strings.Join(parts, ",")`
unfoldable pub join_comma : List Text → Text
join_comma [] = []
join_comma (p ∷ []) = p
join_comma (p ∷ q ∷ ps) = p ++ b',' ∷ join_comma (q ∷ ps)

-- `if b { out[key] = value }`
abbrev pub set_if : Bool → Text → Text → List (Text × Text) → List (Text × Text)
set_if b key value out = if b then (key, value) ∷ out else out

abbrev pub nonempty {ℓ} : {A : Type ℓ} → List A → Bool
nonempty [] = false
nonempty (_ ∷ _) = true

unfoldable pub critical_option_map : {PublicKey : Type 0} → Request PublicKey → List (Text × Text)
critical_option_map req =
    set_if (nonempty req.force_command) (codes "force-command") req.force_command (
      set_if (nonempty req.source_address) (codes "source-address") (join_comma req.source_address)
        [])

unfoldable pub extension_map : Extensions → List (Text × Text)
extension_map e = set_if e.permit_pty (codes "permit-pty") [] (
    set_if e.permit_port_forwarding (codes "permit-port-forwarding") [] (
      set_if e.permit_agent_forwarding (codes "permit-agent-forwarding") [] (
        set_if e.permit_x11_forwarding (codes "permit-X11-forwarding") []
          (set_if e.permit_user_rc (codes "permit-user-rc") [] []))))

pub data IssueError (E : Type 0) : Type 0 where
  no_serial : E → IssueError E
  not_signed : E → IssueError E

-- `binary.BigEndian.Uint64`
unfoldable pub big_endian : ℕ → List ℕ → ℕ
big_endian acc [] = acc
big_endian acc (b ∷ bs) = big_endian (acc * 256 + b) bs

-- the eight bytes of `rand.Read`, or its error
abbrev pub random_serial : {E : Type 0} → Result E (List ℕ) → Result (IssueError E) ℕ
random_serial (err e) = err (no_serial e)
random_serial (ok bytes) = ok (big_endian 0 bytes)

unfoldable pub certificate_of :
    {PublicKey : Type 0} → Request PublicKey → ℕ → SshCertificate PublicKey
certificate_of req serial = record {
  key = req.public_key;
  serial = serial;
  cert_type = user_cert;
  key_id = req.key_id;
  valid_principals = req.principals;
  valid_after = to_uint64 (unix_seconds req.valid_after);
  valid_before = to_uint64 (unix_seconds req.valid_before);
  critical_options = critical_option_map req;
  extensions = extension_map req.extensions;
}

-- The bytes of the signed certificate, and the certificate that is signed.
unfoldable pub issue :
    {PublicKey Signature E : Type 0}
    → Signer PublicKey Signature E
    → (SshCertificate PublicKey → Signature → Text)
    → Result E (List ℕ)
    → Request PublicKey
    → Result (IssueError E) (Text × SshCertificate PublicKey)
issue signer marshal random req = do
  serial ← random_serial random
  signature ← map_err not_signed (signer.sign_certificate (certificate_of req serial))
  ok (marshal (certificate_of req serial) signature, certificate_of req serial)
