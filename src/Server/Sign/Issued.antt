-- ===== src/Server/Sign/Issued.antt =====
-- What `issue` signs.
use oidc_ssh_ca.Prelude.{
  ℕ, ◌≡◌, refl, sym, ◌↔◌, List, Result, ok, err, map_err, >>=-eq-ok, map_err_ok,
}
use oidc_ssh_ca.Prelude.Text.{Text}
use oidc_ssh_ca.Issuer.Certificates.{
  Request, Signer, SshCertificate, not_signed, big_endian, certificate_of, issue,
}

module _ {PublicKey Signature E : Type 0} (signer : Signer PublicKey Signature E)
    (marshal : SshCertificate PublicKey → Signature → Text) where
  -- `issue` signs the certificate that its request describes, under a serial of random bytes.
  pub issue_iff :
      (random : Result E (List ℕ)) (req : Request PublicKey) (out : Text)
      (cert : SshCertificate PublicKey)
      → (issue signer marshal random req ≡ ok (out, cert)) ↔ (
          (bytes : List ℕ) × (signature : Signature) × (random ≡ ok bytes)
          × (cert ≡ certificate_of req (big_endian 0 bytes))
          × (signer.sign_certificate cert ≡ ok signature)
          × (out ≡ marshal cert signature))
  unfolding issue
  issue_iff (err e) req out cert = (λ h. cc, λ h. cc)
  issue_iff (ok bytes) req out cert = (
    λ h.
        let (signature, signed, done) =
          >>=-eq-ok (map_err not_signed (signer.sign_certificate _)) _ h in
        let eq : certificate_of req (big_endian 0 bytes) ≡ cert = cc in
        (bytes, signature, refl, sym eq, rw (← eq) (map_err_ok _ _ signed), cc),
    λ (b, signature, drawn, made, signed, marshalled).
        let same : bytes ≡ b = cc in rw (same, ← made, signed, marshalled) refl,
  )
