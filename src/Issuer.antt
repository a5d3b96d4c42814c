-- ===== src/Issuer.antt =====
-- internal/issuer: the client's public key, the certificate, and the CA key.
pub mod PublicKey
pub mod Certificates
pub mod CaKey
