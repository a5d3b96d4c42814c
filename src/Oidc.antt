-- ===== src/Oidc.antt =====
-- internal/oidc/verifier.go, in three parts: the checks of the time-based claims, the cache of
-- discovered providers, and the verification of a token.
pub mod Time
pub mod Provider
pub mod Verify
