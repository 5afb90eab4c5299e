-- ===== src/Registry.antt =====
-- src/registry/auth.rs and src/registry/digest.rs: the registry's client. Auth has the challenge and
-- the cached token, Wire what the HTTP client answers, Fetch the digest of an image; Rejected and
-- Lifetime are proofs.
pub mod Auth
pub mod Wire
pub mod Fetch
pub mod Rejected
pub mod Lifetime
