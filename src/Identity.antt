-- ===== src/Identity.antt =====
-- core/services/identity-service/app: login lockout, login rules and authorizations.
pub mod Lockout
pub mod Authz
pub mod LoginAcl
pub mod Effective
pub mod Tests
