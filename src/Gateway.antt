-- ===== src/Gateway.antt =====
-- core/services/api-gateway/app: who may pass the gateway, and with which identity.
pub mod Access
pub mod Resolve
pub mod Admission
pub mod Proxy
pub mod Tests
