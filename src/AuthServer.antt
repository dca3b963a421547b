-- ===== src/AuthServer.antt =====
-- The OAuth authorization server of the HTTP transport (auth/server/).
mod Tests
pub mod KeyLock
pub mod FileStore
pub mod Sealed
pub mod Grants
pub mod ExpiringMap
pub mod Trusted
pub mod ConsentKey
pub mod SignIn
pub mod Revocation
