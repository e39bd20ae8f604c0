-- ===== src/Types.antt =====
-- clients/web/src/types/index.ts: the records that the API and the gateway exchange.
pub mod Admin
pub mod Chat
pub mod Community
pub mod Permissions
