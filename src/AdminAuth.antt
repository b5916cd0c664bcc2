-- ===== src/AdminAuth.antt =====
-- src/admin-auth/admin-auth.service.ts and src/admin-auth/guards/admin-access-token.guard.ts:
-- login, rotation of refresh tokens, logout, password change, and the guard of the admin routes.
-- Each request reads the clock once (`now`). An audit row that cannot be written is skipped by the
-- code; here each is written.
pub mod Tables
pub mod Base
pub mod Login
pub mod Refresh
pub mod Passwords
pub mod Guard
pub mod Requests
pub mod Queries
pub mod Revoked
pub mod Refused
pub mod Claim
pub mod Replay
pub mod Tests
