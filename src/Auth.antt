-- ===== src/Auth.antt =====
-- Accounts and sessions: apps/server/src/auth, invite-codes, users and common/guards.
pub mod Model
pub mod Login
pub mod Register
pub mod Sessions
pub mod OauthStates
pub mod WxWork
pub mod Users
mod Tests
