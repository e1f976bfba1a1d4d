-- ===== src/Auth.antt =====
-- backend/app/services/auth.py: sign-in with its two limits, and sessions.
pub mod Login
pub mod Limiter
pub mod Capacity
pub mod Lockout
pub mod Sessions
pub mod SessionLife
