-- ===== src/Auth.antt =====
-- routes/auth.ts: register, log in, refresh and log out.
pub mod Rotation
pub mod Refresh
pub mod Password
pub mod Logout
pub mod Guarantee
pub mod Inversion
pub mod LiveTokens
pub mod Grants
pub mod Replay
pub mod Login
pub mod Revoked
pub mod Rotated
pub mod Retried
