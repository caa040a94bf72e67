-- ===== src/Signin.antt =====
-- server/internal/signin: codes by email, and the sessions of signed-in devices.
pub mod Sessions
pub mod Codes
