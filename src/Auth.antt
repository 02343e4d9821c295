-- ===== src/Auth.antt =====
-- internal/auth/auth.go.
pub mod Denylist
pub mod RateLimiter
pub mod Passwords
pub mod Tokens
