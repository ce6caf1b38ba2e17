-- ===== src/Auth.antt =====
-- Authentication of Subsonic requests: internal/auth/encrypt.go and internal/api/auth.go, with the
-- credential table of internal/db/schema.go. The cryptographic primitives are parameters.
pub mod Crypto
pub mod Password
pub mod Credentials
pub mod RateLimit
pub mod ApiKey
pub mod Middleware
