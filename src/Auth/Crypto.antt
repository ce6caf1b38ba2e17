-- ===== src/Auth/Crypto.antt =====
-- The primitives of Go's crypto packages and of golang.org/x/crypto/bcrypt that
-- internal/auth/encrypt.go and internal/api/auth.go call.
use preamp.Base.{Bool, Option}
use preamp.Base.Text.{Bytes}

pub record Crypto : Type 0 where
  pub sha256 : Bytes → Bytes
  -- `md5Hex`: the digest in hexadecimal digits.
  pub md5_hex : Bytes → Bytes
  -- `bcrypt.CompareHashAndPassword(hash, key) == nil`.
  pub bcrypt_matches : Bytes → Bytes → Bool
  -- AES-GCM with a key and a nonce.
  pub gcm_seal : Bytes → Bytes → Bytes → Bytes
  pub gcm_open : Bytes → Bytes → Bytes → Option Bytes
