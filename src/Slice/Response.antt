-- ===== src/Slice/Response.antt =====
-- What sliceFLAC and sliceWAV of internal/api/slice.go write.
use preamp.Base.{ℕ}
use preamp.Base.Text.{Bytes}

-- The header Content-Length, and the body.
pub record Sliced : Type 0 where
  pub content_length : ℕ
  pub body : Bytes
