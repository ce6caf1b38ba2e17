-- ===== src/Auth/Middleware.antt =====
-- authMiddleware of internal/api/auth.go: the order of the three methods, and what each outcome does
-- to the failures and to the cache.
pub mod Soundness
pub mod Lockout
pub mod Attempts
pub mod Rows
pub mod Access
pub mod Legacy
use preamp.Base.{
  ℕ, Bool, true, false, not, ◌&&◌, ◌||◌, List, [], ◌∷◌, ◌++◌, Option, none, some, ltb, leb, ◌==◌,
  if◌then◌else◌, ◌+◌, ◌*◌, ◌≡◌, arith, take, drop,
}
use preamp.Base.Hex.{decode_hex}
use preamp.Base.Text.{Bytes, bytes_eq, codes, is_empty}
use preamp.Auth.ApiKey.{
  KeyCache, World, authenticate_api_key, authenticate_token, authenticate_legacy,
}
use preamp.Auth.Crypto.{Crypto}
use preamp.Auth.RateLimit.{Failures, check_rate_limit, record_auth_failure, clear_auth_failure}

pub record Config : Type 0 where
  pub auth_disabled : Bool
  pub encryption_key : Bytes

-- The fields of the server that the middleware changes.
pub record AuthState : Type 0 where
  pub failures : Failures
  pub cache : KeyCache

-- The address that checkRateLimit takes from RemoteAddr, and the form values that are read; a
-- value that is absent is empty.
pub record Request : Type 0 where
  pub ip : Bytes
  pub api_key : Bytes
  pub u : Bytes
  pub t : Bytes
  pub s : Bytes
  pub p : Bytes

-- writeError with a code, or `next` with the user's name in the context.
pub data Answer : Type 0 where
  reject : ℕ → Bytes → Answer
  serve : Bytes → Answer

abbrev pub wrong : Answer
wrong = reject 40 (codes "wrong username or password")

-- A failure is recorded and refused; a success clears the failures and is served.
unfoldable pub conclude : Request → ℕ → AuthState → Option Bytes → AuthState × Answer
conclude r now st none = (record st { failures = record_auth_failure r.ip now st.failures }, wrong)
conclude r now st (some user) =
    (record st { failures = clear_auth_failure r.ip st.failures }, serve user)

-- `strings.HasPrefix(p, "enc:")`: the rest is hexadecimal; `none` is a decoding error.
unfoldable pub plain_password : Bytes → Option Bytes
plain_password p = if bytes_eq (take 4 p) (codes "enc:") then decode_hex (drop 4 p) else some p

module _ (c : Crypto) (cfg : Config) where
  -- Whom the password of the legacy method authenticates.
  unfoldable pub legacy_user : Request → World → Option Bytes
  legacy_user r w = elim (plain_password r.p) [
    | none ↦ none
    | some plain ↦ if authenticate_legacy c cfg.encryption_key r.u plain w then some r.u else none
  ]

  -- Behind the rate limit.
  unfoldable pub authenticate : Request → World → AuthState → AuthState × Answer
  authenticate r w st =
      if not (is_empty r.api_key)
      then (let (cache, user) = authenticate_api_key c r.api_key w st.cache in
          conclude r w.now (record st { cache = cache }) user)
      else if is_empty r.u
      then (st, reject 10 (codes "missing parameter: u"))
      else if not (is_empty r.t)
      then conclude r w.now st
          (if authenticate_token c cfg.encryption_key r.u r.t r.s w then some r.u else none)
      else if not (is_empty r.p)
      then conclude r w.now st (legacy_user r w)
      else (st, reject 10 (codes "missing parameter: authentication"))

  unfoldable pub auth_middleware : Request → World → AuthState → AuthState × Answer
  auth_middleware r w st =
      let (failures, limited) = check_rate_limit r.ip w.now st.failures in
      let checked = record st { failures = failures } in
      if cfg.auth_disabled
      then (st, serve r.u)
      else if limited
      then (checked, reject 40 (codes "too many failed attempts"))
      else authenticate r w checked
