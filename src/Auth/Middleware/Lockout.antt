-- ===== src/Auth/Middleware/Lockout.antt =====
-- The rate limit of authMiddleware in internal/api/auth.go over sequences of requests, one handled
-- after another.
use preamp.Base.{
  ℕ, false, Option, none, some, if◌then◌else◌, ◌≡◌, ◌≢◌, ◌≤◌, arith, List, Bool-cases, inl, All, ap,
  ◌∙◌, sym, inr, [], ◌∷◌,
}
use preamp.Base.Dict.{lookup, insert, delete, lookup-insert, lookup-delete, lookup-insert_self}
use preamp.Base.Text.{Bytes, bytes_eq_iff, codes, bytes_eq}
use preamp.Auth.ApiKey.{World, authenticate_api_key, authenticate_token}
use preamp.Auth.Crypto.{Crypto}
use preamp.Auth.Middleware.{
  Config, AuthState, Request, Answer, reject, conclude, authenticate, auth_middleware, legacy_user,
}
use preamp.Auth.RateLimit.{
  Failures, FailureEntry, auth_failure_limit, load_or_store, rolled, check_rate_limit,
  record_auth_failure, clear_auth_failure,
}

abbrev pub too_many : Answer
too_many = reject 40 (codes "too many failed attempts")

-- The address has reached the limit, in a window that lasts until `until`.
abbrev pub IsLocked : Bytes → ℕ → Failures → Type 0
IsLocked ip until failures =
    (e : FailureEntry) × (lookup ip failures ≡ some e)
    × (auth_failure_limit ≤ e.count)
    × (until ≤ e.reset_at)

-- A change of another address's entry.
lookup-insert_other :
    (ip other : Bytes) (e : FailureEntry) (m : Failures)
    → other ≢ ip
    → lookup ip (insert other e m) ≡ lookup ip m
lookup-insert_other ip other e m h =
    ground (arith, lookup-insert other ip e m, bytes_eq_iff other ip)

lookup-delete_other :
    (ip other : Bytes) (m : Failures) → other ≢ ip → lookup ip (delete other m) ≡ lookup ip m
lookup-delete_other ip other m h = ground (arith, lookup-delete other ip m, bytes_eq_iff other ip)

conclude_other :
    (ip : Bytes) (r : Request) (now : ℕ) (st : AuthState) (user : Option Bytes)
    → r.ip ≢ ip
    → lookup ip ((conclude r now st user).0).failures ≡ lookup ip st.failures
unfolding conclude record_auth_failure clear_auth_failure
conclude_other ip r now st none h = lookup-insert_other ip r.ip _ st.failures h
conclude_other ip r now st (some u) h = lookup-delete_other ip r.ip st.failures h

module _ (c : Crypto) (cfg : Config) where
  authenticate_other :
      (ip : Bytes) (r : Request) (w : World) (st : AuthState)
      → r.ip ≢ ip
      → lookup ip ((authenticate c cfg r w st).0).failures ≡ lookup ip st.failures
  unfolding authenticate
  authenticate_other ip r w st h =
      let (cache, user) = authenticate_api_key c r.api_key w st.cache in
      let token : Option Bytes =
        if authenticate_token c cfg.encryption_key r.u r.t r.s w then some r.u else none in
      ground (
        arith,
        conclude_other ip r w.now (record st { cache = cache }) user h,
        conclude_other ip r w.now st token h,
        conclude_other ip r w.now st (legacy_user c cfg r w) h,
      )

  -- A request from another address leaves the entry alone.
  auth_middleware_other :
      (ip : Bytes) (r : Request) (w : World) (st : AuthState)
      → r.ip ≢ ip
      → lookup ip ((auth_middleware c cfg r w st).0).failures ≡ lookup ip st.failures
  unfolding auth_middleware check_rate_limit
  auth_middleware_other ip r w st h =
      let e = rolled w.now (load_or_store r.ip st.failures) in
      let checked = record st { failures = insert r.ip e st.failures } in
      ground
        (arith, lookup-insert_other ip r.ip e st.failures h, authenticate_other ip r w checked h)

  -- A request from a locked address is refused, and changes neither its entry nor the cache.
  auth_middleware_locked :
      (r : Request) (w : World) (st : AuthState) (e : FailureEntry)
      → cfg.auth_disabled ≡ false
      → lookup r.ip st.failures ≡ some e
      → auth_failure_limit ≤ e.count
      → w.now ≤ e.reset_at
      → ((auth_middleware c cfg r w st).1 ≡ too_many)
        × (((auth_middleware c cfg r w st).0).cache ≡ st.cache)
        × (lookup r.ip ((auth_middleware c cfg r w st).0).failures ≡ some e)
  unfolding auth_middleware check_rate_limit load_or_store rolled
  auth_middleware_locked r w st e on known limit within =
      ground (arith, lookup-insert_self r.ip e st.failures)

  -- In a sequence of requests that are handled one after another, every request from `ip` is
  -- refused with "too many failed attempts".
  abbrev pub AllRefused : Bytes → List (Request × World) → AuthState → Type 0
  AllRefused ip [] st = Unit
  AllRefused ip ((r, w) ∷ rest) st =
      (r.ip ≡ ip → (auth_middleware c cfg r w st).1 ≡ too_many)
      × AllRefused ip rest (auth_middleware c cfg r w st).0

  IsLocked-step :
      (ip : Bytes) (until : ℕ) (r : Request) (w : World) (st : AuthState)
      → cfg.auth_disabled ≡ false
      → w.now ≤ until
      → IsLocked ip until st.failures
      → (r.ip ≡ ip → (auth_middleware c cfg r w st).1 ≡ too_many)
        × IsLocked ip until ((auth_middleware c cfg r w st).0).failures
  IsLocked-step ip until r w st on early (e, known, limit, late) =
      elim (Bool-cases (bytes_eq r.ip ip)) [
        | inl same ↦
            let at = (bytes_eq_iff r.ip ip).0 same in
            let locked =
              auth_middleware_locked r w st e on (ap (λ a. lookup a st.failures) at ∙ known) limit
                (omega arith) in
            (
              λ _. locked.0,
              (
                e,
                ap (λ a. lookup a ((auth_middleware c cfg r w st).0).failures) (sym at) ∙ locked.2,
                limit,
                late,
              ),
            )
        | inr differs ↦
            let apart : r.ip ≢ ip = ground (arith, bytes_eq_iff r.ip ip) in
            (
              λ at. absurd (apart at),
              (e, auth_middleware_other ip r w st apart ∙ known, limit, late),
            )
      ]

  -- Once an address has reached the limit of ten failures, all of its requests are refused as long
  -- as its window lasts, whatever they carry and whatever other addresses send in between.
  pub lockout :
      (ip : Bytes) (until : ℕ) (steps : List (Request × World)) (st : AuthState)
      → cfg.auth_disabled ≡ false
      → All (λ s. (s.1).now ≤ until) steps
      → IsLocked ip until st.failures
      → AllRefused ip steps st
  lockout ip until [] st on early locked = tt
  lockout ip until ((r, w) ∷ rest) st on early locked =
      let (refused, later) = IsLocked-step ip until r w st on early.0 locked in
      (refused, lockout ip until rest (auth_middleware c cfg r w st).0 on early.1 later)
