-- ===== src/Auth/Middleware/Attempts.antt =====
-- How many wrong answers authMiddleware of internal/api/auth.go gives to one address.
use preamp.Base.{
  ℕ, false, Option, none, some, if◌then◌else◌, ◌≡◌, ◌≤◌, arith, List, Bool, ◌+◌, All, ap, true, ◌∙◌,
  sym, [], ◌∷◌,
}
use preamp.Base.Dict.{lookup, insert, lookup-insert_self}
use preamp.Base.Text.{Bytes, codes, bytes_eq}
use preamp.Auth.ApiKey.{World, authenticate_api_key, authenticate_token}
use preamp.Auth.Crypto.{Crypto}
use preamp.Auth.Middleware.{
  Config, AuthState, Request, Answer, reject, conclude, authenticate, auth_middleware, legacy_user,
  serve,
}
use preamp.Auth.RateLimit.{
  FailureEntry, auth_failure_limit, load_or_store, rolled, check_rate_limit, record_auth_failure,
  failed_once,
}

abbrev pub is_wrong : Answer → Bool
is_wrong (reject code message) = bytes_eq message (codes "wrong username or password")
is_wrong (serve user) = false

abbrev pub is_served : Answer → Bool
is_served (reject code message) = false
is_served (serve user) = true

-- The entry behind a request that was not served.
abbrev counted : FailureEntry → Answer → FailureEntry
counted e a = record { count = e.count + (if is_wrong a then 1 else 0); reset_at = e.reset_at }

conclude-counted :
    (r : Request) (now : ℕ) (st : AuthState) (user : Option Bytes) (e : FailureEntry)
    → lookup r.ip st.failures ≡ some e
    → now ≤ e.reset_at
    → is_served (conclude r now st user).1 ≡ false
    → lookup r.ip ((conclude r now st user).0).failures
      ≡ some (counted e (conclude r now st user).1)
unfolding conclude record_auth_failure load_or_store failed_once bytes_eq
conclude-counted r now st none e known within h =
    ground (
      arith,
      lookup-insert_self r.ip (failed_once now (load_or_store r.ip st.failures)) st.failures,
    )
conclude-counted r now st (some u) e known within h = cc

module _ (c : Crypto) (cfg : Config) where
  authenticate-counted :
      (r : Request) (w : World) (st : AuthState) (e : FailureEntry)
      → lookup r.ip st.failures ≡ some e
      → w.now ≤ e.reset_at
      → is_served (authenticate c cfg r w st).1 ≡ false
      → lookup r.ip ((authenticate c cfg r w st).0).failures
        ≡ some (counted e (authenticate c cfg r w st).1)
  unfolding authenticate bytes_eq
  authenticate-counted r w st e known within h =
      let (cache, user) = authenticate_api_key c r.api_key w st.cache in
      let token : Option Bytes =
        if authenticate_token c cfg.encryption_key r.u r.t r.s w then some r.u else none in
      ground (
        arith,
        conclude-counted r w.now (record st { cache = cache }) user e known within,
        conclude-counted r w.now st token e known within,
        conclude-counted r w.now st (legacy_user c cfg r w) e known within,
      )

  -- The requests of a sequence that are answered "wrong username or password".
  unfoldable pub wrong_answers : List (Request × World) → AuthState → ℕ
  wrong_answers [] st = 0
  wrong_answers ((r, w) ∷ rest) st =
      (if is_wrong (auth_middleware c cfg r w st).1 then 1 else 0)
      + wrong_answers rest (auth_middleware c cfg r w st).0

  abbrev pub NoneServed : List (Request × World) → AuthState → Type 0
  NoneServed [] st = Unit
  NoneServed ((r, w) ∷ rest) st =
      (is_served (auth_middleware c cfg r w st).1 ≡ false)
      × NoneServed rest (auth_middleware c cfg r w st).0

  auth_middleware-counted :
      (r : Request) (w : World) (st : AuthState) (e : FailureEntry)
      → cfg.auth_disabled ≡ false
      → lookup r.ip st.failures ≡ some e
      → e.count ≤ auth_failure_limit
      → w.now ≤ e.reset_at
      → is_served (auth_middleware c cfg r w st).1 ≡ false
      → (lookup r.ip ((auth_middleware c cfg r w st).0).failures
          ≡ some (counted e (auth_middleware c cfg r w st).1))
        × ((counted e (auth_middleware c cfg r w st).1).count ≤ auth_failure_limit)
  unfolding auth_middleware check_rate_limit load_or_store rolled bytes_eq
  auth_middleware-counted r w st e on known small within h =
      let checked = record st { failures = insert r.ip e st.failures } in
      let kept = lookup-insert_self r.ip e st.failures in
      (
        ground (arith, kept, authenticate-counted r w checked e kept within),
        ground (arith, kept, authenticate-counted r w checked e kept within),
      )

  -- From one address, between two successes and within one window, at most ten requests have a
  -- credential checked and found wrong, counting those that the window has seen already.
  pub wrong_answers-le :
      (ip : Bytes) (steps : List (Request × World)) (st : AuthState) (e : FailureEntry)
      → cfg.auth_disabled ≡ false
      → lookup ip st.failures ≡ some e
      → e.count ≤ auth_failure_limit
      → All (λ s. ((s.0).ip ≡ ip) × ((s.1).now ≤ e.reset_at)) steps
      → NoneServed steps st
      → wrong_answers steps st + e.count ≤ auth_failure_limit
  unfolding wrong_answers
  wrong_answers-le ip [] st e on known small steps none_served = omega arith
  wrong_answers-le ip ((r, w) ∷ rest) st e on known small steps none_served =
      let ((at, within), later) = steps in
      let (known', small') =
        auth_middleware-counted r w st e on (ap (λ a. lookup a st.failures) at ∙ known) small within
          none_served.0 in
      let behind = (auth_middleware c cfg r w st).0 in
      omega (
        arith,
        wrong_answers-le ip rest behind (counted e (auth_middleware c cfg r w st).1) on
            (ap (λ a. lookup a behind.failures) (sym at) ∙ known') small' later none_served.1,
      )
