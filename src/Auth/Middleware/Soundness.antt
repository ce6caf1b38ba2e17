-- ===== src/Auth/Middleware/Soundness.antt =====
-- Who is served by authMiddleware in internal/api/auth.go.
use mathlib.Core.Path.{subst}
use preamp.Base.{
  Option, List, ◌≡◌, some, true, ◌<◌, none, Bool-cases, Option-cases, ℕ, inl, arith, ap, inr, ◌∙◌,
  ltb, ltb→lt, false, ◌⊎◌, if◌then◌else◌,
}
use preamp.Base.Dict.{lookup, delete}
use preamp.Base.Text.{Bytes, bytes_eq, bytes_eq_iff}
use preamp.Auth.ApiKey.{
  CacheEntry, KeyCache, World, matching, scan_credentials, authenticate_api_key, password_of,
  authenticate_token, authenticate_legacy, token_matches,
}
use preamp.Auth.Credentials.{
  Credential, is_live, is_legacy, InRows, select-InRows, found, load_all_credentials,
  load_legacy_credentials,
}
use preamp.Auth.Crypto.{Crypto}
use preamp.Auth.Middleware.{
  Config, AuthState, Request, serve, conclude, authenticate, auth_middleware, plain_password,
  legacy_user,
}
use preamp.Auth.Middleware.Rows.{
  load_all-rows, load_legacy-rows, matching-InRows, any_password-InRows,
}
use preamp.Auth.RateLimit.{check_rate_limit}

-- What allows a request to be served as `user`: a cache entry that has not expired, or a credential
-- row that has not, whose API key, token or password the request shows.
pub data Authentic (c : Crypto) (cfg : Config) (r : Request) (w : World) (cache : KeyCache)
    (user : Bytes) : Type 0 where
  by_cache :
      (e : CacheEntry)
      → lookup (c.sha256 r.api_key) cache ≡ some e
      → w.now < e.expiry
      → user ≡ e.username
      → Authentic c cfg r w cache user
  by_key :
      (rows : List Credential) (d : Credential)
      → w.table ≡ some rows
      → InRows d rows
      → is_live w.db_now d ≡ true
      → c.bcrypt_matches d.hashed_api_key r.api_key ≡ true
      → user ≡ d.username
      → Authentic c cfg r w cache user
  by_token :
      (rows : List Credential) (d : Credential) (password : Bytes)
      → w.table ≡ some rows
      → InRows d rows
      → is_legacy w.db_now r.u d ≡ true
      → password_of c cfg.encryption_key d ≡ some password
      → token_matches c r.t r.s password ≡ true
      → user ≡ r.u
      → Authentic c cfg r w cache user
  by_password :
      (rows : List Credential) (d : Credential) (password : Bytes)
      → w.table ≡ some rows
      → InRows d rows
      → is_legacy w.db_now r.u d ≡ true
      → password_of c cfg.encryption_key d ≡ some password
      → plain_password r.p ≡ some password
      → user ≡ r.u
      → Authentic c cfg r w cache user

module _ (c : Crypto) (cfg : Config) (r : Request) (w : World) (st : AuthState) {user : Bytes} where
  scan_credentials-Authentic :
      (behind : KeyCache)
      → (scan_credentials c r.api_key w behind).1 ≡ some user
      → Authentic c cfg r w st.cache user
  unfolding scan_credentials
  scan_credentials-Authentic behind h =
      elim (Option-cases (load_all_credentials w.db_now w.table)) [
        | inl e ↦ absurd (ground arith)
        | inr (creds, e) ↦ elim (Option-cases (matching c r.api_key creds)) [
          | inl m ↦ absurd (ground arith)
          | inr (d, m) ↦
              let (rows, table, all) = load_all-rows w.db_now w.table e in
              let (found, same) = matching-InRows c r.api_key creds m in
              let (row, live) =
                select-InRows (is_live w.db_now) d rows (subst (InRows d) all found) in
              by_key rows d table row live same (ground arith)
        ]
      ]

  authenticate_api_key-Authentic :
      (authenticate_api_key c r.api_key w st.cache).1 ≡ some user
      → Authentic c cfg r w st.cache user
  unfolding authenticate_api_key
  authenticate_api_key-Authentic h = elim (Option-cases (lookup (c.sha256 r.api_key) st.cache)) [
    | inl e ↦ scan_credentials-Authentic st.cache (ground arith)
    | inr (entry, e) ↦ elim (Bool-cases (ltb w.now entry.expiry)) [
      | inl fresh ↦ by_cache entry e (ltb→lt _ _ fresh) (ground arith)
      | inr stale ↦ scan_credentials-Authentic (delete (c.sha256 r.api_key) st.cache) (ground arith)
    ]
  ]

  authenticate_token-Authentic :
      authenticate_token c cfg.encryption_key r.u r.t r.s w ≡ true
      → user ≡ r.u
      → Authentic c cfg r w st.cache user
  unfolding authenticate_token
  authenticate_token-Authentic h at =
      elim (Option-cases (load_legacy_credentials w.db_now r.u w.table)) [
        | inl e ↦ absurd (ground arith)
        | inr (creds, e) ↦
            let (rows, table, all) = load_legacy-rows w.db_now r.u w.table e in
            let (d, p, found, opens, same) =
              any_password-InRows c cfg.encryption_key (token_matches c r.t r.s) creds
                (ground arith) in
            let (row, legacy) =
              select-InRows (is_legacy w.db_now r.u) d rows (subst (InRows d) all found) in
            by_token rows d p table row legacy opens same at
      ]

  authenticate_legacy-Authentic :
      (plain : Bytes)
      → plain_password r.p ≡ some plain
      → authenticate_legacy c cfg.encryption_key r.u plain w ≡ true
      → user ≡ r.u
      → Authentic c cfg r w st.cache user
  unfolding authenticate_legacy
  authenticate_legacy-Authentic plain given h at =
      elim (Option-cases (load_legacy_credentials w.db_now r.u w.table)) [
        | inl e ↦ absurd (ground arith)
        | inr (creds, e) ↦
            let (rows, table, all) = load_legacy-rows w.db_now r.u w.table e in
            let (d, p, found, opens, same) =
              any_password-InRows c cfg.encryption_key (λ password. bytes_eq plain password) creds
                (ground arith) in
            let (row, legacy) =
              select-InRows (is_legacy w.db_now r.u) d rows (subst (InRows d) all found) in
            by_password rows d p table row legacy opens
              (given ∙ ap some ((bytes_eq_iff plain p).0 same)) at
      ]

  conclude-served :
      (now : ℕ) (st' : AuthState) (who : Option Bytes)
      → (conclude r now st' who).1 ≡ serve user
      → who ≡ some user
  unfolding conclude
  conclude-served now st' none h = cc
  conclude-served now st' (some u) h = cc

  -- The three ways through the middleware.
  authenticate-served :
      (authenticate c cfg r w st).1 ≡ serve user
      → ((authenticate_api_key c r.api_key w st.cache).1 ≡ some user)
        ⊎ ((authenticate_token c cfg.encryption_key r.u r.t r.s w ≡ true) × (user ≡ r.u))
        ⊎ (legacy_user c cfg r w ≡ some user)
  unfolding authenticate
  authenticate-served h =
      let (cache, who) = authenticate_api_key c r.api_key w st.cache in
      let token : Option Bytes =
        if authenticate_token c cfg.encryption_key r.u r.t r.s w then some r.u else none in
      ground (
        arith,
        conclude-served w.now (record st { cache = cache }) who,
        conclude-served w.now st token,
        conclude-served w.now st (legacy_user c cfg r w),
      )

  legacy_user-Authentic : legacy_user c cfg r w ≡ some user → Authentic c cfg r w st.cache user
  unfolding legacy_user
  legacy_user-Authentic h = elim (Option-cases (plain_password r.p)) [
    | inl e ↦ absurd (ground arith)
    | inr (plain, e) ↦ authenticate_legacy-Authentic plain e (ground arith) (ground arith)
  ]

  authenticate-Authentic :
      (authenticate c cfg r w st).1 ≡ serve user → Authentic c cfg r w st.cache user
  authenticate-Authentic h = elim (authenticate-served h) [
    | inl key ↦ authenticate_api_key-Authentic key
    | inr (inl (token, at)) ↦ authenticate_token-Authentic token at
    | inr (inr legacy) ↦ legacy_user-Authentic legacy
  ]

-- With authentication on, a request is served as a user only if a live cache entry for its API key
-- names that user, or the table has a row that has not expired and names that user, whose API key
-- hash the request's key matches, or whose decrypted password matches the request's token or
-- password; for the last two the row allows legacy authentication and is the named user's.
pub auth_middleware-Authentic :
    (c : Crypto) (cfg : Config) (r : Request) (w : World) (st : AuthState) (user : Bytes)
    → cfg.auth_disabled ≡ false
    → (auth_middleware c cfg r w st).1 ≡ serve user
    → Authentic c cfg r w st.cache user
unfolding auth_middleware check_rate_limit
auth_middleware-Authentic c cfg r w st user on h =
    let checked = record st { failures = (check_rate_limit r.ip w.now st.failures).0 } in
    let through : (authenticate c cfg r w checked).1 ≡ serve user = ground arith in
    authenticate-Authentic c cfg r w checked through
