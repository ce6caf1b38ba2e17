-- ===== src/Auth/Middleware/Access.antt =====
-- Requests that authMiddleware in internal/api/auth.go does serve, and what stays behind.
use preamp.Base.Dict.{lookup, lookup-delete_self, delete}
use preamp.Base.{
  Bool, List, ◌≡◌, ℕ, true, some, false, ◌∷◌, arith, Option-cases, ◌≢◌, [], inl, refl, sym, inr,
  none, ap, Bool-cases, ◌∙◌, ltb,
}
use preamp.Base.Text.{Bytes}
use preamp.Auth.ApiKey.{KeyCache, World, matching, scan_credentials, authenticate_api_key}
use preamp.Auth.Credentials.{Credential, is_live, select, InRows, found, load_all_credentials}
use preamp.Auth.Crypto.{Crypto}
use preamp.Auth.Middleware.{
  Config, AuthState, Request, serve, conclude, authenticate, auth_middleware,
}
use preamp.Auth.RateLimit.{Failures, check_rate_limit, clear_auth_failure}

-- The address is not over its limit when the request arrives.
abbrev pub IsAdmitted : Bytes → ℕ → Failures → Type 0
IsAdmitted ip now failures = (check_rate_limit ip now failures).1 ≡ false

pub InRows-select :
    (p : Credential → Bool) (d : Credential) (rows : List Credential)
    → InRows d rows
    → p d ≡ true
    → InRows d (select p rows)
unfolding select
InRows-select p d [] m h = absurd m
InRows-select p d (x ∷ rows) (inl e) h = rw (sym (ap p e) ∙ h, select) (inl e)
InRows-select p d (x ∷ rows) (inr m) h = elim (Bool-cases (p x)) [
  | inl keep ↦ rw (keep, select) (inr (InRows-select p d rows m h))
  | inr out ↦ rw (out, select) (InRows-select p d rows m h)
]

matching-found :
    (c : Crypto) (key : Bytes) (d : Credential) (creds : List Credential)
    → InRows d creds
    → c.bcrypt_matches d.hashed_api_key key ≡ true
    → (m : Credential) × (matching c key creds ≡ some m)
unfolding matching
matching-found c key d [] m h = absurd m
matching-found c key d (x ∷ creds) (inl e) h =
    (x, rw (sym (ap (λ y. c.bcrypt_matches y.hashed_api_key key) e) ∙ h) refl)
matching-found c key d (x ∷ creds) (inr m) h =
    elim (Bool-cases (c.bcrypt_matches x.hashed_api_key key)) [
      | inl same ↦ (x, rw same refl)
      | inr other ↦ let (y, e) = matching-found c key d creds m h in (y, rw other e)
    ]

pub found-InRows :
    (d : Credential) (rows : List Credential) → InRows d rows → found rows ≡ some rows
found-InRows d [] m = absurd m
found-InRows d (x ∷ rows) m = refl

module _ (c : Crypto) (r : Request) (w : World) (rows : List Credential) (d : Credential) where
  scan_credentials-served :
      (cache : KeyCache)
      → w.table ≡ some rows
      → InRows d rows
      → is_live w.db_now d ≡ true
      → c.bcrypt_matches d.hashed_api_key r.api_key ≡ true
      → (user : Bytes) × ((scan_credentials c r.api_key w cache).1 ≡ some user)
  unfolding scan_credentials load_all_credentials
  scan_credentials-served cache table row live same =
      let kept = InRows-select (is_live w.db_now) d rows row live in
      let (m, e) = matching-found c r.api_key d (select (is_live w.db_now) rows) kept same in
      (m.username, ground (arith, found-InRows d (select (is_live w.db_now) rows) kept))

  authenticate_api_key-served :
      (cache : KeyCache)
      → w.table ≡ some rows
      → InRows d rows
      → is_live w.db_now d ≡ true
      → c.bcrypt_matches d.hashed_api_key r.api_key ≡ true
      → (user : Bytes) × ((authenticate_api_key c r.api_key w cache).1 ≡ some user)
  unfolding authenticate_api_key
  authenticate_api_key-served cache table row live same =
      let key = c.sha256 r.api_key in
      elim (Option-cases (lookup key cache)) [
        | inl e ↦
            let (user, s) = scan_credentials-served cache table row live same in
            (user, ground arith)
        | inr (entry, e) ↦ elim (Bool-cases (ltb w.now entry.expiry)) [
          | inl fresh ↦ (entry.username, ground arith)
          | inr stale ↦
              let (user, s) = scan_credentials-served (delete key cache) table row live same in
              (user, ground arith)
        ]
      ]

  -- A request that shows the API key of a row that has not expired is served, from an address that
  -- is not over its limit, and the address's failures are forgotten.
  pub auth_middleware-served :
      (cfg : Config) (st : AuthState)
      → cfg.auth_disabled ≡ false
      → IsAdmitted r.ip w.now st.failures
      → r.api_key ≢ []
      → w.table ≡ some rows
      → InRows d rows
      → is_live w.db_now d ≡ true
      → c.bcrypt_matches d.hashed_api_key r.api_key ≡ true
      → (user : Bytes) × ((auth_middleware c cfg r w st).1 ≡ serve user)
        × (lookup r.ip ((auth_middleware c cfg r w st).0).failures ≡ none)
  unfolding auth_middleware authenticate conclude clear_auth_failure
  auth_middleware-served cfg st on admitted key table row live same =
      let failures = (check_rate_limit r.ip w.now st.failures).0 in
      let (user, e) = authenticate_api_key-served st.cache table row live same in
      (user, ground arith, ground (arith, lookup-delete_self r.ip failures))
