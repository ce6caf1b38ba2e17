-- ===== src/Auth/Middleware/Legacy.antt =====
-- The legacy method of internal/api/auth.go lets in who shows the password of a live legacy row.
use preamp.Base.{Bool, true, false, List, [], ◌∷◌, some, ◌≡◌, refl, sym, ap, ◌∙◌, arith, inl, inr}
use preamp.Base.Text.{Bytes, bytes_eq, is_empty}
use preamp.Base.Dict.{bytes_eq_refl}
use preamp.Auth.ApiKey.{World, any_password, password_of, authenticate_legacy}
use preamp.Auth.Credentials.{Credential, InRows, select, is_legacy, load_legacy_credentials}
use preamp.Auth.Crypto.{Crypto}
use preamp.Auth.Middleware.{
  Config, Request, AuthState, serve, auth_middleware, authenticate, conclude, legacy_user,
  plain_password,
}
use preamp.Auth.Middleware.Access.{IsAdmitted, InRows-select, found-InRows}

pub any_password-true :
    (c : Crypto) (hex_key : Bytes) (test : Bytes → Bool) (d : Credential) (p : Bytes)
    (creds : List Credential)
    → InRows d creds
    → password_of c hex_key d ≡ some p
    → test p ≡ true
    → any_password c hex_key test creds ≡ true
unfolding any_password
any_password-true c hex_key test d p [] m e ok = absurd m
any_password-true c hex_key test d p (x ∷ xs) (inl same) e ok =
    rw (sym (ap (password_of c hex_key) same) ∙ e, any_password, ok) refl
any_password-true c hex_key test d p (x ∷ xs) (inr m) e ok =
    ground (arith, any_password-true c hex_key test d p xs m e ok)

pub authenticate_legacy-row :
    (c : Crypto) (hex_key user password : Bytes) (w : World) (rows : List Credential)
    (d : Credential)
    → w.table ≡ some rows
    → InRows d rows
    → is_legacy w.db_now user d ≡ true
    → password_of c hex_key d ≡ some password
    → authenticate_legacy c hex_key user password w ≡ true
unfolding authenticate_legacy load_legacy_credentials
authenticate_legacy-row c hex_key user password w rows d table row legacy opened =
    let kept = InRows-select (is_legacy w.db_now user) d rows row legacy in
    let creds : List Credential = select (is_legacy w.db_now user) rows in
    let loaded : load_legacy_credentials w.db_now user w.table ≡ some creds =
      ap (load_legacy_credentials w.db_now user) table ∙ found-InRows d creds kept in
    rw (loaded, authenticate_legacy)
      (any_password-true c hex_key (λ p. bytes_eq password p) d password creds kept opened
        (bytes_eq_refl password))

-- A request without an API key and a token.
pub auth_middleware-legacy :
    (c : Crypto) (cfg : Config) (r : Request) (w : World) (st : AuthState) (rows : List Credential)
    (d : Credential) (password : Bytes)
    → cfg.auth_disabled ≡ false
    → IsAdmitted r.ip w.now st.failures
    → is_empty r.api_key ≡ true
    → is_empty r.u ≡ false
    → is_empty r.t ≡ true
    → is_empty r.p ≡ false
    → plain_password r.p ≡ some password
    → w.table ≡ some rows
    → InRows d rows
    → is_legacy w.db_now r.u d ≡ true
    → password_of c cfg.encryption_key d ≡ some password
    → (auth_middleware c cfg r w st).1 ≡ serve r.u
unfolding auth_middleware authenticate conclude legacy_user
auth_middleware-legacy c cfg r w st rows d password on admitted no_key named no_token guarded plain
      table row legacy opened =
    let let_in =
      authenticate_legacy-row c cfg.encryption_key r.u password w rows d table row legacy opened in
    ground (arith, let_in)
