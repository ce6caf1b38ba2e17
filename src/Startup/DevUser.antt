-- ===== src/Startup/DevUser.antt =====
-- The dev credential lets its user in.
use preamp.Auth.Middleware.Access.{IsAdmitted}
use preamp.Config.Loaded.{load-derive_key}
use preamp.Auth.Middleware.{Request, AuthState, plain_password, auth_middleware, serve}
use preamp.Auth.ApiKey.{password_of, World}
use preamp.Base.Hex.{decode_hex}
use preamp.Auth.Crypto.{Crypto}
use preamp.Auth.Password.{
  decrypt_password-encrypt_password, derive_key, encrypt_password, nonce_size,
}
use preamp.Base.{
  true, List, [], ◌∷◌, ◌++◌, none, some, ◌≡◌, refl, inl, inr, All, Bool-cases, false, arith, ◌&&◌,
  length, ◌∙◌, sym, ap,
}
use preamp.Base.Text.{Bytes, bytes_eq, bytes_eq_iff, codes, is_empty}
use preamp.Auth.Credentials.{Credential, InRows, is_legacy, is_live}
use preamp.Auth.Middleware.Legacy.{auth_middleware-legacy}
use preamp.Config.{Config, Os, load, loaded}
use preamp.Startup.{dev_credential, upsert_credential, Seeding, seed_dev_credential, start_up}

-- A row with the dev credential's id is one that an earlier start seeded.
abbrev pub IsDev : Config → Credential → Type 0
IsDev c d =
    d.id ≡ codes "dev-" ++ c.dev_username
    → (d.username ≡ c.dev_username) × (d.legacy_auth ≡ true) × (d.expires_at ≡ none)

abbrev IsSeeded : Config → Bytes → Credential → Type 0
IsSeeded c sealed d =
    (d.username ≡ c.dev_username)
    × (d.legacy_auth ≡ true)
    × (d.expires_at ≡ none)
    × (d.encrypted_password ≡ some sealed)

upsert_credential-row :
    (c : Config) (hashed sealed : Bytes) (rows : List Credential)
    → All (IsDev c) rows
    → (d : Credential) × InRows d (upsert_credential (dev_credential c hashed sealed) rows)
      × IsSeeded c sealed d
unfolding upsert_credential
upsert_credential-row c hashed sealed [] h =
    (dev_credential c hashed sealed, inl refl, (refl, refl, refl, refl))
upsert_credential-row c hashed sealed (d ∷ ds) (h, hs) =
    elim (Bool-cases (bytes_eq d.id (codes "dev-" ++ c.dev_username))) [
      | inl e ↦
          let (name, legacy, live) = h ((bytes_eq_iff d.id (codes "dev-" ++ c.dev_username)).0 e) in
          rw (e, upsert_credential) (_, inl refl, (name, legacy, live, refl))
      | inr e ↦
          let (found, row, seeded) = upsert_credential-row c hashed sealed ds hs in
          rw (e, upsert_credential) (found, inr row, seeded)
    ]

derive_key-nonempty : (key k : Bytes) → derive_key key ≡ some k → is_empty key ≡ false
unfolding derive_key decode_hex
derive_key-nonempty [] k h = ground (arith, h)
derive_key-nonempty (x ∷ key) k h = refl

abbrev pub middleware_config : Config → preamp.Auth.Middleware.Config
middleware_config c = record { auth_disabled = c.auth_disabled; encryption_key = c.encryption_key }

plain_password-nonempty :
    (p password : Bytes)
    → is_empty password ≡ false
    → plain_password p ≡ some password
    → is_empty p ≡ false
unfolding plain_password bytes_eq
plain_password-nonempty [] password h e = ground (arith, h, e)
plain_password-nonempty (x ∷ p) password h e = refl

module _ (crypto : Crypto) (seeding : Seeding) (os : Os) (c : Config) (rows : List Credential)
    (hashed : Bytes) where
  -- What start leaves, with the ciphertext of the password.
  start_up-row :
      load os ≡ loaded c
      → c.auth_disabled ≡ false
      → is_empty c.dev_username ≡ false
      → is_empty c.dev_password ≡ false
      → seeding.hashed ≡ some hashed
      → (seeding.connects && seeding.executes) ≡ true
      → (sealed : Bytes) × (encrypt_password crypto seeding.nonce c.encryption_key c.dev_password
          ≡ some sealed)
        × (start_up crypto seeding c rows
            ≡ some (upsert_credential (dev_credential c hashed sealed) rows))
  unfolding start_up seed_dev_credential encrypt_password
  start_up-row loads on named guarded made works = elim (load-derive_key os c loads).0 [
    | inl (none_set, off) ↦ ground (arith, off, on)
    | inr (k, e) ↦
        let set = derive_key-nonempty c.encryption_key k e in
        let sealed = seeding.nonce ++ crypto.gcm_seal k seeding.nonce c.dev_password in
        let encrypts : encrypt_password crypto seeding.nonce c.encryption_key c.dev_password
            ≡ some sealed =
          rw (e, encrypt_password) refl in
        (
          sealed,
          encrypts,
          rw (start_up, on, named, guarded, set, seed_dev_credential, encrypts, made, works) refl,
        )
  ]

  -- With a configuration that Load returned, with authentication and a dev user with a password, start seeds a
  -- credential by which the middleware serves a request of that user that shows this password, plain or as
  -- `enc:` and its digits, from an address that is not over its limit. AES-GCM opens what it has sealed, the nonce has
  -- its size, bcrypt and the database succeed, and no other row has the credential's id.
  pub auth_middleware-start_up :
      (r : Request) (w : World) (st : AuthState)
      → ((key n p : Bytes) → crypto.gcm_open key n (crypto.gcm_seal key n p) ≡ some p)
      → nonce_size ≡ length seeding.nonce
      → load os ≡ loaded c
      → c.auth_disabled ≡ false
      → is_empty c.dev_username ≡ false
      → is_empty c.dev_password ≡ false
      → seeding.hashed ≡ some hashed
      → (seeding.connects && seeding.executes) ≡ true
      → All (IsDev c) rows
      → w.table ≡ start_up crypto seeding c rows
      → IsAdmitted r.ip w.now st.failures
      → is_empty r.api_key ≡ true
      → r.u ≡ c.dev_username
      → is_empty r.t ≡ true
      → plain_password r.p ≡ some c.dev_password
      → (auth_middleware crypto (middleware_config c) r w st).1 ≡ serve c.dev_username
  unfolding is_legacy is_live password_of
  auth_middleware-start_up r w st opens size loads on named guarded made works devs table admitted
        no_key user no_token plain =
      let (sealed, encrypts, started) = start_up-row loads on named guarded made works in
      let (d, row, seeded) = upsert_credential-row c hashed sealed rows devs in
      let (name, legacy, live, password) = seeded in
      let opened =
        decrypt_password-encrypt_password crypto seeding.nonce c.encryption_key c.dev_password
          sealed opens size encrypts in
      let mine : is_legacy w.db_now r.u d ≡ true =
        ground (arith, (bytes_eq_iff d.username r.u).1 (name ∙ sym user), legacy, live, password) in
      let cfg = middleware_config c in
      auth_middleware-legacy crypto cfg r w st
        (upsert_credential (dev_credential c hashed sealed) rows) d c.dev_password on admitted
        no_key (ap is_empty user ∙ named) no_token
        (plain_password-nonempty r.p c.dev_password guarded plain) plain (table ∙ started) row mine
        (rw (password, password_of) opened)
      ∙ ap serve user
