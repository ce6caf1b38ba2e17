-- ===== src/Manage/Minting.antt =====
-- What a credential is good for that handleMintCredential of internal/manage/handlers.go or
-- handleAdminCreateCredential of internal/api/admin.go has minted.
use preamp.Base.{
  true, false, List, [], ◌∷◌, ◌++◌, Option, none, some, ◌≡◌, refl, ap, ◌∙◌, arith, inl, inr,
  Option-cases, Bool-cases, length, sym,
}
use preamp.Base.Int.{ℤ}
use preamp.Base.Text.{Bytes, bytes_eq_iff}
use preamp.Base.Dict.{lookup}
use preamp.Auth.ApiKey.{
  KeyCache, World, authenticate_api_key, scan_credentials, matching, authenticate_legacy,
  password_of,
}
use preamp.Auth.Credentials.{
  Credential, InRows, select, is_live, is_legacy, load_all_credentials, load_legacy_credentials,
}
use preamp.Auth.Crypto.{Crypto}
use preamp.Auth.Middleware.Access.{InRows-select, found-InRows}
use preamp.Auth.Middleware.Legacy.{authenticate_legacy-row}
use mathlib.Core.Path.{subst}
use preamp.Auth.Password.{encrypt_password, nonce_size, decrypt_password-encrypt_password}
use preamp.Manage.{
  Attempt, MintRequest, Draw, Time, created, insert_credential, write_rows, mint_row, mint_password,
  handle_mint_credential,
}

last-InRows : (d : Credential) (rows : List Credential) → InRows d (rows ++ (d ∷ []))
last-InRows d [] = inl refl
last-InRows d (c ∷ cs) = inr (last-InRows d cs)

-- The only live row that matches is found.
matching-select :
    (c : Crypto) (key now : Bytes) (d : Credential) (rows : List Credential)
    → ((e : Credential) → InRows e rows → c.bcrypt_matches e.hashed_api_key key ≡ false)
    → c.bcrypt_matches d.hashed_api_key key ≡ true
    → is_live now d ≡ true
    → matching c key (select (is_live now) (rows ++ (d ∷ []))) ≡ some d
unfolding matching select
matching-select c key now d [] h same live = rw (live, matching, same) refl
matching-select c key now d (e ∷ es) h same live =
    let rest = matching-select c key now d es (λ x m. h x (inr m)) same live in
    elim (Bool-cases (is_live now e)) [
      | inl k ↦ rw (k, matching, h e (inl refl)) rest
      | inr k ↦ rw k rest
    ]

module _ (c : Crypto) (encryption_key : Bytes) (time : Time) (standard_ttl : ℤ) (user : Bytes)
    (req : MintRequest) (draw : Draw) (attempt : Attempt) (rows rows' : List Credential)
    (row : Credential) (secret : Bytes) where
  -- The row is the last, and is as the request and the draw say.
  minted_lem :
      handle_mint_credential c encryption_key time standard_ttl user req draw attempt rows
        ≡ (rows', created row secret)
      → (hashed : Bytes) × (encrypted : Option Bytes) × (mint_password c encryption_key time
            standard_ttl req draw
          ≡ some encrypted)
        × (row ≡ mint_row c encryption_key time standard_ttl user req draw hashed encrypted)
        × (rows' ≡ rows ++ (row ∷ []))
        × (secret ≡ draw.secret)
  unfolding handle_mint_credential write_rows insert_credential
  minted_lem e = elim (Option-cases draw.hashed) [
    | inl k ↦ ground (arith, k, e)
    | inr (hashed, k) ↦
        elim (Option-cases (mint_password c encryption_key time standard_ttl req draw)) [
          | inl l ↦ ground (arith, k, l, e)
          | inr (encrypted, l) ↦
              let it : row
                  ≡ mint_row c encryption_key time standard_ttl user req draw hashed encrypted =
                ground (arith, k, l, e) in
              (hashed, encrypted, l, it, ground (arith, k, l, e), ground (arith, k, l, e))
        ]
  ]

  -- A credential that handleMintCredential reports as created lets its user in by its secret as long as it has
  -- not expired, if its hash matches the secret, no hash of an earlier row does, and no cache entry stands under the
  -- secret's digest.
  pub minted :
      (cache : KeyCache) (w : World)
      → handle_mint_credential c encryption_key time standard_ttl user req draw attempt rows
        ≡ (rows', created row secret)
      → ((d : Credential) → InRows d rows → c.bcrypt_matches d.hashed_api_key secret ≡ false)
      → c.bcrypt_matches row.hashed_api_key secret ≡ true
      → lookup (c.sha256 secret) cache ≡ none
      → w.table ≡ some rows'
      → is_live w.db_now row ≡ true
      → (authenticate_api_key c secret w cache).1 ≡ some user
  unfolding authenticate_api_key scan_credentials load_all_credentials mint_row
  minted cache w e others same fresh there live =
      let (hashed, encrypted, l, it, last, known) = minted_lem e in
      let owner : row.username ≡ user = ap (λ (r : Credential). r.username) it in
      let kept =
        InRows-select (is_live w.db_now) row (rows ++ (row ∷ [])) (last-InRows row rows) live in
      let creds : List Credential = select (is_live w.db_now) (rows ++ (row ∷ [])) in
      let loaded : load_all_credentials w.db_now w.table ≡ some creds =
        ap (load_all_credentials w.db_now) (there ∙ ap some last) ∙ found-InRows row creds kept in
      rw
        (
          fresh,
          authenticate_api_key,
          loaded,
          scan_credentials,
          matching-select c secret w.db_now row rows others same live,
        )
        (ap some owner)

  -- A credential that handleMintCredential reports as created for the legacy method lets its user in by
  -- its secret as the password as long as it has not expired, if AES-GCM opens what it has sealed and the nonce
  -- has its size.
  pub minted_legacy :
      (w : World)
      → handle_mint_credential c encryption_key time standard_ttl user req draw attempt rows
        ≡ (rows', created row secret)
      → ((key n p : Bytes) → c.gcm_open key n (c.gcm_seal key n p) ≡ some p)
      → nonce_size ≡ length draw.nonce
      → req.legacy_auth ≡ true
      → w.table ≡ some rows'
      → is_live w.db_now row ≡ true
      → authenticate_legacy c encryption_key user secret w ≡ true
  unfolding authenticate_legacy load_legacy_credentials mint_row mint_password is_legacy password_of
  minted_legacy w e opens size legacy there live =
      let (hashed, encrypted, l, it, last, known) = minted_lem e in
      elim (Option-cases (encrypt_password c draw.nonce encryption_key draw.secret)) [
        | inl k ↦ ground (arith, k, l, legacy)
        | inr (sealed, k) ↦
            let has : encrypted ≡ some sealed = ground (arith, k, l, legacy) in
            let opened =
              decrypt_password-encrypt_password c draw.nonce encryption_key draw.secret sealed opens
                size k in
            let owner : row.username ≡ user = ap (λ (r : Credential). r.username) it in
            let password : row.encrypted_password ≡ some sealed =
              ap (λ (r : Credential). r.encrypted_password) it ∙ has in
            let flag : row.legacy_auth ≡ true =
              ap (λ (r : Credential). r.legacy_auth) it ∙ legacy in
            let of_user : is_legacy w.db_now user row ≡ true =
              ground (arith, (bytes_eq_iff row.username user).1 owner, password, flag, live) in
            let there_is : InRows row rows' =
              subst (InRows row) (sym last) (last-InRows row rows) in
            authenticate_legacy-row c encryption_key user secret w rows' row there there_is of_user
              (rw (password, password_of) opened ∙ ap some (sym known))
      ]
