-- ===== src/Manage/Revocation.antt =====
-- Revocation by handleAdminDeleteCredential of internal/api/admin.go, and what authenticateAPIKey of
-- internal/api/auth.go makes of it.
use preamp.Auth.Middleware.Rows.{load_all-rows}
use mathlib.Core.Path.{subst}
use preamp.Base.{
  false, List, [], ◌∷◌, none, some, ◌≡◌, inl, inr, refl, Bool-cases, sym, Option-cases, arith, ◌⊎◌,
  ap, ◌∙◌,
}
use preamp.Base.Text.{Bytes}
use preamp.Base.Dict.{lookup}
use preamp.Auth.ApiKey.{
  KeyCache, World, authenticate_api_key, scan_credentials, matching, flush_api_key_cache,
}
use preamp.Auth.Credentials.{Credential, InRows, select-InRows, is_live, load_all_credentials}
use preamp.Auth.Crypto.{Crypto}
use preamp.Manage.{Attempt, deleted, is_of, delete_rows, write_rows, handle_admin_delete_credential}

pub delete_rows-InRows :
    (id user : Bytes) (d : Credential) (rows : List Credential)
    → InRows d (delete_rows id user rows)
    → InRows d rows × (is_of id user d ≡ false)
unfolding delete_rows
delete_rows-InRows id user d [] m = absurd m
delete_rows-InRows id user d (c ∷ cs) m = elim (Bool-cases (is_of id user c)) [
  | inl e ↦
      let (row, h) = delete_rows-InRows id user d cs (rw (e, delete_rows) at m) in (inr row, h)
  | inr e ↦
      let m' : (d ≡ c) ⊎ InRows d (delete_rows id user cs) = rw (e, delete_rows) at m in
      elim m' [
        | inl same ↦ (inl same, ap (is_of id user) same ∙ e)
        | inr later ↦ let (row, h) = delete_rows-InRows id user d cs later in (inr row, h)
      ]
]

matching-none :
    (c : Crypto) (key : Bytes) (ds : List Credential)
    → ((d : Credential) → InRows d ds → c.bcrypt_matches d.hashed_api_key key ≡ false)
    → matching c key ds ≡ none
unfolding matching
matching-none c key [] h = refl
matching-none c key (d ∷ ds) h = rw (h d (inl refl)) (matching-none c key ds (λ e m. h e (inr m)))

scan_credentials-none :
    (c : Crypto) (key : Bytes) (w : World) (cache : KeyCache) (rows : List Credential)
    → w.table ≡ some rows
    → ((d : Credential) → InRows d rows → c.bcrypt_matches d.hashed_api_key key ≡ false)
    → (scan_credentials c key w cache).1 ≡ none
unfolding scan_credentials
scan_credentials-none c key w cache rows e h =
    elim (Option-cases (load_all_credentials w.db_now w.table)) [
      | inl k ↦ rw (k, scan_credentials) refl
      | inr (creds, k) ↦
          let (table, there, same) = load_all-rows w.db_now w.table k in
          let row : some rows ≡ some table = sym e ∙ there in
          let one : table ≡ rows = ground (arith, row) in
          rw
            (
              k,
              matching-none c key creds (λ d m. h d (
                  subst (InRows d) one
                    (select-InRows (is_live w.db_now) d table (subst (InRows d) same m)).0)),
              scan_credentials,
            )
            refl
    ]

deleted_lem :
    (id user : Bytes) (attempt : Attempt) (rows rows' : List Credential) (cache cache' : KeyCache)
    → handle_admin_delete_credential user id attempt rows cache ≡ (rows', cache', deleted)
    → (rows' ≡ delete_rows id user rows) × (cache' ≡ [])
unfolding handle_admin_delete_credential write_rows flush_api_key_cache
deleted_lem id user attempt rows rows' cache cache' e = (ground (arith, e), ground (arith, e))

-- A credential that the admin API reports as deleted is revoked at once: a key that the hash of no other row
-- matches is refused from then on, however often it was used before.
pub revoked :
    (c : Crypto) (key id user : Bytes) (attempt : Attempt) (rows rows' : List Credential)
    (cache cache' : KeyCache) (w : World)
    → ((d : Credential)
        → InRows d rows
        → is_of id user d ≡ false
        → c.bcrypt_matches d.hashed_api_key key ≡ false)
    → handle_admin_delete_credential user id attempt rows cache ≡ (rows', cache', deleted)
    → w.table ≡ some rows'
    → (authenticate_api_key c key w cache').1 ≡ none
unfolding handle_admin_delete_credential write_rows authenticate_api_key flush_api_key_cache lookup
revoked c key id user attempt rows rows' cache cache' w others e there =
    let (table, flushed) = deleted_lem id user attempt rows rows' cache cache' e in
    rw flushed (
      scan_credentials-none c key w [] rows' there (λ d m.
        let (row, other) = delete_rows-InRows id user d rows (subst (InRows d) table m) in
        others d row other))
