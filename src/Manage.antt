-- ===== src/Manage.antt =====
-- The handlers that mint, renew and revoke credentials: handleMintCredential, handleRenewCredential and
-- handleRevokeCredential of internal/manage/handlers.go, and handleAdminCreateCredential,
-- handleAdminRenewCredential and handleAdminDeleteCredential of internal/api/admin.go. The label of a
-- client and created_at are left out.
pub mod Revocation
pub mod Minting
pub mod Owner
pub mod Secret
use preamp.Base.{
  ℕ, suc, Bool, true, false, not, ◌&&◌, ◌||◌, List, [], ◌∷◌, ◌++◌, Option, none, some, ltb, ◌==◌,
  if◌then◌else◌,
}
use preamp.Base.Int.{ℤ, pos, negsuc}
use preamp.Base.Text.{Bytes, bytes_eq, codes, is_empty}
use preamp.Auth.ApiKey.{KeyCache, flush_api_key_cache}
use preamp.Auth.Credentials.{Credential}
use preamp.Auth.Crypto.{Crypto}
use preamp.Auth.Password.{encrypt_password}

pub record MintRequest : Type 0 where
  pub legacy_auth : Bool
  pub ttl : Bytes

-- What a handler draws: the secret of randomBase62, the id of db.NewID, the nonce of EncryptPassword, and
-- what bcrypt.GenerateFromPassword gives for the secret.
pub record Draw : Type 0 where
  pub secret : Bytes
  pub id : Bytes
  pub nonce : Bytes
  pub hashed : Option Bytes

-- `time.ParseDuration`, and the text of `time.Now().Add(d)`.
pub record Time : Type 0 where
  pub parse_duration : Bytes → Option ℤ
  pub expiry_after : ℤ → Bytes

-- Whether WriteConn and the statement behind it succeed, and the read behind them.
pub record Attempt : Type 0 where
  pub connects : Bool
  pub executes : Bool
  pub reads : Bool

pub data Reply : Type 0 where
  bad_request : Reply
  internal_error : Reply
  not_found : Reply
  created : Credential → Bytes → Reply
  renewed : Credential → Reply
  deleted : Reply

unfoldable pub credential_ttl : Time → ℤ → Bytes → ℤ
credential_ttl time standard ttl =
    if not (is_empty ttl) && not (bytes_eq ttl (codes "0"))
    then elim (time.parse_duration ttl) [ none ↦ standard | some d ↦ d ]
    else if bytes_eq ttl (codes "0")
    then pos 0
    else standard

-- NULL unless the lifetime is positive.
unfoldable pub expiry : Time → ℤ → Option Bytes
expiry time (pos n) = if n == 0 then none else some (time.expiry_after (pos n))
expiry time (negsuc n) = none

unfoldable pub has_credential : Bytes → List Credential → Bool
has_credential id [] = false
has_credential id (c ∷ cs) = bytes_eq id c.id || has_credential id cs

-- `INSERT INTO credential`; `none` is a broken constraint.
unfoldable pub insert_credential : Credential → List Credential → Option (List Credential)
insert_credential c rows = if has_credential c.id rows then none else some (rows ++ (c ∷ []))

-- `id = ? AND username = ?`.
unfoldable pub is_of : Bytes → Bytes → Credential → Bool
is_of id user c = bytes_eq id c.id && bytes_eq user c.username

-- `UPDATE credential SET expires_at = ? WHERE id = ? AND username = ?`.
unfoldable pub renew_rows : Bytes → Bytes → Bytes → List Credential → List Credential
renew_rows expires_at id user [] = []
renew_rows expires_at id user (c ∷ cs) =
    (if is_of id user c then record c { expires_at = some expires_at } else c)
    ∷ renew_rows expires_at id user cs

-- `DELETE FROM credential WHERE id = ? AND username = ?`.
unfoldable pub delete_rows : Bytes → Bytes → List Credential → List Credential
delete_rows id user [] = []
delete_rows id user (c ∷ cs) =
    let rest = delete_rows id user cs in if is_of id user c then rest else c ∷ rest

-- `conn.Changes()`.
unfoldable pub changes : Bytes → Bytes → List Credential → ℕ
changes id user [] = 0
changes id user (c ∷ cs) =
    let rest = changes id user cs in if is_of id user c then suc rest else rest

-- `SELECT ... WHERE id = ? AND username = ?`: the last row is kept.
unfoldable pub find_credential : Bytes → Bytes → List Credential → Option Credential
find_credential id user [] = none
find_credential id user (c ∷ cs) = elim (find_credential id user cs) [
  | some d ↦ some d
  | none ↦ if is_of id user c then some c else none
]

-- A write statement that succeeds if the connection and the engine let it.
unfoldable pub write_rows : Attempt → Option (List Credential) → Option (List Credential)
write_rows attempt rows = if attempt.connects && attempt.executes then rows else none

module _ (c : Crypto) (encryption_key : Bytes) (time : Time) (standard_ttl : ℤ) where
  -- Nothing, or the encrypted secret; `none` is an error.
  unfoldable pub mint_password : MintRequest → Draw → Option (Option Bytes)
  mint_password req draw =
      if req.legacy_auth
      then elim (encrypt_password c draw.nonce encryption_key draw.secret) [
        | none ↦ none
        | some e ↦ some (some e)
      ]
      else some none

  unfoldable pub mint_row : Bytes → MintRequest → Draw → Bytes → Option Bytes → Credential
  mint_row user req draw hashed encrypted = record {
    id = draw.id;
    username = user;
    hashed_api_key = hashed;
    encrypted_password = encrypted;
    legacy_auth = req.legacy_auth;
    expires_at = expiry time (credential_ttl time standard_ttl req.ttl);
  }

  unfoldable pub handle_mint_credential :
      Bytes → MintRequest → Draw → Attempt → List Credential → List Credential × Reply
  handle_mint_credential user req draw attempt rows = elim draw.hashed [
    | none ↦ (rows, internal_error)
    | some hashed ↦ elim (mint_password req draw) [
      | none ↦ (rows, internal_error)
      | some encrypted ↦
          let row = mint_row user req draw hashed encrypted in
          elim (write_rows attempt (insert_credential row rows)) [
            | none ↦ (rows, internal_error)
            | some rows' ↦ (rows', created row draw.secret)
          ]
    ]
  ]

  -- `none` is a body that is no JSON.
  unfoldable pub handle_admin_create_credential :
      Bytes → Option MintRequest → Draw → Attempt → List Credential → List Credential × Reply
  handle_admin_create_credential user none draw attempt rows = (rows, bad_request)
  handle_admin_create_credential user (some req) draw attempt rows =
      handle_mint_credential user req draw attempt rows

  unfoldable pub read_back_credential : Attempt → Bytes → Bytes → List Credential → Reply
  read_back_credential attempt id user rows =
      if attempt.reads
      then elim (find_credential id user rows) [ none ↦ internal_error | some row ↦ renewed row ]
      else internal_error

  unfoldable pub handle_renew_credential :
      Bytes → Bytes → Attempt → List Credential → List Credential × Reply
  handle_renew_credential user id attempt rows =
      elim (write_rows attempt (some (renew_rows (time.expiry_after standard_ttl) id user rows))) [
        | none ↦ (rows, internal_error)
        | some rows' ↦ (rows', read_back_credential attempt id user rows')
      ]

  unfoldable pub handle_admin_renew_credential :
      Bytes → Bytes → Attempt → List Credential → List Credential × Reply
  handle_admin_renew_credential user id attempt rows =
      elim (write_rows attempt (some (renew_rows (time.expiry_after standard_ttl) id user rows))) [
        | none ↦ (rows, internal_error)
        | some rows' ↦ (
          rows',
          if changes id user rows == 0
              then not_found
              else read_back_credential attempt id user rows',
        )
      ]

unfoldable pub handle_revoke_credential :
    Bytes → Bytes → Attempt → List Credential → List Credential × Reply
handle_revoke_credential user id attempt rows =
    elim (write_rows attempt (some (delete_rows id user rows))) [
      | none ↦ (rows, internal_error)
      | some rows' ↦ (rows', deleted)
    ]

-- The server's cache of API keys is flushed.
unfoldable pub handle_admin_delete_credential :
    Bytes → Bytes → Attempt → List Credential → KeyCache → List Credential × KeyCache × Reply
handle_admin_delete_credential user id attempt rows cache =
    elim (write_rows attempt (some (delete_rows id user rows))) [
      | none ↦ (rows, cache, internal_error)
      | some rows' ↦
          if changes id user rows == 0
          then (rows', cache, not_found)
          else (rows', flush_api_key_cache cache, deleted)
    ]
