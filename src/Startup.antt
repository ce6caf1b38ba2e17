-- ===== src/Startup.antt =====
-- What main and seedDevCredential of cmd/preamp/main.go do with the configuration before the servers
-- start. Opening the database, the scanner, the servers and signals are left out.
pub mod DevUser
use preamp.Base.{
  Bool, true, false, not, ◌&&◌, ◌||◌, List, [], ◌∷◌, ◌++◌, Option, none, some, if◌then◌else◌,
}
use preamp.Base.Text.{Bytes, bytes_eq, codes, is_empty}
use preamp.Auth.Credentials.{Credential}
use preamp.Auth.Crypto.{Crypto}
use preamp.Auth.Password.{encrypt_password}
use preamp.Config.{Config}
use preamp.Manage.Secret.{SecretAuthenticator, new_secret_authenticator}

-- A value of the interface manage.Authenticator. The pointer that NewOIDCAuthenticator returns is nil where
-- discovery fails, but the interface that holds it is not.
pub data Authenticator : Type 0 where
  nil_interface : Authenticator
  file_secret : SecretAuthenticator → Authenticator
  oidc_pointer : Bool → Authenticator

-- How the set-up of the management pages ends: os.Exit(1), or with the authenticator of the handler, if
-- there is one.
pub data Setup : Type 0 where
  exits : Setup
  runs : Option Authenticator → Setup

-- `if authenticator != nil`.
unfoldable pub mount : Authenticator → Setup
mount nil_interface = runs none
mount (file_secret a) = runs (some (file_secret a))
mount (oidc_pointer valid) = runs (some (oidc_pointer valid))

-- What each field's authenticator is: `read_file` is os.ReadFile, and `discovers` whether
-- oidc.NewProvider succeeds for the issuer.
unfoldable pub oidc_authenticator : (Bytes → Bool) → Config → Authenticator → Authenticator
oidc_authenticator discovers c authenticator =
    if not (is_empty c.oidc_issuer) then oidc_pointer (discovers c.oidc_issuer) else authenticator

unfoldable pub set_up_management : (Bytes → Option Bytes) → (Bytes → Bool) → Config → Setup
set_up_management read_file discovers c =
    if not c.manage_enabled
    then runs none
    else if not (is_empty c.admin_secret_file)
    then elim (new_secret_authenticator (read_file c.admin_secret_file)) [
      | none ↦ exits
      | some a ↦ mount (oidc_authenticator discovers c (file_secret a))
    ]
    else mount (oidc_authenticator discovers c nil_interface)

-- What seeding the dev credential finds: the nonce of EncryptPassword, what bcrypt gives for the password,
-- and whether WriteConn and the statement succeed.
pub record Seeding : Type 0 where
  pub nonce : Bytes
  pub hashed : Option Bytes
  pub connects : Bool
  pub executes : Bool

-- `INSERT … ON CONFLICT(id) DO UPDATE SET hashed_api_key, encrypted_password`.
unfoldable pub upsert_credential : Credential → List Credential → List Credential
upsert_credential c [] = c ∷ []
upsert_credential c (d ∷ ds) =
    if bytes_eq d.id c.id
    then record {
      id = d.id;
      username = d.username;
      hashed_api_key = c.hashed_api_key;
      encrypted_password = c.encrypted_password;
      legacy_auth = d.legacy_auth;
      expires_at = d.expires_at;
    }
      ∷ ds
    else d ∷ upsert_credential c ds

abbrev pub dev_credential : Config → Bytes → Bytes → Credential
dev_credential c hashed encrypted = record {
  id = codes "dev-" ++ c.dev_username;
  username = c.dev_username;
  hashed_api_key = hashed;
  encrypted_password = some encrypted;
  legacy_auth = true;
  expires_at = none;
}

-- `none` is an error.
unfoldable pub seed_dev_credential :
    Crypto → Seeding → Config → List Credential → Option (List Credential)
seed_dev_credential crypto seeding c rows =
    elim (encrypt_password crypto seeding.nonce c.encryption_key c.dev_password) [
      | none ↦ none
      | some encrypted ↦ elim seeding.hashed [
        | none ↦ none
        | some hashed ↦
            if seeding.connects && seeding.executes
            then some (upsert_credential (dev_credential c hashed encrypted) rows)
            else none
      ]
    ]

-- main up to the seeding: `none` is os.Exit(1).
unfoldable pub start_up : Crypto → Seeding → Config → List Credential → Option (List Credential)
start_up crypto seeding c rows =
    if not c.auth_disabled && is_empty c.encryption_key
    then none
    else if not (is_empty c.dev_username)
        && (not (is_empty c.dev_password) && not (is_empty c.encryption_key))
    then seed_dev_credential crypto seeding c rows
    else some rows
