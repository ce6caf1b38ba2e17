-- ===== src/Tests/Manage.antt =====
-- Credentials that are minted, used and revoked.
use preamp.Manage.Secret.{new_secret_authenticator, callback_handler, secret_login}
use preamp.Id3.Values.{trim_space}
use preamp.Base.Dict.{lookup}
use preamp.Base.{
  Bool, true, false, List, [], ◌∷◌, ◌++◌, none, some, ◌≡◌, refl, inl, inr, sym, ap, ◌∙◌, arith, ◌↔◌,
}
use preamp.Base.Int.{pos}
use preamp.Base.Text.{Bytes, codes, bytes_eq}
use preamp.Auth.ApiKey.{World, authenticate_api_key, authenticate_legacy, KeyCache}
use preamp.Auth.Credentials.{Credential, InRows, is_live}
use preamp.Auth.Crypto.{Crypto}
use preamp.Manage.{
  MintRequest, Draw, Time, Attempt, created, deleted, handle_mint_credential,
  handle_admin_create_credential, handle_renew_credential, handle_admin_renew_credential,
  handle_revoke_credential, handle_admin_delete_credential, is_of,
}
use preamp.Manage.Minting.{minted, minted_legacy}
use preamp.Manage.Owner.{others, handlers-OthersKept}
use preamp.Manage.Revocation.{revoked}

abbrev crypto : Crypto
crypto = record {
  sha256 = λ k. k;
  md5_hex = λ k. k;
  bcrypt_matches = λ h k. bytes_eq h k;
  gcm_seal = λ key n p. p;
  gcm_open = λ key n b. some b;
}

abbrev encryption_key : Bytes
encryption_key = codes "000102030405060708090a0b0c0d0e0f"

abbrev time : Time
time = record { parse_duration = λ t. none; expiry_after = λ d. codes "2026-01-08T00:00:00" }

abbrev attempt : Attempt
attempt = record { connects = true; executes = true; reads = true }

abbrev alice : Bytes
alice = codes "alice"

abbrev request : MintRequest
request = record { legacy_auth = true; ttl = [] }

abbrev draw : Draw
draw = record {
  secret = codes "s3";
  id = codes "c2";
  nonce = codes "012345678901";
  hashed = some (codes "s3");
}

abbrev bobs : Credential
bobs = record {
  id = codes "c1";
  username = codes "bob";
  hashed_api_key = codes "other";
  encrypted_password = none;
  legacy_auth = false;
  expires_at = none;
}

abbrev alices : Credential
alices = record {
  id = codes "c2";
  username = alice;
  hashed_api_key = codes "s3";
  encrypted_password = some (codes "012345678901s3");
  legacy_auth = true;
  expires_at = some (codes "2026-01-08T00:00:00");
}

abbrev world : List Credential → World
world rows = record { now = 5; db_now = codes "2026-01-01T00:00:00"; table = some rows }

minting :
    handle_mint_credential crypto encryption_key time
      (pos 604800)
      alice
      request
      draw
      attempt
      (bobs ∷ [])
    ≡ (bobs ∷ alices ∷ [], created alices (codes "s3"))
unfolding handle_mint_credential preamp.Manage.mint_password preamp.Auth.Password.encrypt_password
    preamp.Auth.Password.derive_key preamp.Base.Hex.decode_hex preamp.Base.Hex.hex_digit
    preamp.Manage.write_rows preamp.Manage.insert_credential preamp.Manage.has_credential bytes_eq
    preamp.Manage.mint_row preamp.Manage.expiry preamp.Manage.credential_ttl
minting = refl

bobs-differs :
    (d : Credential) → InRows d (bobs ∷ []) → bytes_eq d.hashed_api_key (codes "s3") ≡ false
unfolding bytes_eq
bobs-differs d (inl e) = rw e refl
bobs-differs d (inr m) = absurd m

minted_example :
    (authenticate_api_key crypto (codes "s3") (world (bobs ∷ alices ∷ [])) []).1 ≡ some alice
unfolding bytes_eq is_live lookup preamp.Auth.Credentials.text_gt
minted_example =
    minted crypto encryption_key time (pos 604800) alice request draw attempt (bobs ∷ [])
      (bobs ∷ alices ∷ []) alices (codes "s3") [] (world (bobs ∷ alices ∷ [])) minting bobs-differs
      refl refl refl refl

minted_legacy_example :
    authenticate_legacy crypto encryption_key alice (codes "s3") (world (bobs ∷ alices ∷ [])) ≡ true
unfolding bytes_eq is_live lookup preamp.Auth.Credentials.text_gt
minted_legacy_example =
    minted_legacy crypto encryption_key time (pos 604800) alice request draw attempt (bobs ∷ [])
      (bobs ∷ alices ∷ []) alices (codes "s3") (world (bobs ∷ alices ∷ [])) minting
      (λ key n p. refl) refl refl refl refl

-- The key is in the cache when its credential is deleted.
abbrev cached : KeyCache
cached = (codes "s3", record { username = alice; expiry = 100 }) ∷ []

deleting :
    handle_admin_delete_credential alice (codes "c2") attempt (bobs ∷ alices ∷ []) cached
    ≡ (bobs ∷ [], [], deleted)
unfolding handle_admin_delete_credential preamp.Manage.write_rows preamp.Manage.changes
    preamp.Manage.is_of bytes_eq preamp.Manage.delete_rows preamp.Auth.ApiKey.flush_api_key_cache
deleting = refl

only_alices :
    (d : Credential)
    → InRows d (bobs ∷ alices ∷ [])
    → is_of (codes "c2") alice d ≡ false
    → bytes_eq d.hashed_api_key (codes "s3") ≡ false
unfolding bytes_eq is_of
only_alices d (inl e) h = rw e refl
only_alices d (inr (inl e)) h =
    let it : true ≡ false = sym (ap (is_of (codes "c2") alice) e) ∙ h in ground (arith, it)
only_alices d (inr (inr m)) h = absurd m

revoked_example : (authenticate_api_key crypto (codes "s3") (world (bobs ∷ [])) []).1 ≡ none
revoked_example =
    revoked crypto (codes "s3") (codes "c2") alice attempt (bobs ∷ alices ∷ []) (bobs ∷ []) cached
      [] (world (bobs ∷ [])) only_alices deleting refl

handlers-OthersKept_example :
    (others alice
        (handle_mint_credential crypto encryption_key time
          (pos 604800)
          alice
          request
          draw
          attempt
          (bobs ∷ [])).0
      ≡ others alice (bobs ∷ []))
    × (others alice
          (handle_admin_create_credential crypto encryption_key time
            (pos 604800)
            alice
            (some request)
            draw
            attempt
            (bobs ∷ [])).0
        ≡ others alice (bobs ∷ []))
    × (others alice
          (handle_renew_credential crypto encryption_key time
            (pos 604800)
            alice
            (codes "c1")
            attempt
            (bobs ∷ [])).0
        ≡ others alice (bobs ∷ []))
    × (others alice
          (handle_admin_renew_credential crypto encryption_key time
            (pos 604800)
            alice
            (codes "c1")
            attempt
            (bobs ∷ [])).0
        ≡ others alice (bobs ∷ []))
    × (others alice (handle_revoke_credential alice (codes "c1") attempt (bobs ∷ [])).0
        ≡ others alice (bobs ∷ []))
    × (others alice (handle_admin_delete_credential alice (codes "c1") attempt (bobs ∷ []) cached).0
        ≡ others alice (bobs ∷ []))
handlers-OthersKept_example =
    handlers-OthersKept crypto encryption_key time (pos 604800) alice (codes "c1") request
      (some request) draw attempt (bobs ∷ []) cached

secret_login_example :
    (new_secret_authenticator (some (codes "admin:a:b\n"))
      ≡ some (record { username = codes "admin"; password = codes "a:b" }))
    × ((callback_handler
            (record { username = codes "admin"; password = codes "a:b" })
            (codes "admin")
            (codes "a")
          ≡ some (codes "admin"))
        ↔ ((codes "admin" ≡ codes "admin") × (codes "a" ≡ codes "a:b")))
unfolding trim_space
secret_login_example =
    secret_login (codes "admin:a:b\n") (codes "admin") (codes "a:b") (codes "admin") (codes "a")
      refl refl refl refl
