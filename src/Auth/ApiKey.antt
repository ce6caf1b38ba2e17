-- ===== src/Auth/ApiKey.antt =====
-- authenticateAPIKey, flushAPIKeyCache, authenticateToken and authenticateLegacy of
-- internal/api/auth.go. Times are nanoseconds for the cache, and SQLite's text for the table.
use preamp.Base.{
  ℕ, Bool, false, ◌&&◌, ◌||◌, List, [], ◌∷◌, ◌++◌, map, Option, none, some, ltb, leb, if◌then◌else◌,
  ◌+◌,
}
use preamp.Base.Dict.{lookup, insert, delete}
use preamp.Base.Text.{Bytes, bytes_eq}
use preamp.Auth.Credentials.{Credential, load_all_credentials, load_legacy_credentials}
use preamp.Auth.Crypto.{Crypto}
use preamp.Auth.Password.{decrypt_password}

-- Five minutes.
abbrev pub api_key_cache_ttl : ℕ
api_key_cache_ttl = 300000000000

pub record CacheEntry : Type 0 where
  pub username : Bytes
  pub expiry : ℕ

-- From sha256 of a key.
abbrev pub KeyCache : Type 0
KeyCache = List (Bytes × CacheEntry)

-- What a request finds: the clock, SQLite's clock, and the table, which is `none` if the database
-- fails.
pub record World : Type 0 where
  pub now : ℕ
  pub db_now : Bytes
  pub table : Option (List Credential)

-- `strings.ToLower` on ASCII. A token with another byte is no digest in hexadecimal in any case.
unfoldable pub to_lower : ℕ → ℕ
to_lower c = if leb b'A' c && leb c b'Z' then c + 32 else c

module _ (c : Crypto) where
  -- The first credential whose hash matches the key.
  unfoldable pub matching : Bytes → List Credential → Option Credential
  matching key [] = none
  matching key (d ∷ ds) =
      let rest = matching key ds in if c.bcrypt_matches d.hashed_api_key key then some d else rest

  -- Behind a cache that has no live entry.
  unfoldable pub scan_credentials : Bytes → World → KeyCache → KeyCache × Option Bytes
  scan_credentials key w cache = elim (load_all_credentials w.db_now w.table) [
    | none ↦ (cache, none)
    | some creds ↦ elim (matching key creds) [
      | none ↦ (cache, none)
      | some d ↦ (
        insert (c.sha256 key) (record { username = d.username; expiry = w.now + api_key_cache_ttl })
            cache,
        some d.username,
      )
    ]
  ]

  -- `none` is an error.
  unfoldable pub authenticate_api_key : Bytes → World → KeyCache → KeyCache × Option Bytes
  authenticate_api_key key w cache = elim (lookup (c.sha256 key) cache) [
    | none ↦ scan_credentials key w cache
    | some e ↦
        if ltb w.now e.expiry
        then (cache, some e.username)
        else scan_credentials key w (delete (c.sha256 key) cache)
  ]

  -- A password that cannot be decrypted is passed over; a row has one, by the query.
  unfoldable pub password_of : Bytes → Credential → Option Bytes
  password_of hex_key d = elim d.encrypted_password [
    | none ↦ none
    | some e ↦ decrypt_password c hex_key e
  ]

  unfoldable pub any_password : Bytes → (Bytes → Bool) → List Credential → Bool
  any_password hex_key test [] = false
  any_password hex_key test (d ∷ ds) =
      elim (password_of hex_key d) [ none ↦ false | some p ↦ test p ]
      || any_password hex_key test ds

  abbrev pub token_matches : Bytes → Bytes → Bytes → Bool
  token_matches token salt password =
      bytes_eq (map to_lower token) (map to_lower (c.md5_hex (password ++ salt)))

  -- `true` is a nil error.
  unfoldable pub authenticate_token : Bytes → Bytes → Bytes → Bytes → World → Bool
  authenticate_token hex_key user token salt w =
      elim (load_legacy_credentials w.db_now user w.table) [
        | none ↦ false
        | some creds ↦ any_password hex_key (token_matches token salt) creds
      ]

  unfoldable pub authenticate_legacy : Bytes → Bytes → Bytes → World → Bool
  authenticate_legacy hex_key user plain w = elim (load_legacy_credentials w.db_now user w.table) [
    | none ↦ false
    | some creds ↦ any_password hex_key (λ password. bytes_eq plain password) creds
  ]

-- flushAPIKeyCache deletes every key that `Range` visits.
unfoldable pub flush_api_key_cache : KeyCache → KeyCache
flush_api_key_cache cache = []
