-- ===== src/Tests/Auth.antt =====
-- internal/api/auth.go and internal/auth/encrypt.go with primitives that are easy to compute with.
use preamp.Base.Dict.{lookup}
use preamp.Base.{false, [], ◌≡◌, some, List, arith, ◌+◌, refl, true, ◌∷◌, ◌≤◌, none, inl}
use preamp.Base.Text.{bytes_eq, Bytes, codes}
use preamp.Base.Hex.{encode_hex, decode_hex}
use preamp.Auth.ApiKey.{CacheEntry, KeyCache, World}
use preamp.Auth.Credentials.{Credential, is_live}
use preamp.Auth.Crypto.{Crypto}
use preamp.Auth.Middleware.Access.{auth_middleware-served}
use preamp.Auth.Middleware.Attempts.{NoneServed, wrong_answers, wrong_answers-le}
use preamp.Auth.Middleware.Lockout.{AllRefused, lockout}
use preamp.Auth.Middleware.Soundness.{Authentic, auth_middleware-Authentic}
use preamp.Auth.Middleware.{
  Config, AuthState, Request, serve, conclude, authenticate, auth_middleware,
}
use preamp.Auth.Password.{encrypt_password, decrypt_password, decrypt_password-encrypt_password}
use preamp.Auth.RateLimit.{FailureEntry, check_rate_limit, auth_failure_limit}

abbrev plain : Crypto
plain = record {
  sha256 = λ key. key;
  md5_hex = λ s. s;
  bcrypt_matches = λ hash key. bytes_eq hash key;
  gcm_seal = λ key nonce p. p;
  gcm_open = λ key nonce p. some p;
}

abbrev hex_key : Bytes
hex_key = codes "00112233445566778899AABBCCDDEEFF"

abbrev nonce : Bytes
nonce = codes "twelve bytes"

secret_decrypted :
    decrypt_password plain hex_key (codes "twelve bytessecret") ≡ some (codes "secret")
unfolding preamp.Auth.Password.derive_key decode_hex preamp.Base.Hex.hex_digit
secret_decrypted =
    decrypt_password-encrypt_password plain nonce hex_key (codes "secret")
      (codes "twelve bytessecret") (λ key n p. refl) refl (unfold encrypt_password in refl)

abbrev cfg : Config
cfg = record { auth_disabled = false; encryption_key = hex_key }

abbrev ann : Credential
ann = record {
  id = codes "1";
  username = codes "ann";
  hashed_api_key = codes "key";
  encrypted_password = some (codes "twelve bytessecret");
  legacy_auth = true;
  expires_at = some (codes "2030-01-01T00:00:00");
}

abbrev world : World
world = record { now = 1000; db_now = codes "2026-01-01T00:00:00"; table = some (ann ∷ []) }

abbrev quiet : AuthState
quiet = record { failures = []; cache = [] }

abbrev by_api_key : Request
by_api_key = record { ip = codes "10.0.0.1"; api_key = codes "key"; u = []; t = []; s = []; p = [] }

abbrev guess : Request
guess = record by_api_key { api_key = codes "no" }

by_api_key-served : (auth_middleware plain cfg by_api_key world quiet).1 ≡ serve (codes "ann")
unfolding auth_middleware check_rate_limit authenticate conclude lookup
    preamp.Auth.ApiKey.authenticate_api_key preamp.Auth.ApiKey.scan_credentials
    preamp.Auth.Credentials.load_all_credentials preamp.Auth.Credentials.select is_live
    preamp.Auth.Credentials.text_gt preamp.Auth.ApiKey.matching bytes_eq
by_api_key-served = refl

auth_middleware-Authentic_example : Authentic plain cfg by_api_key world [] (codes "ann")
auth_middleware-Authentic_example =
    auth_middleware-Authentic plain cfg by_api_key world quiet (codes "ann") refl by_api_key-served

auth_middleware-served_example :
    (user : Bytes) × ((auth_middleware plain cfg by_api_key world quiet).1 ≡ serve user)
    × (lookup (codes "10.0.0.1") ((auth_middleware plain cfg by_api_key world quiet).0).failures
        ≡ none)
unfolding lookup preamp.Auth.Credentials.text_gt bytes_eq
auth_middleware-served_example =
    auth_middleware-served plain by_api_key world (ann ∷ []) ann cfg quiet refl
      (unfold check_rate_limit in refl) (λ e. cc e) refl (inl refl) (unfold is_live in refl) refl

abbrev locked : AuthState
locked = record {
  failures = (codes "10.0.0.1", record { count = 10; reset_at = 5000 }) ∷ [];
  cache = [];
}

lockout_example :
    AllRefused plain cfg (codes "10.0.0.1") ((by_api_key, world) ∷ (guess, world) ∷ []) locked
unfolding bytes_eq
lockout_example =
    lockout plain cfg (codes "10.0.0.1") 5000 ((by_api_key, world) ∷ (guess, world) ∷ []) locked
      refl (omega arith, (omega arith, tt))
      (record { count = 10; reset_at = 5000 }, unfold lookup in refl, omega arith, omega arith)

abbrev nine : FailureEntry
nine = record { count = 9; reset_at = 5000 }

abbrev close : AuthState
close = record { failures = (codes "10.0.0.1", nine) ∷ []; cache = [] }

abbrev guesses : List (Request × World)
guesses = (guess, world) ∷ (guess, world) ∷ []

guesses-NoneServed : NoneServed plain cfg guesses close
unfolding auth_middleware check_rate_limit authenticate conclude lookup bytes_eq
    preamp.Auth.ApiKey.authenticate_api_key preamp.Auth.ApiKey.scan_credentials
    preamp.Auth.Credentials.load_all_credentials preamp.Auth.Credentials.select is_live
    preamp.Auth.Credentials.text_gt preamp.Auth.ApiKey.matching
    preamp.Auth.RateLimit.record_auth_failure preamp.Base.Dict.insert
guesses-NoneServed = (refl, (refl, tt))

wrong_answers-le_example : wrong_answers plain cfg guesses close + 9 ≤ auth_failure_limit
unfolding bytes_eq
wrong_answers-le_example =
    wrong_answers-le plain cfg (codes "10.0.0.1") guesses close nine refl (unfold lookup in refl)
      (omega arith) ((refl, omega arith), ((refl, omega arith), tt)) guesses-NoneServed
