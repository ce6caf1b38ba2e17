-- ===== src/Tests/Startup.antt =====
-- A start with a dev user and OIDC.
use preamp.Base.{
  ℕ, Bool, true, false, not, ◌&&◌, List, [], ◌∷◌, ◌++◌, Option, none, some, if◌then◌else◌, ◌≡◌, ◌⊎◌,
  refl, arith,
}
use preamp.Base.Int.{pos}
use preamp.Base.Text.{Bytes, codes, bytes_eq, is_empty}
use preamp.Auth.ApiKey.{World}
use preamp.Auth.Crypto.{Crypto}
use preamp.Auth.Middleware.{Request, AuthState, serve, auth_middleware}
use preamp.Auth.Password.{derive_key}
use preamp.Config.{Os, Config, load, loaded, config_of}
use preamp.Config.Loaded.{load-derive_key}
use preamp.Startup.{Seeding, start_up}
use preamp.Startup.DevUser.{middleware_config, auth_middleware-start_up}

abbrev variable : List (Bytes × Bytes) → Bytes → Bytes
variable [] key = []
variable ((k, v) ∷ vs) key = if bytes_eq k key then v else variable vs key

abbrev os : Os
os = record {
  getenv = variable (
      (codes "PREAMP_MUSIC_DIR", codes "/music")
      ∷ (codes "PREAMP_ENCRYPTION_KEY", codes "000102030405060708090a0b0c0d0e0f")
      ∷ (codes "PREAMP_DEV_USERNAME", codes "dev")
      ∷ (codes "PREAMP_DEV_PASSWORD", codes "pw")
      ∷ (codes "PREAMP_OIDC_ISSUER", codes "https://id")
      ∷ []);
  stat = λ path. some true;
  mkdir_all = λ path. true;
  join = λ a b. a ++ (b'/' ∷ b);
  parse_ttl = λ text. some (pos 604800);
}

abbrev config : Config
config = record {
  listen_addr = codes ":4533";
  music_dir = codes "/music";
  data_dir = codes "./data";
  cover_art_dir = codes "./data/covers";
  db_path = codes "./data/preamp.db";
  encryption_key = codes "000102030405060708090a0b0c0d0e0f";
  auth_disabled = false;
  dev_username = codes "dev";
  dev_password = codes "pw";
  admin_listen_addr = codes ":4534";
  credential_ttl = pos 604800;
  collector_token = [];
  oidc_issuer = codes "https://id";
  oidc_client_id = [];
  oidc_client_secret = [];
  oidc_redirect_uri = [];
  admin_secret_file = [];
  manage_enabled = true;
}

loads : load os ≡ loaded config
unfolding load preamp.Config.check_dirs preamp.Config.env_or bytes_eq preamp.Config.check_key
    preamp.Base.Hex.decode_hex preamp.Base.Hex.hex_digit config_of
loads = refl

load-derive_key_example :
    (((is_empty config.encryption_key ≡ true) × (config.auth_disabled ≡ true))
      ⊎ ((k : Bytes) × (derive_key config.encryption_key ≡ some k)))
    × ((is_empty config.oidc_issuer ≡ true) ⊎ (is_empty config.admin_secret_file ≡ true))
    × (config.manage_enabled
        ≡ not (is_empty config.oidc_issuer && is_empty config.admin_secret_file))
load-derive_key_example = load-derive_key os config loads

abbrev crypto : Crypto
crypto = record {
  sha256 = λ x. x;
  md5_hex = λ x. x;
  bcrypt_matches = λ hash key. bytes_eq hash key;
  gcm_seal = λ key nonce plain. plain;
  gcm_open = λ key nonce sealed. some sealed;
}

abbrev seeding : Seeding
seeding = record {
  nonce = codes "abcdefghijkl";
  hashed = some (codes "pw");
  connects = true;
  executes = true;
}

abbrev request : Request
request = record {
  ip = codes "10.0.0.1";
  api_key = [];
  u = codes "dev";
  t = [];
  s = [];
  p = codes "enc:7077";
}

abbrev world : World
world = record {
  now = 7;
  db_now = codes "2026-01-01T00:00:00";
  table = start_up crypto seeding config [];
}

abbrev state : AuthState
state = record { failures = []; cache = [] }

auth_middleware-start_up_example :
    (auth_middleware crypto (middleware_config config) request world state).1 ≡ serve (codes "dev")
unfolding preamp.Auth.RateLimit.check_rate_limit preamp.Base.Dict.lookup
    preamp.Auth.Middleware.plain_password bytes_eq preamp.Base.Hex.decode_hex
    preamp.Base.Hex.hex_digit
auth_middleware-start_up_example =
    auth_middleware-start_up crypto seeding os config [] (codes "pw") request world state
      (λ key n p. refl) refl loads refl refl refl refl refl tt refl refl refl refl refl refl
