-- ===== src/Config.antt =====
-- Load of internal/config/config.go. The calls of the packages os, path/filepath and time are parameters (Os).
pub mod Loaded
use preamp.Base.{Bool, not, ◌&&◌, ◌||◌, [], ◌∷◌, Option, none, some, ◌==◌, if◌then◌else◌, length}
use preamp.Base.Hex.{decode_hex}
use preamp.Base.Int.{ℤ}
use preamp.Base.Text.{Bytes, bytes_eq, codes, is_empty}

-- What Load finds: Getenv, which gives an empty text for a variable that is not set; Stat, with IsDir of
-- what it finds; whether MkdirAll succeeds; Join; and time.ParseDuration.
pub record Os : Type 0 where
  pub getenv : Bytes → Bytes
  pub stat : Bytes → Option Bool
  pub mkdir_all : Bytes → Bool
  pub join : Bytes → Bytes → Bytes
  pub parse_ttl : Bytes → Option ℤ

pub record Config : Type 0 where
  pub listen_addr : Bytes
  pub music_dir : Bytes
  pub data_dir : Bytes
  pub cover_art_dir : Bytes
  pub db_path : Bytes
  pub encryption_key : Bytes
  pub auth_disabled : Bool
  pub dev_username : Bytes
  pub dev_password : Bytes
  pub admin_listen_addr : Bytes
  pub credential_ttl : ℤ
  pub collector_token : Bytes
  pub oidc_issuer : Bytes
  pub oidc_client_id : Bytes
  pub oidc_client_secret : Bytes
  pub oidc_redirect_uri : Bytes
  pub admin_secret_file : Bytes
  pub manage_enabled : Bool

pub data LoadError : Type 0 where
  no_music_dir : LoadError
  music_dir_error : LoadError
  not_a_directory : LoadError
  data_dir_error : LoadError
  cover_dir_error : LoadError
  key_required : LoadError
  key_not_hex : LoadError
  key_length : LoadError
  exclusive : LoadError
  invalid_ttl : LoadError

pub data Load : Type 0 where
  refused : LoadError → Load
  loaded : Config → Load

unfoldable pub env_or : Os → Bytes → Bytes → Bytes
env_or os key fallback = let v = os.getenv key in if is_empty v then fallback else v

-- The tests of the directories.
unfoldable pub check_dirs : Os → Bytes → Bytes → Option LoadError
check_dirs os music_dir data_dir =
    if is_empty music_dir then some no_music_dir else elim (os.stat music_dir) [
      | none ↦ some music_dir_error
      | some is_dir ↦
          if not is_dir
          then some not_a_directory
          else if not (os.mkdir_all data_dir)
          then some data_dir_error
          else if not (os.mkdir_all (os.join data_dir (codes "covers")))
          then some cover_dir_error
          else none
    ]

-- The tests of the key.
unfoldable pub check_key : Bytes → Bool → Option LoadError
check_key key auth_disabled =
    if is_empty key
    then (if not auth_disabled then some key_required else none)
    else elim (decode_hex key) [
      | none ↦ some key_not_hex
      | some bytes ↦
          if not (length bytes == 16) && not (length bytes == 32) then some key_length else none
    ]

-- The fields as the environment gives them.
unfoldable pub config_of : Os → ℤ → Config
config_of os ttl =
    let data_dir = env_or os (codes "PREAMP_DATA_DIR") (codes "./data") in
    let issuer = env_or os (codes "PREAMP_OIDC_ISSUER") [] in
    let secret_file = env_or os (codes "PREAMP_ADMIN_SECRET_FILE") [] in
    record {
      listen_addr = env_or os (codes "PREAMP_LISTEN") (codes ":4533");
      music_dir = env_or os (codes "PREAMP_MUSIC_DIR") [];
      data_dir = data_dir;
      cover_art_dir = os.join data_dir (codes "covers");
      db_path = os.join data_dir (codes "preamp.db");
      encryption_key = env_or os (codes "PREAMP_ENCRYPTION_KEY") [];
      auth_disabled = bytes_eq (env_or os (codes "PREAMP_NO_AUTH") []) (codes "1");
      dev_username = env_or os (codes "PREAMP_DEV_USERNAME") [];
      dev_password = env_or os (codes "PREAMP_DEV_PASSWORD") [];
      admin_listen_addr = env_or os (codes "PREAMP_ADMIN_LISTEN") (codes ":4534");
      credential_ttl = ttl;
      collector_token = env_or os (codes "PREAMP_COLLECTOR_TOKEN") [];
      oidc_issuer = issuer;
      oidc_client_id = env_or os (codes "PREAMP_OIDC_CLIENT_ID") [];
      oidc_client_secret = env_or os (codes "PREAMP_OIDC_CLIENT_SECRET") [];
      oidc_redirect_uri = env_or os (codes "PREAMP_OIDC_REDIRECT_URI") [];
      admin_secret_file = secret_file;
      manage_enabled = not (is_empty issuer) || not (is_empty secret_file);
    }

unfoldable pub load : Os → Load
load os =
    let music_dir = env_or os (codes "PREAMP_MUSIC_DIR") [] in
    let data_dir = env_or os (codes "PREAMP_DATA_DIR") (codes "./data") in
    let key = env_or os (codes "PREAMP_ENCRYPTION_KEY") [] in
    let no_auth = bytes_eq (env_or os (codes "PREAMP_NO_AUTH") []) (codes "1") in
    let issuer = env_or os (codes "PREAMP_OIDC_ISSUER") [] in
    let secret_file = env_or os (codes "PREAMP_ADMIN_SECRET_FILE") [] in
    elim (check_dirs os music_dir data_dir) [
      | some e ↦ refused e
      | none ↦ elim (check_key key no_auth) [
        | some e ↦ refused e
        | none ↦
            if not (is_empty issuer) && not (is_empty secret_file)
            then refused exclusive
            else elim (os.parse_ttl (env_or os (codes "PREAMP_CREDENTIAL_TTL") (codes "168h"))) [
              | none ↦ refused invalid_ttl
              | some ttl ↦ loaded (config_of os ttl)
            ]
      ]
    ]
