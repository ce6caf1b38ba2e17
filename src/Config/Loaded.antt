-- ===== src/Config/Loaded.antt =====
-- What a configuration that Load returns is good for.
use mathlib.Core.Path.{subst}
use preamp.Base.Int.{ℤ}
use preamp.Base.{
  Bool, true, not, ◌&&◌, [], none, some, ◌≡◌, ◌⊎◌, inl, inr, arith, Option-cases, Bool-cases,
}
use preamp.Base.Hex.{decode_hex}
use preamp.Base.Text.{Bytes, is_empty, codes, bytes_eq}
use preamp.Auth.Password.{derive_key}
use preamp.Config.{Os, Config, loaded, load, env_or, check_dirs, check_key, config_of}

check_key-derive_key :
    (key : Bytes) (off : Bool)
    → check_key key off ≡ none
    → ((is_empty key ≡ true) × (off ≡ true)) ⊎ ((k : Bytes) × (derive_key key ≡ some k))
unfolding check_key derive_key
check_key-derive_key key off h = elim (Bool-cases (is_empty key)) [
  | inl e ↦ inl (e, ground (arith, h, e))
  | inr e ↦ elim (Option-cases (decode_hex key)) [
    | inl d ↦ ground (arith, h, e, d)
    | inr (k, d) ↦ inr (k, ground (arith, h, e, d))
  ]
]

pub load-config_of :
    (os : Os) (c : Config)
    → load os ≡ loaded c
    → (ttl : ℤ) × (config_of os ttl ≡ c)
      × (check_key (config_of os ttl).encryption_key (config_of os ttl).auth_disabled ≡ none)
      × ((is_empty (config_of os ttl).oidc_issuer ≡ true)
          ⊎ (is_empty (config_of os ttl).admin_secret_file ≡ true))
unfolding load config_of
load-config_of os c h =
    let music_dir = env_or os (codes "PREAMP_MUSIC_DIR") [] in
    let data_dir = env_or os (codes "PREAMP_DATA_DIR") (codes "./data") in
    let key = env_or os (codes "PREAMP_ENCRYPTION_KEY") [] in
    let no_auth = bytes_eq (env_or os (codes "PREAMP_NO_AUTH") []) (codes "1") in
    let issuer = env_or os (codes "PREAMP_OIDC_ISSUER") [] in
    let secret_file = env_or os (codes "PREAMP_ADMIN_SECRET_FILE") [] in
    let ttl_text = env_or os (codes "PREAMP_CREDENTIAL_TTL") (codes "168h") in
    elim (Option-cases (check_dirs os music_dir data_dir)) [
      | inr (e, d) ↦ ground (arith, rw (d, load) at h)
      | inl d ↦ elim (Option-cases (check_key key no_auth)) [
        | inr (e, k) ↦ ground (arith, rw (d, load, k) at h)
        | inl k ↦ elim (Option-cases (os.parse_ttl ttl_text)) [
          | inl t ↦ ground (arith, rw (d, load, k, t) at h)
          | inr (ttl, t) ↦
              let one : (is_empty issuer ≡ true) ⊎ (is_empty secret_file ≡ true) =
                ground (arith, rw (d, load, k, t) at h) in
              let made : loaded (config_of os ttl) ≡ loaded c =
                ground (arith, rw (d, load, k, t) at h) in
              (ttl, cc, k, one)
        ]
      ]
    ]

enabled :
    (os : Os) (ttl : ℤ)
    → (config_of os ttl).manage_enabled
      ≡ not
          (is_empty (config_of os ttl).oidc_issuer && is_empty (config_of os ttl).admin_secret_file)
unfolding config_of
enabled os ttl = ground arith

-- If Load returns a configuration, then either there is no key and authentication is disabled, or the
-- key is one that deriveKey accepts; the OIDC issuer and the secret file are not both set; and the
-- management pages are enabled exactly if one of them is.
pub load-derive_key :
    (os : Os) (c : Config)
    → load os ≡ loaded c
    → (((is_empty c.encryption_key ≡ true) × (c.auth_disabled ≡ true))
        ⊎ ((k : Bytes) × (derive_key c.encryption_key ≡ some k)))
      × ((is_empty c.oidc_issuer ≡ true) ⊎ (is_empty c.admin_secret_file ≡ true))
      × (c.manage_enabled ≡ not (is_empty c.oidc_issuer && is_empty c.admin_secret_file))
load-derive_key os c h =
    let (ttl, made, key, one) = load-config_of os c h in
    subst
      (λ (x : Config).
        (((is_empty x.encryption_key ≡ true) × (x.auth_disabled ≡ true))
          ⊎ ((k : Bytes) × (derive_key x.encryption_key ≡ some k)))
        × ((is_empty x.oidc_issuer ≡ true) ⊎ (is_empty x.admin_secret_file ≡ true))
        × (x.manage_enabled ≡ not (is_empty x.oidc_issuer && is_empty x.admin_secret_file)))
      made
      (
        check_key-derive_key (config_of os ttl).encryption_key (config_of os ttl).auth_disabled key,
        one,
        enabled os ttl,
      )
