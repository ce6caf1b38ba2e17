-- ===== src/Auth/Password.antt =====
-- internal/auth/encrypt.go: EncryptPassword, DecryptPassword and deriveKey. `none` is an error.
use preamp.Base.{
  ℕ, not, ◌&&◌, ◌++◌, Option, none, some, ltb, ◌==◌, if◌then◌else◌, length, take, drop, ◌≡◌, ap,
  ◌∙◌, arith, Option-cases, inl, inr, length-append, take-append, drop-append,
}
use preamp.Base.Hex.{decode_hex}
use preamp.Base.Text.{Bytes}
use preamp.Auth.Crypto.{Crypto}

unfoldable pub derive_key : Bytes → Option Bytes
derive_key hex_key = elim (decode_hex hex_key) [
  | none ↦ none
  | some key ↦ if not (length key == 16) && not (length key == 32) then none else some key
]

-- `gcm.NonceSize()`.
abbrev pub nonce_size : ℕ
nonce_size = 12

module _ (c : Crypto) where
  -- `nonce` is what the random source gives. `Seal` appends the ciphertext to it.
  unfoldable pub encrypt_password : Bytes → Bytes → Bytes → Option Bytes
  encrypt_password nonce hex_key plaintext = elim (derive_key hex_key) [
    | none ↦ none
    | some key ↦ some (nonce ++ c.gcm_seal key nonce plaintext)
  ]

  unfoldable pub decrypt_password : Bytes → Bytes → Option Bytes
  decrypt_password hex_key ciphertext = elim (derive_key hex_key) [
    | none ↦ none
    | some key ↦
        if ltb (length ciphertext) nonce_size
        then none
        else c.gcm_open key (take nonce_size ciphertext) (drop nonce_size ciphertext)
  ]

  -- A password that was encrypted under a key is decrypted under that key to itself, if AES-GCM
  -- opens what it sealed and the random source gave a nonce of the right size.
  pub decrypt_password-encrypt_password :
      (nonce hex_key plaintext ciphertext : Bytes)
      → ((key n p : Bytes) → c.gcm_open key n (c.gcm_seal key n p) ≡ some p)
      → nonce_size ≡ length nonce
      → encrypt_password nonce hex_key plaintext ≡ some ciphertext
      → decrypt_password hex_key ciphertext ≡ some plaintext
  unfolding encrypt_password decrypt_password
  decrypt_password-encrypt_password nonce hex_key plaintext ciphertext opens size sealed =
      elim (Option-cases (derive_key hex_key)) [
        | inl e ↦ ground arith
        | inr (key, e) ↦
            let body = c.gcm_seal key nonce plaintext in
            let front : take nonce_size (nonce ++ body) ≡ nonce =
              ap (λ n. take n (nonce ++ body)) size ∙ take-append nonce body in
            let behind : drop nonce_size (nonce ++ body) ≡ body =
              ap (λ n. drop n (nonce ++ body)) size ∙ drop-append nonce body in
            ground (arith, opens key nonce plaintext, length-append nonce body, front, behind)
      ]
