-- ===== src/Auth/Middleware/Rows.antt =====
-- What the loops of internal/api/auth.go over the credential rows find.
use preamp.Base.{
  Option, List, Bool, ◌≡◌, some, true, ◌∷◌, [], none, Bool-cases, Option-cases, inl, arith, ap, inr,
  ◌∙◌, refl,
}
use preamp.Base.Text.{Bytes}
use preamp.Auth.ApiKey.{matching, password_of, any_password}
use preamp.Auth.Credentials.{
  Credential, is_live, is_legacy, select, InRows, found, load_all_credentials,
  load_legacy_credentials,
}
use preamp.Auth.Crypto.{Crypto}

found-eq :
    (rows : List Credential) {creds : List Credential} → found rows ≡ some creds → creds ≡ rows
found-eq [] h = cc
found-eq (d ∷ ds) h = cc

pub load_all-rows :
    (now : Bytes) (table : Option (List Credential)) {creds : List Credential}
    → load_all_credentials now table ≡ some creds
    → (rows : List Credential) × (table ≡ some rows) × (creds ≡ select (is_live now) rows)
unfolding load_all_credentials
load_all-rows now none h = cc
load_all-rows now (some rows) h = (rows, refl, found-eq (select (is_live now) rows) h)

pub load_legacy-rows :
    (now user : Bytes) (table : Option (List Credential)) {creds : List Credential}
    → load_legacy_credentials now user table ≡ some creds
    → (rows : List Credential) × (table ≡ some rows) × (creds ≡ select (is_legacy now user) rows)
unfolding load_legacy_credentials
load_legacy-rows now user none h = cc
load_legacy-rows now user (some rows) h =
    (rows, refl, found-eq (select (is_legacy now user) rows) h)

pub matching-InRows :
    (c : Crypto) (key : Bytes) (creds : List Credential) {d : Credential}
    → matching c key creds ≡ some d
    → InRows d creds × (c.bcrypt_matches d.hashed_api_key key ≡ true)
unfolding matching
matching-InRows c key [] h = cc
matching-InRows c key (x ∷ creds) {d} h =
    elim (Bool-cases (c.bcrypt_matches x.hashed_api_key key)) [
      | inl same ↦
          let at : d ≡ x = ground arith in
          (inl at, ap (λ y. c.bcrypt_matches y.hashed_api_key key) at ∙ same)
      | inr differs ↦
          let (row, same) = matching-InRows c key creds {d = d} (ground arith) in (inr row, same)
    ]

pub any_password-InRows :
    (c : Crypto) (hex_key : Bytes) (test : Bytes → Bool) (creds : List Credential)
    → any_password c hex_key test creds ≡ true
    → (d : Credential) × (password : Bytes) × InRows d creds
      × (password_of c hex_key d ≡ some password)
      × (test password ≡ true)
unfolding any_password
any_password-InRows c hex_key test [] h = cc
any_password-InRows c hex_key test (x ∷ creds) h = elim (Option-cases (password_of c hex_key x)) [
  | inl e ↦
      let (d, p, row, same, ok) = any_password-InRows c hex_key test creds (ground arith) in
      (d, p, inr row, same, ok)
  | inr (p, e) ↦ elim (Bool-cases (test p)) [
    | inl ok ↦ (x, p, inl refl, e, ok)
    | inr bad ↦
        let (d, q, row, same, ok) = any_password-InRows c hex_key test creds (ground arith) in
        (d, q, inr row, same, ok)
  ]
]
