-- ===== src/Manage/Owner.antt =====
-- Whose credentials the handlers of internal/manage/handlers.go and internal/api/admin.go change.
use preamp.Base.Dict.{bytes_eq_refl}
use preamp.Base.Int.{ℤ}
use preamp.Auth.ApiKey.{KeyCache}
use mathlib.Core.Path.{subst}
use preamp.Auth.Crypto.{Crypto}
use preamp.Base.{
  true, List, [], ◌∷◌, ◌++◌, Option, none, some, ◌≡◌, refl, arith, if◌then◌else◌, Option-cases, inl,
  inr, ap, ◌∙◌,
}
use preamp.Base.Text.{Bytes, bytes_eq}
use preamp.Auth.Credentials.{Credential}
use preamp.Manage.{
  Attempt, is_of, renew_rows, delete_rows, write_rows, insert_credential,
  handle_admin_delete_credential, Time, handle_mint_credential, handle_admin_create_credential,
  handle_renew_credential, mint_row, MintRequest, handle_admin_renew_credential, Draw,
  handle_revoke_credential, mint_password, internal_error, created,
}

-- The rows of all other users.
unfoldable pub others : Bytes → List Credential → List Credential
others user [] = []
others user (c ∷ cs) =
    let rest = others user cs in if bytes_eq user c.username then rest else c ∷ rest

renew_rows-others :
    (expires_at id user : Bytes) (rows : List Credential)
    → others user (renew_rows expires_at id user rows) ≡ others user rows
unfolding others renew_rows is_of
renew_rows-others expires_at id user [] = refl
renew_rows-others expires_at id user (c ∷ cs) =
    ground (arith, renew_rows-others expires_at id user cs)

delete_rows-others :
    (id user : Bytes) (rows : List Credential)
    → others user (delete_rows id user rows) ≡ others user rows
unfolding others delete_rows is_of
delete_rows-others id user [] = refl
delete_rows-others id user (c ∷ cs) = ground (arith, delete_rows-others id user cs)

append-others :
    (user : Bytes) (rows : List Credential) (c : Credential)
    → bytes_eq user c.username ≡ true
    → others user (rows ++ (c ∷ [])) ≡ others user rows
unfolding others
append-others user [] c h = rw h refl
append-others user (d ∷ ds) c h = ground (arith, append-others user ds c h)

-- The rows that a statement writes are those of nobody else, whether it succeeds or not.
kept :
    {B : Type 0} (user : Bytes) (attempt : Attempt) (rows : List Credential)
    (written : Option (List Credential)) (f : List Credential → List Credential × B) (b : B)
    → ((rows' : List Credential) → written ≡ some rows' → others user rows' ≡ others user rows)
    → ((rows' : List Credential) → (f rows').0 ≡ rows')
    → others user (
        (elim (write_rows attempt written) as (λ _. List Credential × B) [
          | none ↦ (rows, b)
          | some rows' ↦ f rows'
        ]).0)
      ≡ others user rows
unfolding write_rows
kept user attempt rows written f b h same = elim (Option-cases (write_rows attempt written)) [
  | inl e ↦ rw (e, write_rows) refl
  | inr (rows', e) ↦
      rw (e, write_rows) (ap (others user) (same rows') ∙ h rows' (ground (arith, e)))
]

insert_credential-others :
    (user : Bytes) (c : Credential) (rows rows' : List Credential)
    → bytes_eq user c.username ≡ true
    → insert_credential c rows ≡ some rows'
    → others user rows' ≡ others user rows
unfolding insert_credential
insert_credential-others user c rows rows' h e =
    let it : rows ++ (c ∷ []) ≡ rows' = ground (arith, e) in
    subst (λ r. others user r ≡ others user rows) it (append-others user rows c h)

admin_delete-others :
    (user id : Bytes) (attempt : Attempt) (rows : List Credential) (cache : KeyCache)
    → others user (handle_admin_delete_credential user id attempt rows cache).0 ≡ others user rows
unfolding handle_admin_delete_credential write_rows
admin_delete-others user id attempt rows cache = ground (arith, delete_rows-others id user rows)

module _ (c : Crypto) (encryption_key : Bytes) (time : Time) (standard_ttl : ℤ) where
  mint-others :
      (user : Bytes) (req : MintRequest) (draw : Draw) (attempt : Attempt) (rows : List Credential)
      → others user
          (handle_mint_credential c encryption_key time standard_ttl user req draw attempt rows).0
        ≡ others user rows
  unfolding handle_mint_credential mint_row
  mint-others user req draw attempt rows = elim (Option-cases draw.hashed) [
    | inl e ↦ rw (e, handle_mint_credential) refl
    | inr (hashed, e) ↦
        elim (Option-cases (mint_password c encryption_key time standard_ttl req draw)) [
          | inl k ↦ rw (e, k, handle_mint_credential) refl
          | inr (encrypted, k) ↦
              let row : Credential =
                mint_row c encryption_key time standard_ttl user req draw hashed encrypted in
              rw (e, k, handle_mint_credential)
                (kept user attempt rows (insert_credential row rows)
                  (λ rows'. (rows', created row draw.secret)) internal_error
                  (λ rows' i. insert_credential-others user row rows rows' (bytes_eq_refl user) i)
                  (λ rows'. refl))
        ]
  ]

  admin_create-others :
      (user : Bytes) (req : Option MintRequest) (draw : Draw) (attempt : Attempt)
      (rows : List Credential)
      → others user
          (handle_admin_create_credential c encryption_key time standard_ttl user req draw attempt
            rows).0
        ≡ others user rows
  unfolding handle_admin_create_credential
  admin_create-others user none draw attempt rows = refl
  admin_create-others user (some req) draw attempt rows = mint-others user req draw attempt rows

  -- The credentials of all other users are the same behind each handler that mints, renews or revokes, for
  -- every request and id, and whether the database works or not.
  pub handlers-OthersKept :
      (user id : Bytes) (req : MintRequest) (body : Option MintRequest) (draw : Draw)
      (attempt : Attempt) (rows : List Credential) (cache : KeyCache)
      → (others user
            (handle_mint_credential c encryption_key time standard_ttl user req draw attempt rows).0
          ≡ others user rows)
        × (others user
              (handle_admin_create_credential c encryption_key time standard_ttl user body draw
                attempt rows).0
            ≡ others user rows)
        × (others user
              (handle_renew_credential c encryption_key time standard_ttl user id attempt rows).0
            ≡ others user rows)
        × (others user
              (handle_admin_renew_credential c encryption_key time standard_ttl user id attempt
                rows).0
            ≡ others user rows)
        × (others user (handle_revoke_credential user id attempt rows).0 ≡ others user rows)
        × (others user (handle_admin_delete_credential user id attempt rows cache).0
            ≡ others user rows)
  unfolding handle_renew_credential handle_admin_renew_credential handle_revoke_credential
  handlers-OthersKept user id req body draw attempt rows cache =
      let renewed_rows : List Credential =
        renew_rows (time.expiry_after standard_ttl) id user rows in
      let renews : (rows' : List Credential)
          → some renewed_rows ≡ some rows'
          → others user rows' ≡ others user rows =
        λ rows' e.
          let same : renewed_rows ≡ rows' = ground (arith, e) in
          subst (λ r. others user r ≡ others user rows) same
            (renew_rows-others (time.expiry_after standard_ttl) id user rows) in
      let deletes : (rows' : List Credential)
          → some (delete_rows id user rows) ≡ some rows'
          → others user rows' ≡ others user rows =
        λ rows' e.
          let same : delete_rows id user rows ≡ rows' = ground (arith, e) in
          subst (λ r. others user r ≡ others user rows) same (delete_rows-others id user rows) in
      (
        mint-others user req draw attempt rows,
        admin_create-others user body draw attempt rows,
        kept user attempt rows (some renewed_rows) _ internal_error renews (λ rows'. refl),
        kept user attempt rows (some renewed_rows) _ internal_error renews (λ rows'. refl),
        kept user attempt rows (some (delete_rows id user rows)) _ internal_error deletes
            (λ rows'. refl),
        admin_delete-others user id attempt rows cache,
      )
