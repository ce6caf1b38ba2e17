-- ===== src/Auth/Credentials.antt =====
-- The credential rows of internal/db/schema.go, and loadAllCredentials and loadLegacyCredentials of
-- internal/api/auth.go. Times are texts, which SQLite compares byte by byte.
use preamp.Base.{
  Bool, true, false, ◌&&◌, ◌||◌, List, [], ◌∷◌, Option, none, some, ltb, ◌==◌, if◌then◌else◌, ◌≡◌,
  ◌⊎◌, inl, inr, ap, ◌∙◌, Bool-cases,
}
use preamp.Base.Text.{Bytes, bytes_eq}

pub record Credential : Type 0 where
  pub id : Bytes
  pub username : Bytes
  pub hashed_api_key : Bytes
  pub encrypted_password : Option Bytes
  pub legacy_auth : Bool
  pub expires_at : Option Bytes

-- `a > b` on texts.
unfoldable pub text_gt : Bytes → Bytes → Bool
text_gt [] b = false
text_gt (x ∷ a) [] = true
text_gt (x ∷ a) (y ∷ b) = ltb y x || x == y && text_gt a b

-- `expires_at IS NULL OR expires_at > strftime(…, 'now')`; `now` is that text.
unfoldable pub is_live : Bytes → Credential → Bool
is_live now c = elim c.expires_at [ none ↦ true | some t ↦ text_gt t now ]

abbrev pub has_password : Credential → Bool
has_password c = elim c.encrypted_password [ none ↦ false | some _ ↦ true ]

unfoldable pub is_legacy : Bytes → Bytes → Credential → Bool
is_legacy now user c =
    bytes_eq c.username user && (c.legacy_auth && (has_password c && is_live now c))

-- The rows of a `SELECT` with a condition, in the table's order.
unfoldable pub select : (Credential → Bool) → List Credential → List Credential
select p [] = []
select p (c ∷ cs) = if p c then c ∷ select p cs else select p cs

-- `none` is an error: of the database, or that no row was found.
abbrev pub found : List Credential → Option (List Credential)
found [] = none
found (c ∷ cs) = some (c ∷ cs)

abbrev pub selected : (Credential → Bool) → Option (List Credential) → Option (List Credential)
selected p none = none
selected p (some table) = found (select p table)

unfoldable pub load_all_credentials : Bytes → Option (List Credential) → Option (List Credential)
load_all_credentials now table = selected (is_live now) table

unfoldable pub load_legacy_credentials :
    Bytes → Bytes → Option (List Credential) → Option (List Credential)
load_legacy_credentials now user table = selected (is_legacy now user) table

-- `c` is a row of the table.
abbrev pub InRows : Credential → List Credential → Type 0
InRows c [] = ⊥
InRows c (d ∷ ds) = (c ≡ d) ⊎ InRows c ds

pub select-InRows :
    (p : Credential → Bool) (c : Credential) (cs : List Credential)
    → InRows c (select p cs)
    → InRows c cs × (p c ≡ true)
unfolding select
select-InRows p c [] m = absurd m
select-InRows p c (d ∷ cs) m = elim (Bool-cases (p d)) [
  | inl keep ↦
      let m' : (c ≡ d) ⊎ InRows c (select p cs) = rw (keep, select) at m in
      elim m' [
        | inl e ↦ (inl e, ap p e ∙ keep)
        | inr later ↦ let (row, h) = select-InRows p c cs later in (inr row, h)
      ]
  | inr out ↦ let (row, h) = select-InRows p c cs (rw (out, select) at m) in (inr row, h)
]
