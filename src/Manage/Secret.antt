-- ===== src/Manage/Secret.antt =====
-- The secret file of internal/manage/auth_secret.go: NewSecretAuthenticator and CallbackHandler. `none` is an
-- error. The login form is left out.
use preamp.Base.{
  Bool, false, not, ◌||◌, [], ◌∷◌, ◌++◌, Option, none, some, ◌==◌, if◌then◌else◌, ◌≡◌, ◌↔◌, refl,
  arith,
}
use preamp.Base.Text.{Bytes, bytes_eq, bytes_eq_iff, is_empty}
use preamp.Id3.Values.{trim_space}

pub record SecretAuthenticator : Type 0 where
  pub username : Bytes
  pub password : Bytes

-- `strings.SplitN(line, ":", 2)` where it has two parts.
unfoldable pub split_colon : Bytes → Option (Bytes × Bytes)
split_colon [] = none
split_colon (x ∷ xs) =
    let rest = split_colon xs in
    if x == b':' then some ([], xs) else elim rest [ none ↦ none | some (u, p) ↦ some (x ∷ u, p) ]

-- `none` is a file that cannot be read.
unfoldable pub new_secret_authenticator : Option Bytes → Option SecretAuthenticator
new_secret_authenticator none = none
new_secret_authenticator (some content) = elim (split_colon (trim_space content)) [
  | none ↦ none
  | some (u, p) ↦
      if is_empty u || is_empty p then none else some (record { username = u; password = p })
]

unfoldable pub callback_handler : SecretAuthenticator → Bytes → Bytes → Option Bytes
callback_handler a username password =
    if not (bytes_eq username a.username) || not (bytes_eq password a.password)
    then none
    else some a.username

abbrev pub has_colon : Bytes → Bool
has_colon [] = false
has_colon (x ∷ xs) = x == b':' || has_colon xs

split_colon-append :
    (u p : Bytes) → has_colon u ≡ false → split_colon (u ++ (b':' ∷ p)) ≡ some (u, p)
unfolding split_colon
split_colon-append [] p h = refl
split_colon-append (x ∷ u) p h =
    let ih = split_colon-append u p (ground (arith, h)) in
    let other : (x == b':') ≡ false = ground (arith, h) in rw (other, ih) refl

-- A file whose trimmed text is a user's name without a colon, a colon and a password, neither of them empty, is read
-- to that name and password, and the callback then lets in exactly that name with exactly that password, as
-- that user.
pub secret_login :
    (content user password u p : Bytes)
    → trim_space content ≡ user ++ (b':' ∷ password)
    → has_colon user ≡ false
    → is_empty user ≡ false
    → is_empty password ≡ false
    → (new_secret_authenticator (some content)
        ≡ some (record { username = user; password = password }))
      × ((callback_handler (record { username = user; password = password }) u p ≡ some user)
          ↔ ((u ≡ user) × (p ≡ password)))
unfolding new_secret_authenticator callback_handler
secret_login content user password u p text no_colon named guarded = (
  rw (text, new_secret_authenticator, split_colon-append user password no_colon, named, guarded)
      refl,
  (
    λ e. (
      (bytes_eq_iff u user).0 (ground (arith, e)),
      (bytes_eq_iff p password).0 (ground (arith, e)),
    ),
    λ e. rw ((bytes_eq_iff u user).1 e.0, (bytes_eq_iff p password).1 e.1) refl,
  ),
)
