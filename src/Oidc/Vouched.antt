-- ===== src/Oidc/Vouched.antt =====
-- The user that a callback of the OIDC login gives, and the requests that go on with one.
use mathlib.Core.Path.{subst}
use preamp.Base.Dict.{lookup, delete, lookup-delete, lookup-insert}
use preamp.Session.{get}
use preamp.Base.{
  none, ◌≢◌, if◌then◌else◌, List, ℕ, ◌∷◌, ◌≡◌, ap, ◌++◌, some, arith, Option, Option-cases, inl,
  inr, [], sym, ◌⊎◌, ◌∙◌, refl, Bool-cases,
}
use preamp.Base.Text.{is_empty, Bytes, bytes_eq, bytes_eq_iff}
use preamp.Oidc.{
  signed_in, logging_out, sign_in, sign_out, LoginState, Claims, claimed_name, PendingAuth,
  Provider, user, LoginEvent, returned, redeem, handle_logout, after, login_step, started,
  logged_out, pending_reaped, sessions_reaped, Callback, oidc_callback, CallbackError,
  handle_callback, failed,
}
use preamp.Oidc.Trace.{pending_of, oidc_callback-pending_of}

-- The name that the provider gives to the user: preferred_username, or sub where that is empty.
abbrev IsName : Bytes → Claims → Type 0
IsName username c =
    ((c.preferred_username ≢ []) × (username ≡ c.preferred_username))
    ⊎ ((c.preferred_username ≡ []) × (username ≡ c.sub))

-- The provider exchanges the code and the verifier for a token that it verifies and that names the user.
abbrev IsVouched : Provider → Bytes → Bytes → Bytes → Type 0
IsVouched provider code code_verifier username =
    (raw : Bytes) × (claims : Claims) × (provider.exchange code code_verifier ≡ some (some raw))
    × (provider.verify raw ≡ some (some claims))
    × IsName username claims

-- Some step was the callback of this request, whose state was waiting, and the provider vouched for this user,
-- given the code and the verifier of the login with that state.
abbrev pub IsReturned : Bytes → Bytes → List LoginEvent → Type 0
IsReturned request username es =
    (later : List LoginEvent) × (provider : Provider) × (state : Bytes) × (code : Bytes)
    × (earlier : List LoginEvent) × (pa : PendingAuth) × (es
        ≡ later ++ (returned provider request state code ∷ earlier))
    × (pending_of state earlier ≡ some pa)
    × IsVouched provider code pa.code_verifier username

IsReturned-later :
    (e : LoginEvent) (request username : Bytes) (es : List LoginEvent)
    → IsReturned request username es
    → IsReturned request username (e ∷ es)
IsReturned-later e request username es
      (later, provider, state, code, earlier, pa, split, waits, vouched) =
    (e ∷ later, provider, state, code, earlier, pa, ap (◌∷◌ e) split, waits, vouched)

first_name :
    (a b : Bytes)
    → ((a ≢ []) × ((if is_empty a then b else a) ≡ a))
      ⊎ ((a ≡ []) × ((if is_empty a then b else a) ≡ b))
first_name [] b = inr (refl, refl)
first_name (x ∷ a) b = inl (λ e. ground (arith, e), refl)

claimed_name-IsName : (c : Claims) → IsName (claimed_name c) c
claimed_name-IsName c = first_name c.preferred_username c.sub

redeem-IsVouched :
    (provider : Provider) (code code_verifier u : Bytes)
    → redeem provider code code_verifier ≡ user u
    → IsVouched provider code code_verifier u
unfolding redeem
redeem-IsVouched provider code v u h = elim (Option-cases (provider.exchange code v)) [
  | inl e ↦ ground (arith, rw (e, redeem) at h)
  | inr (none, e) ↦ ground (arith, rw (e, redeem) at h)
  | inr (some raw, e) ↦ elim (Option-cases (provider.verify raw)) [
    | inl f ↦ ground (arith, rw (e, f, redeem) at h)
    | inr (none, f) ↦ ground (arith, rw (e, f, redeem) at h)
    | inr (some claims, f) ↦
        let same : user (claimed_name claims) ≡ user u = rw (e, f, redeem) at h in
        let name : claimed_name claims ≡ u = cc in
        (raw, claims, e, f, subst (λ x. IsName x claims) name (claimed_name-IsName claims))
  ]
]

pub delete-within {ℓ} :
    {A : Type ℓ} (j : Bytes) (m : List (Bytes × A)) (k : Bytes) (v : A)
    → lookup k (delete j m) ≡ some v
    → lookup k m ≡ some v
delete-within j m k v h = elim (Bool-cases (bytes_eq j k)) [
  | inl e ↦ ground (arith, rw (lookup-delete j k m, e) at h)
  | inr e ↦ rw (lookup-delete j k m, e) at h
]

handle_logout-signing_in :
    (request : Bytes) (cookie : Option Bytes) (now : ℕ) (s : LoginState)
    → (handle_logout request cookie now s).signing_in ≡ s.signing_in
unfolding handle_logout
handle_logout-signing_in request cookie now s = elim (Option-cases (get cookie now s.sessions)) [
  | inl e ↦ rw (handle_logout, e) refl
  | inr (sess, e) ↦ rw (handle_logout, e) refl
]

sign_out-signing_in :
    (request : Bytes) (s : LoginState) → (sign_out request s).signing_in ≡ s.signing_in
unfolding sign_out
sign_out-signing_in request s = elim (Option-cases (lookup request s.leaving)) [
  | inl e ↦ rw (sign_out, e) refl
  | inr (id, e) ↦ rw (sign_out, e) refl
]

Callback-cases :
    (c : Callback) → ((e : CallbackError) × (c ≡ failed e)) ⊎ ((u : Bytes) × (c ≡ user u))
Callback-cases (failed e) = inl (e, refl)
Callback-cases (user u) = inr (u, refl)

-- A callback that gives a user: the state was waiting.
oidc_callback-user :
    (provider : Provider) (state code u : Bytes) (es : List LoginEvent)
    → oidc_callback provider state code (after es).pending ≡ user u
    → (pa : PendingAuth) × (pending_of state es ≡ some pa)
      × (redeem provider code pa.code_verifier ≡ user u)
oidc_callback-user provider state code u es h =
    let spec = sym (oidc_callback-pending_of provider state code es) ∙ h in
    elim (Option-cases (pending_of state es)) [
      | inl e ↦ ground (arith, rw e at spec)
      | inr (pa, e) ↦ (pa, e, rw e at spec)
    ]

-- A user that a callback gave, for a request that has not used it.
abbrev AllReturned : List LoginEvent → Type 0
AllReturned es =
    (request username : Bytes)
    → lookup request (after es).signing_in ≡ some username
    → IsReturned request username es

pub after-AllReturned : (es : List LoginEvent) → AllReturned es
unfolding after login_step lookup handle_callback sign_in
after-AllReturned [] r u h = ground (arith, h)
after-AllReturned (started state v now ∷ es) r u h =
    IsReturned-later (started state v now) r u es (after-AllReturned es r u h)
after-AllReturned (returned provider request state code ∷ es) r u h =
    let new = returned provider request state code in
    elim (Callback-cases (oidc_callback provider state code (after es).pending)) [
      | inl (e, c) ↦
          IsReturned-later new r u es (after-AllReturned es r u (rw (handle_callback, c) at h))
      | inr (name, c) ↦
          let (pa, waits, vouched) = oidc_callback-user provider state code name es c in
          let found =
            sym (lookup-insert request r name (after es).signing_in)
            ∙ (rw (handle_callback, c) at h) in
          elim (Bool-cases (bytes_eq request r)) [
            | inl f ↦
                let same : some name ≡ some u = rw f at found in
                let user_name : name ≡ u = cc in
                let key : request ≡ r = (bytes_eq_iff request r).0 f in
                (
                  [],
                  provider,
                  state,
                  code,
                  es,
                  pa,
                  ap (λ k. returned provider k state code ∷ es) key,
                  waits,
                  subst (IsVouched provider code pa.code_verifier) user_name
                      (redeem-IsVouched provider code pa.code_verifier name vouched),
                )
            | inr f ↦ IsReturned-later new r u es (after-AllReturned es r u (rw f at found))
          ]
    ]
after-AllReturned (signed_in request id now ∷ es) r u h =
    elim (Option-cases (lookup request (after es).signing_in)) [
      | inl e ↦
          IsReturned-later (signed_in request id now) r u es
            (after-AllReturned es r u (rw (sign_in, e) at h))
      | inr (name, e) ↦ IsReturned-later (signed_in request id now) r u es (
          after-AllReturned es r u
            (delete-within request (after es).signing_in r u (rw (sign_in, e) at h)))
    ]
after-AllReturned (logging_out request cookie now ∷ es) r u h =
    IsReturned-later (logging_out request cookie now) r u es
      (after-AllReturned es r u (rw (handle_logout-signing_in request cookie now (after es)) at h))
after-AllReturned (logged_out request ∷ es) r u h =
    IsReturned-later (logged_out request) r u es
      (after-AllReturned es r u (rw (sign_out-signing_in request (after es)) at h))
after-AllReturned (pending_reaped now ∷ es) r u h =
    IsReturned-later (pending_reaped now) r u es (after-AllReturned es r u h)
after-AllReturned (sessions_reaped now ∷ es) r u h =
    IsReturned-later (sessions_reaped now) r u es (after-AllReturned es r u h)
