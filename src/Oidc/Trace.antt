-- ===== src/Oidc/Trace.antt =====
-- The pending logins of internal/manage/auth_oidc.go: each state on its own.
use preamp.Base.{
  List, [], ◌∷◌, ◌++◌, Option, none, some, if◌then◌else◌, ◌≡◌, refl, ap, sym, ◌∙◌, arith,
  Bool-cases, Option-cases, inl, inr, false, All,
}
use preamp.Base.Dict.{lookup, lookup-insert, lookup-delete, bytes_eq_refl}
use preamp.Base.Dict.Distinct.{
  Distinct, unless, insert-Distinct, delete-Distinct, lookup-purge, purge-Distinct,
}
use preamp.Base.Text.{Bytes, bytes_eq, bytes_eq_iff}
use preamp.Session.{get}
use preamp.Oidc.{
  signed_in, logging_out, sign_in, handle_logout, sign_out, PendingAuth, Pending, Provider,
  Callback, failed, invalid_state, LoginEvent, started, returned, logged_out, pending_reaped,
  sessions_reaped, login_handler, take_pending, is_stale, reap_pending, redeem, oidc_callback,
  handle_callback, login_step, after,
}

-- The specification: what one state is waiting for.
unfoldable pub pending_of : Bytes → List LoginEvent → Option PendingAuth
pending_of state [] = none
pending_of state (started j code_verifier now ∷ es) =
    if bytes_eq j state
    then some (record { code_verifier = code_verifier; created_at = now })
    else pending_of state es
pending_of state (returned provider request j code ∷ es) =
    if bytes_eq j state then none else pending_of state es
pending_of state (signed_in request id now ∷ es) = pending_of state es
pending_of state (logging_out request cookie now ∷ es) = pending_of state es
pending_of state (logged_out request ∷ es) = pending_of state es
pending_of state (pending_reaped now ∷ es) = unless (is_stale now) (pending_of state es)
pending_of state (sessions_reaped now ∷ es) = pending_of state es

take_pending-Distinct : (state : Bytes) (m : Pending) → Distinct m → Distinct (take_pending state m)
unfolding take_pending
take_pending-Distinct state m d = elim (Option-cases (lookup state m)) [
  | inl e ↦ rw (take_pending, e) d
  | inr (pa, e) ↦ rw (take_pending, e) (delete-Distinct state m d)
]

lookup-take_pending :
    (j state : Bytes) (m : Pending)
    → lookup state (take_pending j m) ≡ (if bytes_eq j state then none else lookup state m)
unfolding take_pending
lookup-take_pending j state m = elim (Option-cases (lookup j m)) [
  | inl e ↦ elim (Bool-cases (bytes_eq j state)) [
    | inl f ↦
        let same : lookup state m ≡ none =
          ap (λ x. lookup x m) (sym ((bytes_eq_iff j state).0 f)) ∙ e in
        rw (take_pending, e, f) same
    | inr f ↦ rw (take_pending, e, f) refl
  ]
  | inr (pa, e) ↦ rw (take_pending, e) (lookup-delete j state m)
]

pending-Distinct : (es : List LoginEvent) → Distinct (after es).pending
unfolding after login_step login_handler reap_pending handle_callback sign_in handle_logout sign_out
pending-Distinct [] = tt
pending-Distinct (started state code_verifier now ∷ es) =
    insert-Distinct state (record { code_verifier = code_verifier; created_at = now })
      (after es).pending (pending-Distinct es)
pending-Distinct (returned provider request state code ∷ es) =
    take_pending-Distinct state (after es).pending (pending-Distinct es)
pending-Distinct (signed_in request id now ∷ es) =
    elim (Option-cases (lookup request (after es).signing_in)) [
      | inl e ↦ rw (e, sign_in) (pending-Distinct es)
      | inr (u, e) ↦ rw (e, sign_in) (pending-Distinct es)
    ]
pending-Distinct (logging_out request cookie now ∷ es) =
    elim (Option-cases (get cookie now (after es).sessions)) [
      | inl e ↦ rw (e, handle_logout) (pending-Distinct es)
      | inr (sess, e) ↦ rw (e, handle_logout) (pending-Distinct es)
    ]
pending-Distinct (logged_out request ∷ es) =
    elim (Option-cases (lookup request (after es).leaving)) [
      | inl e ↦ rw (e, sign_out) (pending-Distinct es)
      | inr (id, e) ↦ rw (e, sign_out) (pending-Distinct es)
    ]
pending-Distinct (pending_reaped now ∷ es) =
    purge-Distinct (is_stale now) (after es).pending (pending-Distinct es)
pending-Distinct (sessions_reaped now ∷ es) = pending-Distinct es

pub lookup-after :
    (state : Bytes) (es : List LoginEvent) → lookup state (after es).pending ≡ pending_of state es
unfolding after login_step login_handler reap_pending handle_callback sign_in handle_logout sign_out
    pending_of lookup
lookup-after state [] = refl
lookup-after state (started j code_verifier now ∷ es) =
    lookup-insert j state (record { code_verifier = code_verifier; created_at = now })
      (after es).pending
    ∙ ap
        (λ o.
          if bytes_eq j state
          then some (record { code_verifier = code_verifier; created_at = now })
          else o)
        (lookup-after state es)
lookup-after state (returned provider request j code ∷ es) =
    lookup-take_pending j state (after es).pending
    ∙ ap (λ o. if bytes_eq j state then none else o) (lookup-after state es)
lookup-after state (signed_in request id now ∷ es) =
    elim (Option-cases (lookup request (after es).signing_in)) [
      | inl e ↦ rw (e, sign_in) (lookup-after state es)
      | inr (u, e) ↦ rw (e, sign_in) (lookup-after state es)
    ]
lookup-after state (logging_out request cookie now ∷ es) =
    elim (Option-cases (get cookie now (after es).sessions)) [
      | inl e ↦ rw (e, handle_logout) (lookup-after state es)
      | inr (sess, e) ↦ rw (e, handle_logout) (lookup-after state es)
    ]
lookup-after state (logged_out request ∷ es) =
    elim (Option-cases (lookup request (after es).leaving)) [
      | inl e ↦ rw (e, sign_out) (lookup-after state es)
      | inr (id, e) ↦ rw (e, sign_out) (lookup-after state es)
    ]
lookup-after state (pending_reaped now ∷ es) =
    lookup-purge state (is_stale now) (after es).pending (pending-Distinct es)
    ∙ ap (unless (is_stale now)) (lookup-after state es)
lookup-after state (sessions_reaped now ∷ es) = lookup-after state es

-- Behind any sequence of logins, callbacks, logouts and reaps, the callback with a state fails if that state
-- is not waiting, and otherwise exchanges the code with the verifier that the login with that state drew. What a
-- state is waiting for depends on the steps with this state and the reaper alone.
pub oidc_callback-pending_of :
    (provider : Provider) (state code : Bytes) (es : List LoginEvent)
    → oidc_callback provider state code (after es).pending
      ≡ (elim (pending_of state es) as (λ _. Callback) [
        | none ↦ failed invalid_state
        | some pa ↦ redeem provider code pa.code_verifier
      ])
unfolding oidc_callback
oidc_callback-pending_of provider state code es = rw (oidc_callback, lookup-after state es) refl

-- The step does not start a login with this state.
abbrev pub IsOther : Bytes → LoginEvent → Type 0
IsOther state (started j code_verifier now) = bytes_eq j state ≡ false
IsOther state (returned provider request j code) = Unit
IsOther state (signed_in request id now) = Unit
IsOther state (logging_out request cookie now) = Unit
IsOther state (logged_out request) = Unit
IsOther state (pending_reaped now) = Unit
IsOther state (sessions_reaped now) = Unit

pending_of-returned :
    (state : Bytes) (later earlier : List LoginEvent)
    → All (IsOther state) later
    → pending_of state earlier ≡ none
    → pending_of state (later ++ earlier) ≡ none
unfolding pending_of unless
pending_of-returned state [] earlier h e = e
pending_of-returned state (started j code_verifier now ∷ es) earlier (h, hs) e =
    rw h (pending_of-returned state es earlier hs e)
pending_of-returned state (returned provider request j code ∷ es) earlier (h, hs) e =
    ground (arith, pending_of-returned state es earlier hs e)
pending_of-returned state (signed_in request id now ∷ es) earlier (h, hs) e =
    pending_of-returned state es earlier hs e
pending_of-returned state (logging_out request cookie now ∷ es) earlier (h, hs) e =
    pending_of-returned state es earlier hs e
pending_of-returned state (logged_out request ∷ es) earlier (h, hs) e =
    pending_of-returned state es earlier hs e
pending_of-returned state (pending_reaped now ∷ es) earlier (h, hs) e =
    rw (pending_of-returned state es earlier hs e) refl
pending_of-returned state (sessions_reaped now ∷ es) earlier (h, hs) e =
    pending_of-returned state es earlier hs e

-- A state is good for one callback: behind a callback with it, whatever that one answered and whatever happened since,
-- a callback with it fails, unless a login has drawn the same state again.
pub oidc_callback_once :
    (first second : Provider) (request state code code' : Bytes) (later earlier : List LoginEvent)
    → All (IsOther state) later
    → oidc_callback second state code'
        (after (later ++ (returned first request state code ∷ earlier))).pending
      ≡ failed invalid_state
unfolding pending_of
oidc_callback_once first second request state code code' later earlier h =
    let used : pending_of state (returned first request state code ∷ earlier) ≡ none =
      rw (bytes_eq_refl state) refl in
    oidc_callback-pending_of second state code'
      (later ++ (returned first request state code ∷ earlier))
    ∙ rw (pending_of-returned state later (returned first request state code ∷ earlier) h used) refl
