-- ===== src/Oidc/Login.antt =====
-- Where the sessions of the management pages come from.
use preamp.Base.Dict.{lookup, delete, lookup-insert}
use preamp.Base.Dict.Distinct.{
  Distinct, unless, lookup-purge, insert-Distinct, delete-Distinct, purge-Distinct,
}
use preamp.Session.{Sessions, reap, Session, get, delete_session, unexpired, create, new_session}
use preamp.Base.{
  List, ℕ, ◌∷◌, ◌≡◌, ap, ◌++◌, some, arith, Option, Option-cases, ltb, inl, inr, [], sym, ◌∙◌, refl,
  Bool-cases,
}
use preamp.Base.Text.{Bytes, bytes_eq, bytes_eq_iff}
use preamp.Oidc.{
  signed_in, logging_out, sign_in, sign_out, LoginState, LoginEvent, returned, handle_logout, after,
  login_step, started, logged_out, pending_reaped, sessions_reaped, handle_callback,
}
use preamp.Oidc.Vouched.{IsReturned, delete-within, after-AllReturned}

-- Some step created the session for a request of which an earlier step was such a callback.
abbrev pub IsSignedIn : Bytes → Bytes → List LoginEvent → Type 0
IsSignedIn id username es =
    (later : List LoginEvent) × (request : Bytes) × (now : ℕ) × (earlier : List LoginEvent) × (es
      ≡ later ++ (signed_in request id now ∷ earlier))
    × IsReturned request username earlier

IsSignedIn-later :
    (e : LoginEvent) (id username : Bytes) (es : List LoginEvent)
    → IsSignedIn id username es
    → IsSignedIn id username (e ∷ es)
IsSignedIn-later e id username es (later, request, now, earlier, split, came) =
    (e ∷ later, request, now, earlier, ap (◌∷◌ e) split, came)

-- The first map has no entry that the second has not.
abbrev IsWithin : Sessions → Sessions → Type 0
IsWithin m n = (k : Bytes) (v : Session) → lookup k m ≡ some v → lookup k n ≡ some v

delete-IsWithin : (j : Bytes) (m : Sessions) → IsWithin (delete j m) m
delete-IsWithin j m k v h = delete-within j m k v h

reap-IsWithin : (now : ℕ) (m : Sessions) → Distinct m → IsWithin (reap now m) m
unfolding reap unless
reap-IsWithin now m d k v h = ground (arith, lookup-purge k (λ s. ltb s.expires_at now) m d, h)

sign_out-IsWithin :
    (request : Bytes) (s : LoginState) → IsWithin (sign_out request s).sessions s.sessions
unfolding sign_out delete_session
sign_out-IsWithin request s = elim (Option-cases (lookup request s.leaving)) [
  | inl e ↦ rw (sign_out, e) (λ k v h. h)
  | inr (id, e) ↦ rw (sign_out, e) (delete-IsWithin id s.sessions)
]

handle_logout-sessions :
    (request : Bytes) (cookie : Option Bytes) (now : ℕ) (s : LoginState)
    → (handle_logout request cookie now s).sessions ≡ s.sessions
unfolding handle_logout
handle_logout-sessions request cookie now s = elim (Option-cases (get cookie now s.sessions)) [
  | inl e ↦ rw (handle_logout, e) refl
  | inr (sess, e) ↦ rw (handle_logout, e) refl
]

sessions-Distinct : (es : List LoginEvent) → Distinct (after es).sessions
unfolding after login_step create reap handle_callback sign_in sign_out delete_session delete
sessions-Distinct [] = tt
sessions-Distinct (started state v now ∷ es) = sessions-Distinct es
sessions-Distinct (returned provider request state code ∷ es) = sessions-Distinct es
sessions-Distinct (signed_in request id now ∷ es) =
    elim (Option-cases (lookup request (after es).signing_in)) [
      | inl e ↦ rw (sign_in, e) (sessions-Distinct es)
      | inr (u, e) ↦
          rw (sign_in, e)
            (insert-Distinct id (new_session id u now) (after es).sessions (sessions-Distinct es))
    ]
sessions-Distinct (logging_out request cookie now ∷ es) =
    rw (handle_logout-sessions request cookie now (after es)) (sessions-Distinct es)
sessions-Distinct (logged_out request ∷ es) =
    elim (Option-cases (lookup request (after es).leaving)) [
      | inl e ↦ rw (sign_out, e) (sessions-Distinct es)
      | inr (id, e) ↦
          rw (sign_out, e, delete_session)
            (delete-Distinct id (after es).sessions (sessions-Distinct es))
    ]
sessions-Distinct (pending_reaped now ∷ es) = sessions-Distinct es
sessions-Distinct (sessions_reaped now ∷ es) =
    purge-Distinct (λ s. ltb s.expires_at now) (after es).sessions (sessions-Distinct es)

-- Every session is one that was created behind a callback.
abbrev AllSignedIn : List LoginEvent → Type 0
AllSignedIn es =
    (id : Bytes) (sess : Session)
    → lookup id (after es).sessions ≡ some sess
    → IsSignedIn id sess.username es

after-AllSignedIn : (es : List LoginEvent) → AllSignedIn es
unfolding after login_step lookup handle_callback sign_in create
after-AllSignedIn [] id sess h = ground (arith, h)
after-AllSignedIn (started state v now ∷ es) id sess h =
    IsSignedIn-later (started state v now) id sess.username es (after-AllSignedIn es id sess h)
after-AllSignedIn (returned provider request state code ∷ es) id sess h =
    IsSignedIn-later (returned provider request state code) id sess.username es
      (after-AllSignedIn es id sess h)
after-AllSignedIn (signed_in request j now ∷ es) id sess h =
    let new = signed_in request j now in
    elim (Option-cases (lookup request (after es).signing_in)) [
      | inl e ↦
          IsSignedIn-later new id sess.username es
            (after-AllSignedIn es id sess (rw (sign_in, e) at h))
      | inr (u, e) ↦
          let made = new_session j u now in
          let found = sym (lookup-insert j id made (after es).sessions) ∙ (rw (sign_in, e) at h) in
          elim (Bool-cases (bytes_eq j id)) [
            | inl f ↦
                let same : some made ≡ some sess = rw f at found in
                let name : u ≡ sess.username = cc in
                let key : j ≡ id = (bytes_eq_iff j id).0 f in
                (
                  [],
                  request,
                  now,
                  es,
                  ap (λ k. signed_in request k now ∷ es) key,
                  after-AllReturned es request sess.username (e ∙ ap some name),
                )
            | inr f ↦
                IsSignedIn-later new id sess.username es
                  (after-AllSignedIn es id sess (rw f at found))
          ]
    ]
after-AllSignedIn (logging_out request cookie now ∷ es) id sess h =
    IsSignedIn-later (logging_out request cookie now) id sess.username es (
      after-AllSignedIn es id sess (rw (handle_logout-sessions request cookie now (after es)) at h))
after-AllSignedIn (logged_out request ∷ es) id sess h =
    IsSignedIn-later (logged_out request) id sess.username es
      (after-AllSignedIn es id sess (sign_out-IsWithin request (after es) id sess h))
after-AllSignedIn (pending_reaped now ∷ es) id sess h =
    IsSignedIn-later (pending_reaped now) id sess.username es (after-AllSignedIn es id sess h)
after-AllSignedIn (sessions_reaped now ∷ es) id sess h =
    IsSignedIn-later (sessions_reaped now) id sess.username es (
      after-AllSignedIn es id sess
        (reap-IsWithin now (after es).sessions (sessions-Distinct es) id sess h))

-- Whenever the session of a cookie is found, some earlier step created it for a request, and a step before that was
-- the callback of this request: the state that came with it was waiting, drawn by a login of this server and not
-- used or reaped since, the provider exchanged the code and the verifier of that login for an ID token, which
-- it verified, and the session's user is the token's preferred_username, or its sub where that is empty.
pub get-IsSignedIn :
    (es : List LoginEvent) (id : Bytes) (now : ℕ) (sess : Session)
    → get (some id) now (after es).sessions ≡ some sess
    → IsSignedIn id sess.username es
unfolding get unexpired
get-IsSignedIn es id now sess h = after-AllSignedIn es id sess (ground (arith, h))
