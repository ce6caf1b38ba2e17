-- ===== src/Oidc.antt =====
-- The OIDC login of internal/manage/auth_oidc.go with the handlers of internal/manage/handlers.go that sign users in and
-- out. Each section under a mutex is one step, so that a callback and a logout are two each, with others between
-- them; what lies outside changes no store. A request has a name of its own. Times are nanoseconds; random values are arguments. The provider's package is a parameter (Provider). The redirect's
-- URL, and so the challenge, is left out.
pub mod Trace
pub mod Vouched
pub mod Login
use preamp.Base.{ℕ, ◌+◌, Bool, List, [], ◌∷◌, Option, none, some, ltb, if◌then◌else◌}
use preamp.Base.Dict.{lookup, insert, delete, purge}
use preamp.Base.Text.{Bytes, is_empty}
use preamp.Session.{Sessions, create, get, delete_session, reap}

pub record PendingAuth : Type 0 where
  pub code_verifier : Bytes
  pub created_at : ℕ

abbrev pub Pending : Type 0
Pending = List (Bytes × PendingAuth)

-- 10 minutes.
abbrev pub pending_ttl : ℕ
pending_ttl = 600000000000

pub record Claims : Type 0 where
  pub preferred_username : Bytes
  pub sub : Bytes

-- `exchange code verifier` is Exchange, then the token's "id_token" where it is a string; `verify`
-- is Verify on that string, then Claims. An outer `none` is an error of the first call, an inner
-- one is what the second does not give.
pub record Provider : Type 0 where
  pub exchange : Bytes → Bytes → Option (Option Bytes)
  pub verify : Bytes → Option (Option Claims)

pub data CallbackError : Type 0 where
  invalid_state : CallbackError
  exchange_failed : CallbackError
  no_id_token : CallbackError
  not_verified : CallbackError
  no_claims : CallbackError

pub data Callback : Type 0 where
  failed : CallbackError → Callback
  user : Bytes → Callback

unfoldable pub login_handler : Bytes → Bytes → ℕ → Pending → Pending
login_handler state code_verifier now pending =
    insert state (record { code_verifier = code_verifier; created_at = now }) pending

abbrev pub claimed_name : Claims → Bytes
claimed_name c = if is_empty c.preferred_username then c.sub else c.preferred_username

-- CallbackHandler behind the mutex.
unfoldable pub redeem : Provider → Bytes → Bytes → Callback
redeem provider code code_verifier = elim (provider.exchange code code_verifier) [
  | none ↦ failed exchange_failed
  | some none ↦ failed no_id_token
  | some (some raw) ↦ elim (provider.verify raw) [
    | none ↦ failed not_verified
    | some none ↦ failed no_claims
    | some (some claims) ↦ user (claimed_name claims)
  ]
]

-- CallbackHandler's answer.
unfoldable pub oidc_callback : Provider → Bytes → Bytes → Pending → Callback
oidc_callback provider state code pending = elim (lookup state pending) [
  | none ↦ failed invalid_state
  | some pa ↦ redeem provider code pa.code_verifier
]

-- What CallbackHandler leaves of the pending logins, whatever its answer is.
unfoldable pub take_pending : Bytes → Pending → Pending
take_pending state pending = elim (lookup state pending) [
  | none ↦ pending
  | some pa ↦ delete state pending
]

-- `createdAt.Before(now - 10 minutes)`.
abbrev pub is_stale : ℕ → PendingAuth → Bool
is_stale now pa = ltb (pa.created_at + pending_ttl) now

unfoldable pub reap_pending : ℕ → Pending → Pending
reap_pending now pending = purge (is_stale now) pending

-- `signing_in` and `leaving` hold what a request under way has in its local variables: the user that the callback
-- gave, and the session that the logout found.
pub record LoginState : Type 0 where
  pub pending : Pending
  pub sessions : Sessions
  pub signing_in : List (Bytes × Bytes)
  pub leaving : List (Bytes × Bytes)

abbrev pub no_logins : LoginState
no_logins = record { pending = []; sessions = []; signing_in = []; leaving = [] }

-- handleCallback, and handleLoginSubmit, as far as the callback: the user that it gives is what the request goes
-- on with, and on an error the reply is 401.
unfoldable pub handle_callback : Provider → Bytes → Bytes → Bytes → LoginState → LoginState
handle_callback provider request state code s = record s {
  pending = take_pending state s.pending;
  signing_in = elim (oidc_callback provider state code s.pending) [
    | failed e ↦ s.signing_in
    | user username ↦ insert request username s.signing_in
  ];
}

-- What is left of handleCallback: the session for that user, under the fresh id.
unfoldable pub sign_in : Bytes → Bytes → ℕ → LoginState → LoginState
sign_in request id now s = elim (lookup request s.signing_in) [
  | none ↦ s
  | some username ↦ record s {
    sessions = create id username now s.sessions;
    signing_in = delete request s.signing_in;
  }
]

-- handleLogout as far as Get, and its Delete.
unfoldable pub handle_logout : Bytes → Option Bytes → ℕ → LoginState → LoginState
handle_logout request cookie now s = elim (get cookie now s.sessions) [
  | none ↦ s
  | some sess ↦ record s { leaving = insert request sess.id s.leaving }
]

unfoldable pub sign_out : Bytes → LoginState → LoginState
sign_out request s = elim (lookup request s.leaving) [
  | none ↦ s
  | some id ↦ record s {
    sessions = delete_session id s.sessions;
    leaving = delete request s.leaving;
  }
]

-- The steps that change the stores: `started` with the state, the verifier and the time, `returned` with
-- the provider as it answers that call, the request, the state and the code, `signed_in` with the request, the
-- session's id and the time.
pub data LoginEvent : Type 0 where
  started : Bytes → Bytes → ℕ → LoginEvent
  returned : Provider → Bytes → Bytes → Bytes → LoginEvent
  signed_in : Bytes → Bytes → ℕ → LoginEvent
  logging_out : Bytes → Option Bytes → ℕ → LoginEvent
  logged_out : Bytes → LoginEvent
  pending_reaped : ℕ → LoginEvent
  sessions_reaped : ℕ → LoginEvent

unfoldable pub login_step : LoginEvent → LoginState → LoginState
login_step (started state code_verifier now) s = record s {
  pending = login_handler state code_verifier now s.pending;
}
login_step (returned provider request state code) s = handle_callback provider request state code s
login_step (signed_in request id now) s = sign_in request id now s
login_step (logging_out request cookie now) s = handle_logout request cookie now s
login_step (logged_out request) s = sign_out request s
login_step (pending_reaped now) s = record s { pending = reap_pending now s.pending }
login_step (sessions_reaped now) s = record s { sessions = reap now s.sessions }

-- The steps since the start, the newest first.
unfoldable pub after : List LoginEvent → LoginState
after [] = no_logins
after (e ∷ es) = login_step e (after es)
