-- ===== src/Session.antt =====
-- SessionStore of internal/manage/session.go. The map from ids to sessions is an association list,
-- and each call that holds the mutex is one event. Times are nanoseconds. `randomHex(32)` is an
-- argument, as is the cookie's value; the cookie's other attributes are left out.
pub mod Trace
use preamp.Base.{ℕ, ◌+◌, Bool, List, [], ◌∷◌, Option, none, some, ltb, if◌then◌else◌}
use preamp.Base.Dict.{lookup, insert, delete, purge}
use preamp.Base.Text.{Bytes}

-- 24 hours.
abbrev pub session_ttl : ℕ
session_ttl = 86400000000000

pub record Session : Type 0 where
  pub id : Bytes
  pub username : Bytes
  pub created_at : ℕ
  pub expires_at : ℕ

abbrev pub Sessions : Type 0
Sessions = List (Bytes × Session)

abbrev pub new_session : Bytes → Bytes → ℕ → Session
new_session id username now = record {
  id = id;
  username = username;
  created_at = now;
  expires_at = now + session_ttl;
}

unfoldable pub create : Bytes → Bytes → ℕ → Sessions → Sessions
create id username now sessions = insert id (new_session id username now) sessions

-- `!ok || time.Now().After(sess.ExpiresAt)`.
unfoldable pub unexpired : ℕ → Option Session → Option Session
unexpired now none = none
unexpired now (some s) = if ltb s.expires_at now then none else some s

-- A request without the cookie has no session.
unfoldable pub get : Option Bytes → ℕ → Sessions → Option Session
get none now sessions = none
get (some id) now sessions = unexpired now (lookup id sessions)

unfoldable pub delete_session : Bytes → Sessions → Sessions
delete_session id sessions = delete id sessions

unfoldable pub reap : ℕ → Sessions → Sessions
reap now sessions = purge (λ s. ltb s.expires_at now) sessions

-- The calls that change the store, in the order in which they hold the mutex.
pub data Event : Type 0 where
  created : Bytes → Bytes → ℕ → Event
  deleted : Bytes → Event
  reaped : ℕ → Event

unfoldable pub step : Event → Sessions → Sessions
step (created id username now) = create id username now
step (deleted id) = delete_session id
step (reaped now) = reap now

unfoldable pub run : List Event → Sessions → Sessions
run [] sessions = sessions
run (e ∷ es) sessions = run es (step e sessions)
