-- ===== src/Session/Trace.antt =====
-- What SessionStore.Get of internal/manage/session.go returns behind any order of the calls that change
-- the store.
use preamp.Base.{
  ℕ, ◌≤◌, Bool, true, false, List, [], ◌∷◌, Option, none, some, ltb, if◌then◌else◌, ◌≡◌, refl, ap,
  arith, ◌∙◌, All,
}
use preamp.Base.Dict.{lookup, lookup-insert, lookup-delete}
use preamp.Base.Dict.Distinct.{
  Distinct, unless, insert-Distinct, delete-Distinct, lookup-purge, purge-Distinct,
}
use preamp.Base.Text.{Bytes, bytes_eq}
use preamp.Session.{
  Session, Sessions, new_session, create, unexpired, get, delete_session, reap, Event, created,
  deleted, reaped, step, run,
}

-- The specification: the last session that was created under the id, unless it was deleted since.
unfoldable pub latest : Bytes → List Event → Option Session → Option Session
latest id [] o = o
latest id (created j username now ∷ es) o =
    latest id es (if bytes_eq j id then some (new_session j username now) else o)
latest id (deleted j ∷ es) o = latest id es (if bytes_eq j id then none else o)
latest id (reaped now ∷ es) o = latest id es o

-- The reaper has run until now at most.
abbrev pub ReapedBy : ℕ → Event → Type 0
ReapedBy now (created id username at) = Unit
ReapedBy now (deleted id) = Unit
ReapedBy now (reaped at) = at ≤ now

unless-unexpired :
    (now : ℕ) (o : Option Session) → unless (λ s. ltb s.expires_at now) o ≡ unexpired now o
unfolding unless unexpired
unless-unexpired now none = refl
unless-unexpired now (some s) = refl

lookup-reap :
    (k : Bytes) (now : ℕ) (m : Sessions)
    → Distinct m
    → lookup k (reap now m) ≡ unexpired now (lookup k m)
unfolding reap
lookup-reap k now m d =
    lookup-purge k (λ s. ltb s.expires_at now) m d ∙ unless-unexpired now (lookup k m)

step-Distinct : (e : Event) (m : Sessions) → Distinct m → Distinct (step e m)
unfolding step create delete_session reap
step-Distinct (created id username now) m d = insert-Distinct id (new_session id username now) m d
step-Distinct (deleted id) m d = delete-Distinct id m d
step-Distinct (reaped now) m d = purge-Distinct (λ s. ltb s.expires_at now) m d

unexpired-earlier :
    (t now : ℕ) (o : Option Session) → t ≤ now → unexpired now (unexpired t o) ≡ unexpired now o
unfolding unexpired
unexpired-earlier t now none h = refl
unexpired-earlier t now (some s) h = ground (arith, h)

unexpired-if :
    (now : ℕ) (b : Bool) (x o p : Option Session)
    → unexpired now o ≡ unexpired now p
    → unexpired now (if b then x else o) ≡ unexpired now (if b then x else p)
unexpired-if now true x o p h = refl
unexpired-if now false x o p h = h

run-latest :
    (id : Bytes) (now : ℕ) (es : List Event) (m : Sessions) (o : Option Session)
    → Distinct m
    → All (ReapedBy now) es
    → unexpired now (lookup id m) ≡ unexpired now o
    → unexpired now (lookup id (run es m)) ≡ unexpired now (latest id es o)
unfolding run latest step create delete_session
run-latest id now [] m o d h e = e
run-latest id now (created j username at ∷ es) m o d (h, hs) e =
    let s = new_session j username at in
    run-latest id now es (step (created j username at) m) (if bytes_eq j id then some s else o)
      (step-Distinct (created j username at) m d) hs
      (ap (unexpired now) (lookup-insert j id s m)
        ∙ unexpired-if now (bytes_eq j id) (some s) (lookup id m) o e)
run-latest id now (deleted j ∷ es) m o d (h, hs) e =
    run-latest id now es (step (deleted j) m) (if bytes_eq j id then none else o)
      (step-Distinct (deleted j) m d) hs
      (ap (unexpired now) (lookup-delete j id m)
        ∙ unexpired-if now (bytes_eq j id) none (lookup id m) o e)
run-latest id now (reaped at ∷ es) m o d (h, hs) e =
    run-latest id now es (step (reaped at) m) o (step-Distinct (reaped at) m d) hs
      (ap (unexpired now) (lookup-reap id at m d) ∙ (unexpired-earlier at now (lookup id m) h ∙ e))

-- Behind any sequence of creations, deletions and reaps on an empty store, if no reap read a later
-- clock than Get does, Get returns the last session created under the cookie's id, if that was not
-- deleted since and has not expired, and nothing otherwise: the reaper cannot be observed.
pub get-run :
    (id : Bytes) (now : ℕ) (es : List Event)
    → All (ReapedBy now) es
    → get (some id) now (run es []) ≡ unexpired now (latest id es none)
unfolding get lookup
get-run id now es h = run-latest id now es [] none tt h refl
