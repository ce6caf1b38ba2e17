-- ===== src/Tests/Session.antt =====
-- Sessions of two users, of which one logs out.
use preamp.Base.{List, [], ◌∷◌, none, some, ◌≡◌, arith}
use preamp.Base.Text.{codes}
use preamp.Session.{Event, created, deleted, reaped, run, get, unexpired}
use preamp.Session.Trace.{latest, get-run}

-- The first session is reaped at its end, and the id is used again.
abbrev events : List Event
events =
    created (codes "a") (codes "alice") 1
    ∷ created (codes "b") (codes "bob") 5
    ∷ reaped 86400000000002
    ∷ deleted (codes "b")
    ∷ created (codes "a") (codes "carol") 86400000000003
    ∷ reaped 86400000000004
    ∷ []

get-run_example :
    get (some (codes "a")) 86400000000009 (run events [])
    ≡ unexpired 86400000000009 (latest (codes "a") events none)
get-run_example =
    get-run (codes "a") 86400000000009 events
      (tt, (tt, (omega arith, (tt, (tt, (omega arith, tt))))))
