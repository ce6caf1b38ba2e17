-- ===== src/Db/Transaction.antt =====
-- BEGIN, COMMIT and ROLLBACK as the write handlers of internal/api send them, on the connection of
-- `WriteConn` in internal/db/db.go.
use preamp.Base.{Bool, true, false, List, Option, none, some, if◌then◌else◌, ◌≡◌, arith}
use preamp.Db.{Tables, Run, Db, next_fault}

-- `saved` is what ROLLBACK goes back to, while a transaction is open.
pub record Conn : Type 0 where
  pub tables : Tables
  pub saved : Option Tables
  pub faults : List Bool

-- What another connection sees, and this one after a crash.
unfoldable pub committed : Conn → Tables
committed conn = elim conn.saved [ none ↦ conn.tables | some t ↦ t ]

abbrev pub idle : Tables → List Bool → Conn
idle t faults = record { tables = t; saved = none; faults = faults }

-- ROLLBACK of the handlers, whose error they ignore: the transaction stays open then.
unfoldable pub roll_back : Tables → Run → Conn
unfolding next_fault
roll_back before r =
    let (fault, rest) = next_fault r.faults in
    if fault
    then record { tables = r.tables; saved = some before; faults = rest }
    else idle before rest

-- COMMIT, and whether it succeeds. The handlers do not roll back where it fails.
unfoldable pub commit : Tables → Run → Conn × Bool
unfolding next_fault
commit before r =
    let (fault, rest) = next_fault r.faults in
    if fault
    then (record { tables = r.tables; saved = some before; faults = rest }, false)
    else (idle r.tables rest, true)

-- BEGIN on a connection with no open transaction, the statements of `body` with ROLLBACK behind the
-- one that fails, and COMMIT. `false` is `writeError(w, r, 0, "database error")`.
unfoldable pub in_transaction : Db (Unit {0}) → Tables → List Bool → Conn × Bool
unfolding next_fault roll_back commit
in_transaction body t faults =
    let (fault, rest) = next_fault faults in
    if fault
    then (idle t rest, false)
    else let (r, result) = body (record { tables = t; faults = rest }) in
      elim result [ none ↦ (roll_back t r, false) | some _ ↦ commit t r ]

-- Where the transaction fails, at whatever statement, the committed tables are those before it.
pub in_transaction-failed :
    (body : Db (Unit {0})) (t : Tables) (faults : List Bool)
    → (in_transaction body t faults).1 ≡ false
    → committed (in_transaction body t faults).0 ≡ t
unfolding in_transaction committed roll_back commit next_fault
in_transaction-failed body t faults = ground arith
