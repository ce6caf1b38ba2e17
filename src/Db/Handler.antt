-- ===== src/Db/Handler.antt =====
-- What the write handlers of internal/api have in common: the write connection and the reply.
use preamp.Base.{ℕ, Bool, false, List, Option, if◌then◌else◌}
use preamp.Base.Text.{Bytes}
use preamp.Db.{Tables, Playlist, Db, next_fault}
use preamp.Db.Transaction.{Conn, idle, in_transaction}

-- `refused` carries the code of `writeError`, `done` is `writeOK`, and `listed` the playlist and the
-- songs that are read back.
pub data Reply : Type 0 where
  refused : ℕ → Reply
  done : Reply
  listed : Option Playlist → List Bytes → Reply

-- WriteConn, and the transaction.
unfoldable pub on_write_conn : Db (Unit {0}) → Tables → List Bool → Conn × Bool
unfolding next_fault
on_write_conn body t faults =
    let (fault, rest) = next_fault faults in
    if fault then (idle t rest, false) else in_transaction body t rest

abbrev pub answer : Conn × Bool → Conn × Reply
answer (conn, good) = (conn, if good then done else refused 0)
