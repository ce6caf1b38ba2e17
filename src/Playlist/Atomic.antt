-- ===== src/Playlist/Atomic.antt =====
-- The error paths of the write handlers of internal/api/playlists.go.
use preamp.Base.{ℕ, Bool, true, false, List, Option, none, some, ◌≡◌, ◌≢◌, refl, arith}
use preamp.Base.Text.{Bytes}
use preamp.Db.{Tables, Playlist}
use preamp.Db.Transaction.{Conn, committed}
use preamp.Db.Handler.{refused, done, listed, on_write_conn, Reply}
use preamp.Db.Outcome.{Atomic, answer-refused, on_write_conn-failed}
use preamp.Playlist.{
  Form, answer_with, read_back, target, create_statements, update_statements, delete_statements,
  create_playlist, update_playlist, delete_playlist,
}

listed-refused :
    (read : Option (Option Playlist × List Bytes)) (code : ℕ)
    → (elim read [ none ↦ done | some r ↦ listed r.0 r.1 ]) ≢ refused code
listed-refused none code e = ground (arith, e)
listed-refused (some r) code e = ground (arith, e)

answer_with-refused :
    (id : Bytes) (t : Tables) (code : ℕ) (x : Conn × Bool)
    → (x.1 ≡ false → committed x.0 ≡ t)
    → (answer_with id x).1 ≡ refused code
    → committed (answer_with id x).0 ≡ t
answer_with-refused id t code (conn, true) h e =
    elim (listed-refused (read_back id (record { tables = conn.tables; faults = conn.faults })).1
      code e) [ ]
answer_with-refused id t code (conn, false) h e = h refl

module _ (now user : Bytes) where
  create_playlist-Atomic :
      (new_id : Bytes) (form : Option Form) → Atomic (create_playlist now new_id user form)
  unfolding create_playlist committed
  create_playlist-Atomic new_id none t faults code e = refl
  create_playlist-Atomic new_id (some form) t faults code e =
      let id = target new_id form in
      let body = create_statements now user id form in
      ground (
        arith,
        e,
        answer_with-refused id t code (on_write_conn body t faults)
            (on_write_conn-failed body t faults),
      )

  update_playlist-Atomic : (form : Option Form) → Atomic (update_playlist now user form)
  unfolding update_playlist committed
  update_playlist-Atomic none t faults code e = refl
  update_playlist-Atomic (some form) t faults code e =
      let body = update_statements now user form in
      ground (
        arith,
        e,
        answer-refused t code (on_write_conn body t faults) (on_write_conn-failed body t faults),
      )

delete_playlist-Atomic : (user id : Bytes) → Atomic (delete_playlist user id)
unfolding delete_playlist committed
delete_playlist-Atomic user id t faults code e =
    let body = delete_statements user id in
    ground (
      arith,
      e,
      answer-refused t code (on_write_conn body t faults) (on_write_conn-failed body t faults),
    )

-- An error reply goes with the tables that were committed before.
abbrev pub Kept : Tables → Conn × Reply → Type 0
Kept t (conn, refused code) = committed conn ≡ t
Kept t (conn, done) = Unit
Kept t (conn, listed p songs) = Unit

Atomic-Kept :
    (t : Tables) (x : Conn × Reply)
    → ((code : ℕ) → x.1 ≡ refused code → committed x.0 ≡ t)
    → Kept t x
Atomic-Kept t (conn, refused code) h = h code refl
Atomic-Kept t (conn, done) h = tt
Atomic-Kept t (conn, listed p songs) h = tt

-- handleCreatePlaylist, handleUpdatePlaylist and handleDeletePlaylist: for every request, and
-- whatever the engine fails, ROLLBACK and COMMIT included, an error reply means that the committed
-- tables are those before the request.
pub write_handlers-Kept :
    (now new_id user id : Bytes) (form : Option Form) (t : Tables) (faults : List Bool)
    → Kept t (create_playlist now new_id user form t faults)
      × Kept t (update_playlist now user form t faults)
      × Kept t (delete_playlist user id t faults)
write_handlers-Kept now new_id user id form t faults = (
  Atomic-Kept t _ (create_playlist-Atomic now user new_id form t faults),
  Atomic-Kept t _ (update_playlist-Atomic now user form t faults),
  Atomic-Kept t _ (delete_playlist-Atomic user id t faults),
)
