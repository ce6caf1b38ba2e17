-- ===== src/Playlist/Create.antt =====
-- handleCreatePlaylist of internal/api/playlists.go, for a new playlist and for an existing one whose
-- songs it replaces, with the playlist that it reads back.
use mathlib.Core.Path.{subst}
use preamp.Base.{
  true, false, List, [], ◌∷◌, ◌++◌, some, ◌≡◌, refl, ap, arith, ◌∙◌, sym, ◌⊎◌, inl, inr, Bool, none,
  Option, ltb, length, ◌&&◌,
}
use preamp.Base.Dict.{bytes_eq_refl}
use preamp.Base.Text.{Bytes, is_empty}
use preamp.Db.Transaction.{committed}
use preamp.Db.{Tables, Playlist, execute, pure, query, ◌>>◌, ◌>>=◌, Run}
use preamp.Db.Ensures.{
  Does, Does-execute, Does-pure, Does-then, Does-query, Does-bind, Settles, faulty, Ensures,
}
use preamp.Db.Outcome.{on_write_conn-Settles}
use preamp.Db.Handler.{Reply, listed, done, refused, on_write_conn}
use preamp.Playlist.{
  Form, change_name, insert_songs, create_statements, target, read_back, prepare_playlist, Conn,
  answer_with, create_playlist, max_playlist_songs,
}
use preamp.Playlist.Statements.{
  has_playlist, rows_of, insert_playlist, find_playlist, select_songs, delete_entries, new_playlist,
}
use preamp.Playlist.Rows.{numbered, numbered-Ascending, map-numbered}
use preamp.Playlist.Loops.{
  Holds, Exist, insert_songs-Holds, delete_entries-Holds, select_songs-Holds,
}
use preamp.Playlist.Update.{change_name-Holds}

has_playlist-added : (ps : List Playlist) (p : Playlist) → has_playlist p.id (ps ++ (p ∷ [])) ≡ true
unfolding has_playlist
has_playlist-added [] p = rw (bytes_eq_refl p.id) refl
has_playlist-added (q ∷ ps) p = ground (arith, has_playlist-added ps p)

module _ (before : Tables) (form : Form) (new_id : Bytes) where
  -- The form names a playlist that exists, or gives a name for a new one under an id without rows.
  abbrev pub IsTarget : Type 0
  IsTarget =
      ((is_empty form.playlist_id ≡ false)
        × (has_playlist form.playlist_id before.playlists ≡ true))
      ⊎ ((is_empty form.playlist_id ≡ true)
          × (is_empty form.name ≡ false)
          × (has_playlist new_id before.playlists ≡ false)
          × (rows_of new_id before.entries ≡ []))

  -- The playlist has the form's songs at positions 0, 1, ..., and no other one changes.
  abbrev pub Created : Tables → Type 0
  Created = Holds before (target new_id form) (numbered (target new_id form) 0 form.song_ids)

  insert_playlist-Holds :
      (now user : Bytes)
      → has_playlist new_id before.playlists ≡ false
      → rows_of new_id before.entries ≡ []
      → Does
          (λ t. t ≡ before)
          (execute (insert_playlist now new_id user form.name))
          (λ _. Holds before new_id [])
  unfolding insert_playlist
  insert_playlist-Holds now user fresh empty =
      Does-execute (λ t. t ≡ before) (Holds before new_id [])
        (insert_playlist now new_id user form.name)
        (λ t e.
          subst
            (λ x.
              (t' : Tables) × (insert_playlist now new_id user form.name x ≡ some t')
              × Holds before new_id [] t')
            (sym e)
            (
              record before {
                playlists = before.playlists ++ (new_playlist now new_id user form.name ∷ []);
              },
              rw fresh refl,
              (
                has_playlist-added before.playlists (new_playlist now new_id user form.name),
                refl,
                empty,
                λ j ne. refl,
              ),
            ))

  clear_playlist-Holds :
      (now user id : Bytes)
      → has_playlist id before.playlists ≡ true
      → Does
          (λ t. t ≡ before)
          (change_name now user id form.name >> execute (delete_entries id))
          (λ _. Holds before id [])
  clear_playlist-Holds now user id known s e =
      let rows = rows_of id before.entries in
      Does-then (Holds before id rows) (Holds before id rows) (λ _. Holds before id [])
        (change_name now user id form.name) (execute (delete_entries id))
        (change_name-Holds before id rows now user id form.name)
        (delete_entries-Holds before id rows) s
        (subst (Holds before id rows) (sym e) (known, refl, refl, λ j ne. refl))

  prepare_playlist-Holds :
      (now user : Bytes)
      → IsTarget
      → Does
          (λ t. t ≡ before)
          (prepare_playlist now user (target new_id form) form)
          (λ _. Holds before (target new_id form) [])
  unfolding prepare_playlist
  prepare_playlist-Holds now user (inl (named, known)) =
      rw named (clear_playlist-Holds now user form.playlist_id known)
  prepare_playlist-Holds now user (inr (unnamed, name, fresh, empty)) =
      rw unnamed (insert_playlist-Holds now user fresh empty)

  create_statements-Created :
      (now user : Bytes)
      → IsTarget
      → Exist before (target new_id form) form.song_ids
      → Does (λ t. t ≡ before) (create_statements now user (target new_id form) form) (λ _. Created)
  unfolding create_statements
  create_statements-Created now user h exist =
      let id = target new_id form in
      Does-then (λ t. t ≡ before) (Holds before id []) (λ _. Created)
        (prepare_playlist now user id form) (insert_songs id 0 form.song_ids)
        (prepare_playlist-Holds now user h)
        (insert_songs-Holds before id [] 0 form.song_ids tt exist)

-- What handleCreatePlaylist reads back, unless the engine fails a SELECT.
read_back_lem :
    (id : Bytes) (t : Tables)
    → Does
        (λ x. x ≡ t)
        (read_back id)
        (λ read _. read ≡ (find_playlist id t.playlists, select_songs id t))
unfolding read_back
read_back_lem id t =
    let P : Tables → Type 0 = λ x. x ≡ t in
    Does-bind P (λ p x. (p ≡ find_playlist id t.playlists) × P x)
      (λ read _. read ≡ (find_playlist id t.playlists, select_songs id t))
      (query (λ x. find_playlist id x.playlists))
      (λ playlist. query (select_songs id) >>= λ songs. pure (playlist, songs))
      (Does-query P (λ p x. (p ≡ find_playlist id t.playlists) × P x)
        (λ x. find_playlist id x.playlists) (λ x e. (ap (λ y. find_playlist id y.playlists) e, e)))
      (λ playlist s h.
        Does-bind P (λ songs _. songs ≡ select_songs id t)
          (λ read _. read ≡ (find_playlist id t.playlists, select_songs id t))
          (query (select_songs id)) (λ songs. pure (playlist, songs))
          (Does-query P (λ songs _. songs ≡ select_songs id t) (select_songs id)
            (λ x e. ap (select_songs id) e))
          (λ songs.
            Does-pure (λ _. songs ≡ select_songs id t)
              (λ read _. read ≡ (find_playlist id t.playlists, select_songs id t)) (playlist, songs)
              (λ x e. ap (λ p. (p, songs)) h.0 ∙ ap (λ z. (find_playlist id t.playlists, z)) e))
          s h.1)

-- The playlist and its songs are committed, and the reply lists them, or is ok after a failed SELECT;
-- or the engine failed a statement, the reply is error 0, and the committed tables are those before.
abbrev pub CreateAnswered :
    (Tables → Type 0) → Bytes → List Bytes → Tables → List Bool → Conn × Reply → Type 0
CreateAnswered Q id songs before faults (conn, reply) =
    ((conn.saved ≡ none)
      × Q conn.tables
      × ((reply ≡ listed (find_playlist id conn.tables.playlists) songs)
          ⊎ ((reply ≡ done) × (faulty faults ≡ true))))
    ⊎ ((reply ≡ refused 0) × (committed conn ≡ before) × (faulty faults ≡ true))

read_back-reply :
    (p : Option Playlist) (songs : List Bytes) (faults : List Bool)
    (x : Run × Option (Option Playlist × List Bytes))
    → Ensures faults (λ read _. read ≡ (p, songs)) x
    → (elim x.1 [ none ↦ done | some read ↦ listed read.0 read.1 ] ≡ listed p songs)
      ⊎ ((elim x.1 [ none ↦ done | some read ↦ listed read.0 read.1 ] ≡ done)
          × (faulty faults ≡ true))
read_back-reply p songs faults (r, none) f = inr (refl, f)
read_back-reply p songs faults (r, some read) (e, back) =
    inl (ap (λ (x : Option Playlist × List Bytes). listed x.0 x.1) e)

answer_with-CreateAnswered :
    (Q : Tables → Type 0) (id : Bytes) (songs : List Bytes) (before : Tables) (faults : List Bool)
    (x : Conn × Bool)
    → ((t : Tables) → Q t → select_songs id t ≡ songs)
    → Settles Q before faults x
    → CreateAnswered Q id songs before faults (answer_with id x)
answer_with-CreateAnswered Q id songs before faults (conn, good) h (inr (g, s, f)) =
    rw g (inr (refl, s, f))
answer_with-CreateAnswered Q id songs before faults (conn, good) h (inl (g, s, q, back)) =
    let r : Run = record { tables = conn.tables; faults = conn.faults } in
    let p = find_playlist id conn.tables.playlists in
    rw g (
      inl (
        s,
        q,
        elim (read_back-reply p (select_songs id conn.tables) conn.faults (read_back id r)
            (read_back_lem id conn.tables r refl)) [
              | inl e ↦ inl (e ∙ ap (listed p) (h conn.tables q))
              | inr (e, f) ↦ inr (e, back f)
            ],
      ))

module _ (before : Tables) (form : Form) (new_id : Bytes) where
  -- A request with a user, at most 10000 songs, which all exist, and either the id of a playlist that
  -- exists or a name: the playlist is committed with these songs in this order, whatever it had
  -- before, no other playlist's rows change, and the reply lists the songs, or is ok if a SELECT behind
  -- the commit fails; or the engine failed a statement, the reply is error 0, and the committed tables
  -- are those before. A new id is that of no playlist and no row.
  pub create_playlist_lem :
      (now user : Bytes) (faults : List Bool)
      → is_empty user ≡ false
      → ltb max_playlist_songs (length form.song_ids) ≡ false
      → IsTarget before form new_id
      → Exist before (target new_id form) form.song_ids
      → CreateAnswered
          (Created before form new_id)
          (target new_id form)
          form.song_ids
          before
          faults
          (create_playlist now new_id user (some form) before faults)
  unfolding create_playlist
  create_playlist_lem now user faults hu few h exist =
      let id = target new_id form in
      let body = create_statements now user id form in
      let asked : (is_empty form.playlist_id && is_empty form.name) ≡ false = asks h in
      rw (hu, few, asked)
        (answer_with-CreateAnswered (Created before form new_id) id form.song_ids before faults
          (on_write_conn body before faults)
          (λ t c.
            select_songs-Holds before id (numbered id 0 form.song_ids) t
              (numbered-Ascending id 0 form.song_ids) c
            ∙ map-numbered id 0 form.song_ids)
          (on_write_conn-Settles (λ t. t ≡ before) (Created before form new_id) body before faults
            (create_statements-Created before form new_id now user h exist) refl))
    where
      asks : IsTarget before form new_id → (is_empty form.playlist_id && is_empty form.name) ≡ false
      asks (inl (n, k)) = ground (arith, n)
      asks (inr (u, n, f, e)) = ground (arith, n)
