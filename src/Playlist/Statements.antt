-- ===== src/Playlist/Statements.antt =====
-- The SQL statements of internal/api/playlists.go, as functions on the tables of
-- internal/db/schema.go; `none` is a broken constraint. Rows stand in the order of insertion.
use preamp.Base.{
  ℕ, suc, Bool, true, false, ◌&&◌, ◌||◌, List, [], ◌∷◌, ◌++◌, map, Option, none, some, ◌==◌, leb,
  if◌then◌else◌,
}
use Prim.Native.Nat.{max}
use preamp.Base.Int.{ℤ, pos, negsuc}
use preamp.Base.Text.{Bytes, bytes_eq}
use preamp.Db.{has_song, Tables, Playlist, PlaylistSong}

unfoldable pub has_playlist : Bytes → List Playlist → Bool
has_playlist id [] = false
has_playlist id (p ∷ ps) = bytes_eq p.id id || has_playlist id ps

-- `WHERE playlist_id = ?`.
unfoldable pub rows_of : Bytes → List PlaylistSong → List PlaylistSong
rows_of id [] = []
rows_of id (e ∷ es) =
    let rest = rows_of id es in if bytes_eq id e.playlist_id then e ∷ rest else rest

-- PRIMARY KEY (playlist_id, position).
unfoldable pub taken : Bytes → ℕ → List PlaylistSong → Bool
taken id position [] = false
taken id position (e ∷ es) =
    (bytes_eq id e.playlist_id && e.position == position) || taken id position es

-- `INSERT INTO playlist_song (playlist_id, song_id, position) VALUES (?, ?, ?)`, with its foreign
-- keys and its primary key.
unfoldable pub insert_entry : Bytes → Bytes → ℕ → Tables → Option Tables
insert_entry id song position t =
    if has_playlist id t.playlists
      && (has_song song t.songs && (if taken id position t.entries then false else true))
    then some (record t {
      entries =
          t.entries ++ (record { playlist_id = id; song_id = song; position = position } ∷ []);
    })
    else none

unfoldable pub without : Bytes → List PlaylistSong → List PlaylistSong
without id [] = []
without id (e ∷ es) =
    let rest = without id es in if bytes_eq id e.playlist_id then rest else e ∷ rest

-- `DELETE FROM playlist_song WHERE playlist_id = ?`.
unfoldable pub delete_entries : Bytes → Tables → Option Tables
delete_entries id t = some (record t { entries = without id t.entries })

-- An index below 0 is the position of no row.
unfoldable pub at_index : ℤ → ℕ → Bool
at_index (pos n) position = position == n
at_index (negsuc n) position = false

unfoldable pub strike : Bytes → ℤ → List PlaylistSong → List PlaylistSong
strike id index [] = []
strike id index (e ∷ es) =
    let rest = strike id index es in
    if bytes_eq id e.playlist_id && at_index index e.position then rest else e ∷ rest

-- `DELETE FROM playlist_song WHERE playlist_id = ? AND position = ?`.
unfoldable pub delete_entry : Bytes → ℤ → Tables → Option Tables
delete_entry id index t = some (record t { entries = strike id index t.entries })

-- `ORDER BY position`: positions of one playlist are different, so the order is the only one.
unfoldable pub by_position : PlaylistSong → List PlaylistSong → List PlaylistSong
by_position e [] = e ∷ []
by_position e (f ∷ fs) =
    let rest = by_position e fs in if leb e.position f.position then e ∷ f ∷ fs else f ∷ rest

unfoldable pub ordered : List PlaylistSong → List PlaylistSong
ordered [] = []
ordered (e ∷ es) = by_position e (ordered es)

-- `SELECT song_id, position FROM playlist_song WHERE playlist_id = ? ORDER BY position`.
unfoldable pub select_songs : Bytes → Tables → List Bytes
select_songs id t = map (λ e. e.song_id) (ordered (rows_of id t.entries))

-- One more than the greatest position, or 0 without a row.
unfoldable pub next_position : List PlaylistSong → ℕ
next_position [] = 0
next_position (e ∷ es) = max (suc e.position) (next_position es)

-- `SELECT COALESCE(MAX(position), -1) FROM playlist_song WHERE playlist_id = ?`, plus 1.
unfoldable pub select_next_position : Bytes → Tables → ℕ
select_next_position id t = next_position (rows_of id t.entries)

-- A row with the columns' defaults.
abbrev pub new_playlist : Bytes → Bytes → Bytes → Bytes → Playlist
new_playlist now id user name = record {
  id = id;
  user_id = user;
  name = name;
  comment = [];
  public = 0;
  created_at = now;
  updated_at = now;
}

-- `INSERT INTO playlist (id, user_id, name) VALUES (?, ?, ?)`.
unfoldable pub insert_playlist : Bytes → Bytes → Bytes → Bytes → Tables → Option Tables
insert_playlist now id user name t =
    if has_playlist id t.playlists
    then none
    else some (record t { playlists = t.playlists ++ (new_playlist now id user name ∷ []) })

-- `UPDATE playlist SET ..., updated_at = ... WHERE id = ? AND user_id = ?`.
unfoldable pub change_playlist :
    Bytes → Bytes → (Playlist → Playlist) → List Playlist → List Playlist
change_playlist id user f [] = []
change_playlist id user f (p ∷ ps) =
    (if bytes_eq id p.id && bytes_eq user p.user_id then f p else p) ∷ change_playlist id user f ps

unfoldable pub update_playlist_row : Bytes → Bytes → (Playlist → Playlist) → Tables → Option Tables
update_playlist_row id user f t =
    some (record t { playlists = change_playlist id user f t.playlists })

abbrev pub set_name : Bytes → Bytes → Playlist → Playlist
set_name now name p = record p { name = name; updated_at = now }

abbrev pub set_comment : Bytes → Bytes → Playlist → Playlist
set_comment now comment p = record p { comment = comment; updated_at = now }

abbrev pub set_public : Bytes → ℕ → Playlist → Playlist
set_public now public p = record p { public = public; updated_at = now }

unfoldable pub without_playlist : Bytes → Bytes → List Playlist → List Playlist
without_playlist id user [] = []
without_playlist id user (p ∷ ps) =
    let rest = without_playlist id user ps in
    if bytes_eq id p.id && bytes_eq user p.user_id then rest else p ∷ rest

unfoldable pub owns : Bytes → Bytes → List Playlist → Bool
owns id user [] = false
owns id user (p ∷ ps) = (bytes_eq id p.id && bytes_eq user p.user_id) || owns id user ps

-- `DELETE FROM playlist WHERE id = ? AND user_id = ?`, with ON DELETE CASCADE.
unfoldable pub delete_playlist_row : Bytes → Bytes → Tables → Option Tables
delete_playlist_row id user t = some (record t {
  playlists = without_playlist id user t.playlists;
  entries = if owns id user t.playlists then without id t.entries else t.entries;
})

-- `SELECT ... FROM playlist p WHERE p.id = ?`.
unfoldable pub find_playlist : Bytes → List Playlist → Option Playlist
find_playlist id [] = none
find_playlist id (p ∷ ps) =
    let rest = find_playlist id ps in if bytes_eq id p.id then some p else rest
