-- ===== src/Playlist.antt =====
-- handleCreatePlaylist, handleUpdatePlaylist, handleDeletePlaylist and resequencePlaylist of
-- internal/api/playlists.go. A handler gets the user's name, the form, and the tables of a connection
-- with no open transaction; it leaves the connection and a reply. The faults say first whether
-- `WriteConn` fails, then of each statement whether the engine fails it.
pub mod Statements
pub mod Rows
pub mod Removal
pub mod Loops
pub mod Atomic
pub mod Update
pub mod Create
pub mod Delete
pub mod Owner
use preamp.Base.{
  ℕ, zero, suc, ◌+◌, Bool, true, false, ◌&&◌, List, [], ◌∷◌, length, Option, none, some, ltb, leb,
  if◌then◌else◌,
}
use preamp.Base.Int.{ℤ, pos, negsuc, atoi}
use preamp.Base.Text.{Bytes, bytes_eq, codes, is_empty}
use preamp.Db.Handler.{Reply, refused, done, listed, on_write_conn, answer}
use preamp.Db.{Tables, Playlist, Db, Run, pure, ◌>>=◌, ◌>>◌, next_fault, execute, query}
use preamp.Db.Transaction.{Conn, idle, in_transaction}
use preamp.Playlist.Statements.{
  insert_entry, delete_entries, delete_entry, select_songs, select_next_position, insert_playlist,
  update_playlist_row, set_name, set_comment, set_public, delete_playlist_row, find_playlist,
}

-- A value that is missing is empty; `comment` and `public` are their first value, if they have one.
pub record Form : Type 0 where
  pub playlist_id : Bytes
  pub name : Bytes
  pub song_ids : List Bytes
  pub comment : Option Bytes
  pub public : Option Bytes
  pub song_index_to_remove : List Bytes
  pub song_id_to_add : List Bytes

-- The rows for the songs, from a position on.
unfoldable pub insert_songs : Bytes → ℕ → List Bytes → Db (Unit {0})
insert_songs id position [] = pure tt
insert_songs id position (song ∷ songs) =
    execute (insert_entry id song position) >> insert_songs id (suc position) songs

unfoldable pub resequence_playlist : Bytes → Db (Unit {0})
unfolding insert_songs
resequence_playlist id =
    query (select_songs id) >>= λ songs. execute (delete_entries id) >> insert_songs id 0 songs

-- The indices that `strconv.Atoi` accepts.
unfoldable pub parse_indices : List Bytes → List ℤ
unfolding atoi
parse_indices [] = []
parse_indices (s ∷ ss) =
    let (index, good) = atoi s in let rest = parse_indices ss in if good then index ∷ rest else rest

unfoldable pub int_leb : ℤ → ℤ → Bool
int_leb (pos m) (pos n) = leb m n
int_leb (pos m) (negsuc n) = false
int_leb (negsuc m) (pos n) = true
int_leb (negsuc m) (negsuc n) = leb n m

-- `sort.Sort(sort.Reverse(sort.IntSlice(indices)))`.
unfoldable pub insert_descending : ℤ → List ℤ → List ℤ
unfolding int_leb
insert_descending i [] = i ∷ []
insert_descending i (j ∷ js) =
    let rest = insert_descending i js in if int_leb j i then i ∷ j ∷ js else j ∷ rest

unfoldable pub sort_descending : List ℤ → List ℤ
sort_descending [] = []
sort_descending (i ∷ is) = insert_descending i (sort_descending is)

unfoldable pub delete_indices : Bytes → List ℤ → Db (Unit {0})
delete_indices id [] = pure tt
delete_indices id (i ∷ is) = execute (delete_entry id i) >> delete_indices id is

-- An empty name changes nothing.
unfoldable pub change_name : Bytes → Bytes → Bytes → Bytes → Db (Unit {0})
change_name now user id name =
    if is_empty name then pure tt else execute (update_playlist_row id user (set_name now name))

unfoldable pub change_comment : Bytes → Bytes → Bytes → Option Bytes → Db (Unit {0})
change_comment now user id none = pure tt
change_comment now user id (some comment) =
    execute (update_playlist_row id user (set_comment now comment))

unfoldable pub change_public : Bytes → Bytes → Bytes → Option Bytes → Db (Unit {0})
unfolding bytes_eq
change_public now user id none = pure tt
change_public now user id (some public) =
    execute (
      update_playlist_row id user
        (set_public now (if bytes_eq public (codes "true") then 1 else 0)))

unfoldable pub change_metadata : Bytes → Bytes → Form → Db (Unit {0})
unfolding change_name change_comment change_public
change_metadata now user form =
    change_name now user form.playlist_id form.name
    >> change_comment now user form.playlist_id form.comment
    >> change_public now user form.playlist_id form.public

unfoldable pub remove_songs : Bytes → List Bytes → Db (Unit {0})
unfolding parse_indices sort_descending insert_descending delete_indices resequence_playlist
remove_songs id [] = pure tt
remove_songs id (s ∷ ss) =
    delete_indices id (sort_descending (parse_indices (s ∷ ss))) >> resequence_playlist id

unfoldable pub add_songs : Bytes → List Bytes → Db (Unit {0})
unfolding insert_songs
add_songs id [] = pure tt
add_songs id (s ∷ ss) =
    query (select_next_position id) >>= λ position. insert_songs id position (s ∷ ss)

-- The statements of handleUpdatePlaylist between BEGIN and COMMIT.
unfoldable pub update_statements : Bytes → Bytes → Form → Db (Unit {0})
update_statements now user form =
    change_metadata now user form
    >> remove_songs form.playlist_id form.song_index_to_remove
    >> add_songs form.playlist_id form.song_id_to_add

abbrev pub max_playlist_songs : ℕ
max_playlist_songs = 10000

-- An existing playlist is renamed if there is a name, and cleared; a new one is inserted.
unfoldable pub prepare_playlist : Bytes → Bytes → Bytes → Form → Db (Unit {0})
prepare_playlist now user id form =
    if is_empty form.playlist_id
    then execute (insert_playlist now id user form.name)
    else change_name now user id form.name >> execute (delete_entries id)

-- The statements of handleCreatePlaylist between BEGIN and COMMIT. `id` is the playlist's, or a new
-- one where the form has none.
unfoldable pub create_statements : Bytes → Bytes → Bytes → Form → Db (Unit {0})
create_statements now user id form =
    prepare_playlist now user id form >> insert_songs id 0 form.song_ids

-- The playlist and its songs. The joins with song, artist and album find every row, since they follow
-- foreign keys; the columns that they add are left out.
unfoldable pub read_back : Bytes → Db (Option Playlist × List Bytes)
read_back id = query (λ t. find_playlist id t.playlists) >>= λ playlist.
    query (select_songs id) >>= λ songs. pure (playlist, songs)

abbrev pub answer_with : Bytes → Conn × Bool → Conn × Reply
answer_with id (conn, false) = (conn, refused 0)
answer_with id (conn, true) =
    let (r, result) = read_back id (record { tables = conn.tables; faults = conn.faults }) in
    (
      record conn { faults = r.faults },
      elim result [ none ↦ done | some read ↦ listed read.0 read.1 ],
    )

abbrev pub target : Bytes → Form → Bytes
target new_id form = if is_empty form.playlist_id then new_id else form.playlist_id

-- `none` for the form is a request that ParseForm refuses; `new_id` is what `db.NewID` returns.
unfoldable pub create_playlist :
    Bytes → Bytes → Bytes → Option Form → Tables → List Bool → Conn × Reply
create_playlist now new_id user none t faults =
    (idle t faults, refused (if is_empty user then 10 else 0))
create_playlist now new_id user (some form) t faults =
    if is_empty user
    then (idle t faults, refused 10)
    else if ltb max_playlist_songs (length form.song_ids)
    then (idle t faults, refused 0)
    else if is_empty form.playlist_id && is_empty form.name
    then (idle t faults, refused 10)
    else answer_with (target new_id form)
        (on_write_conn (create_statements now user (target new_id form) form) t faults)

unfoldable pub update_playlist : Bytes → Bytes → Option Form → Tables → List Bool → Conn × Reply
update_playlist now user none t faults = (idle t faults, refused (if is_empty user then 10 else 0))
update_playlist now user (some form) t faults =
    if is_empty user
    then (idle t faults, refused 10)
    else if is_empty form.playlist_id
    then (idle t faults, refused 10)
    else answer (on_write_conn (update_statements now user form) t faults)

unfoldable pub delete_statements : Bytes → Bytes → Db (Unit {0})
delete_statements user id = execute (delete_entries id) >> execute (delete_playlist_row id user)

unfoldable pub delete_playlist : Bytes → Bytes → Tables → List Bool → Conn × Reply
delete_playlist user id t faults =
    if is_empty user
    then (idle t faults, refused 10)
    else if is_empty id
    then (idle t faults, refused 10)
    else answer (on_write_conn (delete_statements user id) t faults)
