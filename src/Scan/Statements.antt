-- ===== src/Scan/Statements.antt =====
-- The SQL statements of internal/scanner/scanner.go, as functions on the tables of
-- internal/db/schema.go; `none` is a broken constraint. A created_at column is left out.
use preamp.Base.{
  ℕ, suc, ◌+◌, Bool, false, not, ◌&&◌, ◌||◌, List, [], ◌∷◌, ◌++◌, map, Option, none, some, ◌==◌,
  if◌then◌else◌,
}
use preamp.Base.Int.{ℤ}
use preamp.Base.Text.{Bytes, bytes_eq, one_of, codes}
use preamp.Db.{Tables, Artist, Album, Song, Play, Star, PlaylistSong, FtsRow, has_song}

unfoldable pub has_artist : Bytes → List Artist → Bool
has_artist id [] = false
has_artist id (a ∷ as') = bytes_eq id a.id || has_artist id as'

unfoldable pub has_album : Bytes → List Album → Bool
has_album id [] = false
has_album id (a ∷ as') = bytes_eq id a.id || has_album id as'

unfoldable pub artist_named : Bytes → List Artist → Option Bytes
artist_named name [] = none
artist_named name (a ∷ as') =
    let rest = artist_named name as' in if bytes_eq name a.name then some a.id else rest

-- `INSERT INTO artist (id, name) ... ON CONFLICT(name) DO UPDATE SET name = name RETURNING id`.
unfoldable pub upsert_artist_row : Bytes → Bytes → Tables → Option (Tables × Bytes)
upsert_artist_row id name t = elim (artist_named name t.artists) [
  | some i ↦ some (t, i)
  | none ↦
      if has_artist id t.artists
      then none
      else some (record t { artists = t.artists ++ (record { id = id; name = name } ∷ []) }, id)
]

unfoldable pub is_album : Bytes → Bytes → Album → Bool
is_album artist_id name a = bytes_eq artist_id a.artist_id && bytes_eq name a.name

unfoldable pub album_named : Bytes → Bytes → List Album → Option Bytes
album_named artist_id name [] = none
album_named artist_id name (a ∷ as') =
    let rest = album_named artist_id name as' in
    if is_album artist_id name a then some a.id else rest

-- DO UPDATE SET year = excluded.year, genre = excluded.genre.
unfoldable pub retag_album : Bytes → Bytes → ℤ → Bytes → List Album → List Album
retag_album artist_id name year genre [] = []
retag_album artist_id name year genre (a ∷ as') =
    (if is_album artist_id name a then record a { year = year; genre = genre } else a)
    ∷ retag_album artist_id name year genre as'

abbrev pub new_album : Bytes → Bytes → Bytes → ℤ → Bytes → Album
new_album id artist_id name year genre = record {
  id = id;
  artist_id = artist_id;
  name = name;
  year = year;
  genre = genre;
  cover_art = none;
  song_count = 0;
  duration = 0;
}

-- `INSERT INTO album (id, artist_id, name, year, genre) ... ON CONFLICT(artist_id, name) ...
-- RETURNING id`, with the foreign key of artist_id.
unfoldable pub upsert_album_row :
    Bytes → Bytes → Bytes → ℤ → Bytes → Tables → Option (Tables × Bytes)
upsert_album_row id artist_id name year genre t = elim (album_named artist_id name t.albums) [
  | some i ↦ some (record t { albums = retag_album artist_id name year genre t.albums }, i)
  | none ↦
      if has_artist artist_id t.artists && not (has_album id t.albums)
      then some
          (record t { albums = t.albums ++ (new_album id artist_id name year genre ∷ []) }, id)
      else none
]

unfoldable pub has_path : Bytes → List Song → Bool
has_path path [] = false
has_path path (s ∷ ss) = bytes_eq path s.path || has_path path ss

-- A row with the path gets all of the new row but its id.
unfoldable pub put_song : Song → List Song → List Song
put_song s [] = s ∷ []
put_song s (r ∷ rs) =
    let rest = put_song s rs in
    if bytes_eq s.path r.path then record s { id = r.id } ∷ rs else r ∷ rest

-- `INSERT INTO song ... ON CONFLICT(path) DO UPDATE SET ...`, with its foreign keys.
unfoldable pub upsert_song_row : Song → Tables → Option Tables
upsert_song_row s t =
    if has_album s.album_id t.albums
      && (has_artist s.artist_id t.artists
          && (has_path s.path t.songs || not (has_song s.id t.songs)))
    then some (record t { songs = put_song s t.songs })
    else none

-- `SELECT id FROM song WHERE path IN (...)`.
unfoldable pub song_ids : List Bytes → List Song → List Bytes
song_ids paths [] = []
song_ids paths (s ∷ ss) =
    let rest = song_ids paths ss in if one_of s.path paths then s.id ∷ rest else rest

-- `DELETE FROM play_history WHERE song_id IN (...)`.
unfoldable pub plays_without : List Bytes → List Play → List Play
plays_without ids [] = []
plays_without ids (p ∷ ps) =
    let rest = plays_without ids ps in if one_of p.song_id ids then rest else p ∷ rest

-- `DELETE FROM star WHERE item_id IN (...) AND item_type = 'song'`.
unfoldable pub stars_without : List Bytes → List Star → List Star
stars_without ids [] = []
stars_without ids (s ∷ ss) =
    let rest = stars_without ids ss in
    if one_of s.item_id ids && bytes_eq s.item_type (codes "song") then rest else s ∷ rest

-- `DELETE FROM playlist_song WHERE song_id IN (...)`.
unfoldable pub entries_without : List Bytes → List PlaylistSong → List PlaylistSong
entries_without ids [] = []
entries_without ids (e ∷ es) =
    let rest = entries_without ids es in if one_of e.song_id ids then rest else e ∷ rest

unfoldable pub plays_of_any : List Bytes → List Play → Bool
plays_of_any ids [] = false
plays_of_any ids (p ∷ ps) = one_of p.song_id ids || plays_of_any ids ps

unfoldable pub entries_of_any : List Bytes → List PlaylistSong → Bool
entries_of_any ids [] = false
entries_of_any ids (e ∷ es) = one_of e.song_id ids || entries_of_any ids es

unfoldable pub songs_without : List Bytes → List Song → List Song
songs_without paths [] = []
songs_without paths (s ∷ ss) =
    let rest = songs_without paths ss in if one_of s.path paths then rest else s ∷ rest

-- `DELETE FROM song WHERE path IN (...)`: the foreign keys of play_history and playlist_song forbid
-- it while a row there refers to one of the songs.
unfoldable pub delete_song_rows : List Bytes → Tables → Option Tables
delete_song_rows paths t =
    let ids = song_ids paths t.songs in
    if plays_of_any ids t.plays || entries_of_any ids t.entries
    then none
    else some (record t { songs = songs_without paths t.songs })

-- `COUNT(*)` and `SUM(duration)` of the songs of an album.
unfoldable pub count_songs : Bytes → List Song → ℕ
count_songs id [] = 0
count_songs id (s ∷ ss) =
    let rest = count_songs id ss in if bytes_eq id s.album_id then suc rest else rest

unfoldable pub sum_durations : Bytes → List Song → ℕ
sum_durations id [] = 0
sum_durations id (s ∷ ss) =
    let rest = sum_durations id ss in if bytes_eq id s.album_id then s.duration + rest else rest

-- An album with no song is in no group, and keeps its values.
unfoldable pub with_stats : List Song → Album → Album
with_stats songs a =
    let n = count_songs a.id songs in
    if n == 0 then a else record a { song_count = n; duration = sum_durations a.id songs }

unfoldable pub update_stats : Tables → Option Tables
update_stats t = some (record t { albums = map (with_stats t.songs) t.albums })

unfoldable pub albums_with_songs : List Song → List Album → List Album
albums_with_songs songs [] = []
albums_with_songs songs (a ∷ as') =
    let rest = albums_with_songs songs as' in if count_songs a.id songs == 0 then rest else a ∷ rest

-- `DELETE FROM album WHERE id NOT IN (SELECT DISTINCT album_id FROM song)`: no song refers to one.
unfoldable pub delete_orphan_albums : Tables → Option Tables
delete_orphan_albums t = some (record t { albums = albums_with_songs t.songs t.albums })

unfoldable pub has_album_of : Bytes → List Album → Bool
has_album_of artist_id [] = false
has_album_of artist_id (a ∷ as') = bytes_eq artist_id a.artist_id || has_album_of artist_id as'

unfoldable pub artists_with_albums : List Album → List Artist → List Artist
artists_with_albums albums [] = []
artists_with_albums albums (a ∷ as') =
    let rest = artists_with_albums albums as' in if has_album_of a.id albums then a ∷ rest else rest

-- Some song refers to an artist that has no album.
unfoldable pub song_of_orphan : List Album → List Song → Bool
song_of_orphan albums [] = false
song_of_orphan albums (s ∷ ss) = not (has_album_of s.artist_id albums) || song_of_orphan albums ss

-- `DELETE FROM artist WHERE id NOT IN (SELECT DISTINCT artist_id FROM album)`, with the foreign key of
-- song.artist_id.
unfoldable pub delete_orphan_artists : Tables → Option Tables
delete_orphan_artists t =
    if song_of_orphan t.albums t.songs
    then none
    else some (record t { artists = artists_with_albums t.albums t.artists })

-- `DROP TABLE IF EXISTS song_fts`.
unfoldable pub drop_fts : Tables → Option Tables
drop_fts t = some (record t { fts = none })

-- `CREATE VIRTUAL TABLE song_fts`.
unfoldable pub create_fts : Tables → Option Tables
create_fts t = elim t.fts [ none ↦ some (record t { fts = some [] }) | some _ ↦ none ]

unfoldable pub artist_name : Bytes → List Artist → Option Bytes
artist_name id [] = none
artist_name id (a ∷ as') =
    let rest = artist_name id as' in if bytes_eq id a.id then some a.name else rest

unfoldable pub album_name : Bytes → List Album → Option Bytes
album_name id [] = none
album_name id (a ∷ as') =
    let rest = album_name id as' in if bytes_eq id a.id then some a.name else rest

-- The song joined with its artist and its album; ids are unique, so there is one row at most.
unfoldable pub fts_row : Tables → Song → Option FtsRow
fts_row t s = elim (artist_name s.artist_id t.artists) [
  | none ↦ none
  | some artist ↦ elim (album_name s.album_id t.albums) [
    | none ↦ none
    | some album ↦ some (record { title = s.title; artist_name = artist; album_name = album })
  ]
]

unfoldable pub fts_rows : Tables → List Song → List FtsRow
fts_rows t [] = []
fts_rows t (s ∷ ss) =
    let rest = fts_rows t ss in elim (fts_row t s) [ none ↦ rest | some r ↦ r ∷ rest ]

-- `INSERT INTO song_fts ... SELECT ... FROM song s JOIN artist a ... JOIN album al ...`.
unfoldable pub fill_fts : Tables → Option Tables
fill_fts t = elim t.fts [
  | none ↦ none
  | some rows ↦ some (record t { fts = some (rows ++ fts_rows t t.songs) })
]

unfoldable pub cover_albums : Bytes → Option Bytes → List Album → List Album
cover_albums id art [] = []
cover_albums id art (a ∷ as') =
    (if bytes_eq id a.id then record a { cover_art = art } else a) ∷ cover_albums id art as'

-- `UPDATE album SET cover_art = ? WHERE id = ?`.
unfoldable pub set_cover : Bytes → Option Bytes → Tables → Option Tables
set_cover id art t = some (record t { albums = cover_albums id art t.albums })
