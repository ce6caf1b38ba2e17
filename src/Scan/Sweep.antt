-- ===== src/Scan/Sweep.antt =====
-- What Scanner.Run of internal/scanner/scanner.go does behind the pipeline: deleteSongs, resolveAlbumArt,
-- updateAlbumStats, deleteOrphans and rebuildFTS.
pub mod Deletion
pub mod Remains
pub mod Art
pub mod Orphans
pub mod Kept
pub mod Index
pub mod Faults
use preamp.Base.{
  ℕ, Bool, true, false, ◌&&◌, ◌||◌, List, [], ◌∷◌, Option, none, some, ltb, ◌==◌, if◌then◌else◌,
}
use preamp.Base.Dict.{lookup}
use preamp.Base.Text.{Bytes, bytes_eq, is_empty, one_of}
use preamp.Db.{Album, Song, Db, pure, ◌>>=◌, ◌>>◌, next_fault, execute, query}
use preamp.Scan.Path.{dir}
use preamp.Scan.Statements.{
  song_ids, plays_without, stars_without, entries_without, delete_song_rows, delete_orphan_albums,
  delete_orphan_artists, drop_fts, create_fts, fill_fts, set_cover,
}
use preamp.Scan.Walk.{KnownFile}
use preamp.Scan.Writer.{end_fn, is_some, in_batches}

-- The known paths that were not seen. The order is that of the map.
unfoldable pub gone_paths : List Bytes → List (Bytes × KnownFile) → List Bytes
gone_paths seen [] = []
gone_paths seen ((path, k) ∷ known) =
    let rest = gone_paths seen known in if one_of path seen then rest else path ∷ rest

-- The rows that refer to the songs, if there are any.
unfoldable pub delete_references : List Bytes → Db (Unit {0})
delete_references [] = pure tt
delete_references (id ∷ ids) =
    execute (λ t. some (record t { plays = plays_without (id ∷ ids) t.plays }))
    >> execute (λ t. some (record t { stars = stars_without (id ∷ ids) t.stars }))
    >> execute (λ t. some (record t { entries = entries_without (id ∷ ids) t.entries }))

unfoldable pub chunk_statements : List Bytes → Db (Unit {0})
chunk_statements paths = query (λ t. song_ids paths t.songs) >>= λ ids.
    delete_references ids >> execute (delete_song_rows paths)

-- One chunk. The error that endFn leaves is returned.
unfoldable pub delete_chunk : List Bytes → Unit {0} → Db (Unit {0})
unfolding next_fault end_fn
delete_chunk paths u s =
    let (fault, rest) = next_fault s.faults in
    if fault
    then (record { tables = s.tables; faults = rest }, none)
    else let (r, result) = chunk_statements paths (record { tables = s.tables; faults = rest }) in
      let (r', good) = end_fn s.tables (is_some result) r in (r', if good then some tt else none)

abbrev pub chunk_size : ℕ
chunk_size = 500

unfoldable pub delete_songs : List Bytes → Db (Unit {0})
unfolding in_batches
delete_songs paths = in_batches chunk_size delete_chunk [] paths tt

-- `_ = sqlitex.ExecuteTransient(...)`, and an error that is only logged.
unfoldable pub ignoring : Db (Unit {0}) → Db (Unit {0})
ignoring m s = ((m s).0, some tt)

unfoldable pub bytes_ltb : Bytes → Bytes → Bool
bytes_ltb [] [] = false
bytes_ltb [] (y ∷ ys) = true
bytes_ltb (x ∷ xs) [] = false
bytes_ltb (x ∷ xs) (y ∷ ys) = ltb x y || (x == y && bytes_ltb xs ys)

-- `MIN(s.path)` of the songs of an album, in the order of bytes.
unfoldable pub min_path : Bytes → List Song → Option Bytes
unfolding bytes_ltb
min_path id [] = none
min_path id (s ∷ ss) =
    let rest = min_path id ss in
    if bytes_eq id s.album_id
    then some (elim rest [ none ↦ s.path | some p ↦ if bytes_ltb p s.path then p else s.path ])
    else rest

pub record AlbumInfo : Type 0 where
  pub id : Bytes
  pub cover_art : Bytes
  pub song_dir : Bytes

unfoldable pub album_infos : List Song → List Album → List AlbumInfo
album_infos songs [] = []
album_infos songs (a ∷ as') =
    let rest = album_infos songs as' in
    elim (min_path a.id songs) [
      | none ↦ rest
      | some path ↦
          record {
            id = a.id;
            cover_art = elim a.cover_art [ none ↦ [] | some art ↦ art ];
            song_dir = dir path;
          }
          ∷ rest
    ]

-- `exists` is whether os.Stat finds the file.
module _ (exists : Bytes → Bool) (folder_art : List (Bytes × Bytes)) where
  unfoldable pub assign_art : AlbumInfo → Db (Unit {0})
  assign_art a = elim (lookup a.song_dir folder_art) [
    | none ↦ pure tt
    | some art ↦ ignoring (execute (set_cover a.id (some art)))
  ]

  unfoldable pub resolve_one : AlbumInfo → Db (Unit {0})
  resolve_one a =
      if is_empty a.cover_art
      then assign_art a
      else if exists a.cover_art
      then pure tt
      else ignoring (execute (set_cover a.id none)) >> assign_art a

  unfoldable pub resolve_each : List AlbumInfo → Db (Unit {0})
  resolve_each [] = pure tt
  resolve_each (a ∷ as') = resolve_one a >> resolve_each as'

  unfoldable pub resolve_album_art : Db (Unit {0})
  resolve_album_art = query (λ t. album_infos t.songs t.albums) >>= λ infos. resolve_each infos

unfoldable pub delete_orphans : Db (Unit {0})
delete_orphans = execute delete_orphan_albums >> execute delete_orphan_artists

-- The error of the last statement is returned, but `err` stays nil for endFn, which commits.
unfoldable pub rebuild_fts : Db (Unit {0})
unfolding next_fault end_fn
rebuild_fts s =
    let (fault, rest) = next_fault s.faults in
    if fault
    then (record { tables = s.tables; faults = rest }, none)
    else let (r, result) =
        (execute drop_fts >> execute create_fts) (record { tables = s.tables; faults = rest }) in
      elim result [
        | none ↦ ((end_fn s.tables false r).0, none)
        | some _ ↦ let (r', filled) = execute fill_fts r in ((end_fn s.tables true r').0, filled)
      ]
