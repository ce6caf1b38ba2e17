-- ===== src/Scan/Sweep/Orphans.antt =====
-- updateAlbumStats and deleteOrphans of internal/scanner/scanner.go where the engine fails no statement.
use preamp.Scan.Sweep.Kept.{
  IsCounted, update_stats-All, IsUsed, albums_with_songs-All, NoOrphans,
  delete_orphan_artists-IsSound, update_stats-IsSound, HasStatsOrNone, artists_with_albums-All,
  albums_with_songs-IsSound,
}
use preamp.Base.{All, map, refl, Bool}
use preamp.Db.{Tables, execute}
use preamp.Db.Clean.{Clean, Clean-then, Clean-execute}
use preamp.Base.Text.{Bytes}
use preamp.Scan.Statements.{
  update_stats, with_stats, albums_with_songs, artists_with_albums, delete_orphan_albums,
  delete_orphan_artists,
}
use preamp.Scan.Sweep.{delete_orphans}
use preamp.Scan.Sweep.Deletion.{Songs}

module _ (f : Bytes → Bool) where
  abbrev pub Counted : Tables → Type 0
  Counted t = IsCounted t × Songs f t

  pub update_stats-Clean : Clean (Songs f) (execute update_stats) (λ _. Counted)
  unfolding update_stats
  update_stats-Clean = Clean-execute (Songs f) Counted update_stats (λ t (sound, there). (
    record t { albums = map (with_stats t.songs) t.albums },
    refl,
    (update_stats-All t.songs t.albums, (update_stats-IsSound t sound, there)),
  ))

  -- Every album has songs and their statistics.
  abbrev Used : Tables → Type 0
  Used t = All (IsUsed t.songs) t.albums × Songs f t

  delete_orphan_albums-Clean : Clean Counted (execute delete_orphan_albums) (λ _. Used)
  unfolding delete_orphan_albums
  delete_orphan_albums-Clean =
      Clean-execute Counted Used delete_orphan_albums (λ t (counted, (sound, there)). (
        record t { albums = albums_with_songs t.songs t.albums },
        refl,
        (
          albums_with_songs-All (HasStatsOrNone t.songs) (IsUsed t.songs) t.songs t.albums
              (λ a some_songs stats. (some_songs, stats some_songs)) counted,
          (albums_with_songs-IsSound t sound, there),
        ),
      ))

  abbrev pub Tidied : Tables → Type 0
  Tidied t = NoOrphans t × Songs f t

  delete_orphan_artists-Clean : Clean Used (execute delete_orphan_artists) (λ _. Tidied)
  delete_orphan_artists-Clean =
      Clean-execute Used Tidied delete_orphan_artists (λ t (used, (sound, there)).
        let (done, sound') = delete_orphan_artists-IsSound t sound in
        (
          record t { artists = artists_with_albums t.albums t.artists },
          done,
          ((used, artists_with_albums-All t.albums t.artists), (sound', there)),
        ))

  pub delete_orphans-Clean : Clean Counted delete_orphans (λ _. Tidied)
  unfolding delete_orphans
  delete_orphans-Clean =
      Clean-then Counted Used (λ _. Tidied) (execute delete_orphan_albums)
        (execute delete_orphan_artists) delete_orphan_albums-Clean delete_orphan_artists-Clean
