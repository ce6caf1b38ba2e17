-- ===== src/Scan/Correct.antt =====
-- Scanner.Run of internal/scanner/scanner.go where the engine fails no statement: the walk, the pipeline,
-- the writer and what follows it, together.
pub mod Paths
use preamp.Base.{
  Bool, List, ℕ, ◌&&◌, some, All, refl, not, ◌≡◌, ◌∙◌, if◌then◌else◌, ◌||◌, arith, ◌∷◌, [],
}
use mathlib.Core.List.{Perm}
use preamp.Db.{Tables, Db, execute, pure, query, ◌>>=◌, ◌>>◌}
use preamp.Db.Clean.{
  Clean, Clean-bind, Clean-pure, Clean-then, Clean-query, Clean-execute, Clean-weaken, unfailing,
}
use preamp.Base.Text.{Bytes, one_of}
use preamp.Scan.{run, sweep, finish}
use preamp.Scan.Integrity.{IsSound}
use preamp.Scan.Statements.{has_path, update_stats}
use preamp.Scan.Sweep.{
  delete_songs, gone_paths, ignoring, resolve_album_art, delete_orphans, rebuild_fts,
}
use preamp.Scan.Sweep.Deletion.{Songs, delete_songs-Clean}
use preamp.Scan.Sweep.Art.{resolve_album_art-Clean, ignoring-Clean}
use preamp.Scan.Sweep.Kept.{NoOrphans}
use preamp.Scan.Sweep.Orphans.{Counted, Tidied, update_stats-Clean, delete_orphans-Clean}
use preamp.Scan.Sweep.Index.{IsIndexed, Indexed, rebuild_fts-Clean}
use preamp.Scan.Correct.Paths.{gone_paths-one_of, in_results-Perm, in_results-Seen, jobs_seen}
use preamp.Scan.Pipeline.{Pipeline, Steps, start, IsDone, reads}
use preamp.Scan.Pipeline.Complete.{pipeline_received}
use preamp.Scan.Track.{TrackInfo, Files, read_track}
use preamp.Scan.Walk.{KnownFile, Visit, Walked, nothing_walked, known_files, walk}
use preamp.Scan.Writer.{write_results}
use preamp.Scan.Writer.Cache.{NoNul}
use preamp.Scan.Writer.Results.{write_results-Clean}
use preamp.Scan.Writer.Rows.{Differ, Free, Holds}
use preamp.Scan.Writer.Total.{in_results}

sweep-Clean :
    (f : Bytes → Bool) (paths : List Bytes)
    → Clean (Songs f) (sweep paths) (λ _. Songs (λ p. f p && not (one_of p paths)))
unfolding sweep one_of
sweep-Clean f [] =
    Clean-pure (Songs f) (λ _. Songs (λ p. f p && not (one_of p []))) tt
      (λ t h. (h.0, λ p. h.1 p ∙ ground arith))
sweep-Clean f (p ∷ ps) = delete_songs-Clean f (p ∷ ps)

finish-Clean :
    (f : Bytes → Bool) (exists : Bytes → Bool) (folder_art : List (Bytes × Bytes))
    → Clean (Songs f) (finish exists folder_art) (λ _. Indexed f)
unfolding finish
finish-Clean f exists folder_art =
    let art = resolve_album_art exists folder_art in
    Clean-then (Songs f) (Indexed f) (λ _. Indexed f)
      (ignoring art >> execute update_stats >> delete_orphans >> rebuild_fts) (execute some)
      (Clean-then (Songs f) (Tidied f) (λ _. Indexed f)
        (ignoring art >> execute update_stats >> delete_orphans) rebuild_fts
        (Clean-then (Songs f) (Counted f) (λ _. Tidied f) (ignoring art >> execute update_stats)
          delete_orphans
          (Clean-then (Songs f) (Songs f) (λ _. Counted f) (ignoring art) (execute update_stats)
            (ignoring-Clean (Songs f) (Songs f) art (resolve_album_art-Clean f exists folder_art))
            (update_stats-Clean f))
          (delete_orphans-Clean f))
        (rebuild_fts-Clean f))
      (Clean-execute (Indexed f) (Indexed f) some (λ t h. (t, refl, h)))

-- What holds of the tables behind a scan.
abbrev pub IsLibrary : Tables → Type 0
IsLibrary t = IsSound t × NoOrphans t × IsIndexed t

abbrev pub walked : List Visit → Tables → Walked
walked visits t = walk (known_files t.songs) visits nothing_walked

module _ (new_id : ℕ → Bytes) (differ : Differ new_id) (exists : Bytes → Bool)
    (visits : List Visit) where
  run_lem :
      (results : List TrackInfo) (t : Tables)
      → Free new_id differ 0 t
      → IsSound t
      → All (λ (i : TrackInfo). NoNul i.artist) results
      → (u : Tables) × (run new_id exists visits results (unfailing t) ≡ (unfailing u, some tt))
        × IsLibrary u
        × ((p : Bytes)
            → has_path p u.songs ≡ (
                if has_path p t.songs
                then one_of p (walked visits t).seen_paths
                else in_results p results))
  unfolding run query write_results
  run_lem results t free sound ok =
      let known : List (Bytes × KnownFile) = known_files t.songs in
      let w : Walked = walked visits t in
      let gone : List Bytes = gone_paths w.seen_paths known in
      let f : Bytes → Bool = λ p. in_results p results || has_path p t.songs in
      let g : Bytes → Bool = λ p. f p && not (one_of p gone) in
      let H : Tables → Type 0 = Holds new_id differ (λ p. has_path p t.songs) 0 in
      let work : Db (Unit {0}) =
        write_results new_id results 0 >>= λ n. sweep gone >> finish exists w.folder_art in
      let work_Clean : Clean H work (λ _. Indexed g) =
        Clean-bind H (λ _. Songs f) (λ _. Indexed g) (write_results new_id results 0)
          (λ n. sweep gone >> finish exists w.folder_art)
          (Clean-weaken H _ (λ _. Songs f) (write_results new_id results 0) (λ n v h. (h.0, h.2))
            (write_results-Clean new_id differ (λ p. has_path p t.songs) results 0 ok))
          (λ n.
            Clean-then (Songs f) (Songs g) (λ _. Indexed g) (sweep gone)
              (finish exists w.folder_art) (sweep-Clean f gone)
              (finish-Clean g exists w.folder_art)) in
      let (u, a, e, (indexed, (tidy, (good, there)))) = work_Clean t (sound, free, λ p. refl) in
      (
        u,
        e,
        (good, tidy, indexed),
        λ p. there p ∙ ground (arith, gone_paths-one_of p w.seen_paths t.songs),
      )

  -- Behind any interleaving of the pipeline that is done: from sound tables and with ids that are new, a
  -- scan in which the engine fails no statement, and reads no artist's name with a NUL byte, succeeds and leaves
  -- tables that are sound, have no orphans and a complete index; and the paths of the songs are those that
  -- the walk saw and that were known before or can be read now.
  pub scan_lem :
      (files : Files) (t : Tables) (n : ℕ) (p : Pipeline)
      → Free new_id differ 0 t
      → IsSound t
      → Steps (read_track files) (start (walked visits t).jobs) n p
      → IsDone p
      → All (λ (i : TrackInfo). NoNul i.artist) p.received
      → (u : Tables) × (run new_id exists visits p.received (unfailing t) ≡ (unfailing u, some tt))
        × IsLibrary u
        × ((q : Bytes)
            → has_path q u.songs ≡ (
                one_of q (walked visits t).seen_paths
                && (has_path q t.songs
                    || in_results q (reads (read_track files) (walked visits t).jobs))))
  scan_lem files t n p free sound steps done ok =
      let w : Walked = walked visits t in
      let (u, e, good, there) = run_lem p.received t free sound ok in
      (
        u,
        e,
        good,
        λ q.
            let order =
              in_results-Perm q (pipeline_received (read_track files) w.jobs n p steps done) in
            there q
            ∙ ground (
              arith,
              order,
              in_results-Seen q files w.seen_paths w.jobs
                  (jobs_seen (known_files t.songs) visits nothing_walked tt),
            ),
      )
