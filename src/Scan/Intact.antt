-- ===== src/Scan/Intact.antt =====
-- Scanner.Run of internal/scanner/scanner.go whatever statement the engine fails.
use preamp.Base.{ℕ, Bool, List, All}
use preamp.Db.Always.{Always-query, Always-bind, Always-Keeps, Keeps-Always}
use preamp.Db.Keeps.{Keeps-bind}
use preamp.Db.{Tables, Run, Db, query, ◌>>=◌, ◌>>◌}
use preamp.Base.Text.{Bytes}
use preamp.Scan.{run, sweep, finish}
use preamp.Scan.Integrity.{IsSound}
use preamp.Scan.Sweep.{gone_paths}
use preamp.Scan.Sweep.Faults.{sweep-Keeps, finish-Keeps}
use preamp.Scan.Track.{TrackInfo}
use preamp.Scan.Walk.{KnownFile, Visit, Walked, nothing_walked, known_files, walk}
use preamp.Scan.Writer.{write_results}
use preamp.Scan.Writer.Cache.{NoNul}
use preamp.Scan.Writer.Faults.{Intact, write_results-Always}
use preamp.Scan.Writer.Rows.{Differ, Free}

-- A scan keeps the references between the tables intact, whatever it finds and receives, and whatever
-- statement, BEGIN or COMMIT the engine fails: the references are intact at its start, the ids that it
-- draws are new, and no artist's name that it reads has a NUL byte.
pub run-IsSound :
    (new_id : ℕ → Bytes) (differ : Differ new_id) (exists : Bytes → Bool) (visits : List Visit)
    (results : List TrackInfo) (s : Run)
    → IsSound s.tables
    → Free new_id differ 0 s.tables
    → All (λ (i : TrackInfo). NoNul i.artist) results
    → IsSound ((run new_id exists visits results s).0).tables
unfolding run
run-IsSound new_id differ exists visits results s sound free ok =
    let start : Tables → Type 0 = Intact new_id differ 0 in
    let after : List (Bytes × KnownFile) → Db (Unit {0}) = λ known.
      let w : Walked = walk known visits nothing_walked in
      write_results new_id results 0 >>= λ n.
      sweep (gone_paths w.seen_paths known) >> finish exists w.folder_art in
    Always-Keeps start IsSound (run new_id exists visits results)
      (Always-bind start IsSound (λ _. start) (λ _. IsSound) (query (λ t. tt))
        (λ _. query (λ t. known_files t.songs) >>= after)
        (Always-query start IsSound (λ t. tt) (λ t h. h.0))
        (λ _.
          Always-bind start IsSound (λ _. start) (λ _. IsSound) (query (λ t. known_files t.songs))
            after (Always-query start IsSound (λ t. known_files t.songs) (λ t h. h.0))
            (λ known.
              let w : Walked = walk known visits nothing_walked in
              Always-bind start IsSound (Intact new_id differ) (λ _. IsSound)
                (write_results new_id results 0)
                (λ n. sweep (gone_paths w.seen_paths known) >> finish exists w.folder_art)
                (write_results-Always new_id differ results ok)
                (λ n r h.
                  Keeps-Always IsSound
                    (sweep (gone_paths w.seen_paths known) >> finish exists w.folder_art)
                    (Keeps-bind IsSound (sweep (gone_paths w.seen_paths known))
                      (λ _. finish exists w.folder_art)
                      (sweep-Keeps (gone_paths w.seen_paths known))
                      (λ _. finish-Keeps exists w.folder_art))
                    r h.0))))
      s (sound, free)
